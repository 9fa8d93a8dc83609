-- ===== src/Rest/Jobs.antt =====
-- parseWhat and Exec of RestCollector.go.
use Prim.Native.String.{◌++◌ as str_append}
use l8collector.Prelude.{
  ℕ, suc, Bool, true, ◌||◌, Option, none, some, String, ◌==◌, string_eq, nat_eq, if◌then◌else◌,
  Outcome, ok, panic, ◌⊎◌, inl, inr, List, [], ◌∷◌, ◌++◌, ltb, leb,
}
use l8collector.Prelude.Dict.{Dict}
use l8collector.Types.{CJob}
use l8collector.Text.Numbers.{decimal}
use l8collector.Text.Parts.{replace_all, split_colons}
use l8collector.Rest.{AuthInfo, Request, Response, Web, Session, RestCollector, scheme_of}
use l8collector.Rest.Calls.{ensure_session}

-- the content type, where there is a fourth part
abbrev pub content_of : String → String
content_of given = if given == "" then "application/json" else given

unfoldable pub is_method : String → Bool
is_method m = m == "GET" || m == "POST" || m == "PUT" || m == "PATCH" || m == "DELETE"

abbrev pub method_error : String → String
method_error m = str_append "invalid What method: " m

-- What of a poll: method, endpoint, body and content type
pub record What : Type 0 where
  pub method : String
  pub endpoint : String
  pub body : String
  pub content_type : String

abbrev pub what_of : List String → String ⊎ What
what_of (m ∷ e ∷ b ∷ []) =
    if is_method m
    then inr (record { method = m; endpoint = e; body = b; content_type = "application/json" })
    else inl (method_error m)
what_of (m ∷ e ∷ b ∷ c ∷ rest) =
    if is_method m
    then inr (record { method = m; endpoint = e; body = b; content_type = content_of c })
    else inl (method_error m)
what_of _ = inl "invalid What format"

-- parseWhat
unfoldable pub parse_what : String → String ⊎ What
unfolding is_method
parse_what text = what_of (split_colons text)

abbrev pub failed : String → CJob → CJob
failed e job = record job { error_count = suc job.error_count; error = e }

-- the headers that every request has, and those of the token and the session
abbrev pub fixed_headers : What → Dict String String
fixed_headers what =
    ("Content-Type", what.content_type)
    ∷ ("Accept", "application/json")
    ∷ ("User-Agent", "Mozilla/5.0 (X11; Linux x86_64) AppleWebKit/537.36")
    ∷ []

abbrev pub token_headers : String → Dict String String
token_headers token = if token == "" then [] else ("X-CSRF-Token", token) ∷ []

abbrev pub session_headers : AuthInfo → String → Dict String String
session_headers info addr =
    if info.session_auth
    then ("X-Requested-With", "XMLHttpRequest") ∷ ("Origin", scheme_of addr) ∷ []
    else []

-- the endpoint for the target of the job
unfoldable pub endpoint_for : What → String → String
endpoint_for what target =
    if target == "" then what.endpoint else replace_all what.endpoint "$symbol" target

-- the job after an answer; `wrap` encodes the map with the answer at "json"
abbrev pub answered : (String → List ℕ) → CJob → String ⊎ Response → CJob
answered wrap job (inl e) = failed e job
answered wrap job (inr r) = elim r.read_error [
  | some e ↦ failed e job
  | none ↦
      if ltb r.status 200 || leb 300 r.status
      then failed (str_append "HTTP " (str_append (decimal r.status) (str_append ": " r.body))) job
      else record job { error_count = 0; result = some (wrap r.body) }
]

module _ {W : Type 0} where
  unfoldable pub request_of : Session W → What → CJob → Request
  unfolding endpoint_for
  request_of s what job = record {
    method = what.method;
    url = str_append s.base_url (endpoint_for what job.target_id);
    headers = fixed_headers what ++ (token_headers s.csrf_token ++ session_headers s.ainfo s.addr);
    body = if what.body == "" then none else some what.body;
  }

  module _ (web : Web W) (wrap : String → List ℕ) where
    -- Exec, from the request on
    unfoldable pub exec_request : What → CJob → Session W → CJob × Session W
    unfolding request_of decimal
    exec_request what job s =
        let request = request_of s what job in
        elim (web.bad_request request.method request.url) [
          | some e ↦ (failed e job, s)
          | none ↦
              let answer = web.send request s.client in
              (answered wrap job answer.0, record s { client = answer.1 })
        ]

    abbrev pub exec_what : CJob → String ⊎ What → Session W → CJob × Session W
    exec_what job (inl e) s = (failed e job, s)
    exec_what job (inr what) s = exec_request what job s

    -- Exec, after the session is ensured
    abbrev pub exec_ensured : String ⊎ String → CJob → Option String × Session W → CJob × Session W
    exec_ensured poll job (some e, s) = (failed (str_append "session keepalive failed: " e) job, s)
    exec_ensured (inl e) job (none, s) = (failed e job, record s { connected = true })
    exec_ensured (inr text) job (none, s) =
        exec_what job (parse_what text) (record s { connected = true })

    -- Exec, for the What of the poll or the error of its lookup
    unfoldable pub exec :
        String ⊎ String → CJob → RestCollector W → Outcome (CJob × RestCollector W)
    unfolding ensure_session parse_what exec_request
    exec poll job none = panic
    exec poll job (some s) =
        let before = if s.ainfo.session_auth then ensure_session web s else (none, s) in
        let done = exec_ensured poll job before in ok (done.0, some done.1)
