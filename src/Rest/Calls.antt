-- ===== src/Rest/Calls.antt =====
-- The calls of RestCollector.go over a session: the login, the check of the session, Connect and
-- Disconnect.
use Prim.Native.String.{◌++◌ as str_append}
use l8collector.Prelude.{
  Bool, true, false, not, ◌&&◌, Option, none, some, String, ◌==◌, string_eq, nat_eq, if◌then◌else◌,
  Outcome, ok, panic, ◌⊎◌, inl, inr, [], ◌∷◌,
}
use l8collector.Prelude.Dict.{Dict, get}
use l8collector.Text.Parts.{replace_all, has_prefix}
use l8collector.Kube.Value.{Value, truth}
use l8collector.Rest.{
  AuthInfo, Request, Response, Web, Session, RestCollector, scheme_of, with_token, refresh_csrf,
}

-- whether the answer of a login is a JSON object whose field, where one is configured, is not false
abbrev pub field_error : String → String ⊎ Dict String Value → Option String
field_error name (inl e) = some (str_append "session login parse failed: " e)
field_error name (inr fields) = elim (get name fields) [
  | none ↦ some "session login auth response check failed"
  | some (truth false) ↦ some "session login auth response check failed"
  | some v ↦ none
]

-- Disconnect
abbrev pub disconnect : {W : Type 0} → RestCollector W → RestCollector W
disconnect c = none

module _ {W : Type 0} (web : Web W) where
  -- the visit of the session page, and the token that it has
  abbrev pub visited : Session W → (String ⊎ Response) × W → Option String × Session W
  visited s (inl e, w) =
      (some (str_append "session page fetch failed: " e), record s { client = w })
  visited s (inr page, w) = (none, with_token web page.body (record s { client = w }))

  unfoldable pub visit_page : Session W → Option String × Session W
  visit_page s =
      if s.ainfo.session_page == ""
      then (none, s)
      else visited s (web.get_page (str_append (scheme_of s.addr) s.ainfo.session_page) s.client)

  -- the token of another page than the session page
  abbrev pub other_source : Option String × Session W → Option String × Session W
  other_source (some e, s) = (some e, s)
  other_source (none, s) =
      if not (s.ainfo.csrf_source == "") && not (s.ainfo.csrf_source == s.ainfo.session_page)
      then (none, refresh_csrf web s)
      else (none, s)

  unfoldable pub login_error : AuthInfo → Response → Option String
  unfolding get
  login_error info r = elim r.read_error [
    | some e ↦ some (str_append "session login read failed: " e)
    | none ↦
        if not (r.status == 200)
        then some (str_append "session login returned status " r.status_text)
        else if info.auth_resp == ""
        then none
        else field_error info.auth_resp (web.parse_json r.body)
  ]

  abbrev pub logged_in : Session W → (String ⊎ Response) × W → Option String × Session W
  logged_in s (inl e, w) =
      (some (str_append "session login request failed: " e), record s { client = w })
  logged_in s (inr r, w) = elim (login_error s.ainfo r) [
    | some e ↦ (some e, record s { client = w })
    | none ↦ other_source (visit_page (record s { client = w }))
  ]

  unfoldable pub login_request : Session W → Request
  login_request s =
      let base = scheme_of s.addr in
      let named = replace_all s.ainfo.auth_body "{{user}}" s.ainfo.api_user in
      record {
        method = "POST";
        url = str_append base s.ainfo.auth_path;
        headers =
            ("Content-Type", "application/json")
            ∷ ("Origin", base)
            ∷ ("Referer", str_append base "/")
            ∷ [];
        body = some (replace_all named "{{pass}}" s.ainfo.api_key);
      }

  -- sessionLogin: an error, or none
  unfoldable pub session_login : Session W → Option String × Session W
  unfolding login_request visit_page login_error refresh_csrf
  session_login s = elim (web.bad_request "POST" (login_request s).url) [
    | some e ↦ (some (str_append "session login request build failed: " e), s)
    | none ↦ logged_in s (web.send (login_request s) s.client)
  ]

  -- whether the answer to the check came from elsewhere than the session page
  unfoldable pub is_expired : AuthInfo → Response → Bool
  is_expired info r = elim r.path [
    | none ↦ false
    | some path ↦ not (info.session_page == "") && not (has_prefix info.session_page path)
  ]

  abbrev pub checked : Session W → (String ⊎ Response) × W → Option String × Session W
  checked s (inl e, w) = session_login (record s { client = w })
  checked s (inr r, w) =
      if is_expired s.ainfo r
      then session_login (record s { client = w })
      else (none, record s { client = w })

  -- EnsureSession
  unfoldable pub ensure_session : Session W → Option String × Session W
  unfolding session_login is_expired
  ensure_session s =
      let base = scheme_of s.addr in
      let page =
        if s.ainfo.session_page == ""
        then str_append base "/"
        else str_append base s.ainfo.session_page in
      if s.ainfo.session_auth then checked s (web.get_page page s.client) else (none, s)

  abbrev pub login_result : Option String × Session W → Option String × Session W
  login_result (some e, s) = (some e, s)
  login_result (none, s) = (none, record s { connected = true })

  -- Connect
  unfoldable pub connect : RestCollector W → Outcome (Option String × RestCollector W)
  unfolding session_login
  connect none = panic
  connect (some s) =
      let r =
        if s.ainfo.session_auth
        then login_result (session_login s)
        else (none, record s { connected = true }) in
      ok (r.0, some r.1)
