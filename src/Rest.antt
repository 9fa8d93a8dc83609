-- ===== src/Rest.antt =====
-- go/collector/protocols/rest/RestCollector.go: HTTP requests with an optional session. What stands
-- outside is a parameter: the client with its cookies and the network as a state `W`, the regular
-- expressions, and the JSON library.
mod Examples
mod Calls
mod Jobs
mod Requests
mod Frame
mod Outcomes
use Prim.Native.String.{◌++◌ as str_append}
use l8collector.Prelude.{
  ℕ, Bool, true, false, not, ◌&&◌, ◌||◌, Option, none, some, String, ◌==◌, string_eq, nat_eq,
  if◌then◌else◌, Outcome, ok, panic, ◌⊎◌, inl, inr, List, [], ◌∷◌,
}
use l8collector.Prelude.Dict.{Dict, get}
use l8collector.Text.Numbers.{decimal}
use l8collector.Text.Parts.{replace_all, has_prefix}
use l8collector.Kube.Value.{Value, truth}

-- AuthInfo of a host protocol
pub record AuthInfo : Type 0 where
  pub session_auth : Bool
  pub auth_body : String
  pub api_user : String
  pub api_key : String
  pub auth_path : String
  pub auth_resp : String
  pub session_page : String
  pub csrf_source : String
  pub csrf_pattern : String
  pub preset_cookies : Dict String String

-- L8PHostProtocol; the port is not negative
pub record RestHost : Type 0 where
  pub addr : String
  pub port : ℕ
  pub http_prefix : String
  pub ainfo : Option AuthInfo

pub record Request : Type 0 where
  pub method : String
  pub url : String
  pub headers : Dict String String
  pub body : Option String

-- `body` is what was read of the body, `path` that of the URL of the last request, after redirects
pub record Response : Type 0 where
  pub status : ℕ
  pub status_text : String
  pub body : String
  pub read_error : Option String
  pub path : Option String

-- The packages net/http, regexp and encoding/json. `new_client` is a client with a jar of cookies, or
-- without one; `bad_request` is the error of NewRequest; `submatch` is the first group of a match.
pub record Web (W : Type 0) : Type 0 where
  pub new_client : Option (Dict String String) → W
  pub bad_request : String → String → Option String
  pub send : Request → W → (String ⊎ Response) × W
  pub get_page : String → W → (String ⊎ Response) × W
  pub compiles : String → Bool
  pub submatch : String → String → Option String
  pub parse_json : String → String ⊎ Dict String Value

-- The collector between Init and Disconnect: before and after it, the client and the host are nil, and
-- the base URL is not read.
pub record Session (W : Type 0) : Type 0 where
  pub addr : String
  pub ainfo : AuthInfo
  pub base_url : String
  pub client : W
  pub connected : Bool
  pub csrf_token : String
  pub csrf_regex : Option String

abbrev pub RestCollector : Type 0 → Type 0
RestCollector W = Option (Session W)

abbrev pub was_connected : {W : Type 0} → RestCollector W → Bool
was_connected none = false
was_connected (some s) = s.connected

abbrev pub old_token : {W : Type 0} → RestCollector W → String
old_token none = ""
old_token (some s) = s.csrf_token

abbrev pub old_regex : {W : Type 0} → RestCollector W → Option String
old_regex none = none
old_regex (some s) = s.csrf_regex

-- "https://" and the address
abbrev pub scheme_of : String → String
scheme_of addr = str_append "https://" addr

abbrev pub base_url_of : RestHost → String
base_url_of h =
    str_append (scheme_of h.addr) (str_append ":" (str_append (decimal h.port) h.http_prefix))

module _ {W : Type 0} (web : Web W) where
  -- Init of a host with AuthInfo; a pattern that does not compile panics
  unfoldable pub init_session : RestHost → AuthInfo → RestCollector W → Outcome (Session W)
  unfolding decimal
  init_session h info old =
      let jar = if info.session_auth then some info.preset_cookies else none in
      let has_pattern = info.session_auth && not (info.csrf_pattern == "") in
      if has_pattern && not (web.compiles info.csrf_pattern)
      then panic
      else ok (record {
        addr = h.addr;
        ainfo = info;
        base_url = base_url_of h;
        client = web.new_client jar;
        connected = was_connected old;
        csrf_token = old_token old;
        csrf_regex = if has_pattern then some info.csrf_pattern else old_regex old;
      })

  -- Init: an error, or none
  unfoldable pub init : RestHost → RestCollector W → Outcome (Option String × RestCollector W)
  unfolding init_session
  init h old = elim h.ainfo [
    | none ↦ ok (some "host rest auth info connection info is nil", old)
    | some info ↦ elim (init_session h info old) [ panic ↦ panic | ok s ↦ ok (none, some s) ]
  ]

  -- the token that the pattern finds in a page
  abbrev pub with_token : String → Session W → Session W
  with_token page s = elim s.csrf_regex [
    | none ↦ s
    | some p ↦ elim (web.submatch p page) [
      | none ↦ s
      | some token ↦ record s { csrf_token = token }
    ]
  ]

  abbrev pub refreshed : Session W → (String ⊎ Response) × W → Session W
  refreshed s (inl e, w) = record s { client = w }
  refreshed s (inr page, w) = with_token page.body (record s { client = w })

  unfoldable pub refresh_csrf : Session W → Session W
  refresh_csrf s = elim s.csrf_regex [
    | none ↦ s
    | some p ↦
        if s.ainfo.csrf_source == ""
        then s
        else refreshed s (web.get_page (str_append (scheme_of s.addr) s.ainfo.csrf_source) s.client)
  ]
