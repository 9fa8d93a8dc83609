-- ===== src/Rest/Examples.antt =====
-- Tests and witnesses of the REST collector, with a network that counts the requests.
use l8collector.Prelude.{
  ℕ, suc, ◌≡◌, refl, true, false, none, some, String, ok, panic, ◌⊎◌, inr, List, [], ◌∷◌, nat_eq,
  string_eq, ◌==◌, if◌then◌else◌,
}
use l8collector.Types.{CJob, empty_job}
use l8collector.Text.Sorting.{strip_prefix}
use l8collector.Kube.Value.{truth}
use l8collector.Rest.{AuthInfo, RestHost, Response, Web, Session, init}
use l8collector.Rest.Calls.{disconnect, ensure_session}
use l8collector.Rest.Jobs.{What, parse_what, is_method, exec}
use l8collector.Rest.Requests.{parse_what-write_what}
use l8collector.Rest.Outcomes.{IsFailed, IsAnswered, exec_outcome}

abbrev search : What
search = record {
  method = "POST";
  endpoint = "/api/$symbol/state";
  body = "{\"limit\": 5}";
  content_type = "text/json";
}

search_written : is_method "POST" ≡ true
unfolding is_method
search_written = refl

parse_what-write_what_example :
    (parse_what "POST::/api/$symbol/state::{\"limit\": 5}::text/json" ≡ inr search)
    × (parse_what "POST::/api/$symbol/state::{\"limit\": 5}"
        ≡ inr (record search { content_type = "application/json" }))
parse_what-write_what_example =
    parse_what-write_what search (refl, refl, refl, refl) search_written refl

abbrev info : AuthInfo
info = record {
  session_auth = true;
  auth_body = "{{user}}/{{pass}}";
  api_user = "ann";
  api_key = "k1";
  auth_path = "/login";
  auth_resp = "success";
  session_page = "/home";
  csrf_source = "";
  csrf_pattern = "token=(.*)";
  preset_cookies = [];
}

abbrev host : RestHost
host = record { addr = "10.0.0.1"; port = 443; http_prefix = ""; ainfo = some info }

abbrev page : String → String → Response
page body path = record {
  status = 200;
  status_text = "200 OK";
  body = body;
  read_error = none;
  path = some path;
}

-- the session page sends to the login page until there was a request
abbrev web : Web ℕ
web = record {
  new_client = λ jar. 0;
  bad_request = λ m u. none;
  send = λ q n. (inr (page q.url "/"), suc n);
  get_page = λ u n. if n == 0 then (inr (page "" "/login"), 1) else (inr (page u "/home"), suc n);
  compiles = λ p. true;
  submatch = λ p text. some "t7";
  parse_json = λ text. inr (("success", truth true) ∷ []);
}

abbrev session : Session ℕ
session = record {
  addr = "10.0.0.1";
  ainfo = info;
  base_url = "https://10.0.0.1:443";
  client = 0;
  connected = false;
  csrf_token = "";
  csrf_regex = some "token=(.*)";
}

init_test : init web host none ≡ ok (none, some session)
unfolding init
init_test = refl

-- an expired session is opened again, with a new token
ensure_session_test :
    ensure_session web session ≡ (none, record session { client = 3; csrf_token = "t7" })
unfolding ensure_session strip_prefix
ensure_session_test = refl

abbrev wrap : String → List ℕ
wrap text = if text == "" then [] else 1 ∷ []

abbrev job : CJob
job = record empty_job { target_id = "dev1"; error_count = 2 }

exec_outcome_example :
    ((done : CJob) × (t : Session ℕ) × (exec web wrap (inr "GET::/$symbol::") job (some session)
        ≡ ok (done, some t))
      × (IsFailed job done ⊎ IsAnswered web wrap (inr "GET::/$symbol::") job session done))
    × (exec web wrap (inr "GET::/$symbol::") job (disconnect (some session)) ≡ panic)
exec_outcome_example = exec_outcome web wrap (inr "GET::/$symbol::") job session
