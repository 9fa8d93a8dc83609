-- ===== src/Graph.antt =====
-- go/collector/protocols/graphql/GraphSqlCollector.go. The GraphQL client of l8web, with the endpoint behind
-- it, is a parameter with a state `W`.
mod Authentication
mod Examples
use l8collector.Prelude.{
  ℕ, suc, Bool, true, false, Option, none, some, String, List, ◌⊎◌, inl, inr, Outcome, ok, panic,
  ◌>>=◌, if◌then◌else◌,
}
use l8collector.Types.{CJob}

-- GraphQLAuthInfo, and the AuthInfo of a host protocol, field by field
pub record GraphAuth : Type 0 where
  pub need_auth : Bool
  pub body_type : String
  pub user_field : String
  pub pass_field : String
  pub resp_type : String
  pub token_field : String
  pub auth_path : String
  pub api_key : String
  pub api_user : String
  pub is_api_key : Bool

pub record GraphHost : Type 0 where
  pub addr : String
  pub port : ℕ
  pub cert : String
  pub http_prefix : String
  pub ainfo : Option GraphAuth

pub record ClientConfig : Type 0 where
  pub host : String
  pub port : ℕ
  pub https : Bool
  pub token_required : Bool
  pub cert_file_name : String
  pub prefix : String
  pub auth_info : GraphAuth

-- `credential` is the user and the password, or `none` for an error; a query has a text and the name of
-- its response type.
pub record Library (W R : Type 0) : Type 0 where
  pub credential : Option (String × String)
  pub new_client : ClientConfig → String ⊎ W
  pub auth : String → String → W → Option String × W
  pub query : String → String → W → (String ⊎ R) × W
  pub marshal : R → Option (List ℕ)

-- The collector: the client, with the host and the resources, is nil before Init and after Disconnect.
pub record GraphQlCollector (W : Type 0) : Type 0 where
  pub client : Option W
  pub connected : Bool

abbrev pub config_of : GraphHost → GraphAuth → ClientConfig
config_of h a = record {
  host = h.addr;
  port = h.port;
  https = true;
  token_required = false;
  cert_file_name = h.cert;
  prefix = h.http_prefix;
  auth_info = a;
}

abbrev pub failed : String → CJob → CJob
failed e job = record job { error_count = suc job.error_count; error = e }

-- a poll: what it asks, and the name of the type of its response
abbrev pub GraphPoll : Type 0
GraphPoll = String × String

module _ {W R : Type 0} (lib : Library W R) where
  abbrev pub created : GraphQlCollector W → String ⊎ W → Option String × GraphQlCollector W
  created c (inl e) = (some e, c)
  created c (inr w) = (none, record c { client = some w })

  -- Init: an error, or none
  unfoldable pub init :
      GraphHost → GraphQlCollector W → Outcome (Option String × GraphQlCollector W)
  init h c = elim h.ainfo [
    | none ↦ panic
    | some a ↦ ok (created c (lib.new_client (config_of h a)))
  ]

  -- Connect, with the client: a missing credential panics
  unfoldable pub connect : W → Outcome (Option String × W)
  connect w = elim lib.credential [ none ↦ panic | some p ↦ ok (lib.auth p.0 p.1 w) ]

  abbrev pub answered : CJob → (String ⊎ R) × W → CJob × W
  answered job (inl e, w) = (failed e job, w)
  answered job (inr r, w) = (record job { error_count = 0; result = lib.marshal r }, w)

  -- Exec, after a connection
  abbrev pub exec_connected : String ⊎ GraphPoll → CJob → Option String × W → CJob × W
  exec_connected poll job (some e, w) = (failed e job, w)
  exec_connected (inl e) job (none, w) = (failed e job, w)
  exec_connected (inr p) job (none, w) = answered job (lib.query p.0 p.1 w)

  -- Exec, for the poll or the error of its lookup
  unfoldable pub exec :
      String ⊎ GraphPoll → CJob → GraphQlCollector W → Outcome (CJob × GraphQlCollector W)
  unfolding connect
  exec poll job c = elim c.client [
    | none ↦ panic
    | some w ↦ (if c.connected then ok (none, w) else connect w) >>= λ r.
        let done = exec_connected poll job r in ok (done.0, record c { client = some done.1 })
  ]

-- Disconnect
unfoldable pub disconnect : {W : Type 0} → GraphQlCollector W → GraphQlCollector W
disconnect c = record { client = none; connected = false }
