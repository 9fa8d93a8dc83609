-- ===== src/Kube/Webhook.antt =====
-- Which admission requests reach the collector: matchesWebhookRule, buildAdmissionEvent and the helpers
-- of Webhook.go. The decoder of raw objects (`decode`, which reads the metadata of an
-- object, or fails) is a parameter.
use l8collector.Prelude.{
  String, ◌==◌, string_eq, if◌then◌else◌, Bool, true, false, ◌&&◌, List, [], ◌∷◌, ◌++◌, Option,
  none, some,
}
use l8collector.Kube.Gvr.{Gvr}
use l8collector.Kube.Value.{Fields}

pub record WebhookRule : Type 0 where
  pub api_groups : List String
  pub api_versions : List String
  pub resources : List String
  pub operations : List String

-- what is read of an admission request
pub record Request {ℓ} (Raw : Type ℓ) : Type ℓ where
  pub uid : String
  pub resource : Gvr
  pub sub_resource : String
  pub namespace : String
  pub name : String
  pub operation : String
  pub body : Raw
  pub old_body : Raw

pub record Decoded : Type 0 where
  pub namespace : String
  pub name : String
  pub uid : String
  pub resource_version : String
  pub content : Fields

pub record AdmissionEvent : Type 0 where
  pub uid : String
  pub group : String
  pub version : String
  pub resource : String
  pub sub_resource : String
  pub namespace : String
  pub name : String
  pub operation : String
  pub body : Option Decoded
  pub old_body : Option Decoded

unfoldable pub contains_string : List String → String → Bool
contains_string [] value = false
contains_string (x ∷ xs) value = if x == value then true else contains_string xs value

unfoldable pub add_unique_string : List String → String → List String
unfolding contains_string
add_unique_string items value = if contains_string items value then items else items ++ value ∷ []

-- the tests of one rule
unfoldable pub rule_fits : WebhookRule → Gvr → String → Bool
unfolding contains_string
rule_fits rule r op =
    contains_string rule.api_groups r.group
    && contains_string rule.api_versions r.version
    && contains_string rule.resources r.resource
    && contains_string rule.operations op

-- for a request that is not nil
unfoldable pub matches_webhook_rule : List WebhookRule → Gvr → String → Bool
unfolding rule_fits
matches_webhook_rule [] r op = false
matches_webhook_rule (rule ∷ rules) r op =
    if rule_fits rule r op then true else matches_webhook_rule rules r op

-- `given`, or where that is empty what the object says
abbrev pub or_said : String → Option String → String
or_said given none = given
or_said given (some said) = if given == "" then said else given

abbrev said_namespace : Option Decoded → Option String
said_namespace none = none
said_namespace (some d) = some d.namespace

abbrev said_name : Option Decoded → Option String
said_name none = none
said_name (some d) = some d.name

unfoldable pub build_admission_event {ℓ} :
    {Raw : Type ℓ} → (Raw → Option Decoded) → Request Raw → AdmissionEvent
build_admission_event decode q = record {
  uid = q.uid;
  group = q.resource.group;
  version = q.resource.version;
  resource = q.resource.resource;
  sub_resource = q.sub_resource;
  namespace = or_said q.namespace (said_namespace (decode q.body));
  name = or_said q.name (said_name (decode q.body));
  operation = q.operation;
  body = decode q.body;
  old_body = decode q.old_body;
}
