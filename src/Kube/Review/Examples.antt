-- ===== src/Kube/Review/Examples.antt =====
-- Tests and witnesses of the admission webhook.
use l8collector.Prelude.{
  ◌≡◌, ◌↔◌, ◌⊎◌, inr, refl, sym, ◌∙◌, subst, true, false, Option, none, some, List, [], ◌∷◌, String,
  ok, In, All, string_eq,
}
use mathlib.Core.Option.{some-injective}
use l8collector.Text.{Lacks}
use l8collector.Text.Splitting.{occurs-Lacks}
use l8collector.Kube.Gvr.{Gvr, parse_gvr}
use l8collector.Kube.Spec.{CacheSpec}
use l8collector.Kube.Webhook.{
  WebhookRule, matches_webhook_rule, Request, Decoded, AdmissionEvent, build_admission_event,
}
use l8collector.Kube.Admission.{BootPoll}
use l8collector.Kube.Rules.{webhook_rules_from_pollaris_models, poll_gvr}
use l8collector.Kube.Rules.Collected.{IsPlain, SomeAsks, IsInvalid}
use l8collector.Kube.Rules.Asking.{webhook_rules_iff}
use l8collector.Kube.Review.{Response, reviewed, admission_handler}
use l8collector.Kube.Review.Observing.{admission_handler_iff}

abbrev spec_of : String → List String → CacheSpec
spec_of gvr operations = record {
  result = "table";
  mode = "list";
  gvr = gvr;
  operations = operations;
  namespace = "";
  namespace_from_arg = "";
  name = "";
  name_from_arg = "";
  selector = "";
  selector_from_arg = "";
  fields = [];
  columns = [];
  column_names = [];
}

abbrev poll_of : String → List String → BootPoll
poll_of gvr operations = record { kubernetes = true; spec = some (spec_of gvr operations) }

abbrev polls : List BootPoll
polls =
    poll_of "v1/pods" ("UPDATE" ∷ "CREATE" ∷ [])
    ∷ record { kubernetes = false; spec = none }
    ∷ poll_of "apps/v1/deployments" ("DELETE" ∷ [])
    ∷ poll_of "v1/pods" ("DELETE" ∷ "CREATE" ∷ [])
    ∷ []

abbrev pods : Gvr
pods = record { group = ""; version = "v1"; resource = "pods" }

abbrev deployments : Gvr
deployments = record { group = "apps"; version = "v1"; resource = "deployments" }

abbrev rules : List WebhookRule
rules =
    record {
      api_groups = "apps" ∷ [];
      api_versions = "v1" ∷ [];
      resources = "deployments" ∷ [];
      operations = "DELETE" ∷ [];
    }
    ∷ record {
      api_groups = "" ∷ [];
      api_versions = "v1" ∷ [];
      resources = "pods" ∷ [];
      operations = "CREATE" ∷ "DELETE" ∷ "UPDATE" ∷ [];
    }
    ∷ []

collected_test : webhook_rules_from_pollaris_models polls ≡ ok (some rules)
unfolding webhook_rules_from_pollaris_models parse_gvr
collected_test = refl

IsPlain-known :
    (p : BootPoll) (t : Gvr × List String)
    → poll_gvr p.spec ≡ some t
    → Lacks 124 t.0.group
    → Lacks 124 t.0.version
    → IsPlain p
IsPlain-known p t e g v u f =
    let same = some-injective _ _ (sym e ∙ f) in
    subst (λ (x : Gvr × List String). Lacks 124 x.0.group × Lacks 124 x.0.version) same (g, v)

pods_read :
    (ops : List String)
    → (poll_gvr (poll_of "v1/pods" ops).spec ≡ some (pods, ops))
      × (poll_gvr (poll_of "apps/v1/deployments" ops).spec ≡ some (deployments, ops))
unfolding parse_gvr
pods_read ops = (refl, refl)

IsPlain-pods : (ops : List String) → IsPlain (poll_of "v1/pods" ops)
IsPlain-pods ops =
    IsPlain-known (poll_of "v1/pods" ops) (pods, ops) (pods_read ops).0 (occurs-Lacks 124 "" refl)
      (occurs-Lacks 124 "v1" refl)

IsPlain-deployments : (ops : List String) → IsPlain (poll_of "apps/v1/deployments" ops)
IsPlain-deployments ops =
    IsPlain-known (poll_of "apps/v1/deployments" ops) (deployments, ops) (pods_read ops).1
      (occurs-Lacks 124 "apps" refl) (occurs-Lacks 124 "v1" refl)

polls-IsPlain : All IsPlain polls
polls-IsPlain = (IsPlain-pods _, (λ t e. cc e, (IsPlain-deployments _, (IsPlain-pods _, tt))))

webhook_rules_iff_example :
    ((webhook_rules_from_pollaris_models polls ≡ ok none)
      × ((p : BootPoll) × In p polls × IsInvalid p))
    ⊎ ((rs : List WebhookRule) × (webhook_rules_from_pollaris_models polls ≡ ok (some rs))
        × ((r : Gvr) (op : String) → (matches_webhook_rule rs r op ≡ true) ↔ SomeAsks polls r op))
webhook_rules_iff_example = webhook_rules_iff polls polls-IsPlain

abbrev deletion : Request String
deletion = record {
  uid = "u7";
  resource = deployments;
  sub_resource = "";
  namespace = "shop";
  name = "web";
  operation = "DELETE";
  body = "";
  old_body = "{}";
}

abbrev decode : String → Option Decoded
decode raw = none

admission_handler_iff_example :
    (response : Response) × (events : List AdmissionEvent) × (admission_handler decode
        (λ r. none)
        rules
        (some (λ e. some "late"))
        (inr (some deletion))
      ≡ (reviewed response, events))
    × (response.allowed ≡ true)
    × (response.uid ≡ "u7")
    × (((events ≡ build_admission_event decode deletion ∷ []) × SomeAsks polls deployments "DELETE")
        ⊎ ((events ≡ []) × (¬ SomeAsks polls deployments "DELETE")))
admission_handler_iff_example =
    admission_handler_iff decode (λ r. none) polls rules (λ e. some "late") deletion polls-IsPlain
      collected_test (λ r. refl)
