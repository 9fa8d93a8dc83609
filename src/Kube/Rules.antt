-- ===== src/Kube/Rules.antt =====
-- The rules of the admission webhook, collected from the polls: WebhookRulesFromPollarisModels of
-- collector/protocols/k8sclient/Webhook.go, and rulesToOperations of WebhookConfig.go.
mod Aggregating
pub mod Collected
mod Listing
pub mod Asking
use Prim.Native.String.{◌++◌ as str_append}
use l8collector.Prelude.{
  true, false, Option, none, some, List, [], ◌∷◌, String, string_eq, Outcome, ok, panic, ◌>>=◌, map,
}
use l8collector.Prelude.Dict.{Dict, get, put}
use l8collector.Text.Sorting.{sort_texts}
use l8collector.Kube.Gvr.{Gvr, parse_gvr}
use l8collector.Kube.Spec.{CacheSpec}
use l8collector.Kube.Webhook.{WebhookRule, add_unique_string}
use l8collector.Kube.Admission.{BootPoll}

-- the key of a resource type in the map of rules
unfoldable pub rule_key : Gvr → String
rule_key g = str_append g.group (str_append "|" (str_append g.version (str_append "|" g.resource)))

abbrev pub rule_of : Gvr → List String → WebhookRule
rule_of g operations = record {
  api_groups = g.group ∷ [];
  api_versions = g.version ∷ [];
  resources = g.resource ∷ [];
  operations = operations;
}

-- the rule of a type so far, or a new one
abbrev pub rule_for : Gvr → Option WebhookRule → WebhookRule
rule_for g none = rule_of g []
rule_for g (some rule) = rule

unfoldable pub add_operations : List String → List String → List String
unfolding add_unique_string
add_operations [] items = items
add_operations (op ∷ ops) items = add_operations ops (add_unique_string items op)

-- a poll of the type `g` with its operations
unfoldable pub add_rule : Gvr → List String → Dict String WebhookRule → Dict String WebhookRule
unfolding rule_key add_operations get put
add_rule g ops agg =
    let rule = rule_for g (get (rule_key g) agg) in
    put (rule_key g) (record rule { operations = add_operations ops rule.operations }) agg

abbrev pub poll_gvr : Option CacheSpec → Option (Gvr × List String)
poll_gvr none = none
poll_gvr (some spec) = elim (parse_gvr spec.gvr) [
  | none ↦ none
  | some g ↦ some (g, spec.operations)
]

-- the loops over the polls of all models; an error is `none`
unfoldable pub collect_rules :
    List BootPoll → Dict String WebhookRule → Option (Dict String WebhookRule)
unfolding add_rule
collect_rules [] agg = some agg
collect_rules (p ∷ ps) agg = elim p.kubernetes [
  | false ↦ collect_rules ps agg
  | true ↦ elim (poll_gvr p.spec) [ none ↦ none | some t ↦ collect_rules ps (add_rule t.0 t.1 agg) ]
]

abbrev pub sorted_rule : WebhookRule → WebhookRule
sorted_rule rule = record rule { operations = sort_texts rule.operations }

-- the rules at the keys; a key without a rule is a nil pointer
unfoldable pub rules_at : Dict String WebhookRule → List String → Outcome (List WebhookRule)
unfolding get sort_texts
rules_at agg [] = ok []
rules_at agg (k ∷ ks) = elim (get k agg) [
  | none ↦ panic
  | some rule ↦ rules_at agg ks >>= λ rules. ok (sorted_rule rule ∷ rules)
]

abbrev pub keys_of : Dict String WebhookRule → List String
keys_of agg = map (λ e. e.0) agg

abbrev pub in_key_order : Option (Dict String WebhookRule) → Outcome (Option (List WebhookRule))
in_key_order none = ok none
in_key_order (some agg) = rules_at agg (sort_texts (keys_of agg)) >>= λ rules. ok (some rules)

unfoldable pub webhook_rules_from_pollaris_models :
    List BootPoll → Outcome (Option (List WebhookRule))
unfolding collect_rules rules_at sort_texts
webhook_rules_from_pollaris_models polls = in_key_order (collect_rules polls [])

-- RuleWithOperations
pub record RuleWithOperations : Type 0 where
  pub operations : List String
  pub api_groups : List String
  pub api_versions : List String
  pub resources : List String

abbrev pub with_operations : WebhookRule → RuleWithOperations
with_operations rule = record {
  operations = sort_texts rule.operations;
  api_groups = rule.api_groups;
  api_versions = rule.api_versions;
  resources = rule.resources;
}

-- rulesToOperations
abbrev pub rules_to_operations : List WebhookRule → List RuleWithOperations
rules_to_operations rules = map with_operations rules
