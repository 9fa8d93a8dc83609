-- ===== src/Kube/Rules/Asking.antt =====
-- The collected rules match exactly what the polls ask for.
use l8collector.Prelude.{
  String, ◌≡◌, ◌↔◌, ◌⊎◌, inl, inr, refl, string_eq, true, List, [], In, Option-cases, none, some,
  All, ok, bind_ok,
}
use l8collector.Prelude.Dict.{Dict, get}
use l8collector.Text.Sorting.{sort_texts}
use l8collector.Kube.Gvr.{Gvr}
use l8collector.Kube.Admission.{BootPoll}
use l8collector.Kube.Webhook.{WebhookRule, matches_webhook_rule}
use l8collector.Kube.Matching.{matches_webhook_rule_iff}
use l8collector.Kube.Rules.{
  rule_key, collect_rules, keys_of, sorted_rule, webhook_rules_from_pollaris_models,
}
use l8collector.Kube.Rules.Collected.{
  IsPlain, SomeAsks, IsInvalid, Collected, collect_rules-Collected, collect_rules-none, asked-Plain,
}
use l8collector.Kube.Rules.Listing.{
  sort_texts_iff, keys_of_iff, rules_at_lem, Lists-listed, listed-Lists,
}

matched :
    (polls : List BootPoll) (agg : Dict String WebhookRule) (rules : List WebhookRule) (r : Gvr)
    (op : String)
    → All IsPlain polls
    → Collected polls [] agg
    → ((x : WebhookRule)
        → In x rules ↔ (
            (k : String) × In k (sort_texts (keys_of agg))
            × ((rule : WebhookRule) × (get k agg ≡ some rule) × (sorted_rule rule ≡ x))))
    → (matches_webhook_rule rules r op ≡ true) ↔ SomeAsks polls r op
unfolding get
matched polls agg rules r op h c place =
    let one = matches_webhook_rule_iff rules r op in
    (
      (λ m.
          let (x, i, l) = one.0 m in
          let (k, j, (rule, e, s)) = (place x).0 i in
          let (p, o) = Lists-listed agg k op r rule x c.0 e s l in
          elim ((c.1 r op p).0 o) [ inl f ↦ absurd f | inr a ↦ a ]),
      λ a.
          let p = asked-Plain polls r op h a in
          let (rule, e, l) = listed-Lists agg op r c.0 p ((c.1 r op p).1 (inr a)) in
          one.1 (
            sorted_rule rule,
            (place (sorted_rule rule)).1 (
              rule_key r,
              (sort_texts_iff _ _).1 ((keys_of_iff agg (rule_key r)).1 (rule, e)),
              (rule, e, refl),
            ),
            l,
          ),
    )

-- WebhookRulesFromPollarisModels does not panic. It fails only for a poll for the Kubernetes API that has
-- no valid spec or type. Otherwise its rules match a request exactly when such a poll has its type and
-- operation. No group and no version of a poll has a bar.
pub webhook_rules_iff :
    (polls : List BootPoll)
    → All IsPlain polls
    → ((webhook_rules_from_pollaris_models polls ≡ ok none)
        × ((p : BootPoll) × In p polls × IsInvalid p))
      ⊎ ((rules : List WebhookRule) × (webhook_rules_from_pollaris_models polls ≡ ok (some rules))
          × ((r : Gvr) (op : String)
              → (matches_webhook_rule rules r op ≡ true) ↔ SomeAsks polls r op))
unfolding webhook_rules_from_pollaris_models
webhook_rules_iff polls h = elim (Option-cases (collect_rules polls [])) [
  | inl n ↦ inl (rw (webhook_rules_from_pollaris_models, n) refl, collect_rules-none polls [] n)
  | inr (agg, e) ↦
      let c = collect_rules-Collected polls [] agg h tt e in
      let (rules, f, place) =
        rules_at_lem agg (sort_texts (keys_of agg))
          (λ k m. (keys_of_iff agg k).0 ((sort_texts_iff (keys_of agg) k).0 m)) in
      inr (
        rules,
        rw (webhook_rules_from_pollaris_models, e) (bind_ok _ f),
        λ r op. matched polls agg rules r op h c place,
      )
]
