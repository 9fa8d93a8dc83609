-- ===== src/Kube/Matching.antt =====
-- A request matches exactly when one rule lists its group, version, resource and operation.
use l8collector.Prelude.{
  subst, String, ◌==◌, ◌≡◌, ◌↔◌, inl, inr, refl, sym, string_eq, Bool, true, ◌&&◌, List, [], ◌∷◌,
  In, Bool-cases, arith,
}
use l8collector.Kube.Gvr.{Gvr}
use l8collector.Kube.Webhook.{WebhookRule, contains_string, rule_fits, matches_webhook_rule}

-- The list has the value.
pub contains_string_iff : (xs : List String) (v : String) → (contains_string xs v ≡ true) ↔ In v xs
unfolding contains_string
contains_string_iff [] v = ((λ e. cc e), λ m. absurd m)
contains_string_iff (x ∷ xs) v = (
  (λ e. elim (Bool-cases (x == v)) [
    | inl s ↦ inl ((string_eq.same_iff x v).0 s)
    | inr d ↦ inr ((contains_string_iff xs v).0 (rw d at e))
  ]),
  λ m. elim (Bool-cases (x == v)) [
    | inl s ↦ rw s refl
    | inr d ↦ rw d (elim m [
      | inl p ↦ cc (d, (string_eq.same_iff x v).1 p)
      | inr i ↦ (contains_string_iff xs v).1 i
    ])
  ],
)

-- The rule lists all four.
abbrev pub Lists : WebhookRule → Gvr → String → Type 0
Lists rule r op =
    In r.group rule.api_groups
    × In r.version rule.api_versions
    × In r.resource rule.resources
    × In op rule.operations

all_four :
    (a b c d : Bool)
    → (a && b && c && d ≡ true) ↔ ((a ≡ true) × (b ≡ true) × (c ≡ true) × (d ≡ true))
all_four a b c d = ground arith

rule_fits_iff :
    (rule : WebhookRule) (r : Gvr) (op : String) → (rule_fits rule r op ≡ true) ↔ Lists rule r op
unfolding rule_fits
rule_fits_iff rule r op =
    let four =
      all_four (contains_string rule.api_groups r.group)
        (contains_string rule.api_versions r.version) (contains_string rule.resources r.resource)
        (contains_string rule.operations op) in
    let g = contains_string_iff rule.api_groups r.group in
    let v = contains_string_iff rule.api_versions r.version in
    let n = contains_string_iff rule.resources r.resource in
    let o = contains_string_iff rule.operations op in
    (
      (λ e. (g.0 (four.0 e).0, v.0 (four.0 e).1, n.0 (four.0 e).2, o.0 (four.0 e).3)),
      λ l. four.1 (g.1 l.0, v.1 l.1, n.1 l.2, o.1 l.3),
    )

-- A request matches if and only if one of the rules lists its group, version, resource and operation.
pub matches_webhook_rule_iff :
    (rules : List WebhookRule) (r : Gvr) (op : String)
    → (matches_webhook_rule rules r op ≡ true)
      ↔ ((rule : WebhookRule) × In rule rules × Lists rule r op)
unfolding matches_webhook_rule
matches_webhook_rule_iff [] r op = ((λ e. cc e), λ m. absurd m.1)
matches_webhook_rule_iff (rule ∷ rules) r op =
    let rest = matches_webhook_rule_iff rules r op in
    (
      (λ e. elim (Bool-cases (rule_fits rule r op)) [
        | inl s ↦ (rule, inl refl, (rule_fits_iff rule r op).0 s)
        | inr d ↦ let (found, m, l) = rest.0 (rw d at e) in (found, inr m, l)
      ]),
      λ m. elim (Bool-cases (rule_fits rule r op)) [
        | inl s ↦ rw s refl
        | inr d ↦ rw d (elim m.1 [
          | inl p ↦ cc (d, (rule_fits_iff rule r op).1 (subst (λ t. Lists t r op) (sym p) m.2))
          | inr i ↦ rest.1 (m.0, i, m.2)
        ])
      ],
    )
