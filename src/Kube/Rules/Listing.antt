-- ===== src/Kube/Rules/Listing.antt =====
-- The rules at the sorted keys of the map list what the map lists.
use mathlib.Core.Option.{some-injective}
use l8collector.Prelude.{
  subst, String, ◌==◌, ◌≡◌, ◌↔◌, ◌⊎◌, inl, inr, refl, sym, ap, ◌∙◌, string_eq, List, [], ◌∷◌, In,
  Bool-cases, Option-cases, some, arith, ok,
}
use l8collector.Prelude.Dict.{Dict, get}
use l8collector.Text.Sorting.{sort_texts, insert_text}
use l8collector.Kube.Gvr.{Gvr}
use l8collector.Kube.Webhook.{WebhookRule}
use l8collector.Kube.Matching.{Lists}
use l8collector.Kube.Rules.{rule_key, rules_at, keys_of, sorted_rule}
use l8collector.Kube.Rules.Aggregating.{
  Plain, AreEntries, get-IsEntry, listed, operations_of, rule_key-injective,
}

insert_text_iff :
    (a : String) (xs : List String) (v : String) → In v (insert_text a xs) ↔ ((a ≡ v) ⊎ In v xs)
unfolding insert_text
insert_text_iff a [] v = ((λ m. m), λ m. m)
insert_text_iff a (b ∷ xs) v = ground (arith, insert_text_iff a xs v)

pub sort_texts_iff : (xs : List String) (v : String) → In v (sort_texts xs) ↔ In v xs
unfolding sort_texts
sort_texts_iff [] v = ((λ m. m), λ m. m)
sort_texts_iff (a ∷ xs) v =
    let one = insert_text_iff a (sort_texts xs) v in
    let rest = sort_texts_iff xs v in
    (
      (λ m. elim (one.0 m) [ inl e ↦ inl e | inr i ↦ inr (rest.0 i) ]),
      λ m. elim m [ inl e ↦ one.1 (inl e) | inr i ↦ one.1 (inr (rest.1 i)) ],
    )

pub keys_of_iff :
    (agg : Dict String WebhookRule) (k : String)
    → In k (keys_of agg) ↔ ((rule : WebhookRule) × (get k agg ≡ some rule))
unfolding get
keys_of_iff [] k = ((λ m. absurd m), λ m. cc m.1)
keys_of_iff ((j, w) ∷ agg) k = elim (Bool-cases (j == k)) [
  | inl s ↦ rw s ((λ m. (w, refl)), λ m. inl ((string_eq.same_iff j k).0 s))
  | inr d ↦ rw d (
    (λ m. elim m [
      | inl e ↦ cc (d, (string_eq.same_iff j k).1 e)
      | inr i ↦ (keys_of_iff agg k).0 i
    ]),
    λ m. inr ((keys_of_iff agg k).1 m),
  )
]

-- At keys that have rules the rules are those.
pub rules_at_lem :
    (agg : Dict String WebhookRule) (ks : List String)
    → ((k : String) → In k ks → (rule : WebhookRule) × (get k agg ≡ some rule))
    → (rules : List WebhookRule) × (rules_at agg ks ≡ ok rules)
      × ((x : WebhookRule)
          → In x rules ↔ (
              (k : String) × In k ks
              × ((rule : WebhookRule) × (get k agg ≡ some rule) × (sorted_rule rule ≡ x))))
unfolding rules_at
rules_at_lem agg [] h = ([], refl, λ x. ((λ m. absurd m), λ m. absurd m.1))
rules_at_lem agg (k ∷ ks) h =
    let (rule, e) = h k (inl refl) in
    let (rest, f, g) = rules_at_lem agg ks (λ j m. h j (inr m)) in
    (
      sorted_rule rule ∷ rest,
      rw (rules_at, e, f) refl,
      λ x. (
        (λ m. elim m [
          | inl p ↦ (k, inl refl, (rule, e, p))
          | inr i ↦ let (j, l, found) = (g x).0 i in (j, inr l, found)
        ]),
        λ (j, l, (r, f', q)). elim l [
          | inl p ↦
              inl (ap sorted_rule (some-injective _ _ (sym e ∙ ap (λ i. get i agg) p ∙ f')) ∙ q)
          | inr i ↦ inr ((g x).1 (j, i, (r, f', q)))
        ],
      ),
    )

single : (a b : String) → In a (b ∷ []) → b ≡ a
single a b m = elim m [ inl e ↦ e | inr f ↦ absurd f ]

-- A type and an operation that a collected rule lists are those of the map.
pub Lists-listed :
    (agg : Dict String WebhookRule) (k op : String) (r : Gvr) (rule x : WebhookRule)
    → AreEntries agg
    → get k agg ≡ some rule
    → sorted_rule rule ≡ x
    → Lists x r op
    → Plain r × In op (listed r agg)
Lists-listed agg k op r rule x h e s l =
    let (g, pg, place, whole) = get-IsEntry k rule agg h e in
    let m =
      subst (λ y. Lists (sorted_rule y) r op) (sym whole) (subst (λ y. Lists y r op) (sym s) l) in
    let same : g ≡ r = λ i. record {
      group = single r.group g.group m.0 i;
      version = single r.version g.version m.1 i;
      resource = single r.resource g.resource m.2 i;
    } in
    let found = ap (λ j. get j agg) (ap rule_key (sym same) ∙ place) ∙ e in
    (
      subst Plain same pg,
      subst (λ o. In op (operations_of o)) (sym found) ((sort_texts_iff rule.operations op).0 m.3),
    )

pub listed-Lists :
    (agg : Dict String WebhookRule) (op : String) (r : Gvr)
    → AreEntries agg
    → Plain r
    → In op (listed r agg)
    → (rule : WebhookRule) × (get (rule_key r) agg ≡ some rule) × Lists (sorted_rule rule) r op
listed-Lists agg op r h p m = elim (Option-cases (get (rule_key r) agg)) [
  | inl n ↦ absurd (subst (λ o. In op (operations_of o)) n m)
  | inr (rule, e) ↦
      let (g, pg, place, whole) = get-IsEntry (rule_key r) rule agg h e in
      let same = rule_key-injective g r pg p place in
      let inside = subst (λ o. In op (operations_of o)) e m in
      (
        rule,
        e,
        subst (λ y. Lists (sorted_rule y) r op) whole
            (
              inl (ap (λ (t : Gvr). t.group) same),
              inl (ap (λ (t : Gvr). t.version) same),
              inl (ap (λ (t : Gvr). t.resource) same),
              (sort_texts_iff rule.operations op).1 inside,
            ),
      )
]
