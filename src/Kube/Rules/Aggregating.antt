-- ===== src/Kube/Rules/Aggregating.antt =====
-- What the rules that are collected from polls list.
use Prim.Native.String.{◌++◌ as str_append}
use mathlib.Core.Option.{some-injective}
use l8collector.Prelude.{
  subst, String, ◌==◌, ◌≡◌, ◌↔◌, ◌⊎◌, inl, inr, refl, sym, ap, ◌∙◌, string_eq, List, [], ◌∷◌, In,
  In-append, In-left, In-right, Bool-cases, Option, none, some, All, if_yes, if_no,
}
use l8collector.Prelude.Dict.{Dict, get, put, get-put}
use l8collector.Text.{Lacks}
use l8collector.Text.Splitting.{split_once, one_append}
use l8collector.Kube.Gvr.{Gvr}
use l8collector.Kube.Webhook.{WebhookRule, contains_string, add_unique_string}
use l8collector.Kube.Matching.{contains_string_iff}
use l8collector.Kube.Rules.{rule_key, rule_of, rule_for, add_operations, add_rule}

-- No bar is in the group and the version of a type.
abbrev pub Plain : Gvr → Type 0
Plain g = Lacks 124 g.group × Lacks 124 g.version

bar : (s : String) → str_append "|" s ≡ String.◌∷◌ "|" s
bar s = one_append "|" s

joined :
    (g : Gvr)
    → rule_key g
      ≡ str_append g.group (String.◌∷◌ "|" (str_append g.version (String.◌∷◌ "|" g.resource)))
unfolding rule_key
joined g = rw (bar, bar) refl

-- Plain types with one key are one type.
pub rule_key-injective : (g h : Gvr) → Plain g → Plain h → rule_key g ≡ rule_key h → g ≡ h
rule_key-injective g h a b e =
    let (p, q) =
      split_once 124 "|" g.group h.group _ _ refl a.0 b.0 (sym (joined g) ∙ e ∙ joined h) in
    let (r, s) = split_once 124 "|" g.version h.version g.resource h.resource refl a.1 b.1 q in
    λ i. record { group = p i; version = r i; resource = s i }

add_unique_string_iff :
    (items : List String) (v op : String)
    → In op (add_unique_string items v) ↔ (In op items ⊎ (v ≡ op))
unfolding add_unique_string
add_unique_string_iff items v op = elim (Bool-cases (contains_string items v)) [
  | inl s ↦ rw s (
    inl,
    λ m. elim m [
      | inl i ↦ i
      | inr e ↦ subst (λ x. In x items) e ((contains_string_iff items v).0 s)
    ],
  )
  | inr d ↦ rw d (
    (λ m. elim (In-append op items (v ∷ []) m) [
      | inl i ↦ inl i
      | inr (inl e) ↦ inr e
      | inr (inr f) ↦ absurd f
    ]),
    λ m. elim m [
      | inl i ↦ In-left op items (v ∷ []) i
      | inr e ↦ In-right op items (v ∷ []) (inl e)
    ],
  )
]

add_operations_iff :
    (ops items : List String) (op : String)
    → In op (add_operations ops items) ↔ (In op items ⊎ In op ops)
unfolding add_operations
add_operations_iff [] items op = (inl, λ m. elim m [ inl i ↦ i | inr f ↦ absurd f ])
add_operations_iff (v ∷ ops) items op =
    let rest = add_operations_iff ops (add_unique_string items v) op in
    let one = add_unique_string_iff items v op in
    (
      (λ m. elim (rest.0 m) [
        | inr i ↦ inr (inr i)
        | inl j ↦ elim (one.0 j) [ inl i ↦ inl i | inr e ↦ inr (inl e) ]
      ]),
      λ m. elim m [
        | inl i ↦ rest.1 (inl (one.1 (inl i)))
        | inr (inl e) ↦ rest.1 (inl (one.1 (inr e)))
        | inr (inr i) ↦ rest.1 (inr i)
      ],
    )

abbrev pub operations_of : Option WebhookRule → List String
operations_of none = []
operations_of (some rule) = rule.operations

-- the operations that the map lists for a type
abbrev pub listed : Gvr → Dict String WebhookRule → List String
listed r agg = operations_of (get (rule_key r) agg)

rule_for-operations :
    (g : Gvr) (old : Option WebhookRule) → (rule_for g old).operations ≡ operations_of old
rule_for-operations g none = refl
rule_for-operations g (some rule) = refl

-- One poll adds its operations to its type, and to no other.
pub add_rule_iff :
    (g r : Gvr) (ops : List String) (agg : Dict String WebhookRule) (op : String)
    → Plain g
    → Plain r
    → In op (listed r (add_rule g ops agg)) ↔ (In op (listed r agg) ⊎ ((g ≡ r) × In op ops))
unfolding add_rule
add_rule_iff g r ops agg op a b =
    let rule = rule_for g (get (rule_key g) agg) in
    let written =
      get-put (rule_key g) (rule_key r)
        (record rule { operations = add_operations ops rule.operations }) agg in
    elim (Bool-cases (rule_key g == rule_key r)) [
      | inl s ↦
          let same = (string_eq.same_iff (rule_key g) (rule_key r)).0 s in
          let here : listed r (add_rule g ops agg) ≡ add_operations ops (listed r agg) =
            ap operations_of (written ∙ if_yes _ s)
            ∙ ap (add_operations ops) (
                rule_for-operations g (get (rule_key g) agg)
                ∙ ap (λ k. operations_of (get k agg)) same) in
          let both = add_operations_iff ops (listed r agg) op in
          (
            (λ m. elim (both.0 (subst (In op) here m)) [
              | inl i ↦ inl i
              | inr i ↦ inr (rule_key-injective g r a b same, i)
            ]),
            λ m. subst (In op) (sym here) (both.1 (elim m [ inl i ↦ inl i | inr i ↦ inr i.1 ])),
          )
      | inr d ↦
          let here : listed r (add_rule g ops agg) ≡ listed r agg =
            ap operations_of (written ∙ if_no _ d) in
          (
            (λ m. inl (subst (In op) here m)),
            λ m. elim m [
              | inl i ↦ subst (In op) (sym here) i
              | inr i ↦ cc (d, (string_eq.same_iff (rule_key g) (rule_key r)).1 (ap rule_key i.0))
            ],
          )
    ]

-- Every rule is that of a plain type, at its key.
abbrev pub IsEntry : String × WebhookRule → Type 0
IsEntry (k, rule) = (g : Gvr) × Plain g × (rule_key g ≡ k) × (rule_of g rule.operations ≡ rule)

abbrev pub AreEntries : Dict String WebhookRule → Type 0
AreEntries agg = All IsEntry agg

add_entry :
    (k : String) (rule : WebhookRule) (agg : Dict String WebhookRule)
    → IsEntry (k, rule)
    → AreEntries agg
    → AreEntries (put k rule agg)
unfolding put
add_entry k rule [] e h = (e, tt)
add_entry k rule ((j, w) ∷ agg) e h = elim (Bool-cases (j == k)) [
  | inl s ↦ rw s (e, h.1)
  | inr d ↦ rw d (h.0, add_entry k rule agg e h.1)
]

pub get-IsEntry :
    (k : String) (rule : WebhookRule) (agg : Dict String WebhookRule)
    → AreEntries agg
    → get k agg ≡ some rule
    → IsEntry (k, rule)
unfolding get
get-IsEntry k rule [] h e = cc
get-IsEntry k rule ((j, w) ∷ agg) h e = elim (Bool-cases (j == k)) [
  | inl s ↦
      let place = (string_eq.same_iff j k).0 s in
      let found = some-injective _ _ (rw s at e) in subst IsEntry (λ i. (place i, found i)) h.0
  | inr d ↦ get-IsEntry k rule agg h.1 (rw d at e)
]

rule_for-IsEntry :
    (g : Gvr) (old : Option WebhookRule) (ops : List String)
    → Plain g
    → ((rule : WebhookRule) → old ≡ some rule → IsEntry (rule_key g, rule))
    → IsEntry (rule_key g, record (rule_for g old) { operations = ops })
rule_for-IsEntry g none ops p h = (g, p, refl, refl)
rule_for-IsEntry g (some rule) ops p h =
    let (g', p', k, e) = h rule refl in
    (g', p', k, ap (λ (r : WebhookRule). record r { operations = ops }) e)

pub add_rule-AreEntries :
    (g : Gvr) (ops : List String) (agg : Dict String WebhookRule)
    → Plain g
    → AreEntries agg
    → AreEntries (add_rule g ops agg)
unfolding add_rule
add_rule-AreEntries g ops agg p h =
    let old = get (rule_key g) agg in
    add_entry (rule_key g) _ agg
      (rule_for-IsEntry g old (add_operations ops (rule_for g old).operations) p
        (λ rule e. get-IsEntry (rule_key g) rule agg h e))
      h
