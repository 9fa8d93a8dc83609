-- ===== src/Kube/Rules/Collected.antt =====
-- The map of rules that is collected from polls lists what the polls ask for.
use mathlib.Core.Option.{some-injective}
use l8collector.Prelude.{
  subst, String, ◌≡◌, ◌↔◌, ◌⊎◌, inl, inr, refl, sym, ap, ◌∙◌, string_eq, true, List, [], ◌∷◌, In,
  Bool-cases, Option-cases, none, some, All,
}
use l8collector.Prelude.Dict.{Dict}
use l8collector.Kube.Gvr.{Gvr}
use l8collector.Kube.Admission.{BootPoll}
use l8collector.Kube.Webhook.{WebhookRule}
use l8collector.Kube.Rules.{add_rule, collect_rules, poll_gvr}
use l8collector.Kube.Rules.Aggregating.{
  Plain, add_rule_iff, AreEntries, add_rule-AreEntries, listed,
}

-- What a poll asks for: it is for the Kubernetes API, and its spec has the type and the operation.
abbrev pub Asks : BootPoll → Gvr → String → Type 0
Asks p r op =
    (p.kubernetes ≡ true)
    × ((t : Gvr × List String) × (poll_gvr p.spec ≡ some t) × (t.0 ≡ r) × In op t.1)

abbrev pub IsPlain : BootPoll → Type 0
IsPlain p = (t : Gvr × List String) → poll_gvr p.spec ≡ some t → Plain t.0

abbrev pub SomeAsks : List BootPoll → Gvr → String → Type 0
SomeAsks polls r op = (p : BootPoll) × In p polls × Asks p r op

pub more :
    (p : BootPoll) (ps : List BootPoll) (r : Gvr) (op : String)
    → SomeAsks (p ∷ ps) r op ↔ (Asks p r op ⊎ SomeAsks ps r op)
more p ps r op = (
  (λ m. elim m.1 [
    | inl e ↦ inl (subst (λ q. Asks q r op) (sym e) m.2)
    | inr i ↦ inr (m.0, i, m.2)
  ]),
  λ m. elim m [ inl a ↦ (p, inl refl, a) | inr n ↦ (n.0, inr n.1, n.2) ],
)

-- A poll that asks for nothing changes nothing.
passed :
    (p : BootPoll) (ps : List BootPoll) (new old : List String) (r : Gvr) (op : String)
    → ¬ Asks p r op
    → In op new ↔ (In op old ⊎ SomeAsks ps r op)
    → In op new ↔ (In op old ⊎ SomeAsks (p ∷ ps) r op)
passed p ps new old r op n h =
    let both = more p ps r op in
    (
      (λ m. elim (h.0 m) [ inl i ↦ inl i | inr a ↦ inr (both.1 (inr a)) ]),
      λ m. elim m [
        | inl i ↦ h.1 (inl i)
        | inr a ↦ elim (both.0 a) [ inl b ↦ absurd (n b) | inr b ↦ h.1 (inr b) ]
      ],
    )

-- A poll that asks adds what it asks for.
added :
    (p : BootPoll) (ps : List BootPoll) (new mid old : List String) (r : Gvr) (op : String)
    → In op mid ↔ (In op old ⊎ Asks p r op)
    → In op new ↔ (In op mid ⊎ SomeAsks ps r op)
    → In op new ↔ (In op old ⊎ SomeAsks (p ∷ ps) r op)
added p ps new mid old r op f h =
    let both = more p ps r op in
    (
      (λ m. elim (h.0 m) [
        | inr a ↦ inr (both.1 (inr a))
        | inl i ↦ elim (f.0 i) [ inl j ↦ inl j | inr a ↦ inr (both.1 (inl a)) ]
      ]),
      λ m. elim m [
        | inl i ↦ h.1 (inl (f.1 (inl i)))
        | inr a ↦ elim (both.0 a) [ inl b ↦ h.1 (inl (f.1 (inr b))) | inr b ↦ h.1 (inr b) ]
      ],
    )

one_poll :
    (p : BootPoll) (t : Gvr × List String) (new old : List String) (r : Gvr) (op : String)
    → p.kubernetes ≡ true
    → poll_gvr p.spec ≡ some t
    → In op new ↔ (In op old ⊎ ((t.0 ≡ r) × In op t.1))
    → In op new ↔ (In op old ⊎ Asks p r op)
one_poll p t new old r op k f h = (
  (λ m. elim (h.0 m) [ inl i ↦ inl i | inr a ↦ inr (k, (t, f, a.0, a.1)) ]),
  λ m. elim m [
    | inl i ↦ h.1 (inl i)
    | inr (k', (u, g, a, b)) ↦
        let same = some-injective _ _ (sym f ∙ g) in
        h.1 (inr (ap (λ x. x.0) same ∙ a, subst (λ l. In op l) (sym (ap (λ x. x.1) same)) b))
  ],
)

abbrev pub Collected : List BootPoll → Dict String WebhookRule → Dict String WebhookRule → Type 0
Collected polls agg new =
    AreEntries new
    × ((r : Gvr) (op : String)
        → Plain r
        → In op (listed r new) ↔ (In op (listed r agg) ⊎ SomeAsks polls r op))

pub collect_rules-Collected :
    (polls : List BootPoll) (agg new : Dict String WebhookRule)
    → All IsPlain polls
    → AreEntries agg
    → collect_rules polls agg ≡ some new
    → Collected polls agg new
unfolding collect_rules
collect_rules-Collected [] agg new h g e =
    subst (Collected [] agg) (some-injective _ _ e)
      (g, λ r op p. (inl, λ m. elim m [ inl i ↦ i | inr n ↦ absurd n.1 ]))
collect_rules-Collected (p ∷ ps) agg new h g e = elim (Bool-cases p.kubernetes) [
  | inr d ↦
      let rest = collect_rules-Collected ps agg new h.1 g (rw d at e) in
      (
        rest.0,
        λ r op q. passed p ps (listed r new) (listed r agg) r op (λ a. cc (d, a.0)) (rest.1 r op q),
      )
  | inl k ↦ elim (Option-cases (poll_gvr p.spec)) [
    | inl n ↦ cc (rw (k, n) at e)
    | inr (t, f) ↦
        let rest =
          collect_rules-Collected ps (add_rule t.0 t.1 agg) new h.1
            (add_rule-AreEntries t.0 t.1 agg (h.0 t f) g) (rw (k, f) at e) in
        (
          rest.0,
          λ r op q.
              added p ps (listed r new) (listed r (add_rule t.0 t.1 agg)) (listed r agg) r op
                (one_poll p t (listed r (add_rule t.0 t.1 agg)) (listed r agg) r op k f
                  (add_rule_iff t.0 r t.1 agg op (h.0 t f) q))
                (rest.1 r op q),
        )
  ]
]

-- A poll for the Kubernetes API that has no valid spec or type.
abbrev pub IsInvalid : BootPoll → Type 0
IsInvalid p = (p.kubernetes ≡ true) × (poll_gvr p.spec ≡ none)

pub collect_rules-none :
    (polls : List BootPoll) (agg : Dict String WebhookRule)
    → collect_rules polls agg ≡ none
    → (p : BootPoll) × In p polls × IsInvalid p
unfolding collect_rules
collect_rules-none [] agg e = cc
collect_rules-none (p ∷ ps) agg e = elim (Bool-cases p.kubernetes) [
  | inr d ↦ let (q, m, i) = collect_rules-none ps agg (rw d at e) in (q, inr m, i)
  | inl k ↦ elim (Option-cases (poll_gvr p.spec)) [
    | inl n ↦ (p, inl refl, (k, n))
    | inr (t, f) ↦
        let (q, m, i) = collect_rules-none ps (add_rule t.0 t.1 agg) (rw (k, f) at e) in
        (q, inr m, i)
  ]
]

pub asked-Plain :
    (polls : List BootPoll) (r : Gvr) (op : String)
    → All IsPlain polls
    → SomeAsks polls r op
    → Plain r
asked-Plain [] r op h a = absurd a.1
asked-Plain (p ∷ ps) r op h a = elim ((more p ps r op).0 a) [
  | inl (k, (t, f, e, m)) ↦ subst Plain e (h.0 t f)
  | inr b ↦ asked-Plain ps r op h.1 b
]
