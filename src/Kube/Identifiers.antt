-- ===== src/Kube/Identifiers.antt =====
-- No two resource types share an identifier.
use l8collector.Prelude.{
  String, ◌==◌, ◌≡◌, inl, inr, refl, sym, ap, ◌∙◌, Bool, true, false, ◌||◌, string_eq, [], ◌∷◌,
  Option, none, some, Bool-cases, ==-self,
}
use l8collector.Prelude.Dict.{Dict, get}
use l8collector.Kube.Links.{gvr_to_links_id, links_id, or_empty}

-- whether some entry has this value
abbrev held : String → Dict String String → Bool
held v [] = false
held v ((k, w) ∷ m) = w == v || held v m

-- whether two entries have one value
abbrev clashes : Dict String String → Bool
clashes [] = false
clashes ((k, v) ∷ m) = held v m || clashes m

neither : (a b : Bool) → a || b ≡ false → (a ≡ false) × (b ≡ false)
neither true b e = cc
neither false b e = (refl, e)

not_held :
    {A : Type 0} (k v : String) (m : Dict String String) → held v m ≡ false → get k m ≡ some v → A
unfolding get
not_held k v [] h e = cc
not_held k v ((j, w) ∷ m) h e =
    let (n, r) = neither (w == v) (held v m) h in
    elim (Bool-cases (j == k)) [
      | inl s ↦ cc (rw s at e, n, ==-self v)
      | inr d ↦ not_held k v m r (rw d at e)
    ]

one_holder :
    (t u v : String) (m : Dict String String)
    → clashes m ≡ false
    → get t m ≡ some v
    → get u m ≡ some v
    → t ≡ u
unfolding get
one_holder t u v [] c e f = cc
one_holder t u v ((j, w) ∷ m) c e f =
    let (h, r) = neither (held w m) (clashes m) c in
    elim (Bool-cases (j == t)) [
      | inl s ↦ elim (Bool-cases (j == u)) [
        | inl z ↦ sym ((string_eq.same_iff j t).0 s) ∙ (string_eq.same_iff j u).0 z
        | inr n ↦ not_held u w m h ((rw n at f) ∙ sym (rw s at e))
      ]
      | inr d ↦ elim (Bool-cases (j == u)) [
        | inl z ↦ not_held t w m h ((rw d at e) ∙ sym (rw z at f))
        | inr n ↦ one_holder t u v m r (rw d at e) (rw n at f)
      ]
    ]

known : (t : String) → (links_id t == "") ≡ false → get t gvr_to_links_id ≡ some (links_id t)
unfolding links_id
known t h = value (get t gvr_to_links_id) h
  where
    value : (o : Option String) → (or_empty o == "") ≡ false → o ≡ some (or_empty o)
    value none e = cc e
    value (some v) e = refl

-- Two resource types with one identifier, where that is not empty, are the same type.
pub links_id-injective :
    (t u : String) → (links_id t == "") ≡ false → links_id t ≡ links_id u → t ≡ u
links_id-injective t u h e =
    one_holder t u (links_id t) gvr_to_links_id refl (known t h)
      (known u (ap (λ v. v == "") (sym e) ∙ h) ∙ ap some (sym e))
