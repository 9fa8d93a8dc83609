-- ===== src/Prelude/Members.antt =====
-- Laws of `In` and `Distinct`.
use mathlib.Core.Path.{sym}
use mathlib.Core.Logic.{◌⊎◌, inl, inr}
use mathlib.Core.List.{List, [], ◌∷◌, ◌++◌}
use l8collector.Prelude.Lists.{In, Distinct}

module _ {A : Type 0} where
  pub In-append : (a : A) (xs ys : List A) → In a (xs ++ ys) → In a xs ⊎ In a ys
  In-append a [] ys m = inr m
  In-append a (x ∷ xs) ys (inl e) = inl (inl e)
  In-append a (x ∷ xs) ys (inr m) = elim (In-append a xs ys m) [
    | inl l ↦ inl (inr l)
    | inr r ↦ inr r
  ]

  pub In-left : (a : A) (xs ys : List A) → In a xs → In a (xs ++ ys)
  In-left a (x ∷ xs) ys (inl e) = inl e
  In-left a (x ∷ xs) ys (inr m) = inr (In-left a xs ys m)
  In-left a [] ys m = absurd m

  pub In-right : (a : A) (xs ys : List A) → In a ys → In a (xs ++ ys)
  In-right a [] ys m = m
  In-right a (x ∷ xs) ys m = inr (In-right a xs ys m)

  pub Distinct-snoc : (xs : List A) (a : A) → Distinct xs → ¬ In a xs → Distinct (xs ++ a ∷ [])
  Distinct-snoc [] a d n = ((λ m. m), tt)
  Distinct-snoc (x ∷ xs) a d n = (
    (λ m. elim (In-append x xs (a ∷ []) m) [
      | inl l ↦ d.0 l
      | inr (inl e) ↦ n (inl (sym e))
      | inr (inr f) ↦ f
    ]),
    Distinct-snoc xs a d.1 (λ m. n (inr m)),
  )

  Distinct-drop :
      (xs : List A) (a : A) (ys : List A)
      → Distinct (xs ++ a ∷ ys)
      → Distinct (xs ++ ys) × (¬ In a (xs ++ ys))
  Distinct-drop [] a ys d = (d.1, d.0)
  Distinct-drop (x ∷ xs) a ys d =
      let (e, n) = Distinct-drop xs a ys d.1 in
      (
        ((λ m. d.0 (In-insert x xs a ys m)), e),
        λ m. elim m [ inl p ↦ d.0 (In-right x xs (a ∷ ys) (inl (sym p))) | inr r ↦ n r ],
      )
    where
      In-insert :
          (z : A) (us : List A) (b : A) (vs : List A) → In z (us ++ vs) → In z (us ++ b ∷ vs)
      In-insert z us b vs m = elim (In-append z us vs m) [
        | inl l ↦ In-left z us (b ∷ vs) l
        | inr r ↦ In-right z us (b ∷ vs) (inr r)
      ]

  -- The rotation of a list keeps its members and their distinctness.
  pub Distinct-rotate :
      (xs : List A) (a : A) (ys : List A)
      → Distinct (xs ++ a ∷ ys)
      → Distinct ((xs ++ ys) ++ a ∷ [])
  Distinct-rotate xs a ys d = let (e, n) = Distinct-drop xs a ys d in Distinct-snoc (xs ++ ys) a e n

  pub In-rotate :
      (z : A) (xs : List A) (a : A) (ys : List A)
      → In z ((xs ++ ys) ++ a ∷ [])
      → In z (xs ++ a ∷ ys)
  In-rotate z xs a ys m = elim (In-append z (xs ++ ys) (a ∷ []) m) [
    | inr (inl e) ↦ In-right z xs (a ∷ ys) (inl e)
    | inr (inr f) ↦ absurd f
    | inl l ↦ elim (In-append z xs ys l) [
      | inl p ↦ In-left z xs (a ∷ ys) p
      | inr r ↦ In-right z xs (a ∷ ys) (inr r)
    ]
  ]

  pub rotate-In :
      (z : A) (xs : List A) (a : A) (ys : List A)
      → In z (xs ++ a ∷ ys)
      → In z ((xs ++ ys) ++ a ∷ [])
  rotate-In z xs a ys m = elim (In-append z xs (a ∷ ys) m) [
    | inl p ↦ In-left z (xs ++ ys) (a ∷ []) (In-left z xs ys p)
    | inr (inl e) ↦ In-right z (xs ++ ys) (a ∷ []) (inl e)
    | inr (inr r) ↦ In-left z (xs ++ ys) (a ∷ []) (In-right z xs ys r)
  ]
