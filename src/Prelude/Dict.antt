-- ===== src/Prelude/Dict.antt =====
-- Go maps as association lists: a write replaces the entry of its key, or adds one at the end.
-- Where the code ranges over a map, the order is a parameter of the model.
use mathlib.Core.Path.{◌≡◌, refl}
use mathlib.Core.List.{List, [], ◌∷◌}
use mathlib.Core.Option.{Option, none, some}
use native.Mathlib.Omega.{arith}
use mathlib.Core.Logic.{◌⊎◌, inl, inr}
use l8collector.Prelude.Tests.{Comparable, ◌==◌, if◌then◌else◌, Bool-cases}
use l8collector.Prelude.Lists.{In}

abbrev pub Dict {ℓ κ} : Type ℓ → Type κ → Type (ℓ ⊔ κ)
Dict K V = List (K × V)

module _ {ℓ κ} {K : Type ℓ} {V : Type κ} ⦃e : Comparable K⦄ where
  unfoldable pub get : K → Dict K V → Option V
  get k [] = none
  get k ((j, v) ∷ m) = if j == k then some v else get k m

  unfoldable pub put : K → V → Dict K V → Dict K V
  put k v [] = (k, v) ∷ []
  put k v ((j, w) ∷ m) = if j == k then (k, v) ∷ m else (j, w) ∷ put k v m

  unfoldable pub delete : K → Dict K V → Dict K V
  delete k [] = []
  delete k ((j, w) ∷ m) = let rest = delete k m in if j == k then rest else (j, w) ∷ rest

  pub get-put :
      (k j : K) (v : V) (m : Dict K V) → get j (put k v m) ≡ (if k == j then some v else get j m)
  unfolding get put
  get-put k j v [] = refl
  get-put k j v ((i, w) ∷ m) =
      ground (arith, e.same_iff k j, e.same_iff i k, e.same_iff i j, get-put k j v m)

  pub get-delete :
      (k j : K) (m : Dict K V) → get j (delete k m) ≡ (if k == j then none else get j m)
  unfolding get delete
  get-delete k j [] = ground arith
  get-delete k j ((i, w) ∷ m) =
      ground (arith, e.same_iff k j, e.same_iff i k, e.same_iff i j, get-delete k j m)

module _ {K V : Type 0} ⦃e : Comparable K⦄ where
  pub In-put : (k : K) (v : V) (m : Dict K V) (x : K × V) → In x (put k v m) → ((k, v) ≡ x) ⊎ In x m
  unfolding put
  In-put k v [] x (inl h) = inl h
  In-put k v [] x (inr h) = absurd h
  In-put k v ((j, w) ∷ m) x h = elim (Bool-cases (j == k)) [
    | inl s ↦ elim (rw s at h) [ inl p ↦ inl p | inr r ↦ inr (inr r) ]
    | inr d ↦ elim (rw d at h) [
      | inl p ↦ inr (inl p)
      | inr r ↦ elim (In-put k v m x r) [ inl p ↦ inl p | inr i ↦ inr (inr i) ]
    ]
  ]

  pub get-In : (k : K) (m : Dict K V) (v : V) → get k m ≡ some v → In (k, v) m
  unfolding get
  get-In k [] v h = cc
  get-In k ((j, w) ∷ m) v h = elim (Bool-cases (j == k)) [
    | inl s ↦ inl (cc ((e.same_iff j k).0 s, rw s at h))
    | inr d ↦ inr (get-In k m v (rw d at h))
  ]
