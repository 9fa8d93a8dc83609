-- ===== src/Cadence/Slices.antt =====
-- Indexing of Go slices within their bounds.
use l8collector.Prelude.{
  ℕ, zero, suc, ◌<◌, ◌≡◌, refl, List, [], ◌∷◌, length, get_elem?, replicate, All, some, ok, arith,
  length-set, get_elem?-set_self,
}
use l8collector.Prelude.Int.{ℤ, pos, negsuc}
use l8collector.Cadence.{index, write}

abbrev pub InRange : {A : Type 0} → ℤ → List A → Type 0
InRange (pos i) xs = i < length xs
InRange (negsuc i) xs = ⊥

module _ {A : Type 0} where
  get_elem?-lt : (xs : List A) (i : ℕ) → i < length xs → (x : A) × (get_elem? xs i ≡ some x)
  get_elem?-lt [] i h = elim h [ ]
  get_elem?-lt (x ∷ xs) zero h = (x, refl)
  get_elem?-lt (x ∷ xs) (suc i) h = get_elem?-lt xs i (omega arith)

  get_elem?-replicate : (n i : ℕ) (v : A) → i < n → get_elem? (replicate n v) i ≡ some v
  get_elem?-replicate zero i v h = elim h [ ]
  get_elem?-replicate (suc n) zero v h = refl
  get_elem?-replicate (suc n) (suc i) v h = get_elem?-replicate n i v (omega arith)

  get_elem?-All :
      (P : A → Type 0) (xs : List A) (i : ℕ) (x : A) → All P xs → get_elem? xs i ≡ some x → P x
  get_elem?-All P [] i x h e = cc
  get_elem?-All P (y ∷ ys) zero x h e = ground (arith, h.0)
  get_elem?-All P (y ∷ ys) (suc i) x h e = get_elem?-All P ys i x h.1 e

  pub index-InRange : (xs : List A) (i : ℤ) → InRange i xs → (x : A) × (index xs i ≡ ok x)
  unfolding index
  index-InRange xs (pos i) h = let (x, e) = get_elem?-lt xs i h in (x, ground arith)
  index-InRange xs (negsuc i) h = absurd h

  pub index-write : (xs : List A) (i : ℤ) (v : A) → InRange i xs → index (write xs i v) i ≡ ok v
  unfolding index write
  index-write xs (pos i) v h = ground (arith, get_elem?-set_self xs i v)
  index-write xs (negsuc i) v h = absurd h

  pub index-replicate :
      (n : ℕ) (i : ℤ) (v : A) (xs : List A)
      → n ≡ length xs
      → InRange i xs
      → index (replicate n v) i ≡ ok v
  unfolding index
  index-replicate n (pos i) v xs e h = ground (arith, get_elem?-replicate n i v)
  index-replicate n (negsuc i) v xs e h = absurd h

  pub index-All :
      (P : A → Type 0) (xs : List A) (i : ℤ) (x : A) → All P xs → index xs i ≡ ok x → P x
  unfolding index
  index-All P xs (pos i) x h e = get_elem?-All P xs i x h (ground arith)
  index-All P xs (negsuc i) x h e = cc

  pub length-write : (xs : List A) (i : ℤ) (v : A) → length (write xs i v) ≡ length xs
  unfolding write
  length-write xs (pos i) v = length-set xs i v
  length-write xs (negsuc i) v = refl

  pub InRange-length :
      {B : Type 0} (xs : List A) (ys : List B) (i : ℤ)
      → length xs ≡ length ys
      → InRange i xs
      → InRange i ys
  InRange-length xs ys (pos i) e h = omega arith
  InRange-length xs ys (negsuc i) e h = h
