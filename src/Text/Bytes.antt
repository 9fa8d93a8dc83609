-- ===== src/Text/Bytes.antt =====
-- Functions of Go's package strings on bytes, where positions count: Index, Count and Trim.
use l8collector.Prelude.{
  ℕ, zero, suc, ◌-◌, ◌≡◌, refl, Bool, true, false, Option, none, some, List, [], ◌∷◌, ◌++◌, length,
  ◌==◌, if◌then◌else◌, nat_eq, arith,
}

-- strings.HasPrefix(s, p)
unfoldable pub starts_with : List ℕ → List ℕ → Bool
starts_with [] s = true
starts_with (c ∷ p) [] = false
starts_with (c ∷ p) (d ∷ s) = let rest = starts_with p s in if c == d then rest else false

abbrev pub one_more : Option ℕ → Option ℕ
one_more none = none
one_more (some n) = some (suc n)

-- strings.Index(s, p), where `none` is -1
unfoldable pub index_of : List ℕ → List ℕ → Option ℕ
unfolding starts_with
index_of p [] = if starts_with p [] then some 0 else none
index_of p (c ∷ s) =
    let rest = one_more (index_of p s) in if starts_with p (c ∷ s) then some 0 else rest

-- the occurrences of `p`, after the first `skip` bytes, that do not overlap
unfoldable pub count_from : ℕ → List ℕ → List ℕ → ℕ
unfolding starts_with
count_from skip p [] = 0
count_from (suc n) p (c ∷ s) = count_from n p s
count_from zero p (c ∷ s) = elim (starts_with p (c ∷ s)) [
  | true ↦ suc (count_from (length p - 1) p s)
  | false ↦ count_from 0 p s
]

-- strings.Count(s, p); for the empty `p` it is more than 0
unfoldable pub count_of : List ℕ → List ℕ → ℕ
unfolding count_from
count_of [] s = suc (length s)
count_of (c ∷ p) s = count_from 0 (c ∷ p) s

unfoldable pub trim_front : ℕ → List ℕ → List ℕ
trim_front b [] = []
trim_front b (c ∷ s) = let rest = trim_front b s in if c == b then rest else c ∷ s

-- `c` in front of a text whose end is trimmed
abbrev pub keep_front : ℕ → ℕ → List ℕ → List ℕ
keep_front b c [] = if c == b then [] else c ∷ []
keep_front b c (d ∷ s) = c ∷ d ∷ s

unfoldable pub trim_back : ℕ → List ℕ → List ℕ
trim_back b [] = []
trim_back b (c ∷ s) = keep_front b c (trim_back b s)

-- strings.Trim(s, b), for one byte
unfoldable pub trim_byte : ℕ → List ℕ → List ℕ
unfolding trim_front trim_back
trim_byte b s = trim_back b (trim_front b s)

pub starts_with-append : (p s : List ℕ) → starts_with p (p ++ s) ≡ true
unfolding starts_with
starts_with-append [] s = refl
starts_with-append (c ∷ p) s = ground (arith, nat_eq.same_iff c c, starts_with-append p s)

pub index_of-append : (p s : List ℕ) → index_of p (p ++ s) ≡ some 0
unfolding index_of
index_of-append [] [] = refl
index_of-append [] (c ∷ s) = refl
index_of-append (c ∷ p) s = rw (starts_with-append (c ∷ p) s) refl

pub trim_byte-empty : (b : ℕ) → trim_byte b [] ≡ []
unfolding trim_byte
trim_byte-empty b = refl
