-- ===== src/Text/Parts.antt =====
-- strings.ReplaceAll and strings.Split of Go for separators of more than one character, and
-- strings.HasPrefix, Contains and TrimPrefix.
use Prim.Native.Char.{Char, code}
use Prim.Native.String.{◌++◌ as str_append}
use text.Mathlib.TextLemmas.{cons-append, nil-append}
use l8collector.Prelude.{
  ◌≡◌, refl, ap, ◌∙◌, Bool, true, false, not, ◌&&◌, ◌||◌, none, some, List, [], ◌∷◌, String, ◌==◌,
  nat_eq, arith,
}
use l8collector.Text.{push}
use l8collector.Text.Sorting.{strip_prefix}

abbrev pub tail : String → String
tail String.[] = ""
tail (String.◌∷◌ c s) = s

-- strings.HasPrefix(s, p)
abbrev pub has_prefix : String → String → Bool
has_prefix p s = elim (strip_prefix p s) [ none ↦ false | some rest ↦ true ]

-- strings.TrimPrefix(s, p)
abbrev pub trim_prefix : String → String → String
trim_prefix p s = elim (strip_prefix p s) [ none ↦ s | some rest ↦ rest ]

-- strings.Contains(s, p)
unfoldable pub contains : String → String → Bool
unfolding strip_prefix
contains p String.[] = has_prefix p ""
contains p (String.◌∷◌ c s) = has_prefix p (String.◌∷◌ c s) || contains p s

-- The replacement of `old`, which is not empty; as many characters as `skip` has are part of an `old` that
-- is already replaced.
unfoldable pub replace_from : String → String → String → String → String
unfolding strip_prefix
replace_from old new skip String.[] = ""
replace_from old new (String.◌∷◌ d skip) (String.◌∷◌ c s) = replace_from old new skip s
replace_from old new String.[] (String.◌∷◌ c s) = elim (has_prefix old (String.◌∷◌ c s)) [
  | true ↦ str_append new (replace_from old new (tail old) s)
  | false ↦ String.◌∷◌ c (replace_from old new "" s)
]

-- strings.ReplaceAll(s, old, new)
abbrev pub replace_all : String → String → String → String
replace_all s old new = replace_from old new "" s

-- The parts between the occurrences of `sep`, after as many characters as `skip` has.
unfoldable pub parts_from : String → String → String → List String
unfolding strip_prefix
parts_from sep skip String.[] = "" ∷ []
parts_from sep (String.◌∷◌ d skip) (String.◌∷◌ c s) = parts_from sep skip s
parts_from sep String.[] (String.◌∷◌ c s) = elim (has_prefix sep (String.◌∷◌ c s)) [
  | true ↦ "" ∷ parts_from sep (tail sep) s
  | false ↦ push c (parts_from sep "" s)
]

-- strings.Split(s, "::")
abbrev pub split_colons : String → List String
split_colons s = parts_from "::" "" s

-- The text starts with a character that is no colon.
abbrev other_first : String → Bool
other_first String.[] = false
other_first (String.◌∷◌ d s) = not (code d == 58)

-- No two colons follow each other in the text, and the last character is no colon.
abbrev pub is_part : String → Bool
is_part String.[] = true
is_part (String.◌∷◌ c s) = (not (code c == 58) || other_first s) && is_part s

colons_here :
    (rest : String) → split_colons (String.◌∷◌ ":" (String.◌∷◌ ":" rest)) ≡ "" ∷ split_colons rest
unfolding parts_from strip_prefix
colons_here rest = refl

no_colons :
    (c : Char) (s rest : String)
    → (not (code c == 58) || other_first s) ≡ true
    → has_prefix "::" (String.◌∷◌ c (str_append s (String.◌∷◌ ":" rest))) ≡ false
unfolding strip_prefix
no_colons c String.[] rest h =
    rw nil-append (ground (arith, nat_eq.same_iff 58 (code c), nat_eq.same_iff (code c) 58))
no_colons c (String.◌∷◌ d s) rest h = rw cons-append (
    ground (
      arith,
      nat_eq.same_iff 58 (code c),
      nat_eq.same_iff (code c) 58,
      nat_eq.same_iff 58 (code d),
      nat_eq.same_iff (code d) 58,
    ))

no_colons_alone :
    (c : Char) (s : String)
    → (not (code c == 58) || other_first s) ≡ true
    → has_prefix "::" (String.◌∷◌ c s) ≡ false
unfolding strip_prefix
no_colons_alone c String.[] h = ground arith
no_colons_alone c (String.◌∷◌ d s) h = ground (
  arith,
  nat_eq.same_iff 58 (code c),
  nat_eq.same_iff (code c) 58,
  nat_eq.same_iff 58 (code d),
  nat_eq.same_iff (code d) 58,
)

-- A character before which there is no separator belongs to the first part.
pushed :
    (sep : String) (c : Char) (s : String)
    → has_prefix sep (String.◌∷◌ c s) ≡ false
    → parts_from sep "" (String.◌∷◌ c s) ≡ push c (parts_from sep "" s)
unfolding parts_from
pushed sep c s e =
    ap
      (λ b. elim b [
        | true ↦ "" ∷ parts_from sep (tail sep) s
        | false ↦ push c (parts_from sep "" s)
      ])
      e

both : (a b : Bool) → a && b ≡ true → (a ≡ true) × (b ≡ true)
both a b e = ground arith

-- The first part ends at the first two colons.
pub split_colons-append :
    (s rest : String)
    → is_part s ≡ true
    → split_colons (str_append s (String.◌∷◌ ":" (String.◌∷◌ ":" rest))) ≡ s ∷ split_colons rest
unfolding parts_from
split_colons-append String.[] rest h = rw nil-append (colons_here rest)
split_colons-append (String.◌∷◌ c s) rest h =
    let (a, b) = both (not (code c == 58) || other_first s) (is_part s) h in
    rw cons-append (
      pushed "::" c (str_append s (String.◌∷◌ ":" (String.◌∷◌ ":" rest)))
        (no_colons c s (String.◌∷◌ ":" rest) a)
      ∙ ap (push c) (split_colons-append s rest b))

-- A text without two colons is one part.
pub split_colons-alone : (s : String) → is_part s ≡ true → split_colons s ≡ s ∷ []
unfolding parts_from
split_colons-alone String.[] h = refl
split_colons-alone (String.◌∷◌ c s) h =
    let (a, b) = both (not (code c == 58) || other_first s) (is_part s) h in
    pushed "::" c s (no_colons_alone c s a) ∙ ap (push c) (split_colons-alone s b)
