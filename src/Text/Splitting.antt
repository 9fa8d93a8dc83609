-- ===== src/Text/Splitting.antt =====
-- Texts that are joined by a separator which they lack are taken apart at it.
use Prim.Native.Char.{Char, code}
use Prim.Native.String.{◌++◌ as str_append}
use text.Mathlib.TextLemmas.{cons-append, nil-append}
use l8collector.Prelude.{
  inl, inr, Bool-cases, ℕ, ◌≡◌, refl, sym, ap, ◌∙◌, Option, none, some, Bool, true, false, ◌||◌, [],
  ◌∷◌, String, ◌==◌, nat_eq, string_eq,
}
use l8collector.Text.{split, cut, Lacks}

-- A text of one character in front of a text.
pub one_append : (c : Char) (s : String) → str_append (String.◌∷◌ c "") s ≡ String.◌∷◌ c s
one_append c s = cons-append c "" s ∙ ap (String.◌∷◌ c) (nil-append s)

-- Two characters in front of a text.
pub two_append :
    (c d : Char) (s : String)
    → str_append (String.◌∷◌ c (String.◌∷◌ d "")) s ≡ String.◌∷◌ c (String.◌∷◌ d s)
two_append c d s = cons-append c (String.◌∷◌ d "") s ∙ ap (String.◌∷◌ c) (one_append d s)

-- A text with a character is not empty.
pub cons_full : (c : Char) (s : String) → (String.◌∷◌ c s == "") ≡ false
cons_full c s = elim (Bool-cases (String.◌∷◌ c s == "")) [
  | inl e ↦ cc ((string_eq.same_iff (String.◌∷◌ c s) "").0 e)
  | inr d ↦ d
]

-- A text that lacks the separator is one part.
pub split-Lacks : (sep : ℕ) (s : String) → Lacks sep s → split sep s ≡ s ∷ []
unfolding split
split-Lacks sep String.[] h = refl
split-Lacks sep (String.◌∷◌ c s) h = rw (h.0, split-Lacks sep s h.1) refl

-- The first part ends at the separator `c`.
pub split-append :
    (sep : ℕ) (s : String) (c : Char) (rest : String)
    → Lacks sep s
    → (code c == sep) ≡ true
    → split sep (str_append s (String.◌∷◌ c rest)) ≡ s ∷ split sep rest
unfolding split
split-append sep String.[] c rest h e = rw nil-append (rw e refl)
split-append sep (String.◌∷◌ d s) c rest h e =
    rw cons-append (rw (h.0, split-append sep s c rest h.1 e) refl)

-- the test for a character in a text
abbrev pub occurs : ℕ → String → Bool
occurs sep String.[] = false
occurs sep (String.◌∷◌ c s) = code c == sep || occurs sep s

two : (a b : Bool) → a || b ≡ false → (a ≡ false) × (b ≡ false)
two true b e = cc
two false b e = (refl, e)

-- A text in which the test finds no separator lacks it.
pub occurs-Lacks : (sep : ℕ) (s : String) → occurs sep s ≡ false → Lacks sep s
occurs-Lacks sep String.[] e = tt
occurs-Lacks sep (String.◌∷◌ c s) e = (
  (two (code c == sep) (occurs sep s) e).0,
  occurs-Lacks sep s (two (code c == sep) (occurs sep s) e).1,
)

-- What stands before and after the first separator.
pub cut-append :
    (sep : ℕ) (s : String) (c : Char) (rest : String)
    → Lacks sep s
    → (code c == sep) ≡ true
    → cut sep (str_append s (String.◌∷◌ c rest)) ≡ some (s, rest)
unfolding cut
cut-append sep String.[] c rest h e = rw nil-append (rw e refl)
cut-append sep (String.◌∷◌ d s) c rest h e =
    rw cons-append (rw (h.0, cut-append sep s c rest h.1 e) refl)

abbrev second : Option (String × String) → String
second none = ""
second (some p) = p.1

abbrev first : Option (String × String) → String
first none = ""
first (some p) = p.0

-- The first separator tells what stands before it from what stands after it.
pub split_once :
    (sep : ℕ) (c : Char) (s t a b : String)
    → (code c == sep) ≡ true
    → Lacks sep s
    → Lacks sep t
    → str_append s (String.◌∷◌ c a) ≡ str_append t (String.◌∷◌ c b)
    → (s ≡ t) × (a ≡ b)
split_once sep c s t a b k hs ht e =
    let p = sym (cut-append sep s c a hs k) ∙ ap (cut sep) e ∙ cut-append sep t c b ht k in
    (ap first p, ap second p)
