-- ===== src/Text.antt =====
-- The functions of Go's package strings that the collector uses, on texts as lists of characters.
pub mod Splitting
pub mod Numbers
pub mod Sorting
pub mod Bytes
pub mod Parts
use Prim.Native.Char.{Char, code}
use Prim.Native.String.{◌++◌ as str_append}
use l8collector.Prelude.{
  ℕ, ◌≡◌, Bool, true, false, ◌&&◌, ◌||◌, List, [], ◌∷◌, String, leb, ◌==◌, if◌then◌else◌, nat_eq,
  string_eq, Option, none, some,
}

-- unicode.IsSpace
unfoldable pub is_space : ℕ → Bool
is_space c =
    (leb 9 c && leb c 13)
    || c == 32
    || c == 0x85
    || c == 0xA0
    || c == 0x1680
    || (leb 0x2000 c && leb c 0x200A)
    || c == 0x2028
    || c == 0x2029
    || c == 0x202F
    || c == 0x205F
    || c == 0x3000

unfoldable pub trim_left : String → String
trim_left String.[] = ""
trim_left (String.◌∷◌ c s) =
    let rest = trim_left s in if is_space (code c) then rest else String.◌∷◌ c s

unfoldable pub trim_right : String → String
trim_right String.[] = ""
trim_right (String.◌∷◌ c s) =
    let rest = trim_right s in if is_space (code c) && rest == "" then "" else String.◌∷◌ c rest

unfoldable pub trim_space : String → String
unfolding trim_left trim_right is_space
trim_space s = trim_right (trim_left s)

-- a character in front of the first part
abbrev pub push : Char → List String → List String
push c [] = String.◌∷◌ c "" ∷ []
push c (p ∷ ps) = String.◌∷◌ c p ∷ ps

-- strings.Split(s, sep) for a separator of one character
unfoldable pub split : ℕ → String → List String
split sep String.[] = "" ∷ []
split sep (String.◌∷◌ c s) =
    let parts = split sep s in if code c == sep then "" ∷ parts else push c parts

-- strings.SplitN(s, sep, 2): `none` where the separator is not there
unfoldable pub cut : ℕ → String → Option (String × String)
cut sep String.[] = none
cut sep (String.◌∷◌ c s) =
    let rest = cut sep s in
    if code c == sep
    then some ("", s)
    else elim rest [ none ↦ none | some p ↦ some (String.◌∷◌ c p.0, p.1) ]

-- what the character `c` in front of `s` makes of the last separator in `s`
abbrev pub last_from : ℕ → Char → String → Option (String × String) → Option (String × String)
last_from sep c s (some p) = some (String.◌∷◌ c p.0, p.1)
last_from sep c s none = if code c == sep then some ("", s) else none

-- the texts before and after the last separator (strings.LastIndex)
unfoldable pub cut_last : ℕ → String → Option (String × String)
cut_last sep String.[] = none
cut_last sep (String.◌∷◌ c s) = last_from sep c s (cut_last sep s)

-- strings.Join(parts, sep)
unfoldable pub join : String → List String → String
join sep [] = ""
join sep (p ∷ []) = p
join sep (p ∷ q ∷ ps) = str_append p (str_append sep (join sep (q ∷ ps)))

-- No character of the text is `sep`.
abbrev pub Lacks : ℕ → String → Type 0
Lacks sep String.[] = Unit
Lacks sep (String.◌∷◌ c s) = ((code c == sep) ≡ false) × Lacks sep s
