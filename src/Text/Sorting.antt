-- ===== src/Text/Sorting.antt =====
-- sort.Strings and strings.HasPrefix of Go, on texts as lists of characters. The sort is by insertion.
use Prim.Native.Char.{code}
use l8collector.Prelude.{
  ◌≡◌, refl, Bool, true, false, Option, none, some, List, [], ◌∷◌, String, ltb, ◌==◌, arith, ◌⊎◌,
  inl, inr, if◌then◌else◌, nat_eq, string_eq,
}
use text.Mathlib.TextEquality.{Char-path}

-- s <= t; the order of the code points is that of the bytes
unfoldable pub text_leb : String → String → Bool
text_leb String.[] t = true
text_leb (String.◌∷◌ c s) String.[] = false
text_leb (String.◌∷◌ c s) (String.◌∷◌ d t) =
    let rest = text_leb s t in
    if ltb (code c) (code d) then true else if code c == code d then rest else false

unfoldable pub insert_text : String → List String → List String
unfolding text_leb
insert_text a [] = a ∷ []
insert_text a (b ∷ bs) =
    let rest = insert_text a bs in if text_leb a b then a ∷ b ∷ bs else b ∷ rest

unfoldable pub sort_texts : List String → List String
unfolding insert_text
sort_texts [] = []
sort_texts (a ∷ rest) = insert_text a (sort_texts rest)

-- what stands after the prefix
unfoldable pub strip_prefix : String → String → Option String
strip_prefix String.[] t = some t
strip_prefix (String.◌∷◌ c s) String.[] = none
strip_prefix (String.◌∷◌ c s) (String.◌∷◌ d t) =
    let rest = strip_prefix s t in if code c == code d then rest else none

text_leb-total : (s t : String) → (text_leb s t ≡ true) ⊎ (text_leb t s ≡ true)
unfolding text_leb
text_leb-total String.[] t = inl refl
text_leb-total (String.◌∷◌ c s) String.[] = inr refl
text_leb-total (String.◌∷◌ c s) (String.◌∷◌ d t) = ground (arith, text_leb-total s t)

text_leb_trans : (s t u : String) → text_leb s t ≡ true → text_leb t u ≡ true → text_leb s u ≡ true
unfolding text_leb
text_leb_trans String.[] t u h k = refl
text_leb_trans (String.◌∷◌ c s) String.[] u h k = absurd (cc)
text_leb_trans (String.◌∷◌ c s) (String.◌∷◌ d t) String.[] h k = absurd (cc)
text_leb_trans (String.◌∷◌ c s) (String.◌∷◌ d t) (String.◌∷◌ e u) h k =
    ground (arith, text_leb_trans s t u)

text_leb-antisym : (s t : String) → text_leb s t ≡ true → text_leb t s ≡ true → s ≡ t
unfolding text_leb
text_leb-antisym String.[] String.[] h k = refl
text_leb-antisym String.[] (String.◌∷◌ d t) h k = absurd (cc)
text_leb-antisym (String.◌∷◌ c s) String.[] h k = absurd (cc)
text_leb-antisym (String.◌∷◌ c s) (String.◌∷◌ d t) h k =
    let both : (code c ≡ code d) × (text_leb s t ≡ true) × (text_leb t s ≡ true) = ground arith in
    λ i. String.◌∷◌ (Char-path c d both.0 i) (text_leb-antisym s t both.1 both.2 i)

-- Texts are inserted in either order.
pub insert_text_comm :
    (a b : String) (xs : List String)
    → insert_text a (insert_text b xs) ≡ insert_text b (insert_text a xs)
unfolding insert_text
insert_text_comm a b [] = ground (arith, text_leb-total a b, text_leb-antisym a b)
insert_text_comm a b (x ∷ xs) = ground (
  arith,
  text_leb-total a b,
  text_leb-antisym a b,
  insert_text_comm a b xs,
  text_leb_trans a b x,
  text_leb_trans b a x,
  text_leb-total a x,
  text_leb-total b x,
  text_leb_trans a x b,
  text_leb_trans b x a,
)
