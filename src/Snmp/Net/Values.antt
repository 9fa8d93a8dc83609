-- ===== src/Snmp/Net/Values.antt =====
-- Numbers in the output of the commands are read back.
use Prim.Native.Char.{Char, code}
use l8collector.Prelude.{
  ℕ, ◌+◌, ◌-◌, ◌*◌, ◌^◌, ◌≡◌, refl, ap, ◌∙◌, Bool, true, false, ◌&&◌, ◌||◌, Option, none, some,
  String, ◌==◌, string_eq, nat_eq, if◌then◌else◌, ltb, leb, arith, if_no,
}
use l8collector.Prelude.Int.{pos}
use l8collector.Text.{Lacks}
use l8collector.Text.Numbers.{decimal, digits_value}
use l8collector.Text.Parts.{contains}
use l8collector.Text.Sorting.{strip_prefix}
use l8collector.Text.Splitting.{occurs}
use l8collector.Snmp.Net.{words, signed, parse_uint, parse_int, parse_value, positive, int_or_words}
use l8collector.Snmp.Net.Digits.{decimal_value, decimal_full}

taken :
    (b : Bool) (o : Option ℕ) (v : ℕ) → (if b then o else none) ≡ some v → (b ≡ true) × (o ≡ some v)
taken true o v e = (refl, e)
taken false o v e = cc

no_sign :
    (n : ℕ)
    → (leb 48 n && leb n 57) ≡ true
    → ((n == 58) ≡ false) × ((n == 45) ≡ false) × ((n == 43) ≡ false)
no_sign n e = (ground arith, ground arith, ground arith)

first_digit :
    (m v : ℕ) (c : Char) (s : String)
    → digits_value m (String.◌∷◌ c s) ≡ some v
    → ((leb 48 (code c) && leb (code c) 57) ≡ true)
      × (digits_value (m * 10 + (code c - 48)) s ≡ some v)
unfolding digits_value
first_digit m v c s e = taken _ _ v e

digits-Lacks : (m v : ℕ) (s : String) → digits_value m s ≡ some v → Lacks 58 s
digits-Lacks m v String.[] e = tt
digits-Lacks m v (String.◌∷◌ c s) e =
    let (d, rest) = first_digit m v c s e in
    ((no_sign (code c) d).0, digits-Lacks (m * 10 + (code c - 48)) v s rest)

-- A text without a colon contains no text with a colon.
strip_prefix-none : (p s : String) → occurs 58 p ≡ true → Lacks 58 s → strip_prefix p s ≡ none
unfolding strip_prefix
strip_prefix-none String.[] s o l = cc
strip_prefix-none (String.◌∷◌ c p) String.[] o l = refl
strip_prefix-none (String.◌∷◌ c p) (String.◌∷◌ d s) o l = ground (
  arith,
  strip_prefix-none p s,
  l,
  nat_eq.same_iff (code c) (code d),
  nat_eq.same_iff (code c) 58,
  nat_eq.same_iff (code d) 58,
)

contains-Lacks : (p s : String) → occurs 58 p ≡ true → Lacks 58 s → contains p s ≡ false
unfolding contains
contains-Lacks p String.[] o l =
    ap (λ r. elim r [ none ↦ false | some rest ↦ true ]) (strip_prefix-none p "" o tt)
contains-Lacks p (String.◌∷◌ c s) o l =
    ap (λ r. (elim r [ none ↦ false | some rest ↦ true ]) || contains p s)
      (strip_prefix-none p (String.◌∷◌ c s) o l)
    ∙ contains-Lacks p s o l.1

parse_uint_value :
    (bits n : ℕ) (s : String)
    → (s == "") ≡ false
    → digits_value 0 s ≡ some n
    → parse_uint bits s ≡ (if ltb n (2 ^ bits) then some n else none)
unfolding parse_uint
parse_uint_value bits n String.[] f e = cc
parse_uint_value bits n (String.◌∷◌ c s) f e =
    ap (λ o. elim o [ none ↦ none | some v ↦ if ltb v (2 ^ bits) then some v else none ]) e

positive_if :
    (b : Bool) (n : ℕ) → positive (if b then some n else none) ≡ (if b then some (pos n) else none)
positive_if true n = refl
positive_if false n = refl

parse_int_value :
    (n : ℕ) (s : String)
    → (s == "") ≡ false
    → digits_value 0 s ≡ some n
    → parse_int s ≡ (if ltb n (2 ^ 63) then some (pos n) else none)
unfolding parse_int
parse_int_value n String.[] f e = cc
parse_int_value n (String.◌∷◌ c s) f e =
    let d = (first_digit 0 n c s e).0 in
    if_no _ (no_sign (code c) d).1
    ∙ if_no _ (no_sign (code c) d).2
    ∙ ap positive (parse_uint_value 63 n (String.◌∷◌ c s) f e)
    ∙ positive_if (ltb n (2 ^ 63)) n

no_type : (s : String) → Lacks 58 s → parse_value s ≡ int_or_words s
unfolding parse_value
no_type s l =
    if_no _ (contains-Lacks "STRING: " s refl l)
    ∙ if_no _ (contains-Lacks "INTEGER: " s refl l)
    ∙ if_no _ (contains-Lacks "Counter32: " s refl l)
    ∙ if_no _ (contains-Lacks "Counter64: " s refl l)
    ∙ if_no _ (contains-Lacks "Gauge32: " s refl l)
    ∙ if_no _ (contains-Lacks "TimeTicks: " s refl l)
    ∙ if_no _ (contains-Lacks "OID: " s refl l)
    ∙ if_no _ (contains-Lacks "IpAddress: " s refl l)
    ∙ if_no _ (contains-Lacks "Hex-STRING: " s refl l)

int_if :
    (b : Bool) (n : ℕ) (s : String)
    → parse_int s ≡ (if b then some (pos n) else none)
    → int_or_words s ≡ (if b then signed (pos n) else words s)
int_if true n s e = ap (λ o. elim o [ none ↦ words s | some v ↦ signed v ]) e
int_if false n s e = ap (λ o. elim o [ none ↦ words s | some v ↦ signed v ]) e

-- A number without a type is read as that number where it is below 2 ^ 63, and stays a text otherwise.
pub parse_value-decimal :
    (n : ℕ)
    → parse_value (decimal n) ≡ (if ltb n (2 ^ 63) then signed (pos n) else words (decimal n))
parse_value-decimal n =
    no_type (decimal n) (digits-Lacks 0 n (decimal n) (decimal_value n))
    ∙ int_if (ltb n (2 ^ 63)) n (decimal n)
        (parse_int_value n (decimal n) (decimal_full n) (decimal_value n))
