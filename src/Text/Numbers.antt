-- ===== src/Text/Numbers.antt =====
-- Numbers as texts: fmt's %d of a number that is not negative, strconv.Atoi, and the conversion to int32.
use Prim.Native.Char.{code}
use Prim.Native.String.{◌++◌ as str_append}
use l8collector.Prelude.{
  ℕ, zero, suc, ◌+◌, ◌-◌, ◌*◌, ◌/◌, ◌%◌, ◌^◌, Bool, true, false, ◌&&◌, Option, none, some, String,
  leb, ltb, ◌==◌, if◌then◌else◌, nat_eq, string_eq,
}
use l8collector.Prelude.Int.{ℤ, pos, negsuc}

abbrev pub digit_text : ℕ → String
digit_text d =
    if d == 0
    then "0"
    else if d == 1
    then "1"
    else if d == 2
    then "2"
    else if d == 3
    then "3"
    else if d == 4
    then "4"
    else if d == 5
    then "5"
    else if d == 6
    then "6"
    else if d == 7
    then "7"
    else if d == 8
    then "8"
    else "9"

-- the digits of `n` in front of `acc`; the fuel counts the digits left
unfoldable pub decimal_from : ℕ → ℕ → String → String
decimal_from zero n acc = acc
decimal_from (suc fuel) n acc =
    let acc' = str_append (digit_text (n % 10)) acc in
    let rest = decimal_from fuel (n / 10) acc' in if ltb n 10 then acc' else rest

unfoldable pub decimal : ℕ → String
unfolding decimal_from
decimal n = decimal_from (suc n) n ""

-- the value of the digits after those of `n`; `none` where a character is no digit
unfoldable pub digits_value : ℕ → String → Option ℕ
digits_value n String.[] = some n
digits_value n (String.◌∷◌ c s) =
    let rest = digits_value (n * 10 + (code c - 48)) s in
    if leb 48 (code c) && leb (code c) 57 then rest else none

-- The first result of strconv.Atoi on a 64-bit machine: 0 for what is no number, and the end of the
-- range for what is beyond it.
abbrev pub clip : Bool → Option ℕ → ℤ
clip minus none = pos 0
clip false (some n) = if ltb n (2 ^ 63) then pos n else pos (2 ^ 63 - 1)
clip true (some n) =
    if n == 0 then pos 0 else if ltb n (2 ^ 63) then negsuc (n - 1) else negsuc (2 ^ 63 - 1)

unfoldable pub atoi : String → ℤ
unfolding digits_value
atoi String.[] = pos 0
atoi (String.◌∷◌ c s) =
    if code c == 45
    then (if s == "" then pos 0 else clip true (digits_value 0 s))
    else if code c == 43
    then (if s == "" then pos 0 else clip false (digits_value 0 s))
    else clip false (digits_value 0 (String.◌∷◌ c s))

-- int32(v)
abbrev pub int32_bits : ℕ → ℤ
int32_bits b = if ltb b (2 ^ 31) then pos b else negsuc (2 ^ 32 - 1 - b)

unfoldable pub to_int32 : ℤ → ℤ
to_int32 (pos n) = int32_bits (n % 2 ^ 32)
to_int32 (negsuc n) = int32_bits (2 ^ 32 - 1 - n % 2 ^ 32)
