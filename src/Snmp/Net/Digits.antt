-- ===== src/Snmp/Net/Digits.antt =====
-- The text of a number is read back as the number.
use Prim.Native.Char.{Char, code}
use Prim.Native.String.{◌++◌ as str_append}
use l8collector.Prelude.{
  ℕ, zero, suc, ◌+◌, ◌-◌, ◌*◌, ◌/◌, ◌%◌, ◌<◌, ◌≡◌, refl, ap, ◌∙◌, Bool, true, false, ◌&&◌, none,
  some, String, ◌==◌, string_eq, nat_eq, if◌then◌else◌, ltb, leb, arith, Bool-cases, inl, inr,
  if_yes, if_no,
}
use l8collector.Text.Numbers.{decimal, decimal_from, digits_value, digit_text}
use l8collector.Text.Splitting.{one_append, cons_full}

in_range : (d : ℕ) → d < 10 → (leb 48 (48 + d) && leb (48 + d) 57) ≡ true
in_range d h = ground arith

shifted : (m d : ℕ) → m * 10 + (48 + d - 48) ≡ m * 10 + d
shifted m d = omega arith

abbrev is_empty : String → Bool
is_empty s = s == ""

one_digit :
    (m : ℕ) (c : Char) (d : ℕ) (s : String)
    → code c ≡ 48 + d
    → d < 10
    → digits_value m (str_append (String.◌∷◌ c "") s) ≡ digits_value (m * 10 + d) s
unfolding digits_value
one_digit m c d s e h =
    ap (digits_value m) (one_append c s)
    ∙ (λ i. if leb 48 (e i) && leb (e i) 57 then digits_value (m * 10 + (e i - 48)) s else none)
    ∙ if_yes none (in_range d h)
    ∙ ap (λ k. digits_value k s) (shifted m d)

-- The text of a digit is read as the digit.
digit_text_value :
    (m d : ℕ) (s : String)
    → d < 10
    → digits_value m (str_append (digit_text d) s) ≡ digits_value (m * 10 + d) s
digit_text_value m zero s h = one_digit m "0" 0 s refl h
digit_text_value m (suc zero) s h = one_digit m "1" 1 s refl h
digit_text_value m (suc (suc zero)) s h = one_digit m "2" 2 s refl h
digit_text_value m (suc (suc (suc zero))) s h = one_digit m "3" 3 s refl h
digit_text_value m (suc (suc (suc (suc zero)))) s h = one_digit m "4" 4 s refl h
digit_text_value m (suc (suc (suc (suc (suc zero))))) s h = one_digit m "5" 5 s refl h
digit_text_value m (suc (suc (suc (suc (suc (suc zero)))))) s h = one_digit m "6" 6 s refl h
digit_text_value m (suc (suc (suc (suc (suc (suc (suc zero))))))) s h = one_digit m "7" 7 s refl h
digit_text_value m (suc (suc (suc (suc (suc (suc (suc (suc zero)))))))) s h =
    one_digit m "8" 8 s refl h
digit_text_value m (suc (suc (suc (suc (suc (suc (suc (suc (suc zero))))))))) s h =
    one_digit m "9" 9 s refl h
digit_text_value m (suc (suc (suc (suc (suc (suc (suc (suc (suc (suc d)))))))))) s h =
    absurd (omega arith)

small : (n : ℕ) → ltb n 10 ≡ true → 0 * 10 + n % 10 ≡ n
small n e = ground arith

last_digit : (n : ℕ) → n % 10 < 10
last_digit n = omega arith

less : (fuel n : ℕ) → n < suc fuel → ltb n 10 ≡ false → n / 10 < fuel
less fuel n h e = ground arith

whole : (n : ℕ) → n / 10 * 10 + n % 10 ≡ n
whole n = omega arith

-- Digits are read after the number in front of them.
decimal_from_value :
    (fuel n : ℕ) (acc : String)
    → n < fuel
    → digits_value 0 (decimal_from fuel n acc) ≡ digits_value n acc
unfolding decimal_from
decimal_from_value zero n acc h = absurd (omega arith)
decimal_from_value (suc fuel) n acc h = elim (Bool-cases (ltb n 10)) [
  | inl e ↦
      ap (digits_value 0) (if_yes _ e)
      ∙ digit_text_value 0 (n % 10) acc (last_digit n)
      ∙ ap (λ k. digits_value k acc) (small n e)
  | inr d ↦
      ap (digits_value 0) (if_no _ d)
      ∙ decimal_from_value fuel (n / 10) _ (less fuel n h d)
      ∙ digit_text_value (n / 10) (n % 10) acc (last_digit n)
      ∙ ap (λ k. digits_value k acc) (whole n)
]

pub decimal_value : (n : ℕ) → digits_value 0 (decimal n) ≡ some n
unfolding decimal digits_value
decimal_value n = decimal_from_value (suc n) n "" (omega arith)

full_one : (c : Char) (s : String) → (str_append (String.◌∷◌ c "") s == "") ≡ false
full_one c s = ap is_empty (one_append c s) ∙ cons_full c s

full_digit : (d : ℕ) (s : String) → d < 10 → (str_append (digit_text d) s == "") ≡ false
full_digit zero s h = full_one "0" s
full_digit (suc zero) s h = full_one "1" s
full_digit (suc (suc zero)) s h = full_one "2" s
full_digit (suc (suc (suc zero))) s h = full_one "3" s
full_digit (suc (suc (suc (suc zero)))) s h = full_one "4" s
full_digit (suc (suc (suc (suc (suc zero))))) s h = full_one "5" s
full_digit (suc (suc (suc (suc (suc (suc zero)))))) s h = full_one "6" s
full_digit (suc (suc (suc (suc (suc (suc (suc zero))))))) s h = full_one "7" s
full_digit (suc (suc (suc (suc (suc (suc (suc (suc zero)))))))) s h = full_one "8" s
full_digit (suc (suc (suc (suc (suc (suc (suc (suc (suc zero))))))))) s h = full_one "9" s
full_digit (suc (suc (suc (suc (suc (suc (suc (suc (suc (suc d)))))))))) s h = absurd (omega arith)

decimal_from_full :
    (fuel n : ℕ) (acc : String) → (acc == "") ≡ false → (decimal_from fuel n acc == "") ≡ false
unfolding decimal_from
decimal_from_full zero n acc e = e
decimal_from_full (suc fuel) n acc e = elim (Bool-cases (ltb n 10)) [
  | inl b ↦ ap is_empty (if_yes _ b) ∙ full_digit (n % 10) acc (last_digit n)
  | inr d ↦
      ap is_empty (if_no _ d)
      ∙ decimal_from_full fuel (n / 10) _ (full_digit (n % 10) acc (last_digit n))
]

pub decimal_full : (n : ℕ) → (decimal n == "") ≡ false
unfolding decimal decimal_from
decimal_full n = elim (Bool-cases (ltb n 10)) [
  | inl b ↦ ap is_empty (if_yes _ b) ∙ full_digit (n % 10) "" (last_digit n)
  | inr d ↦
      ap is_empty (if_no _ d)
      ∙ decimal_from_full n (n / 10) _ (full_digit (n % 10) "" (last_digit n))
]
