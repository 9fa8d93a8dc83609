-- ===== src/Kube/Enrich/Units.antt =====
-- What the text of an age tells.
use l8collector.Prelude.{
  ℕ, ◌+◌, ◌*◌, ◌/◌, ◌%◌, ◌<◌, ◌≤◌, ◌≡◌, refl, arith, Bool-cases, inl, inr, String, ltb,
}
use l8collector.Kube.Enrich.Ages.{units_text, age_text}

-- the units of an age, with their seconds
pub data AgeUnit : Type 0 where
  second minute hour day year : AgeUnit

unfoldable pub size : AgeUnit → ℕ
size second = 1
size minute = 60
size hour = 3600
size day = 86400
size year = 31536000

unfoldable pub symbol : AgeUnit → String
symbol second = "s"
symbol minute = "m"
symbol hour = "h"
symbol day = "d"
symbol year = "y"

-- the smaller unit of a text that begins with a unit; texts in seconds or minutes have one unit
unfoldable pub precision : AgeUnit → AgeUnit
precision second = second
precision minute = minute
precision hour = minute
precision day = hour
precision year = day

-- `a` of the unit `u` and `b` of its smaller unit are the age, to less than one of the smaller unit.
pub record IsClose (seconds : ℕ) (a : ℕ) (u : AgeUnit) (b : ℕ) : Type 0 where
  pub shown : age_text seconds ≡ units_text a (symbol u) b (symbol (precision u))
  pub reached : a * size u + b * size (precision u) ≤ seconds
  pub near : seconds < a * size u + b * size (precision u) + size (precision u)
  pub carried : b * size (precision u) < size u

-- The text of an age is a number of one unit, and where it is not 0 a number of the next smaller unit:
-- minutes after hours, hours after days, days after years, and nothing after seconds and minutes. The age
-- has been reached, and is less than one of the smaller unit away, in seconds and minutes less than one of
-- the unit itself. The second number is less than one of the first unit.
pub age_text-IsClose : (seconds : ℕ) → (a : ℕ) × (u : AgeUnit) × (b : ℕ) × IsClose seconds a u b
unfolding age_text size symbol precision
age_text-IsClose seconds = elim (Bool-cases (ltb seconds 60)) [
  | inl s ↦ (
    seconds,
    second,
    0,
    record { shown = rw s refl; reached = omega arith; near = omega arith; carried = omega arith },
  )
  | inr ns ↦ elim (Bool-cases (ltb (seconds / 60) 60)) [
    | inl m ↦ (
      seconds / 60,
      minute,
      0,
      record {
        shown = rw (ns, age_text) (rw m refl);
        reached = omega arith;
        near = omega arith;
        carried = omega arith;
      },
    )
    | inr nm ↦ elim (Bool-cases (ltb (seconds / 60 / 60) 24)) [
      | inl h ↦ (
        seconds / 60 / 60,
        hour,
        seconds / 60 % 60,
        record {
          shown = rw (ns, age_text) (rw nm (rw h refl));
          reached = omega arith;
          near = omega arith;
          carried = omega arith;
        },
      )
      | inr nh ↦ elim (Bool-cases (ltb (seconds / 60 / 60 / 24) 365)) [
        | inl d ↦ (
          seconds / 60 / 60 / 24,
          day,
          seconds / 60 / 60 % 24,
          record {
            shown = rw (ns, age_text) (rw nm (rw nh (rw d refl)));
            reached = omega arith;
            near = omega arith;
            carried = omega arith;
          },
        )
        | inr nd ↦ (
          seconds / 60 / 60 / 24 / 365,
          year,
          seconds / 60 / 60 / 24 % 365,
          record {
            shown = rw (ns, age_text) (rw nm (rw nh (rw nd refl)));
            reached = omega arith;
            near = omega arith;
            carried = omega arith;
          },
        )
      ]
    ]
  ]
]
