-- ===== src/Change/Examples.antt =====
-- The theorems on cadences and changes at concrete inputs, and runs of the hash.
use l8collector.Prelude.{
  ℕ, ◌≡◌, ◌≢◌, refl, ◌⊎◌, ◌↔◌, Bool, true, false, Option, some, none, [], ◌∷◌, List, ok, arith,
}
use l8collector.Prelude.Int.{ℤ, pos}
use l8collector.Types.{CJob, empty_job, CadencePlan}
use l8collector.Cadence.{index}
use l8collector.Cadence.Bounds.{IsPlan, Outcomes, job_cadence-Interval}
use l8collector.Change.{hash_bytes, fnv1a, job_has_change}
use l8collector.Change.Detection.{Changed, again, job_has_change_iff, again_iff}
use l8collector.Queue.Visiting.{IsRunnable}

abbrev plan : CadencePlan
plan = record { enabled = true; current = pos 0; cadences = pos 3 ∷ pos 10 ∷ []; startups = none }

plan-IsPlan : (smooth : Bool) → IsPlan smooth plan
plan-IsPlan smooth = record {
  in_range = omega arith;
  fits = tt;
  positive = λ e. (omega arith, (omega arith, tt));
}

job_cadence-Interval_example :
    (n : ℤ) × (index plan.cadences plan.current ≡ ok n) × Outcomes true (λ m. pos 0) plan n
job_cadence-Interval_example =
    job_cadence-Interval true (λ m. pos 0) plan (plan-IsPlan true)
      (λ n h. (omega arith, omega arith))

-- The published FNV-1a value of the text "a".
hash_a : hash_bytes (some (97 ∷ [])) ≡ 12638187200555641996
unfolding hash_bytes fnv1a
hash_a = refl

abbrev collected : CJob
collected = record empty_job { cadence = some plan; result = some (97 ∷ []) }

job_has_change_iff_example :
    (b : Bool) × (job' : CJob) × (job_has_change collected ≡ ok (b, job'))
    × IsRunnable false job'
    × ((b ≡ true) ↔ ((collected.always ≡ true) ⊎ Changed collected))
job_has_change_iff_example = job_has_change_iff false collected (plan, refl, plan-IsPlan false)

again_iff_example :
    (b : Bool) × (job' : CJob) × (job_has_change (again (pos 100) collected (some (98 ∷ [])))
      ≡ ok (b, job'))
    × ((b ≡ true) ↔ (
        (collected.always ≡ true)
        ⊎ ((hash_bytes (some (98 ∷ [])) ≢ hash_bytes (some (97 ∷ [])))
            ⊎ ((hash_bytes (some (97 ∷ [])) ≡ 0)
                × (◌≢◌ {A = Option (List ℕ)} (some (98 ∷ [])) none)))))
again_iff_example =
    again_iff false (pos 100) collected (some (98 ∷ [])) (plan, refl, plan-IsPlan false) refl
