-- ===== src/Queue/Visiting.antt =====
-- What the loop of Pop does with one job.
use l8collector.Prelude.{
  ℕ, ◌≡◌, refl, Bool, true, false, Option, none, some, Outcome, ok, panic, arith, if◌then◌else◌,
  Option-cases, ◌↔◌, Bool-cases, inl, inr,
}
use l8collector.Prelude.Int.{ℤ, ◌+ℤ◌, ◌-ℤ◌, ◌≤ℤ◌, leb_ℤ}
use l8collector.Types.{CadencePlan, CJob}
use l8collector.Cadence.{index, init_startups, draw_startup, smooth_cadence, job_cadence}
use l8collector.Cadence.Bounds.{IsPlan, IsDraw, job_cadence-Interval}
use l8collector.Queue.{World, Visit, disabled, due, later, visit, visit_plan}

-- A job without the start-up delays that JobCadence draws.
abbrev pub forget_plan : CadencePlan → CadencePlan
forget_plan c = record c { startups = none }

abbrev pub forget_startups : CJob → CJob
forget_startups j = record j {
  cadence = elim j.cadence [ none ↦ none | some c ↦ some (forget_plan c) ];
}

job_cadence-keeps :
    (smooth : Bool) (draw : ℤ → ℤ) (c c' : CadencePlan) (n : ℤ)
    → job_cadence smooth draw c ≡ ok (n, c')
    → forget_plan c' ≡ forget_plan c
unfolding job_cadence init_startups smooth_cadence draw_startup
job_cadence-keeps smooth draw c c' n h = ground arith

cadence_of-keeps :
    (w : World) (a : ℕ) (j j' : CJob) (plan : CadencePlan) (v : Visit)
    (r : Outcome (ℤ × CadencePlan))
    → job_cadence w.smooth (w.rand a) plan ≡ r
    → j.cadence ≡ some plan
    → visit_plan w a j plan ≡ ok (v, j')
    → forget_startups j' ≡ forget_startups j
unfolding visit_plan
cadence_of-keeps w a j j' plan v panic q e h = ground arith
cadence_of-keeps w a j j' plan v (ok (n, plan')) q e h =
    ground (arith, job_cadence-keeps w.smooth (w.rand a) plan plan' n)

-- A visit changes nothing of a job but the delays.
pub visit-keeps :
    (w : World) (a : ℕ) (j j' : CJob) (v : Visit)
    → visit w a j ≡ ok (v, j')
    → forget_startups j' ≡ forget_startups j
unfolding visit
visit-keeps w a j j' v h = elim (Option-cases j.cadence) [
  | inl e ↦ ground arith
  | inr (plan, e) ↦ cadence_of-keeps w a j j' plan v _ refl e (ground arith)
]

-- A job that Pop can look at without a panic.
abbrev pub IsRunnable : Bool → CJob → Type 0
IsRunnable smooth j = (plan : CadencePlan) × (j.cadence ≡ some plan) × IsPlan smooth plan

-- The numbers that rand.Int63n returns are in its range.
abbrev pub IsWorld : World → Type 0
IsWorld w = (a : ℕ) → IsDraw (w.rand a)

abbrev pub due? : Outcome (Visit × CJob) → Bool
due? panic = false
due? (ok (disabled, j)) = false
due? (ok (due, j)) = true
due? (ok (later t, j)) = false

-- Pop would return this job if it came first.
unfoldable pub is_due : World → ℕ → CJob → Bool
is_due w a j = due? (visit w a j)

-- The seconds that a job has to go, if it is neither disabled nor due.
abbrev pub wait? : Outcome (Visit × CJob) → Option ℤ
wait? (ok (later t, j)) = some t
wait? _ = none

unfoldable pub wait_of : World → ℕ → CJob → Option ℤ
wait_of w a j = wait? (visit w a j)

module _ (w : World) (a : ℕ) (j : CJob) (r : IsWorld w) where
  enabled-total :
      (plan : CadencePlan)
      → j.cadence ≡ some plan
      → IsPlan w.smooth plan
      → plan.enabled ≡ true
      → (v : Visit) × (j' : CJob) × (visit w a j ≡ ok (v, j')) × IsRunnable w.smooth j'
  unfolding visit visit_plan
  enabled-total plan e h on =
      let (n, at, (m, plan', i)) = job_cadence-Interval w.smooth (w.rand a) plan h (r a) in
      (
        (if leb_ℤ m (w.now -ℤ j.ended) then due else later (m -ℤ (w.now -ℤ j.ended))),
        record j { cadence = some plan' },
        ground (arith, i.result),
        (plan', refl, i.plan),
      )

  -- A visit to such a job returns, and leaves such a job.
  pub visit-total :
      IsRunnable w.smooth j
      → (v : Visit) × (j' : CJob) × (visit w a j ≡ ok (v, j')) × IsRunnable w.smooth j'
  unfolding visit visit_plan
  visit-total (plan, e, h) = elim (Bool-cases plan.enabled) [
    | inl on ↦ enabled-total plan e h on
    | inr off ↦ (disabled, j, ground arith, (plan, e, h))
  ]

-- Without smoothing an enabled job is due exactly when its current cadence has passed since it ended.
pub is_due-steady :
    (w : World) (a : ℕ) (j : CJob) (plan : CadencePlan) (n : ℤ)
    → w.smooth ≡ false
    → j.cadence ≡ some plan
    → index plan.cadences plan.current ≡ ok n
    → (is_due w a j ≡ true) ↔ ((plan.enabled ≡ true) × (j.ended +ℤ n ≤ℤ w.now))
unfolding is_due visit visit_plan job_cadence init_startups ◌-ℤ◌ ◌+ℤ◌
is_due-steady w a j plan n s e at = ground arith
