-- ===== src/Change/Detection.antt =====
-- When a result counts as changed.
use Prim.Native.Nat.{bit_xor}
use l8collector.Prelude.{
  ℕ, ◌*◌, ◌%◌, ◌^◌, ◌<◌, ◌≡◌, ◌≢◌, refl, sym, ap, subst, ◌∙◌, ◌⊎◌, ◌↔◌, inl, inr, Bool, true, false,
  Option, none, some, List, [], ◌∷◌, ok, arith, if◌then◌else◌, nat_eq, Bool-cases, if_yes,
}
use l8collector.Prelude.Int.{ℤ, pos, negsuc, ◌+ℤ◌, ◌-ℤ◌, ltb_ℤ}
use l8collector.Types.{CadencePlan, CJob}
use l8collector.Cadence.Slices.{InRange}
use l8collector.Cadence.Bounds.{IsPlan}
use l8collector.Change.{
  hash_bytes, fnv1a, fnv_offset, fnv_prime, mark_start, last_index, slow_down, differs,
  job_has_change,
}
use l8collector.Queue.Visiting.{IsRunnable}

-- The hash that was kept is not that of the result, or none was kept and there is a result.
abbrev pub Changed : CJob → Type 0
Changed job =
    (hash_bytes job.result ≢ job.last_result_hash)
    ⊎ ((job.last_result_hash ≡ 0) × (job.result ≢ none))

differs_iff : (job : CJob) → (differs job ≡ true) ↔ Changed job
unfolding differs hash_bytes
differs_iff job = ground arith

-- the fields that the comparison reads
abbrev SameResult : CJob → CJob → Type 0
SameResult j k =
    (k.result ≡ j.result) × (k.last_result_hash ≡ j.last_result_hash) × (k.job_name ≡ j.job_name)

InRange-next :
    (c : ℤ) (xs : List ℤ) → InRange c xs → ltb_ℤ c (last_index xs) ≡ true → InRange (c +ℤ pos 1) xs
unfolding ◌+ℤ◌ ◌-ℤ◌
InRange-next (pos i) xs h t = ground arith
InRange-next (negsuc i) xs h t = absurd h

-- The plan after the increment.
slower : CadencePlan → CadencePlan
slower plan =
    if ltb_ℤ plan.current (last_index plan.cadences)
    then record plan { current = plan.current +ℤ pos 1 }
    else plan

slower-IsPlan :
    (smooth : Bool) (plan : CadencePlan) → IsPlan smooth plan → IsPlan smooth (slower plan)
unfolding slower
slower-IsPlan smooth plan v = elim (Bool-cases (ltb_ℤ plan.current (last_index plan.cadences))) [
  | inl t ↦ rw t (record {
    in_range = InRange-next plan.current plan.cadences v.in_range t;
    fits = v.fits;
    positive = v.positive;
  })
  | inr f ↦ rw f v
]

slow_down-slower :
    (job : CJob) (plan : CadencePlan)
    → job.cadence ≡ some plan
    → (job.result ≡ none) ⊎ (slow_down job ≡ ok (record job { cadence = some (slower plan) }))
unfolding slow_down slower
slow_down-slower job plan e = ground arith

slow_down-nil : (job : CJob) → job.result ≡ none → slow_down job ≡ ok job
unfolding slow_down
slow_down-nil job e = ground arith

slow_down-IsRunnable :
    (smooth : Bool) (job : CJob)
    → IsRunnable smooth job
    → (job' : CJob) × (slow_down job ≡ ok job') × IsRunnable smooth job' × SameResult job job'
slow_down-IsRunnable smooth job (plan, e, v) = elim (slow_down-slower job plan e) [
  | inl nil ↦ (job, slow_down-nil job nil, (plan, e, v), (refl, refl, refl))
  | inr s ↦ (
    record job { cadence = some (slower plan) },
    s,
    (slower plan, refl, slower-IsPlan smooth plan v),
    (refl, refl, refl),
  )
]

job_has_change-step :
    (job job' : CJob)
    → job.always ≡ false
    → slow_down job ≡ ok job'
    → job_has_change job ≡ ok (differs job', job')
unfolding job_has_change
job_has_change-step job job' a e = ground arith

-- the comparison, for a job that is not `Always`
compared_iff :
    (smooth : Bool) (job : CJob)
    → IsRunnable smooth job
    → job.always ≡ false
    → (b : Bool) × (job' : CJob) × (job_has_change job ≡ ok (b, job'))
      × IsRunnable smooth job'
      × ((b ≡ true) ↔ Changed job)
compared_iff smooth job r a =
    let (job', e, r', (s, t, u)) = slow_down-IsRunnable smooth job r in
    (
      differs job',
      job',
      job_has_change-step job job' a e,
      r',
      (
        λ d. changed_as job' s t ((differs_iff job').0 d),
        λ c. (differs_iff job').1 (as_changed job' s t c),
      ),
    )
  where
    changed_as :
        (k : CJob)
        → k.result ≡ job.result
        → k.last_result_hash ≡ job.last_result_hash
        → Changed k
        → Changed job
    changed_as k s t (inl d) = inl (λ e. d (ap hash_bytes s ∙ e ∙ sym t))
    changed_as k s t (inr (z, n)) = inr (sym t ∙ z, λ e. n (s ∙ e))

    as_changed :
        (k : CJob)
        → k.result ≡ job.result
        → k.last_result_hash ≡ job.last_result_hash
        → Changed job
        → Changed k
    as_changed k s t (inl d) = inl (λ e. d (sym (ap hash_bytes s) ∙ e ∙ t))
    as_changed k s t (inr (z, n)) = inr (t ∙ z, λ e. n (sym s ∙ e))

-- jobHasChange does not panic on a job that the queue can hold, and leaves one. A job is reported exactly
-- when it is `Always`, or its result's hash is not the one that was kept, or none was kept and there is a
-- result.
pub job_has_change_iff :
    (smooth : Bool) (job : CJob)
    → IsRunnable smooth job
    → (b : Bool) × (job' : CJob) × (job_has_change job ≡ ok (b, job'))
      × IsRunnable smooth job'
      × ((b ≡ true) ↔ ((job.always ≡ true) ⊎ Changed job))
unfolding job_has_change
job_has_change_iff smooth job r = elim (Bool-cases job.always) [
  | inl y ↦ (true, job, if_yes _ y, r, (λ e. inl y, λ e. refl))
  | inr n ↦
      let (b, job', e, r', i) = compared_iff smooth job r n in
      (b, job', e, r', (λ t. inr (i.0 t), λ c. elim c [ inl y ↦ cc (y, n) | inr c ↦ i.1 c ]))
]

-- A job that ended without an error, was started again, and returned `result`.
abbrev pub again : ℤ → CJob → Option (List ℕ) → CJob
again now job result = record (mark_start now job) { result = result }

again-hash :
    (now : ℤ) (job : CJob) (result : Option (List ℕ))
    → job.error_count ≡ 0
    → (again now job result).last_result_hash ≡ hash_bytes job.result
unfolding mark_start
again-hash now job result z = ground arith

again-cadence :
    (now : ℤ) (job : CJob)
    → ((mark_start now job).cadence ≡ job.cadence) × ((mark_start now job).always ≡ job.always)
unfolding mark_start
again-cadence now job = ground arith

-- Two runs in a row of a job with a plan in order: after a run that left no errors in a row, MarkStart and a
-- run with another result, the second is reported exactly when the job is `Always`, or the hashes of the
-- two results differ, or the first hashed to 0 and there is a result. In particular an unchanged result
-- with a hash other than 0 of a job that is not `Always` is not reported again.
pub again_iff :
    (smooth : Bool) (now : ℤ) (job : CJob) (result : Option (List ℕ))
    → IsRunnable smooth job
    → job.error_count ≡ 0
    → (b : Bool) × (job' : CJob) × (job_has_change (again now job result) ≡ ok (b, job'))
      × ((b ≡ true) ↔ (
          (job.always ≡ true)
          ⊎ ((hash_bytes result ≢ hash_bytes job.result)
              ⊎ ((hash_bytes job.result ≡ 0) × (result ≢ none)))))
again_iff smooth now job result (plan, e, v) z =
    let (c, al) = again-cadence now job in
    let (b, job', r, s, i) = job_has_change_iff smooth (again now job result) (plan, c ∙ e, v) in
    let h = again-hash now job result z in
    (
      b,
      job',
      r,
      subst
          (λ (n : ℕ).
            (b ≡ true)
            ↔ ((job.always ≡ true) ⊎ ((hash_bytes result ≢ n) ⊎ ((n ≡ 0) × (result ≢ none)))))
          h (subst (λ (a : Bool). (b ≡ true) ↔ ((a ≡ true) ⊎ Changed (again now job result))) al i),
    )

fnv1a-lt : (h : ℕ) (b : ℕ) (bs : List ℕ) → fnv1a h (b ∷ bs) < 2 ^ 64
unfolding fnv1a
fnv1a-lt h b [] = omega arith
fnv1a-lt h b (c ∷ bs) = fnv1a-lt (bit_xor h b * fnv_prime % 2 ^ 64) c bs

-- The hash fits 64 bits.
pub hash_bytes-lt : (result : Option (List ℕ)) → hash_bytes result < 2 ^ 64
unfolding hash_bytes
hash_bytes-lt none = omega arith
hash_bytes-lt (some []) = omega arith
hash_bytes-lt (some (b ∷ bs)) = fnv1a-lt fnv_offset b bs
