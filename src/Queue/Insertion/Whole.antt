-- ===== src/Queue/Insertion/Whole.antt =====
-- InsertJob as a whole.
use l8collector.Prelude.{
  ◌≡◌, refl, sym, subst, ◌↔◌, inl, inr, Bool, true, false, none, some, List, [], ◌∷◌, String, In,
  ok, arith, Bool-cases, Option-cases, string_eq,
}
use l8collector.Prelude.Int.{pos}
use l8collector.Prelude.Dict
use l8collector.Prelude.Dict.{Dict}
use l8collector.Types.{CJob, CadencePlan, PollarisKey}
use l8collector.Queue.{
  Registry, Heap, JobsQueue, key_of, insert_one, insert_all, insert_job, new_jobs_for_key,
}
use l8collector.Queue.Visiting.{IsRunnable}
use l8collector.Queue.Invariant.{IsQueue}
use l8collector.Queue.Insertion.{
  Grows, Grows-refl, Grows-trans, Scheduled, Scheduled-Grows, Round, off-Round, old-Round,
}
use l8collector.Queue.Insertion.Fresh.{new-Round}

-- A job as newJobsForKey makes it: never run, with a cadence plan in order.
pub record IsNew (smooth : Bool) (job : CJob) : Type 0 where
  pub runnable : IsRunnable smooth job
  pub started : job.started ≡ pos 0
  pub ended : job.ended ≡ pos 0

pub insert_one-Round :
    (smooth : Bool) (job : CJob) (q : JobsQueue) (h : Heap)
    → IsQueue smooth q h
    → IsNew smooth job
    → (q' : JobsQueue) × (h' : Heap) × Round smooth job q h q' h'
insert_one-Round smooth job q h v n =
    let (plan, e, p) = n.runnable in
    elim (Bool-cases plan.enabled) [
      | inr off ↦ (q, h, off-Round smooth job q h v plan e off)
      | inl on ↦ elim (Option-cases (Dict.get (key_of job) q.jobs_map)) [
        | inl fresh ↦ (_, _, new-Round smooth job q h v plan e fresh p on n.started n.ended)
        | inr (old, at) ↦ (_, _, old-Round smooth job q h v plan e old at on)
      ]
    ]

abbrev pub Enabled : CJob → Type 0
Enabled job = (plan : CadencePlan) × (job.cadence ≡ some plan) × (plan.enabled ≡ true)

-- What the whole range of InsertJob does.
pub record Inserted (smooth : Bool) (jobs : List (String × CJob)) (q : JobsQueue) (h : Heap)
    (q' : JobsQueue) (h' : Heap) : Type 0 where
  pub result : insert_all jobs q h ≡ ok (q', h')
  pub order : IsQueue smooth q' h'
  pub grows : Grows q h q' h'
  pub scheduled :
      (n : String) (job : CJob) → In (n, job) jobs → Enabled job → Scheduled q' h' (key_of job)

insert_all-step :
    (jobs : List (String × CJob)) (n : String) (job : CJob) (q q1 q2 : JobsQueue) (h h1 h2 : Heap)
    → insert_one job q h ≡ ok (q1, h1)
    → insert_all jobs q1 h1 ≡ ok (q2, h2)
    → insert_all ((n, job) ∷ jobs) q h ≡ ok (q2, h2)
unfolding insert_all
insert_all-step jobs n job q q1 q2 h h1 h2 e f = rw e f

pub insert_all-Inserted :
    (smooth : Bool) (jobs : List (String × CJob)) (q : JobsQueue) (h : Heap)
    → IsQueue smooth q h
    → ((n : String) (job : CJob) → In (n, job) jobs → IsNew smooth job)
    → (q' : JobsQueue) × (h' : Heap) × Inserted smooth jobs q h q' h'
unfolding insert_all
insert_all-Inserted smooth [] q h v new = (
  q,
  h,
  record { result = refl; order = v; grows = Grows-refl q h; scheduled = λ n job m. absurd m },
)
insert_all-Inserted smooth ((n, job) ∷ jobs) q h v new =
    let (q1, h1, r) = insert_one-Round smooth job q h v (new n job (inl refl)) in
    let (q2, h2, i) = insert_all-Inserted smooth jobs q1 h1 r.order (λ k j m. new k j (inr m)) in
    (
      q2,
      h2,
      record {
        result = insert_all-step jobs n job q q1 q2 h h1 h2 r.result i.result;
        order = i.order;
        grows = Grows-trans q q1 q2 h h1 h2 r.grows i.grows;
        scheduled = λ k j m on. elim m [
          | inl same ↦
              subst (λ (x : String × CJob). Scheduled q2 h2 (key_of x.1)) same
                (Scheduled-Grows q1 q2 h1 h2 (key_of job) i.grows (
                  let (plan, e, o) = subst (λ (x : String × CJob). Enabled x.1) (sym same) on in
                  r.scheduled plan e o))
          | inr rest ↦ i.scheduled k j rest on
        ];
      },
    )

-- A range over a map meets the entries of the map.
abbrev pub IsRange : Registry → Type 0
IsRange r = (d : Dict String CJob) (e : String × CJob) → In e (r.range_jobs d) ↔ In e d

pub insert_job-step :
    (r : Registry) (key : PollarisKey) (q q' : JobsQueue) (h h' : Heap) (jobs : Dict String CJob)
    → q.shutdown ≡ false
    → new_jobs_for_key r q key ≡ ok (some jobs)
    → insert_all (r.range_jobs jobs) q h ≡ ok (q', h')
    → insert_job r key (some q) h ≡ ok (none, some q', h')
unfolding insert_job
insert_job-step r key q q' h h' jobs s e f = ground arith
