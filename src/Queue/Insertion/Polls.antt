-- ===== src/Queue/Insertion/Polls.antt =====
-- What InsertJob promises for a pollaris.
use l8collector.Prelude.{
  ◌≡◌, ap, inl, inr, true, Option, none, some, [], String, In, Bool, ok, arith, Option-cases,
  string_eq,
}
use l8collector.Prelude.Dict
use l8collector.Prelude.Dict.{Dict, get-In}
use l8collector.Types.{CJob, CadencePlan, Poll, Pollaris, PollarisKey, Target}
use l8collector.Cadence.{clone_plan, clone_cadence}
use l8collector.Queue.{
  Registry, Heap, JobsQueue, job_key, polling_order, make_jobs, new_jobs_for_key, insert_job,
}
use l8collector.Queue.Invariant.{IsQueue}
use l8collector.Queue.Insertion.{Grows, Grows-refl, Scheduled}
use l8collector.Queue.Insertion.Whole.{IsNew, IsRange, insert_all-Inserted, insert_job-step}
use l8collector.Queue.Insertion.Making.{HasPoll, job_of, Made, make_jobs-Made}

-- Every name of the polling order has a poll with a cadence plan in order.
abbrev pub IsPollaris : Bool → Registry → Pollaris → Type 0
IsPollaris smooth r p = (n : String) → In n (polling_order r p) → HasPoll smooth p n

-- The queue is in order, what was there keeps its place, and each enabled poll of the pollaris has a
-- job that counts as never run.
pub record Filled (smooth : Bool) (r : Registry) (p : Pollaris) (q : JobsQueue) (h : Heap)
    (q' : JobsQueue) (h' : Heap) : Type 0 where
  pub order : IsQueue smooth q' h'
  pub grows : Grows q h q' h'
  pub scheduled :
      (n : String) (poll : Poll) (plan : CadencePlan)
      → In n (polling_order r p)
      → Dict.get n p.polling ≡ some poll
      → poll.cadence ≡ some plan
      → plan.enabled ≡ true
      → Scheduled q' h' (job_key p.name n)

made_for_key :
    (r : Registry) (key : PollarisKey) (q : JobsQueue) (p : Pollaris) (jobs : Dict String CJob)
    → q.has_service ≡ true
    → r.by_key key ≡ some p
    → make_jobs q p (polling_order r p) [] ≡ ok jobs
    → new_jobs_for_key r q key ≡ ok (some jobs)
unfolding new_jobs_for_key
made_for_key r key q p jobs s b e = ground arith

pub insert_job-Filled :
    (smooth : Bool) (r : Registry) (key : PollarisKey) (q : JobsQueue) (h : Heap) (t : Target)
    (p : Pollaris)
    → IsRange r
    → IsQueue smooth q h
    → q.target ≡ some t
    → r.by_key key ≡ some p
    → IsPollaris smooth r p
    → (q' : JobsQueue) × (h' : Heap) × (insert_job r key (some q) h ≡ ok (none, some q', h'))
      × Filled smooth r p q h q' h'
unfolding clone_cadence
insert_job-Filled smooth r key q h t p range v has found polls =
    let (jobs, m) = make_jobs-Made smooth q t p has (polling_order r p) [] polls in
    let fresh = λ (n : String) (job : CJob) (i : In (n, job) (r.range_jobs jobs)).
      made_new smooth jobs m n job ((range jobs (n, job)).0 i) in
    let (q', h', i) = insert_all-Inserted smooth (r.range_jobs jobs) q h v fresh in
    (
      q',
      h',
      insert_job-step r key q q' h h' jobs v.running
          (made_for_key r key q p jobs v.serviced found m.result) i.result,
      record {
        order = i.order;
        grows = i.grows;
        scheduled = λ n poll plan here at cadence on.
            i.scheduled n (job_of q t p n poll)
              ((range jobs (n, job_of q t p n poll)).1
                (get-In n jobs (job_of q t p n poll) (m.met n poll here at)))
              (clone_plan plan, ap clone_cadence cadence, enabled_clone plan on);
      },
    )
  where
    made_new :
        (smooth : Bool) (jobs : Dict String CJob)
        → Made smooth q t p (polling_order r p) [] jobs
        → (n : String) (job : CJob) → In (n, job) jobs
        → IsNew smooth job
    made_new smooth jobs m n job i = elim (m.new n job i) [
      | inl new ↦ new
      | inr none_there ↦ absurd none_there
    ]

    enabled_clone : (plan : CadencePlan) → plan.enabled ≡ true → (clone_plan plan).enabled ≡ true
    enabled_clone plan on = on

-- A pollaris that the registry does not have is an error, and nothing changes.
pub insert_job-missing :
    (r : Registry) (key : PollarisKey) (q : JobsQueue) (h : Heap)
    → q.has_service ≡ true
    → r.by_key key ≡ none
    → insert_job r key (some q) h ≡ ok (some "cannot find pollaris to create jobs", some q, h)
unfolding insert_job new_jobs_for_key
insert_job-missing r key q h s e = ground arith

-- What the collector asks of the registry: its pollarises have polls with cadence plans in order.
pub record IsRegistry (smooth : Bool) (r : Registry) : Type 0 where
  pub range : IsRange r
  pub polls : (key : PollarisKey) (p : Pollaris) → r.by_key key ≡ some p → IsPollaris smooth r p

abbrev pub HasTarget : JobsQueue → Type 0
HasTarget q = (t : Target) × (q.target ≡ some t)

-- InsertJob returns on a queue in order, whether or not the registry has the pollaris.
pub insert_job-total :
    (smooth : Bool) (r : Registry) (key : PollarisKey) (q : JobsQueue) (h : Heap)
    → IsRegistry smooth r
    → IsQueue smooth q h
    → HasTarget q
    → (err : Option String) × (q' : JobsQueue) × (h' : Heap) × (insert_job r key (some q) h
        ≡ ok (err, some q', h'))
      × IsQueue smooth q' h'
      × Grows q h q' h'
insert_job-total smooth r key q h i v (t, has) = elim (Option-cases (r.by_key key)) [
  | inl missing ↦ (_, q, h, insert_job-missing r key q h v.serviced missing, v, Grows-refl q h)
  | inr (p, found) ↦
      let (q', h', e, f) =
        insert_job-Filled smooth r key q h t p i.range v has found (i.polls key p found) in
      (none, q', h', e, f.order, f.grows)
]
