-- ===== src/Queue/Closing.antt =====
-- What the methods do after Shutdown, and what happens to jobs whose keys collide.
use l8collector.Prelude.{
  ℕ, suc, ◌≡◌, ◌≢◌, refl, ◌∙◌, true, none, some, [], ◌∷◌, ◌++◌, ok, panic, ◌>>=◌, bind_ok, if_yes,
  arith, string_eq, nat_eq,
}
use l8collector.Prelude.Int.{pos}
use l8collector.Prelude.Dict
use l8collector.Prelude.Dict.{get-put}
use l8collector.Types.{CJob, CadencePlan, PollarisKey}
use l8collector.Queue.{
  World, Registry, Heap, JobsQueue, shut, key_of, store, insert_one, insert_job, update,
  new_jobs_for_key, expedite, pop,
}

-- Pop and InsertJob dereference the service before they look at `shutdown`, and Shutdown cleared it.
-- So on a queue that was shut down both panic, and Expedite does nothing.
pub shut_panics :
    (w : World) (r : Registry) (key : PollarisKey) (q : JobsQueue) (h : Heap)
    → (pop w (some (shut q)) h ≡ panic)
      × (insert_job r key (some (shut q)) h ≡ panic)
      × (expedite (some (shut q)) h ≡ ok h)
unfolding shut pop insert_job new_jobs_for_key expedite
shut_panics w r key q h = (refl, refl, refl)

-- The queue and the heap after a job that is not there was inserted.
added : CJob → JobsQueue → Heap → JobsQueue × Heap
added job q h = (
  record q { jobs_map = Dict.put (key_of job) h.next q.jobs_map; jobs = q.jobs ++ h.next ∷ [] },
  record h { next = suc h.next; cell = update h.cell h.next job },
)

insert_one-added :
    (job : CJob) (plan : CadencePlan) (q : JobsQueue) (h : Heap)
    → job.cadence ≡ some plan
    → plan.enabled ≡ true
    → q.has_service ≡ true
    → Dict.get (key_of job) q.jobs_map ≡ none
    → insert_one job q h ≡ ok (added job q h)
unfolding insert_one added
insert_one-added job plan q h c e s n = ground (arith, c, e, s, n)

insert_one-there :
    (job : CJob) (plan : CadencePlan) (old : ℕ) (q : JobsQueue) (h : Heap)
    → job.cadence ≡ some plan
    → plan.enabled ≡ true
    → Dict.get (key_of job) q.jobs_map ≡ some old
    → insert_one job q h
      ≡ ok (q, store h old (record (h.cell old) { started = pos 0; ended = pos 0 }))
unfolding insert_one
insert_one-there job plan old q h c e n = ground (arith, c, e, n)

-- `JobKey` runs the two names of a job together, so jobs of different names can have one key. Where two
-- such jobs, enabled, are inserted one after the other in a queue that has neither and was not shut down,
-- the queue gets one entry, which is the first job, never run; the second is not in the queue and not in the heap.
pub insert_one-collides :
    (job other : CJob) (plan plan' : CadencePlan) (q : JobsQueue) (h : Heap)
    → key_of job ≡ key_of other
    → job.cadence ≡ some plan
    → plan.enabled ≡ true
    → other.cadence ≡ some plan'
    → plan'.enabled ≡ true
    → q.has_service ≡ true
    → Dict.get (key_of job) q.jobs_map ≡ none
    → (q' : JobsQueue) × (h' : Heap) × ((insert_one job q h >>= λ ((q1, h1) : JobsQueue × Heap).
          insert_one other q1 h1)
        ≡ ok (q', h'))
      × (q'.jobs ≡ q.jobs ++ h.next ∷ [])
      × (h'.next ≡ suc h.next)
      × (h'.cell h.next ≡ record job { started = pos 0; ended = pos 0 })
      × ((a : ℕ) → a ≢ h.next → h'.cell a ≡ h.cell a)
unfolding added
insert_one-collides job other plan plan' q h k c e c' e' s n =
    let (q1, h1) = added job q h in
    let found : Dict.get (key_of other) q1.jobs_map ≡ some h.next =
      get-put (key_of job) (key_of other) h.next q.jobs_map
      ∙ if_yes _ ((string_eq.same_iff (key_of job) (key_of other)).1 k) in
    (
      q1,
      store h1 h.next (record (h1.cell h.next) { started = pos 0; ended = pos 0 }),
      bind_ok _ (insert_one-added job plan q h c e s n)
          ∙ insert_one-there other plan' h.next q1 h1 c' e' found,
      refl,
      refl,
      ground arith,
      (λ a d. ground arith),
    )
