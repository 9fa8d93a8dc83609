-- ===== src/Queue/Adding.antt =====
-- InsertJob, DisableJob, Expedite and the jobs that InsertJob makes, of collector/service/JobsQueue.go.
use l8collector.Prelude.{
  ℕ, suc, false, not, Option, none, some, List, [], ◌∷◌, ◌++◌, map, String, length, Outcome, ok,
  panic, ◌>>=◌, ◌==◌, if◌then◌else◌, nat_eq, string_eq,
}
use l8collector.Prelude.Int.{pos, int_eq}
use l8collector.Prelude.Dict
use l8collector.Prelude.Dict.{Dict}
use l8collector.Types.{CJob, empty_job, Poll, Pollaris, PollarisKey}
use l8collector.Cadence.{clone_cadence}
use l8collector.Queue.State.{Heap, JobsQueue, Registry, store, update, key_of, deref}

-- The names of a map's entries, in the order of the range.
abbrev names_of : Dict String Poll → List String
names_of = map (λ e. e.0)

-- `p.Order`, or the names of `p.Polling` where it does not list them
unfoldable pub polling_order : Registry → Pollaris → List String
polling_order r p = elim p.order [
  | none ↦ names_of (r.range_polls p.polling)
  | some order ↦
      if length order == length p.polling then order else names_of (r.range_polls p.polling)
]

unfoldable pub new_job_for_key : JobsQueue → Pollaris → String → Outcome CJob
unfolding clone_cadence
new_job_for_key q p job_name = do
  poll ← deref (Dict.get job_name p.polling)
  target ← deref q.target
  let job : CJob = record empty_job {
    job_name = job_name;
    pollaris_name = p.name;
    cadence = clone_cadence poll.cadence;
    timeout = poll.timeout;
    target_id = target.target_id;
    host_id = q.host_id;
    links_id = target.links_id;
    always = poll.always;
  }
  ok (if job.timeout == pos 0 then record job { timeout = poll.timeout } else job)

unfoldable pub make_jobs :
    JobsQueue → Pollaris → List String → Dict String CJob → Outcome (Dict String CJob)
make_jobs q p [] jobs = ok jobs
make_jobs q p (n ∷ ns) jobs =
    new_job_for_key q p n >>= λ job. make_jobs q p ns (Dict.put n job jobs)

-- `none` inside is the nil map
unfoldable pub new_jobs_for_key :
    Registry → JobsQueue → PollarisKey → Outcome (Option (Dict String CJob))
new_jobs_for_key r q key = if not q.has_service then panic else elim (r.by_key key) [
  | none ↦ ok none
  | some p ↦ (do jobs ← make_jobs q p (polling_order r p) []; ok (some jobs))
]

-- the body of the range in InsertJob
unfoldable pub insert_one : CJob → JobsQueue → Heap → Outcome (JobsQueue × Heap)
insert_one job q h = do
  plan ← deref job.cadence
  if not plan.enabled then ok (q, h) else elim (Dict.get (key_of job) q.jobs_map) [
    | some old ↦ ok (q, store h old (record (h.cell old) { started = pos 0; ended = pos 0 }))
    | none ↦
        if not q.has_service
        then panic
        else ok (
          record q {
            jobs_map = Dict.put (key_of job) h.next q.jobs_map;
            jobs = q.jobs ++ h.next ∷ [];
          },
          record h { next = suc h.next; cell = update h.cell h.next job },
        )
  ]

unfoldable pub insert_all : List (String × CJob) → JobsQueue → Heap → Outcome (JobsQueue × Heap)
insert_all [] q h = ok (q, h)
insert_all ((n, job) ∷ jobs) q h =
    insert_one job q h >>= λ ((q', h') : JobsQueue × Heap). insert_all jobs q' h'

-- An `error` result is the message, or `none` for nil. `none` in place of the queue is the nil
-- receiver. `cadence` and `timeout` of the source's parameter list are never read.
unfoldable pub insert_job :
    Registry
    → PollarisKey
    → Option JobsQueue
    → Heap
    → Outcome (Option String × Option JobsQueue × Heap)
insert_job r key none h = ok (some "Job Queue is already shutdown", none, h)
insert_job r key (some q) h = do
  made ← new_jobs_for_key r q key
  elim made [
    | none ↦ ok (some "cannot find pollaris to create jobs", some q, h)
    | some jobs ↦
        if q.shutdown
        then ok (some "Job Queue is already shutdown", some q, h)
        else insert_all (r.range_jobs jobs) q h >>= λ ((q', h') : JobsQueue × Heap).
            ok (none, some q', h')
  ]

unfoldable pub disable_job : ℕ → Heap → Outcome Heap
disable_job a h = do
  plan ← deref (h.cell a).cadence
  ok (store h a (record (h.cell a) { cadence = some (record plan { enabled = false }) }))

unfoldable pub expedite_all : List ℕ → Heap → Outcome Heap
expedite_all [] h = ok h
expedite_all (a ∷ rest) h = do
  plan ← deref (h.cell a).cadence
  expedite_all rest
      (if not plan.enabled then h else store h a (record (h.cell a) { ended = pos 0 }))

unfoldable pub expedite : Option JobsQueue → Heap → Outcome Heap
expedite none h = ok h
expedite (some q) h = if q.shutdown then ok h else expedite_all q.jobs h

-- the body of the inner range of newJobsForGroup; `none` is its `continue`
unfoldable pub new_job_for_group : JobsQueue → Pollaris → String → Outcome (Option CJob)
unfolding clone_cadence
new_job_for_group q p job_name = do
  poll ← deref (Dict.get job_name p.polling)
  plan ← deref poll.cadence
  if not plan.enabled
      then ok none
      else deref q.target >>= λ target. ok (
          some (record empty_job {
            target_id = target.target_id;
            host_id = q.host_id;
            job_name = job_name;
            pollaris_name = p.name;
            cadence = clone_cadence poll.cadence;
            timeout = poll.timeout;
            links_id = target.links_id;
            always = poll.always;
          }))

abbrev keep_some : Option CJob → List CJob → List CJob
keep_some none jobs = jobs
keep_some (some j) jobs = j ∷ jobs

unfoldable pub make_group : JobsQueue → Pollaris → List String → Outcome (List CJob)
make_group q p [] = ok []
make_group q p (n ∷ ns) =
    new_job_for_group q p n >>= λ job. make_group q p ns >>= λ jobs. ok (keep_some job jobs)

unfoldable pub group_all : Registry → JobsQueue → List Pollaris → Outcome (List CJob)
group_all r q [] = ok []
group_all r q (p ∷ ps) =
    make_group q p (polling_order r p) >>= λ jobs. group_all r q ps >>= λ more. ok (jobs ++ more)

-- `none` inside is the nil slice
unfoldable pub new_jobs_for_group :
    Registry → JobsQueue → PollarisKey → Outcome (Option (List CJob))
new_jobs_for_group r q key = if not q.has_service then panic else elim (r.by_group key) [
  | none ↦ ok none
  | some ps ↦ (do jobs ← group_all r q ps; ok (some jobs))
]
