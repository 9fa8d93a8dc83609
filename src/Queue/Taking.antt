-- ===== src/Queue/Taking.antt =====
-- Pop of collector/service/JobsQueue.go.
use l8collector.Prelude.{
  ℕ, suc, not, ◌&&◌, Option, none, some, List, [], ◌∷◌, ◌++◌, length, get_elem?, take, drop,
  Outcome, ok, panic, ◌>>=◌, ◌==◌, if◌then◌else◌, nat_eq, string_eq,
}
use l8collector.Prelude.Int.{ℤ, pos, negsuc, ◌-ℤ◌, leb_ℤ, ltb_ℤ, int_eq}
use l8collector.Types.{CadencePlan, CJob}
use l8collector.Cadence.{job_cadence}
use l8collector.Queue.State.{Heap, JobsQueue, World, store, deref}

-- What the loop of Pop finds of one job: it is disabled, it is due, or it has `wait` seconds to go.
pub data Visit : Type 0 where
  disabled : Visit
  due : Visit
  later : ℤ → Visit

unfoldable pub visit_plan : World → ℕ → CJob → CadencePlan → Outcome (Visit × CJob)
visit_plan w a j plan =
    if not plan.enabled
    then ok (disabled, j)
    else job_cadence w.smooth (w.rand a) plan >>= λ ((cadence, plan') : ℤ × CadencePlan).
        let since = w.now -ℤ j.ended in
        let j' : CJob = record j { cadence = some plan' } in
        ok ((if leb_ℤ cadence since then due else later (cadence -ℤ since)), j')

unfoldable pub visit : World → ℕ → CJob → Outcome (Visit × CJob)
visit w a j = deref j.cadence >>= visit_plan w a j

-- The loop of Pop: the index and the address of the first job that is due, and the shortest wait
-- among the jobs before it.
pub record Found : Type 0 where
  pub index : ℕ
  pub job : ℕ

unfoldable pub scan : World → List ℕ → ℕ → ℤ → Heap → Outcome (Option Found × ℤ × Heap)
scan w [] i wait h = ok (none, wait, h)
scan w (a ∷ rest) i wait h = visit w a (h.cell a) >>= λ ((v, j) : Visit × CJob). elim v [
  | disabled ↦ scan w rest (suc i) wait (store h a j)
  | due ↦ ok (some (record { index = i; job = a }), wait, store h a j)
  | later t ↦ scan w rest (suc i) (if ltb_ℤ t wait then t else wait) (store h a j)
]

-- `none` stands for the index -1.
unfoldable pub move_to_last : Option ℕ → List ℕ → Outcome (List ℕ)
move_to_last none jobs = ok jobs
move_to_last (some i) jobs = do
  job ← deref (get_elem? jobs i)
  ok ((take i jobs ++ drop (suc i) jobs) ++ job ∷ [])

abbrev pub first_wait : ℤ
first_wait = pos 999999

unfoldable pub pop_live : World → JobsQueue → Heap → Outcome (Option ℕ × ℤ × JobsQueue × Heap)
pop_live w q h = scan w q.jobs 0 first_wait h >>= λ ((found, wait, h') : Option Found × ℤ × Heap).
    elim found [
      | none ↦ move_to_last none q.jobs >>= λ jobs. ok (none, wait, record q { jobs = jobs }, h')
      | some f ↦ move_to_last (some f.index) q.jobs >>= λ jobs.
          ok (some f.job, wait, record q { jobs = jobs }, h')
    ]

-- The empty queue is logged through the service, before the test of `shutdown`.
unfoldable pub pop :
    World → Option JobsQueue → Heap → Outcome (Option ℕ × ℤ × Option JobsQueue × Heap)
pop w none h = ok (none, negsuc 0, none, h)
pop w (some q) h =
    if length q.jobs == 0 && not q.has_service
    then panic
    else if q.shutdown
    then ok (none, negsuc 0, some q, h)
    else pop_live w q h >>= λ ((job, wait, q', h') : Option ℕ × ℤ × JobsQueue × Heap).
        ok (job, wait, some q', h')
