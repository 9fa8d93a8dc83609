-- ===== src/Host/Executing.antt =====
-- The execution of one job in a round: by a protocol collector, or by a static job.
use l8collector.Prelude.{
  ℕ, ◌≡◌, refl, ap, ◌∙◌, inl, inr, Bool, true, false, Option, none, some, In, Outcome, ok, ◌>>=◌,
  bind_ok, if◌then◌else◌, if_yes, if_no, nat_eq, string_eq, Bool-cases, Option-cases,
}
use l8collector.Prelude.Dict
use l8collector.Prelude.Dict.{Dict}
use l8collector.Types.{CJob, Poll, Protocol, protocol_eq}
use l8collector.Change.{mark_start, mark_ended}
use l8collector.Queue.{Heap, JobsQueue, store, deref, job_key, disable_job}
use l8collector.Queue.Visiting.{IsRunnable, IsWorld}
use l8collector.Queue.Insertion.Polls.{IsRegistry}
use l8collector.Host.State.{HostCollector, Env}
use l8collector.Host.Loop.{job_at, put_job, static_do, complete_round, exec_round, run_job}
use l8collector.Host.Life.{stop}
use l8collector.Host.Halting.{IsStopped, stop-IsStopped, Leaves, leaving, moved-Leaves}
use l8collector.Host.Working.{
  IsWorking, Stays, put_job-IsWorking, Works, moved, complete_round-Works,
}
use l8collector.Host.Statics.{Same, mark_start-Same, mark_ended-Same, static_do-Same}

-- What is taken for granted of the surroundings: polls come with plans in order, random numbers are in
-- range, and a protocol collector leaves the names and the plan of its job.
pub record IsEnv (env : Env) : Type 0 where
  pub registry : IsRegistry env.world.smooth env.registry
  pub world : IsWorld env.world
  pub keeps : (p : Protocol) (j : CJob) → Same j (env.exec p j)

Same-Stays : (smooth : Bool) (j k : CJob) → Same j k → IsRunnable smooth j → Stays smooth j k
Same-Stays smooth j k (p, n, c) (plan, e, v) = ((λ i. job_key (p i) (n i)), (plan, c ∙ e, v))

-- A disabled job is still one that the queue can hold.
disable_job-IsWorking :
    (smooth : Bool) (a : ℕ) (hc : HostCollector) (q : JobsQueue)
    → In a q.jobs
    → IsWorking smooth hc q
    → (h : Heap) × (disable_job a hc.heap ≡ ok h) × IsWorking smooth (record hc { heap = h }) q
unfolding disable_job
disable_job-IsWorking smooth a hc q m w =
    let (plan, e, v) = w.queue.order.runnable a m in
    let job : CJob = record (job_at hc a) { cadence = some (record plan { enabled = false }) } in
    (
      store hc.heap a job,
      bind_ok _ (ap deref e),
      put_job-IsWorking smooth hc q w a job (
        refl,
        (
          record plan { enabled = false },
          refl,
          record { in_range = v.in_range; fits = v.fits; positive = v.positive },
        ),
      ),
    )

module _ (env : Env) (i : IsEnv env) where
  -- The end of a round in which a collector executed the job `a` of the host, which may be stopped.
  after_exec : ℕ → Protocol → HostCollector → Outcome HostCollector
  after_exec a p hc' =
      let job : CJob = mark_ended env.finish (env.exec p (job_at hc' a)) in
      let hc'' : HostCollector = put_job hc' a job in
      if hc''.running then complete_round env a hc'' else ok hc''

  after_exec-stopped :
      (a : ℕ) (p : Protocol) (hc : HostCollector)
      → IsStopped hc
      → env.stops ≡ true
      → Leaves env.world.smooth env (after_exec a p hc)
  unfolding after_exec
  after_exec-stopped a p hc s e = (
    put_job hc a (mark_ended env.finish (env.exec p (job_at hc a))),
    if_no _ s.running,
    inr (
      record {
        running = s.running;
        collectors = s.collectors;
        queue = s.queue;
        service = s.service;
      },
      e,
    ),
  )

  after_exec-Works :
      (a : ℕ) (p : Protocol) (hc : HostCollector) (q : JobsQueue)
      → In a q.jobs
      → IsWorking env.world.smooth hc q
      → Works env.world.smooth (after_exec a p hc)
  unfolding after_exec
  after_exec-Works a p hc q m w =
      let smooth = env.world.smooth in
      let done = env.exec p (job_at hc a) in
      let job : CJob = mark_ended env.finish done in
      let (n, l, c) = i.keeps p (job_at hc a) in
      let (n', l', c') = mark_ended-Same env.finish done in
      let stays =
        Same-Stays smooth (job_at hc a) job (n' ∙ n, l' ∙ l, c' ∙ c) (w.queue.order.runnable a m) in
      let v = put_job-IsWorking smooth hc q w a job stays in
      elim (Bool-cases hc.running) [
        | inl y ↦
            moved smooth (if_yes _ y)
              (complete_round-Works smooth env i.registry a (put_job hc a job) q m v)
        | inr d ↦ (put_job hc a job, q, if_no _ d, v)
      ]

  executed-Leaves :
      (a : ℕ) (p : Protocol) (hc : HostCollector) (q : JobsQueue)
      → In a q.jobs
      → IsWorking env.world.smooth hc q
      → Leaves env.world.smooth env
          ((if env.stops then stop env hc else ok hc) >>= λ hc'. after_exec a p hc')
  executed-Leaves a p hc q m w =
      let smooth = env.world.smooth in
      elim (Bool-cases env.stops) [
        | inl y ↦
            let (hc', e, s) = stop-IsStopped smooth env hc q w.live w.queue in
            moved-Leaves smooth env (bind_ok _ (if_yes _ y ∙ e)) (after_exec-stopped a p hc' s y)
        | inr n ↦
            leaving smooth env
              (moved smooth (bind_ok _ (if_no _ n)) (after_exec-Works a p hc q m w))
      ]

  found-Leaves :
      (found : Option (Unit {0})) (a : ℕ) (p : Protocol) (hc : HostCollector) (q : JobsQueue)
      → In a q.jobs
      → IsWorking env.world.smooth hc q
      → Leaves env.world.smooth env (elim found [
        | none ↦ disable_job a (put_job hc a (mark_ended env.finish (job_at hc a))).heap >>= λ h.
            ok (record hc { heap = h })
        | some _ ↦ (if env.stops then stop env hc else ok hc) >>= λ hc'.
            let job : CJob = mark_ended env.finish (env.exec p (job_at hc' a)) in
            let hc'' : HostCollector = put_job hc' a job in
            if hc''.running then complete_round env a hc'' else ok hc''
      ])
  unfolding after_exec
  found-Leaves none a p hc q m w =
      let smooth = env.world.smooth in
      let job = mark_ended env.finish (job_at hc a) in
      let v = put_job-IsWorking smooth hc q w a job (
        Same-Stays smooth (job_at hc a) job (mark_ended-Same env.finish (job_at hc a))
          (w.queue.order.runnable a m)) in
      let (h, e, u) = disable_job-IsWorking smooth a (put_job hc a job) q m v in
      leaving smooth env (record hc { heap = h }, q, bind_ok _ e, u)
  found-Leaves (some t) a p hc q m w = executed-Leaves a p hc q m w

  exec_round-Leaves :
      (a : ℕ) (poll : Poll) (hc : HostCollector) (q : JobsQueue)
      → In a q.jobs
      → IsWorking env.world.smooth hc q
      → Leaves env.world.smooth env (exec_round (λ h. stop env h) env a poll hc)
  unfolding exec_round
  exec_round-Leaves a poll hc q m w =
      let (cols, e) = w.live.collectors in
      moved-Leaves env.world.smooth env (bind_ok _ (ap deref e))
        (found-Leaves (Dict.get poll.protocol cols) a poll.protocol hc q m w)

  pub run_job-Leaves :
      (a : ℕ) (poll : Poll) (hc : HostCollector) (q : JobsQueue)
      → In a q.jobs
      → IsWorking env.world.smooth hc q
      → Leaves env.world.smooth env (run_job (λ h. stop env h) env a poll hc)
  unfolding run_job
  run_job-Leaves a poll hc q m w =
      let smooth = env.world.smooth in
      let begun = mark_start env.world.now (job_at hc a) in
      let started = put_job hc a begun in
      let v = put_job-IsWorking smooth hc q w a begun (
        Same-Stays smooth (job_at hc a) begun (mark_start-Same env.world.now (job_at hc a))
          (w.queue.order.runnable a m)) in
      let after : Option (Outcome CJob) → Outcome HostCollector = λ o. elim o [
        | none ↦ exec_round (λ h. stop env h) env a poll started
        | some result ↦
            result >>= λ job. complete_round env a (put_job started a (mark_ended env.finish job))
      ] in
      elim (Option-cases (static_do env started (job_at started a))) [
        | inl n ↦ moved-Leaves smooth env (ap after n) (exec_round-Leaves a poll started q m v)
        | inr (o, e) ↦
            let (k, f, (x, y, z)) = static_do-Same env started (job_at started a) o v.live e in
            let (x', y', z') = mark_ended-Same env.finish k in
            let job = mark_ended env.finish k in
            let stays =
              Same-Stays smooth (job_at started a) job (x' ∙ x, y' ∙ y, z' ∙ z)
                (v.queue.order.runnable a m) in
            leaving smooth env (
              moved smooth (ap after e ∙ bind_ok _ f) (
                complete_round-Works smooth env i.registry a (put_job started a job) q m
                  (put_job-IsWorking smooth started q v a job stays)))
      ]
