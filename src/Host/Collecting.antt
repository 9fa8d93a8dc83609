-- ===== src/Host/Collecting.antt =====
-- Whole rounds of the collection loop.
use l8collector.Prelude.{
  ℕ, ◌≡◌, refl, ap, ◌∙◌, ◌⊎◌, inl, inr, Bool, true, not, Option, none, some, [], ◌∷◌, ◌++◌, In,
  In-right, Outcome, ok, ◌>>=◌, bind_ok, if_yes, if_no, nat_eq, string_eq, Bool-cases,
}
use l8collector.Types.{Poll, protocol_eq}
use l8collector.Queue.{Heap, JobsQueue, pop}
use l8collector.Queue.Invariant.{IsQueue, IsQueue-IsOpen, pop-IsQueue}
use l8collector.Queue.Rotation.{pop_first_due}
use l8collector.Host.State.{HostCollector, Env}
use l8collector.Host.Loop.{job_at, run_job, Next, ended, goes_on, collect_round}
use l8collector.Host.Working.{IsWorking, changed}
use l8collector.Host.Life.{stop}
use l8collector.Host.Halting.{IsStopped}
use l8collector.Host.Executing.{IsEnv, run_job-Leaves}

-- A round returns, and leaves a host that works, or that was stopped while a collector executed its job.
abbrev RoundLeaves : Env → Outcome (Next × HostCollector) → Type 0
RoundLeaves env o =
    (n : Next) × (hc : HostCollector) × (o ≡ ok (n, hc))
    × (((q : JobsQueue) × IsWorking env.world.smooth hc q) ⊎ (IsStopped hc × (env.stops ≡ true)))

popped : HostCollector → JobsQueue → Heap → HostCollector
popped hc q h = record hc { queue = some q; heap = h }

popped-IsWorking :
    (smooth : Bool) (hc : HostCollector) (q q' : JobsQueue) (h : Heap)
    → IsWorking smooth hc q
    → IsQueue smooth q' h
    → q'.target ≡ q.target
    → IsWorking smooth (popped hc q' h) q'
unfolding popped
popped-IsWorking smooth hc q q' h w v e =
    changed smooth hc q q' (some q') h hc.sent hc.pollaris_name w refl v e

module _ (env : Env) (i : IsEnv env) where
  -- the rest of a round in which Pop took the job `a`
  taken-Leaves :
      (found : Option Poll) (a : ℕ) (hc : HostCollector) (q : JobsQueue)
      → In a q.jobs
      → IsWorking env.world.smooth hc q
      → RoundLeaves env (elim found [
        | none ↦ ok (goes_on, hc)
        | some poll ↦ run_job (λ h. stop env h) env a poll hc >>= λ hc'. ok (goes_on, hc')
      ])
  taken-Leaves none a hc q m w = (goes_on, hc, refl, inl (q, w))
  taken-Leaves (some poll) a hc q m w =
      let (hc', e, l) = run_job-Leaves env i a poll hc q m w in (goes_on, hc', bind_ok _ e, l)

  -- A round of the loop on a working host returns, and leaves a working host, or one that was stopped
  -- during the round, which is while a collector executed its job. Polls come with plans in order, random
  -- numbers are in range, and a protocol collector leaves the names and the plan of its job.
  pub collect_round-Leaves :
      (hc : HostCollector) (q : JobsQueue)
      → IsWorking env.world.smooth hc q
      → (n : Next) × (hc' : HostCollector) × (collect_round (λ h. stop env h) env hc ≡ ok (n, hc'))
        × (((q' : JobsQueue) × IsWorking env.world.smooth hc' q')
            ⊎ (IsStopped hc' × (env.stops ≡ true)))
  unfolding collect_round popped
  collect_round-Leaves hc q w = elim (Bool-cases (not hc.running)) [
    | inl y ↦ (ended, hc, if_yes _ y, inl (q, w))
    | inr d ↦
        let smooth = env.world.smooth in
        let (k, same, on, found) =
          pop_first_due env.world q hc.heap i.world
            (IsQueue-IsOpen env.world q hc.heap w.queue.order) in
        let read = ap (λ o. pop env.world o hc.heap) w.queue.queue in
        elim found [
          | inl m ↦
              let v = pop-IsQueue env.world q q hc.heap k i.world w.queue.order m.result in
              (
                _,
                popped hc q k,
                if_no _ d ∙ bind_ok _ (read ∙ m.result),
                inl (q, popped-IsWorking smooth hc q q k w v refl),
              )
          | inr (before, a, after, t, f) ↦
              let q1 : JobsQueue = record q { jobs = (before ++ after) ++ a ∷ [] } in
              let v = pop-IsQueue env.world q q1 hc.heap k i.world w.queue.order f.result in
              let hp = popped hc q1 k in
              let (n, hc', e, u) =
                taken-Leaves (env.poll_of (job_at hp a).pollaris_name (job_at hp a).job_name) a hp
                  q1 (In-right a (before ++ after) (a ∷ []) (inl refl))
                  (popped-IsWorking smooth hc q q1 k w v refl) in
              (n, hc', if_no _ d ∙ bind_ok _ (read ∙ f.result) ∙ e, u)
        ]
  ]
