-- ===== src/Host/Working.antt =====
-- A host that works: not stopped, its queue in order, its boot sequence at a stage or over. What happens
-- to one of its jobs keeps it so.
use l8collector.Prelude.{
  ℕ, ◌≡◌, refl, sym, ap, ◌∙◌, subst, inl, inr, Bool, Option, none, some, List, [], ◌∷◌, ◌++◌, not,
  String, In, Outcome, ok, ◌>>=◌, bind_ok, ◌==◌, if◌then◌else◌, if_yes, if_no, nat_eq, string_eq,
  arith, Bool-cases,
}
use l8collector.Prelude.Int.{ℤ, pos, negsuc}
use l8collector.Types.{CJob, Pollaris, named}
use l8collector.Cadence.Slices.{InRange}
use l8collector.Change.{job_has_change, slow_down}
use l8collector.Change.Detection.{job_has_change_iff}
use l8collector.Queue.{Heap, JobsQueue, store, deref, key_of, insert_job}
use l8collector.Queue.Visiting.{IsRunnable}
use l8collector.Queue.Invariant.{IsQueue, IsQueue-change}
use l8collector.Queue.Insertion.Polls.{IsRegistry, insert_job-total}
use l8collector.Host.State.{HostCollector, Env}
use l8collector.Host.Loop.{
  job_at, put_job, fast_again, forward, job_complete, boot_detail_device, sysoid_of, complete_round,
}
use l8collector.Host.Ready.{HasQueue, IsLive}
use l8collector.Host.Progress.{IsBooting, Advanced-IsBooting, boot_progress-Advanced}

pub record IsWorking (smooth : Bool) (hc : HostCollector) (q : JobsQueue) : Type 0 where
  pub live : IsLive hc
  pub queue : HasQueue smooth hc q
  pub booting : IsBooting hc

-- The same job, with a plan in order.
abbrev pub Stays : Bool → CJob → CJob → Type 0
Stays smooth j k = (key_of k ≡ key_of j) × IsRunnable smooth k

-- A host that differs in its queue, its jobs and what it sent works if its queue is in order.
pub changed :
    (smooth : Bool) (hc : HostCollector) (q q' : JobsQueue) (o : Option JobsQueue) (h : Heap)
    (sent : List CJob) (name : String)
    → IsWorking smooth hc q
    → o ≡ some q'
    → IsQueue smooth q' h
    → q'.target ≡ q.target
    → IsWorking smooth (record hc { queue = o; heap = h; sent = sent; pollaris_name = name }) q'
changed smooth hc q q' o h sent name w e v t = record {
  live = record {
    service = w.live.service;
    collectors = w.live.collectors;
    target = w.live.target;
    stages = w.live.stages;
  };
  queue = record { queue = e; order = v; target = (w.queue.target.0, t ∙ w.queue.target.1) };
  booting = record { bounded = w.booting.bounded; at = w.booting.at };
}

module _ (smooth : Bool) (hc : HostCollector) (q : JobsQueue) (w : IsWorking smooth hc q) where
  put_job-IsQueue :
      (a : ℕ) (j : CJob) → Stays smooth (job_at hc a) j → IsQueue smooth q (store hc.heap a j)
  put_job-IsQueue a j s =
      IsQueue-change smooth q hc.heap (store hc.heap a j) q.jobs w.queue.order (omega arith)
        (λ b. elim (Bool-cases (a == b)) [
          | inl e ↦
              ap key_of (if_yes (hc.heap.cell b) e)
              ∙ s.0
              ∙ ap (λ n. key_of (hc.heap.cell n)) ((nat_eq.same_iff a b).0 e)
          | inr d ↦ ap key_of (if_no j d)
        ])
        (λ b m. elim (Bool-cases (a == b)) [
          | inl e ↦ subst (IsRunnable smooth) (sym (if_yes (hc.heap.cell b) e)) s.1
          | inr d ↦ subst (IsRunnable smooth) (sym (if_no j d)) (w.queue.order.runnable b m)
        ])
        w.queue.order.distinct (λ b. (λ m. m, λ m. m))

  pub put_job-IsWorking :
      (a : ℕ) (j : CJob) → Stays smooth (job_at hc a) j → IsWorking smooth (put_job hc a j) q
  put_job-IsWorking a j s =
      changed smooth hc q q hc.queue (store hc.heap a j) hc.sent hc.pollaris_name w w.queue.queue
        (put_job-IsQueue a j s) refl

  sent-IsWorking : (jobs : List CJob) → IsWorking smooth (record hc { sent = jobs }) q
  sent-IsWorking jobs =
      changed smooth hc q q hc.queue hc.heap jobs hc.pollaris_name w w.queue.queue w.queue.order
        refl

nonempty : (i : ℤ) (cs : List ℤ) → InRange i cs → InRange (pos 0) cs
nonempty (pos n) cs h = omega arith
nonempty (negsuc n) cs h = absurd h

fast_again-Stays :
    (smooth : Bool) (job : CJob)
    → IsRunnable smooth job
    → (job' : CJob) × (fast_again job ≡ ok job') × Stays smooth job job'
unfolding fast_again
fast_again-Stays smooth job (plan, e, v) = (
  record job { cadence = some (record plan { current = pos 0 }) },
  bind_ok _ (ap deref e),
  (
    refl,
    (
      record plan { current = pos 0 },
      refl,
      record {
        in_range = nonempty plan.current plan.cadences v.in_range;
        fits = v.fits;
        positive = v.positive;
      },
    ),
  ),
)

job_has_change-key :
    (job job' : CJob) (b : Bool) → job_has_change job ≡ ok (b, job') → key_of job' ≡ key_of job
unfolding job_has_change slow_down
job_has_change-key job job' b e = ground (arith, e)

job_has_change-Stays :
    (smooth : Bool) (job : CJob)
    → IsRunnable smooth job
    → (b : Bool) × (job' : CJob) × (job_has_change job ≡ ok (b, job')) × Stays smooth job job'
job_has_change-Stays smooth job r =
    let (b, job', e, s, c) = job_has_change_iff smooth job r in
    (b, job', e, (job_has_change-key job job' b e, s))

-- A call on the host returns, and leaves one that works.
abbrev pub Works : Bool → Outcome HostCollector → Type 0
Works smooth o = (hc : HostCollector) × (q : JobsQueue) × (o ≡ ok hc) × IsWorking smooth hc q

pub moved :
    (smooth : Bool) {o o' : Outcome HostCollector} → o ≡ o' → Works smooth o' → Works smooth o
moved smooth e (hc, q, f, w) = (hc, q, e ∙ f, w)

module _ (smooth : Bool) (env : Env) (i : IsRegistry smooth env.registry) where
  detail_inserted :
      (hc : HostCollector) (q : JobsQueue) (p : Pollaris)
      → IsWorking smooth hc q
      → Works smooth (
          insert_job env.registry (named p.name) hc.queue hc.heap
          >>= λ ((err, q, h) : Option String × Option JobsQueue × Heap).
              ok (record hc { pollaris_name = p.name; queue = q; heap = h }))
  detail_inserted hc q p w =
      let (err, q', h', e, v, g) =
        insert_job-total smooth env.registry (named p.name) q hc.heap i w.queue.order
          w.queue.target in
      (
        record hc { pollaris_name = p.name; queue = some q'; heap = h' },
        q',
        bind_ok _ (ap (λ o. insert_job env.registry (named p.name) o hc.heap) w.queue.queue ∙ e),
        changed smooth hc q q' (some q') h' hc.sent p.name w refl v g.target,
      )

  detail_found :
      (found : Option Pollaris) (hc : HostCollector) (q : JobsQueue)
      → IsWorking smooth hc q
      → Works smooth (elim found [
        | none ↦ ok hc
        | some p ↦
            if p.name == "boot03"
            then ok hc
            else insert_job env.registry (named p.name) hc.queue hc.heap
              >>= λ ((err, q, h) : Option String × Option JobsQueue × Heap).
                  ok (record hc { pollaris_name = p.name; queue = q; heap = h })
      ])
  detail_found none hc q w = (hc, q, refl, w)
  detail_found (some p) hc q w = elim (Bool-cases (p.name == "boot03")) [
    | inl y ↦ (hc, q, if_yes _ y, w)
    | inr d ↦ moved smooth (if_no _ d) (detail_inserted hc q p w)
  ]

  boot_detail_device-Works :
      (job : CJob) (hc : HostCollector) (q : JobsQueue)
      → IsWorking smooth hc q
      → Works smooth (boot_detail_device env job hc)
  unfolding boot_detail_device
  boot_detail_device-Works job hc q w = elim (Bool-cases (not (hc.pollaris_name == ""))) [
    | inl y ↦ (hc, q, if_yes _ y, w)
    | inr d ↦ moved smooth (if_no _ d) (elim (Bool-cases (sysoid_of env job.result == "")) [
      | inl y ↦ (hc, q, if_yes _ y, w)
      | inr k ↦
          moved smooth (if_no _ k)
            (detail_found (env.pollaris_by_oid (sysoid_of env job.result)) hc q w)
    ])
  ]

  forward-Works :
      (a : ℕ) (hc : HostCollector) (q : JobsQueue)
      → IsWorking smooth hc q
      → Works smooth (forward env a hc)
  unfolding forward
  forward-Works a hc q w =
      let job = job_at hc a in
      let sent : HostCollector = record hc { sent = hc.sent ++ job ∷ [] } in
      let v = sent-IsWorking smooth hc q w (hc.sent ++ job ∷ []) in
      elim (Bool-cases (job.job_name == "systemMib")) [
        | inl y ↦ moved smooth (if_yes _ y) (boot_detail_device-Works job sent q v)
        | inr d ↦ (sent, q, if_no _ d, v)
      ]

  job_complete-Works :
      (a : ℕ) (hc : HostCollector) (q : JobsQueue)
      → In a q.jobs
      → IsWorking smooth hc q
      → Works smooth (job_complete env a hc)
  unfolding job_complete
  job_complete-Works a hc q m w =
      let job = job_at hc a in
      let r = w.queue.order.runnable a m in
      moved smooth (if_no _ (ap not w.live.service)) (elim (Bool-cases (not (job.error == ""))) [
        | inl y ↦
            let (job', e, s) = fast_again-Stays smooth job r in
            (
              put_job hc a job',
              q,
              if_yes _ y ∙ bind_ok _ e,
              put_job-IsWorking smooth hc q w a job' s,
            )
        | inr d ↦
            let (b, job', e, s) = job_has_change-Stays smooth job r in
            let v = put_job-IsWorking smooth hc q w a job' s in
            moved smooth (if_no _ d ∙ bind_ok _ e) (elim (Bool-cases (not b)) [
              | inl y ↦ (put_job hc a job', q, if_yes _ y, v)
              | inr k ↦ moved smooth (if_no _ k) (forward-Works a (put_job hc a job') q v)
            ])
      ])

  -- The end of a round: the change of the result, and the boot sequence.
  pub complete_round-Works :
      (a : ℕ) (hc : HostCollector) (q : JobsQueue)
      → In a q.jobs
      → IsWorking smooth hc q
      → Works smooth (complete_round env a hc)
  unfolding complete_round
  complete_round-Works a hc q m w =
      let (hc1, q1, e, w1) = job_complete-Works a hc q m w in
      let (hc2, q2, f, s) =
        boot_progress-Advanced smooth env.registry i (job_at hc1 a).job_name hc1 q1 w1.live w1.queue
          w1.booting in
      (
        hc2,
        q2,
        bind_ok _ e ∙ f,
        record {
          live = s.live;
          queue = s.queue;
          booting = Advanced-IsBooting smooth hc1 hc2 q1 q2 s;
        },
      )
