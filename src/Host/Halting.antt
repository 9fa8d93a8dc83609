-- ===== src/Host/Halting.antt =====
-- What stops the loop of a host, and what wakes it: stop, and Expedite after an admission event.
use l8collector.Prelude.{
  ℕ, ◌≡◌, refl, sym, ap, subst, ◌∙◌, ◌⊎◌, inl, inr, Bool, true, false, not, none, some, List, [],
  ◌∷◌, ◌++◌, map, In, Outcome, ok, panic, bind_ok, if_no, nat_eq, string_eq, arith, Bool-cases,
  ◌==◌,
}
use l8collector.Types.{CJob, empty_job, Target, Protocol, protocol_eq}
use l8collector.Prelude.Dict.{Dict}
use l8collector.Queue.{JobsQueue, deref, key_of, expedite}
use l8collector.Queue.Visiting.{IsRunnable}
use l8collector.Queue.Invariant.{IsQueue-change}
use l8collector.Queue.Expediting.{hurried, expedite-Hurried}
use l8collector.Host.State.{HostCollector, Env}
use l8collector.Host.Loop.{woken}
use l8collector.Host.Life.{send_device_down, stop}
use l8collector.Host.Ready.{HasQueue, IsLive}
use l8collector.Host.Working.{IsWorking, Works, changed}

-- The loop of the host is to end, and its collectors, its queue and its service are gone.
pub record IsStopped (hc : HostCollector) : Type 0 where
  pub running : hc.running ≡ false
  pub collectors : hc.collectors ≡ none
  pub queue : hc.queue ≡ none
  pub service : hc.has_service ≡ false

-- the state after `stop`
stopped : Env → Target → Dict Protocol (Unit {0}) → HostCollector → HostCollector
stopped env t cols hc = record hc {
  running = false;
  admission = false;
  collectors = none;
  queue = none;
  boot_stages = [];
  target = none;
  has_service = false;
  sent =
      hc.sent
      ++ record empty_job {
        target_id = t.target_id;
        host_id = hc.host_id;
        links_id = t.links_id;
        job_name = "deviceStatus";
        pollaris_name = "boot02";
        always = true;
        result = some (env.encode_status (map (λ c. (c.0, false)) cols));
      }
        ∷ [];
}

-- A host that was not stopped can be stopped.
pub stop-IsStopped :
    (smooth : Bool) (env : Env) (hc : HostCollector) (q : JobsQueue)
    → IsLive hc
    → HasQueue smooth hc q
    → (hc' : HostCollector) × (stop env hc ≡ ok hc') × IsStopped hc'
unfolding stop send_device_down stopped
stop-IsStopped smooth env hc q live v =
    let (t, et) = live.target in
    let (cols, ec) = live.collectors in
    (
      stopped env t cols hc,
      bind_ok _
            (bind_ok _ (ap deref et) ∙ bind_ok _ (ap deref ec) ∙ if_no panic (ap not live.service))
          ∙ bind_ok _ (ap deref v.queue),
      record { running = refl; collectors = refl; queue = refl; service = refl },
    )

hurried-key : (j : CJob) → key_of (hurried j) ≡ key_of j
hurried-key j = ground arith

hurried-IsRunnable :
    (smooth : Bool) (j : CJob) → IsRunnable smooth j → IsRunnable smooth (hurried j)
hurried-IsRunnable smooth j (plan, e, v) = (plan, same ∙ e, v)
  where
    same : (hurried j).cadence ≡ j.cadence
    same = ground arith

In-or : (a : ℕ) (jobs : List ℕ) → In a jobs ⊎ (¬ In a jobs)
In-or a [] = inr (λ m. m)
In-or a (b ∷ jobs) = elim (Bool-cases (b == a)) [
  | inl y ↦ inl (inl ((nat_eq.same_iff b a).0 y))
  | inr n ↦ elim (In-or a jobs) [
    | inl m ↦ inl (inr m)
    | inr d ↦ inr (λ m. elim m [ inl e ↦ cc ((nat_eq.same_iff b a).1 e, n) | inr k ↦ d k ])
  ]
]

-- A wake-up keeps a working host working.
pub woken-Works :
    (smooth : Bool) (hc : HostCollector) (q : JobsQueue)
    → IsWorking smooth hc q
    → Works smooth (woken hc)
unfolding woken
woken-Works smooth hc q w =
    let v = w.queue.order in
    let (k, e, g) = expedite-Hurried smooth q hc.heap v in
    let keys : (a : ℕ) → key_of (k.cell a) ≡ key_of (hc.heap.cell a) = λ a. elim (In-or a q.jobs) [
      | inl m ↦ ap key_of (g.listed a m) ∙ hurried-key (hc.heap.cell a)
      | inr d ↦ ap key_of (g.others a d)
    ] in
    let order =
      IsQueue-change smooth q hc.heap k q.jobs v (omega (arith, g.next)) keys
        (λ a m.
          subst (IsRunnable smooth) (sym (g.listed a m))
            (hurried-IsRunnable smooth (hc.heap.cell a) (v.runnable a m)))
        v.distinct (λ a. (λ m. m, λ m. m)) in
    (
      record hc { heap = k },
      q,
      bind_ok _ (ap (λ o. expedite o hc.heap) w.queue.queue ∙ e),
      changed smooth hc q q hc.queue k hc.sent hc.pollaris_name w w.queue.queue order refl,
    )

-- A call on the host, with its surroundings, returns, and leaves one that works, or one that was stopped
-- while a collector executed its job.
abbrev pub Leaves : Bool → Env → Outcome HostCollector → Type 0
Leaves smooth env o =
    (hc : HostCollector) × (o ≡ ok hc)
    × (((q : JobsQueue) × IsWorking smooth hc q) ⊎ (IsStopped hc × (env.stops ≡ true)))

pub leaving :
    (smooth : Bool) (env : Env) {o : Outcome HostCollector} → Works smooth o → Leaves smooth env o
leaving smooth env (hc, q, e, w) = (hc, e, inl (q, w))

pub moved-Leaves :
    (smooth : Bool) (env : Env) {o o' : Outcome HostCollector}
    → o ≡ o'
    → Leaves smooth env o'
    → Leaves smooth env o
moved-Leaves smooth env e (hc, f, l) = (hc, e ∙ f, l)
