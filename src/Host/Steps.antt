-- ===== src/Host/Steps.antt =====
-- One step of the loop over complete boot stages: what it makes of the host.
use l8collector.Prelude.{
  ℕ, suc, ◌<◌, ◌≤◌, ◌≡◌, refl, subst, ◌∙◌, ◌⊎◌, Bool, true, false, some, length, get_elem?,
  get_elem?-set_lt, set, ltb, ok, ◌>>=◌, arith, inl, inr,
}
use native.Mathlib.Decide.{dec_le}
use l8collector.Queue.{Registry, Heap, JobsQueue, deref}
use l8collector.Queue.Insertion.{Grows, Grows-refl, Grows-trans}
use l8collector.Queue.Insertion.Polls.{IsRegistry}
use l8collector.Host.State.{BootState, HostCollector}
use l8collector.Host.Stage.{is_complete, new_boot_state}
use l8collector.Host.Loop.{advance}
use l8collector.Host.Ready.{HasQueue, IsLive}

-- The stage has a state, complete or not.
abbrev pub StageIs : HostCollector → ℕ → Bool → Type 0
StageIs hc i b =
    (bs : BootState) × (get_elem? hc.boot_stages i ≡ some (some bs))
    × (is_complete bs.job_names ≡ b)

-- The sequence is over, or its current stage waits for a job.
abbrev pub Waits : HostCollector → Type 0
Waits hc = (hc.current_boot_stage ≡ 5) ⊎ StageIs hc hc.current_boot_stage false

-- How the boot sequence takes a host from `hc` to `hc'`.
pub record Advanced (smooth : Bool) (hc : HostCollector) (q : JobsQueue) (hc' : HostCollector)
    (q' : JobsQueue) : Type 0 where
  pub live : IsLive hc'
  pub queue : HasQueue smooth hc' q'
  pub grows : Grows q hc.heap q' hc'.heap
  pub running : hc'.running ≡ hc.running
  pub sent : hc'.sent ≡ hc.sent
  pub forward : hc.current_boot_stage ≤ hc'.current_boot_stage
  pub bounded : hc'.current_boot_stage ≤ 5
  pub below :
      (i : ℕ) → i < hc.current_boot_stage → get_elem? hc'.boot_stages i ≡ get_elem? hc.boot_stages i
  pub passed : (i : ℕ) → hc.current_boot_stage ≤ i → i < hc'.current_boot_stage → StageIs hc' i true
  pub waits : Waits hc'

module _ (smooth : Bool) (r : Registry) (i : IsRegistry smooth r) where
  -- the stage waits
  pub stay :
      (hc : HostCollector) (q : JobsQueue)
      → IsLive hc
      → HasQueue smooth hc q
      → hc.current_boot_stage < 5
      → StageIs hc hc.current_boot_stage false
      → Advanced smooth hc q hc q
  stay hc q live v lt w = record {
    live = live;
    queue = v;
    grows = Grows-refl q hc.heap;
    running = refl;
    sent = refl;
    forward = omega arith;
    bounded = omega arith;
    below = λ j l. refl;
    passed = λ j l m. absurd (omega arith);
    waits = inr w;
  }

  -- the last stage is complete
  pub finish :
      (hc : HostCollector) (q : JobsQueue)
      → IsLive hc
      → HasQueue smooth hc q
      → hc.current_boot_stage ≡ 4
      → StageIs hc hc.current_boot_stage true
      → Advanced smooth hc q (record hc { current_boot_stage = suc hc.current_boot_stage }) q
  finish hc q live v e w = record {
    live = record {
      service = live.service;
      collectors = live.collectors;
      target = live.target;
      stages = live.stages;
    };
    queue = record { queue = v.queue; order = v.order; target = v.target };
    grows = Grows-refl q hc.heap;
    running = refl;
    sent = refl;
    forward = omega arith;
    bounded = omega arith;
    below = λ j l. refl;
    passed = λ j l m. subst (λ (n : ℕ). StageIs hc n true) (omega arith) w;
    waits = inl (omega arith);
  }

  -- the host with its next stage
  unfoldable pub enter : HostCollector → BootState → JobsQueue → Heap → HostCollector
  enter hc bs q h = record hc {
    current_boot_stage = suc hc.current_boot_stage;
    queue = some q;
    heap = h;
    boot_stages = set hc.boot_stages (suc hc.current_boot_stage) (some bs);
  }

  -- a complete stage, and what follows from the next one
  pub pass :
      (hc : HostCollector) (q : JobsQueue) (bs : BootState) (q1 : JobsQueue) (h1 : Heap)
      (hc' : HostCollector) (q' : JobsQueue)
      → StageIs hc hc.current_boot_stage true
      → Grows q hc.heap q1 h1
      → Advanced smooth (enter hc bs q1 h1) q1 hc' q'
      → Advanced smooth hc q hc' q'
  unfolding enter
  pass hc q bs q1 h1 hc' q' (b, e, c) g a = record {
    live = a.live;
    queue = a.queue;
    grows = Grows-trans q q1 q' hc.heap h1 hc'.heap g a.grows;
    running = a.running;
    sent = a.sent;
    forward = omega (arith, a.forward);
    bounded = a.bounded;
    below = λ j l.
        a.below j (omega arith)
        ∙ get_elem?-set_lt hc.boot_stages (suc hc.current_boot_stage) j (some bs) (omega arith);
    passed = λ j l m. elim (dec_le (suc hc.current_boot_stage) j) [
      | yes later ↦ a.passed j later m
      | no this ↦
          subst (λ (n : ℕ). StageIs hc' n true) (omega arith)
            (
              b,
              a.below hc.current_boot_stage (omega arith)
                  ∙ get_elem?-set_lt hc.boot_stages (suc hc.current_boot_stage)
                      hc.current_boot_stage (some bs) (omega arith)
                  ∙ e,
              c,
            )
    ];
    waits = a.waits;
  }

  pub advance-stay :
      (fuel : ℕ) (hc : HostCollector)
      → StageIs hc hc.current_boot_stage false
      → advance r (suc fuel) hc ≡ ok hc
  unfolding advance
  advance-stay fuel hc (bs, e, c) = rw (e, ◌>>=◌, deref) (rw c refl)

  pub advance-finish :
      (fuel : ℕ) (hc : HostCollector)
      → StageIs hc hc.current_boot_stage true
      → ltb (suc hc.current_boot_stage) (length hc.boot_stages) ≡ false
      → advance r (suc fuel) hc ≡ ok (record hc { current_boot_stage = suc hc.current_boot_stage })
  unfolding advance
  advance-finish fuel hc (bs, e, c) t = rw (e, ◌>>=◌, deref) (rw c (rw t refl))

  pub advance-pass :
      (fuel : ℕ) (hc hc' : HostCollector) (bs : BootState) (q : JobsQueue) (h : Heap)
      → StageIs hc hc.current_boot_stage true
      → ltb (suc hc.current_boot_stage) (length hc.boot_stages) ≡ true
      → new_boot_state r
          (suc hc.current_boot_stage)
          (record hc { current_boot_stage = suc hc.current_boot_stage })
        ≡ ok (
          bs,
          record hc { current_boot_stage = suc hc.current_boot_stage; queue = some q; heap = h },
        )
      → advance r fuel (enter hc bs q h) ≡ ok hc'
      → advance r (suc fuel) hc ≡ ok hc'
  unfolding advance enter
  advance-pass fuel hc hc' bs q h (b, e, c) t n a =
      rw (e, ◌>>=◌, deref) (rw c (rw t (rw (n, ◌>>=◌) a)))
