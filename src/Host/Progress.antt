-- ===== src/Host/Progress.antt =====
-- A completed job moves the boot sequence on.
use l8collector.Prelude.{
  ◌<◌, ◌≤◌, ◌≡◌, refl, ◌∙◌, Bool, true, false, some, String, length, length-set, get_elem?,
  get_elem?-set_self, get_elem?-set_lt, set, ltb, ok, ◌>>=◌, arith, inl, inr,
}
use native.Mathlib.Decide.{dec_le}
use l8collector.Queue.{Registry, JobsQueue, deref}
use l8collector.Queue.Insertion.{Grows-refl}
use l8collector.Queue.Insertion.Polls.{IsRegistry}
use l8collector.Host.State.{BootState, HostCollector}
use l8collector.Host.Stage.{is_complete, boot_job_complete}
use l8collector.Host.Loop.{advance, boot_progress}
use l8collector.Host.Ready.{HasQueue, IsLive}
use l8collector.Host.Steps.{StageIs, Advanced}
use l8collector.Host.Sequence.{advance-Advanced}

-- The current stage has a state, or the sequence is over.
pub record IsBooting (hc : HostCollector) : Type 0 where
  pub bounded : hc.current_boot_stage ≤ 5
  pub at :
      hc.current_boot_stage < 5
      → (bs : BootState) × (get_elem? hc.boot_stages hc.current_boot_stage ≡ some (some bs))

pub Advanced-IsBooting :
    (smooth : Bool) (hc hc' : HostCollector) (q q' : JobsQueue)
    → Advanced smooth hc q hc' q'
    → IsBooting hc'
Advanced-IsBooting smooth hc hc' q q' a = record {
  bounded = a.bounded;
  at = λ lt. elim a.waits [ inl over ↦ absurd (omega arith) | inr (bs, e, c) ↦ (bs, e) ];
}

-- the host whose current stage has taken note of the job
noted : String → BootState → HostCollector → HostCollector
noted name bs hc = record hc {
  boot_stages = set hc.boot_stages hc.current_boot_stage (some (boot_job_complete name bs));
}

boot_progress-noted :
    (r : Registry) (name : String) (bs : BootState) (hc : HostCollector)
    → hc.current_boot_stage < 5
    → length hc.boot_stages ≡ 5
    → get_elem? hc.boot_stages hc.current_boot_stage ≡ some (some bs)
    → boot_progress r name hc ≡ advance r 5 (noted name bs hc)
unfolding boot_progress noted
boot_progress-noted r name bs hc lt l e = rw (counts hc lt l, e, ◌>>=◌, deref) (rw l refl)
  where
    counts :
        (hc : HostCollector)
        → hc.current_boot_stage < 5
        → length hc.boot_stages ≡ 5
        → ltb hc.current_boot_stage (length hc.boot_stages) ≡ true
    counts hc lt l = ground arith

boot_progress-over :
    (r : Registry) (name : String) (hc : HostCollector)
    → 5 ≤ hc.current_boot_stage
    → length hc.boot_stages ≡ 5
    → boot_progress r name hc ≡ ok hc
unfolding boot_progress
boot_progress-over r name hc le l = rw (over hc le l) refl
  where
    over :
        (hc : HostCollector)
        → 5 ≤ hc.current_boot_stage
        → length hc.boot_stages ≡ 5
        → ltb hc.current_boot_stage (length hc.boot_stages) ≡ false
    over hc le l = ground arith

module _ (smooth : Bool) (r : Registry) (i : IsRegistry smooth r) (name : String)
    (hc : HostCollector) (q : JobsQueue) (live : IsLive hc) (v : HasQueue smooth hc q) where
  over-Advanced : hc.current_boot_stage ≡ 5 → Advanced smooth hc q hc q
  over-Advanced e = record {
    live = live;
    queue = v;
    grows = Grows-refl q hc.heap;
    running = refl;
    sent = refl;
    forward = omega arith;
    bounded = omega arith;
    below = λ j l. refl;
    passed = λ j l m. absurd (omega arith);
    waits = inl e;
  }

  module _ (bs : BootState) where
    noted-IsLive : IsLive (noted name bs hc)
    unfolding noted
    noted-IsLive = record {
      service = live.service;
      collectors = live.collectors;
      target = live.target;
      stages =
          length-set hc.boot_stages hc.current_boot_stage (some (boot_job_complete name bs))
          ∙ live.stages;
    }

    noted-HasQueue : HasQueue smooth (noted name bs hc) q
    unfolding noted
    noted-HasQueue = record { queue = v.queue; order = v.order; target = v.target }

    noted-StageIs :
        hc.current_boot_stage < 5
        → StageIs
            (noted name bs hc)
            (noted name bs hc).current_boot_stage
            (is_complete (boot_job_complete name bs).job_names)
    unfolding noted
    noted-StageIs lt = (
      boot_job_complete name bs,
      get_elem?-set_self hc.boot_stages hc.current_boot_stage (some (boot_job_complete name bs))
          (omega (arith, live.stages)),
      refl,
    )

    noted-stage : (noted name bs hc).current_boot_stage ≡ hc.current_boot_stage
    unfolding noted
    noted-stage = refl

    Advanced-noted :
        (hc' : HostCollector) (q' : JobsQueue)
        → Advanced smooth (noted name bs hc) q hc' q'
        → Advanced smooth hc q hc' q'
    unfolding noted
    Advanced-noted hc' q' a = record {
      live = a.live;
      queue = a.queue;
      grows = a.grows;
      running = a.running;
      sent = a.sent;
      forward = a.forward;
      bounded = a.bounded;
      below = λ j l.
          a.below j l
          ∙ get_elem?-set_lt hc.boot_stages hc.current_boot_stage j
              (some (boot_job_complete name bs)) l;
      passed = a.passed;
      waits = a.waits;
    }

  -- After a completed job the boot sequence, on a live host, has moved on without a panic past every
  -- stage that is complete, to the first that waits for a job or to the end of the five stages. It
  -- never moves back, and the states of the stages before are as they were.
  pub boot_progress-Advanced :
      IsBooting hc
      → (hc' : HostCollector) × (q' : JobsQueue) × (boot_progress r name hc ≡ ok hc')
        × Advanced smooth hc q hc' q'
  boot_progress-Advanced b = elim (dec_le 5 hc.current_boot_stage) [
    | yes le ↦ (
      hc,
      q,
      boot_progress-over r name hc le live.stages,
      over-Advanced (omega (arith, b.bounded)),
    )
    | no lt ↦
        let lt5 : hc.current_boot_stage < 5 = omega arith in
        let (bs, e) = b.at lt5 in
        let (hc', q', f, a) =
          advance-Advanced smooth r i 5 (noted name bs hc) q (noted-IsLive bs) (noted-HasQueue bs)
            (omega (arith, noted-stage bs)) (omega arith)
            (is_complete (boot_job_complete name bs).job_names) (noted-StageIs bs lt5) in
        (
          hc',
          q',
          boot_progress-noted r name bs hc lt5 live.stages e ∙ f,
          Advanced-noted bs hc' q' a,
        )
  ]
