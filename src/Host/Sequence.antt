-- ===== src/Host/Sequence.antt =====
-- The boot sequence: the loop over complete stages ends, and stops at the first stage that waits.
use l8collector.Prelude.{
  ℕ, zero, suc, ◌+◌, ◌<◌, ◌≤◌, ◌≡◌, refl, ◌∙◌, Bool, true, false, some, length, length-set,
  get_elem?-set_self, ltb, ok, arith, Bool-cases, inl, inr,
}
use l8collector.Queue.{Registry, Heap, JobsQueue}
use l8collector.Queue.Invariant.{IsQueue}
use l8collector.Queue.Insertion.Polls.{IsRegistry, HasTarget}
use l8collector.Host.State.{BootState, HostCollector}
use l8collector.Host.Stage.{is_complete}
use l8collector.Host.Loop.{advance}
use l8collector.Host.Ready.{HasQueue, IsLive, new_boot_state-Staged}
use l8collector.Host.Steps.{
  StageIs, Advanced, stay, finish, enter, pass, advance-stay, advance-finish, advance-pass,
}

module _ (smooth : Bool) (r : Registry) (i : IsRegistry smooth r) where
  enter-IsLive :
      (hc : HostCollector) (bs : BootState) (q : JobsQueue) (h : Heap)
      → IsLive hc
      → IsLive (enter smooth r i hc bs q h)
  unfolding enter
  enter-IsLive hc bs q h live = record {
    service = live.service;
    collectors = live.collectors;
    target = live.target;
    stages = length-set hc.boot_stages (suc hc.current_boot_stage) (some bs) ∙ live.stages;
  }

  -- The loop ends within the stages that are left.
  pub advance-Advanced :
      (fuel : ℕ) (hc : HostCollector) (q : JobsQueue)
      → IsLive hc
      → HasQueue smooth hc q
      → hc.current_boot_stage < 5
      → 5 ≤ fuel + hc.current_boot_stage
      → (b : Bool) → StageIs hc hc.current_boot_stage b
      → (hc' : HostCollector) × (q' : JobsQueue) × (advance r fuel hc ≡ ok hc')
        × Advanced smooth hc q hc' q'
  advance-Advanced zero hc q live v lt f b w = absurd (omega arith)
  advance-Advanced (suc fuel) hc q live v lt f false w =
      (hc, q, advance-stay smooth r i fuel hc w, stay smooth r i hc q live v lt w)
  advance-Advanced (suc fuel) hc q live v lt f true w =
      elim (Bool-cases (ltb (suc hc.current_boot_stage) (length hc.boot_stages))) [
        | inr last ↦ (
          _,
          q,
          advance-finish smooth r i fuel hc w last,
          finish smooth r i hc q live v (ground (arith, live.stages)) w,
        )
        | inl more ↦
            let n : ℕ = suc hc.current_boot_stage in
            let below5 : n < 5 = ground (arith, live.stages) in
            let moved : HostCollector = record hc { current_boot_stage = n } in
            let (bs, q1, h1, s) =
              new_boot_state-Staged smooth r n moved q i below5
                (record {
                  service = live.service;
                  collectors = live.collectors;
                  target = live.target;
                  stages = live.stages;
                })
                (record { queue = v.queue; order = v.order; target = v.target }) in
            let next : HostCollector = enter smooth r i hc bs q1 h1 in
            let (hc', q', e, a) =
              advance-Advanced fuel next q1 (enter-IsLive hc bs q1 h1 live)
                (entered hc bs q1 h1 s.grown.order s.grown.target) (enter-lt hc bs q1 h1 below5)
                (enter-fuel hc bs q1 h1 fuel f) (is_complete bs.job_names)
                (enter-StageIs hc bs q1 h1 below5 live.stages) in
            (
              hc',
              q',
              advance-pass smooth r i fuel hc hc' bs q1 h1 w more s.result e,
              pass smooth r i hc q bs q1 h1 hc' q' w s.grown.grows a,
            )
      ]
    where
      entered :
          (hc : HostCollector) (bs : BootState) (q : JobsQueue) (h : Heap)
          → IsQueue smooth q h
          → HasTarget q
          → HasQueue smooth (enter smooth r i hc bs q h) q
      entered hc bs q h v t = unfold enter in record { queue = refl; order = v; target = t }

      enter-lt :
          (hc : HostCollector) (bs : BootState) (q : JobsQueue) (h : Heap)
          → suc hc.current_boot_stage < 5
          → (enter smooth r i hc bs q h).current_boot_stage < 5
      enter-lt hc bs q h lt = unfold enter in lt

      enter-fuel :
          (hc : HostCollector) (bs : BootState) (q : JobsQueue) (h : Heap) (fuel : ℕ)
          → 5 ≤ suc fuel + hc.current_boot_stage
          → 5 ≤ fuel + (enter smooth r i hc bs q h).current_boot_stage
      enter-fuel hc bs q h fuel f = unfold enter in omega arith

      enter-StageIs :
          (hc : HostCollector) (bs : BootState) (q : JobsQueue) (h : Heap)
          → suc hc.current_boot_stage < 5
          → length hc.boot_stages ≡ 5
          → StageIs
              (enter smooth r i hc bs q h)
              (enter smooth r i hc bs q h).current_boot_stage
              (is_complete bs.job_names)
      enter-StageIs hc bs q h lt l =
          unfold enter in
          (
            bs,
            get_elem?-set_self hc.boot_stages (suc hc.current_boot_stage) (some bs) (omega arith),
            refl,
          )
