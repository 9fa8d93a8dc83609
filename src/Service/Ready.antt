-- ===== src/Service/Ready.antt =====
-- A host that can be started and stopped: what newHostCollector, start and stop of
-- go/collector/service/HostCollector.go make of it.
use l8collector.Prelude.{
  ℕ, ◌≡◌, refl, ◌∙◌, ap, sym, subst, get_elem?, Bool, Option, some, List, [], ◌∷◌, String, length,
  ok, ◌>>=◌, bind_ok, arith, string_eq,
}
use l8collector.Prelude.Dict.{Dict, get}
use l8collector.Types.{Host, Target, Protocol, protocol_eq}
use l8collector.Queue.{Registry, JobsQueue, deref, new_jobs_queue}
use l8collector.Queue.Insertion.Polls.{IsRegistry}
use l8collector.Host.State.{BootState, HostCollector, Env, new_host_collector}
use l8collector.Host.Life.{put_collectors, wants_admission, first_stage, start, stop}
use l8collector.Host.Progress.{IsBooting}
use l8collector.Host.Halting.{stop-IsStopped}
use l8collector.Host.Ready.{HasQueue, IsLive, new_boot_state-Staged}

-- The target of the host has a host of its identifier.
pub record IsKnown (hc : HostCollector) (t : Target) (x : Host) : Type 0 where
  pub target : hc.target ≡ some t
  pub found : get hc.host_id t.hosts ≡ some x

-- A host that was not stopped.
pub record IsHost (smooth : Bool) (hc : HostCollector) : Type 0 where
  pub live : IsLive hc
  pub queue : (q : JobsQueue) × HasQueue smooth hc q
  pub known : (t : Target) × (x : Host) × IsKnown hc t x

nothing-get : (key : String) (a : ℕ) → get key [] ≡ some a → ⊥
unfolding get
nothing-get key a e = cc

pub new_host_collector-IsHost :
    (smooth : Bool) (t : Target) (host_id : String) (x : Host)
    → get host_id t.hosts ≡ some x
    → IsHost smooth (new_host_collector t host_id)
unfolding new_host_collector new_jobs_queue
new_host_collector-IsHost smooth t host_id x e = record {
  live = record { service = refl; collectors = ([], refl); target = (t, refl); stages = refl };
  queue = (
    new_jobs_queue t host_id,
    record {
      queue = refl;
      order = record {
        serviced = refl;
        running = refl;
        distinct = tt;
        allocated = λ a i. absurd i;
        mapped = λ key a g. absurd (nothing-get key a g);
        listed = λ a i. absurd i;
        runnable = λ a i. absurd i;
      };
      target = (t, refl);
    },
  );
  known = (t, x, record { target = refl; found = e });
}

first_of :
    (l : List (Option BootState))
    → length l ≡ 5
    → (b : Option BootState) × (later : List (Option BootState)) × (l ≡ b ∷ later)
      × (length later ≡ 4)
first_of [] e = absurd (omega (arith, e))
first_of (b ∷ later) e = (b, later, refl, omega (arith, e))

with_collectors :
    {smooth : Bool} (hc : HostCollector) (cols : Dict Protocol (Unit {0}))
    → IsHost smooth hc
    → IsHost smooth (record hc { collectors = some cols })
with_collectors hc cols h = record {
  live = record {
    service = h.live.service;
    collectors = (cols, refl);
    target = h.live.target;
    stages = h.live.stages;
  };
  queue = (
    h.queue.0,
    record { queue = h.queue.1.queue; order = h.queue.1.order; target = h.queue.1.target },
  );
  known = (h.known.0, h.known.1, record { target = h.known.2.target; found = h.known.2.found });
}

module _ (smooth : Bool) (r : Registry) (i : IsRegistry smooth r) where
  first_stage-IsHost :
      (hc : HostCollector)
      → IsHost smooth hc
      → (hc' : HostCollector) × (first_stage r hc ≡ ok hc')
        × IsHost smooth hc'
        × (hc.current_boot_stage ≡ 0 → IsBooting hc')
  unfolding first_stage
  first_stage-IsHost hc h =
      let (q, v) = h.queue in
      let (bs, q', h', s) = new_boot_state-Staged smooth r 0 hc q i (omega arith) h.live v in
      let (b, later, e, four) = first_of hc.boot_stages h.live.stages in
      let (t, x, known) = h.known in
      (
        record hc { queue = some q'; heap = h'; boot_stages = some bs ∷ later },
        rw (s.result, ◌>>=◌) (rw e refl),
        record {
          live = record {
            service = h.live.service;
            collectors = h.live.collectors;
            target = h.live.target;
            stages = omega (arith, four);
          };
          queue = (q', record { queue = refl; order = s.grown.order; target = s.grown.target });
          known = (t, x, record { target = known.target; found = known.found });
        },
        λ z. record {
          bounded = omega (arith, z);
          at = λ lt. (bs, subst (λ n. get_elem? (some bs ∷ later) n ≡ some (some bs)) (sym z) refl);
        },
      )

  pub start-IsHost :
      (hc : HostCollector)
      → IsHost smooth hc
      → (hc' : HostCollector) × (start r hc ≡ ok hc')
        × IsHost smooth hc'
        × (hc.current_boot_stage ≡ 0 → IsBooting hc')
  unfolding start
  start-IsHost hc h =
      let (t, x, known) = h.known in
      let (cols, ec) = h.live.collectors in
      let (hc', e, h', boots) =
        first_stage-IsHost (record hc { collectors = some (put_collectors x.configs cols) })
          (with_collectors hc (put_collectors x.configs cols) h) in
      (
        record hc' { admission = wants_admission x.configs hc'.admission },
        bind_ok _ (bind_ok _ (ap deref known.target) ∙ ap deref known.found)
            ∙ bind_ok _ (ap deref ec)
            ∙ bind_ok _ e,
        record {
          live = record {
            service = h'.live.service;
            collectors = h'.live.collectors;
            target = h'.live.target;
            stages = h'.live.stages;
          };
          queue = (
            h'.queue.0,
            record {
              queue = h'.queue.1.queue;
              order = h'.queue.1.order;
              target = h'.queue.1.target;
            },
          );
          known = (
            h'.known.0,
            h'.known.1,
            record { target = h'.known.2.target; found = h'.known.2.found },
          );
        },
        λ z. let b = boots z in record { bounded = b.bounded; at = b.at },
      )

pub stop-IsHost :
    (smooth : Bool) (env : Env) (hc : HostCollector)
    → IsHost smooth hc
    → (hc' : HostCollector) × (stop env hc ≡ ok hc')
stop-IsHost smooth env hc h =
    let (hc', e, s) = stop-IsStopped smooth env hc h.queue.0 h.live h.queue.1 in (hc', e)
