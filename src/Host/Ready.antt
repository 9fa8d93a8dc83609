-- ===== src/Host/Ready.antt =====
-- A host whose loop can run, and the boot stage that newBootState adds to it.
use l8collector.Prelude.{
  ℕ, zero, suc, ◌<◌, ◌≡◌, refl, ◌∙◌, Bool, true, false, Option, none, some, List, [], ◌∷◌, String,
  length, get_elem?, ok, arith, Bool-cases, Option-cases, inl, inr, string_eq,
}
use l8collector.Prelude.Dict.{Dict}
use l8collector.Types.{Pollaris, Target, Protocol, named, protocol_eq}
use l8collector.Queue.{Registry, Heap, JobsQueue}
use l8collector.Queue.Invariant.{IsQueue}
use l8collector.Queue.Insertion.{Grows, Grows-refl, Grows-trans}
use l8collector.Queue.Insertion.Polls.{IsRegistry, HasTarget, insert_job-total}
use l8collector.Host.State.{BootState, HostCollector, boot_stage_names}
use l8collector.Host.Stage.{
  track_polls, insert_if, boot_pollarises, skipped, has_links_match, new_boot_state,
}

-- The queue of the host, in order.
pub record HasQueue (smooth : Bool) (hc : HostCollector) (q : JobsQueue) : Type 0 where
  pub queue : hc.queue ≡ some q
  pub order : IsQueue smooth q hc.heap
  pub target : HasTarget q

-- The host has not been stopped.
pub record IsLive (hc : HostCollector) : Type 0 where
  pub service : hc.has_service ≡ true
  pub collectors : (cols : Dict Protocol (Unit {0})) × (hc.collectors ≡ some cols)
  pub target : (t : Target) × (hc.target ≡ some t)
  pub stages : length hc.boot_stages ≡ 5

-- A queue that has grown in order.
pub record Grown (smooth : Bool) (q : JobsQueue) (h : Heap) (q' : JobsQueue) (h' : Heap)
    : Type 0 where
  pub order : IsQueue smooth q' h'
  pub grows : Grows q h q' h'
  pub target : HasTarget q'

HasTarget-Grows : (q q' : JobsQueue) (h h' : Heap) → Grows q h q' h' → HasTarget q → HasTarget q'
HasTarget-Grows q q' h h' g (t, e) = (t, g.target ∙ e)

Grown-refl :
    (smooth : Bool) (q : JobsQueue) (h : Heap)
    → IsQueue smooth q h
    → HasTarget q
    → Grown smooth q h q h
Grown-refl smooth q h v t = record { order = v; grows = Grows-refl q h; target = t }

module _ (smooth : Bool) (r : Registry) (i : IsRegistry smooth r) where
  insert_if-total :
      (has : Bool) (p : Pollaris) (q : JobsQueue) (h : Heap)
      → IsQueue smooth q h
      → HasTarget q
      → (q' : JobsQueue) × (h' : Heap) × (insert_if r has p (some q) h ≡ ok (some q', h'))
        × Grown smooth q h q' h'
  unfolding insert_if
  insert_if-total false p q h v t = (q, h, refl, Grown-refl smooth q h v t)
  insert_if-total true p q h v t =
      let (err, q', h', e, v', g) = insert_job-total smooth r (named p.name) q h i v t in
      (q', h', rw e refl, record { order = v'; grows = g; target = HasTarget-Grows q q' h h' g t })

  boot_pollarises-total :
      (t : Option Target) (matched : Bool) (cols : Dict Protocol (Unit {0})) (ps : List Pollaris)
      (names : Dict String Bool) (q : JobsQueue) (h : Heap)
      → IsQueue smooth q h
      → HasTarget q
      → (names' : Dict String Bool) × (q' : JobsQueue) × (h' : Heap) × (boot_pollarises r t matched
            cols ps names
            (some q)
            h
          ≡ ok (names', some q', h'))
        × Grown smooth q h q' h'
  unfolding boot_pollarises
  boot_pollarises-total t matched cols [] names q h v has =
      (names, q, h, refl, Grown-refl smooth q h v has)
  boot_pollarises-total t matched cols (p ∷ ps) names q h v has =
      elim (Bool-cases (skipped t matched p)) [
        | inl s ↦
            let (n, q', h', e, g) = boot_pollarises-total t matched cols ps names q h v has in
            (n, q', h', rw (s, boot_pollarises) e, g)
        | inr s ↦
            let tracked = track_polls cols p.polling (names, false) in
            let (q1, h1, e1, g1) = insert_if-total tracked.1 p q h v has in
            let (n, q2, h2, e2, g2) =
              boot_pollarises-total t matched cols ps tracked.0 q1 h1 g1.order g1.target in
            (
              n,
              q2,
              h2,
              rw (s, boot_pollarises) (rw e1 e2),
              record {
                order = g2.order;
                grows = Grows-trans q q1 q2 h h1 h2 g1.grows g2.grows;
                target = g2.target;
              },
            )
      ]

stage_name : (n : ℕ) → n < 5 → (g : String) × (get_elem? boot_stage_names n ≡ some g)
stage_name zero lt = (_, refl)
stage_name (suc zero) lt = (_, refl)
stage_name (suc (suc zero)) lt = (_, refl)
stage_name (suc (suc (suc zero))) lt = (_, refl)
stage_name (suc (suc (suc (suc zero)))) lt = (_, refl)
stage_name (suc (suc (suc (suc (suc n))))) lt = absurd (omega arith)

-- What newBootState returns on a live host: a state, and the host with a queue that has grown.
pub record Staged (smooth : Bool) (r : Registry) (n : ℕ) (hc : HostCollector) (q : JobsQueue)
    (bs : BootState) (q' : JobsQueue) (h' : Heap) : Type 0 where
  pub result : new_boot_state r n hc ≡ ok (bs, record hc { queue = some q'; heap = h' })
  pub stage : bs.stage ≡ n
  pub grown : Grown smooth q hc.heap q' h'

pub new_boot_state-Staged :
    (smooth : Bool) (r : Registry) (n : ℕ) (hc : HostCollector) (q : JobsQueue)
    → IsRegistry smooth r
    → n < 5
    → IsLive hc
    → HasQueue smooth hc q
    → (bs : BootState) × (q' : JobsQueue) × (h' : Heap) × Staged smooth r n hc q bs q' h'
new_boot_state-Staged smooth r n hc q i lt live v =
    let (g, e) = stage_name n lt in
    let (cols, c) = live.collectors in
    elim (Option-cases (r.by_group (named g))) [
      | inl missing ↦ (
        record { job_names = []; stage = n },
        q,
        hc.heap,
        record {
          result = none_result g e missing;
          stage = refl;
          grown = Grown-refl smooth q hc.heap v.order v.target;
        },
      )
      | inr (ps, found) ↦
          let (names, q', h', f, gr) =
            boot_pollarises-total smooth r i hc.target (has_links_match hc.target ps) cols ps [] q
              hc.heap v.order v.target in
          (
            record { job_names = names; stage = n },
            q',
            h',
            record {
              result = some_result g e ps found cols c names q' h' f;
              stage = refl;
              grown = gr;
            },
          )
    ]
  where
    none_result :
        (g : String)
        → get_elem? boot_stage_names n ≡ some g
        → r.by_group (named g) ≡ none
        → new_boot_state r n hc
          ≡ ok (record { job_names = []; stage = n }, record hc { queue = some q; heap = hc.heap })
    none_result g e m = unfold new_boot_state in ground (arith, v.queue, live.service)

    some_result :
        (g : String)
        → get_elem? boot_stage_names n ≡ some g
        → (ps : List Pollaris) → r.by_group (named g) ≡ some ps
        → (cols : Dict Protocol (Unit {0})) → hc.collectors ≡ some cols
        → (names : Dict String Bool) (q' : JobsQueue) (h' : Heap)
        → boot_pollarises r hc.target (has_links_match hc.target ps) cols ps [] (some q) hc.heap
          ≡ ok (names, some q', h')
        → new_boot_state r n hc
          ≡ ok (record { job_names = names; stage = n }, record hc { queue = some q'; heap = h' })
    some_result g e ps found cols c names q' h' f =
        unfold new_boot_state in ground (arith, v.queue, live.service)
