-- ===== src/Host/Stage.antt =====
-- newBootState, isComplete and jobComplete of go/collector/service/BootSequence.go.
use l8collector.Prelude.{
  ℕ, Bool, true, false, not, ◌&&◌, ◌||◌, Option, none, some, List, [], ◌∷◌, String, get_elem?,
  Outcome, ok, panic, ◌>>=◌, ◌==◌, if◌then◌else◌, string_eq,
}
use l8collector.Prelude.Dict
use l8collector.Prelude.Dict.{Dict}
use l8collector.Types.{Poll, Pollaris, Target, Protocol, protocol_eq, named}
use l8collector.Queue.{Registry, Heap, JobsQueue, deref, insert_job}
use l8collector.Host.State.{BootState, HostCollector, boot_stage_names}

unfoldable pub is_complete : Dict String Bool → Bool
is_complete [] = true
is_complete ((n, complete) ∷ rest) = complete && is_complete rest

unfoldable pub boot_job_complete : String → BootState → BootState
boot_job_complete name bs = elim (Dict.get name bs.job_names) [
  | none ↦ bs
  | some _ ↦ record bs { job_names = Dict.put name true bs.job_names }
]

-- `if this.target != nil && this.target.LinksId != ""`, and the loop for a Pollaris of that name
unfoldable pub named_like : String → List Pollaris → Bool
named_like links_id [] = false
named_like links_id (p ∷ ps) = p.name == links_id || named_like links_id ps

unfoldable pub has_links_match : Option Target → List Pollaris → Bool
has_links_match none ps = false
has_links_match (some t) ps = not (t.links_id == "") && named_like t.links_id ps

-- the `continue` of the per-target filter
unfoldable pub skipped : Option Target → Bool → Pollaris → Bool
skipped none matched p = false
skipped (some t) matched p = matched && not (p.name == t.links_id)

-- Where the collectors are gone, after `stop`, this is a panic also if no poll is looked at.
-- The range over the polls of a Pollaris: the names to wait for, and whether there is any.
unfoldable pub track_polls :
    Dict Protocol (Unit {0}) → Dict String Poll → Dict String Bool × Bool → Dict String Bool × Bool
track_polls cols [] acc = acc
track_polls cols ((n, poll) ∷ polls) (names, has) =
    track_polls cols polls (elim (Dict.get poll.protocol cols) [
      | none ↦ (names, has)
      | some _ ↦ (Dict.put poll.name false names, true)
    ])

-- The jobs of a Pollaris that has a poll for a collector; the error of InsertJob is only logged.
unfoldable pub insert_if :
    Registry → Bool → Pollaris → Option JobsQueue → Heap → Outcome (Option JobsQueue × Heap)
insert_if r has p q h =
    if not has
    then ok (q, h)
    else insert_job r (named p.name) q h
      >>= λ ((err, q', h') : Option String × Option JobsQueue × Heap). ok (q', h')

unfoldable pub boot_pollarises :
    Registry
    → Option Target
    → Bool
    → Dict Protocol (Unit {0})
    → List Pollaris
    → Dict String Bool
    → Option JobsQueue
    → Heap
    → Outcome (Dict String Bool × Option JobsQueue × Heap)
boot_pollarises r t matched cols [] names q h = ok (names, q, h)
boot_pollarises r t matched cols (p ∷ ps) names q h = elim (skipped t matched p) [
  | true ↦ boot_pollarises r t matched cols ps names q h
  | false ↦
      let tracked = track_polls cols p.polling (names, false) in
      insert_if r tracked.1 p q h >>= λ ((q', h') : Option JobsQueue × Heap).
      boot_pollarises r t matched cols ps tracked.0 q' h'
]

unfoldable pub new_boot_state : Registry → ℕ → HostCollector → Outcome (BootState × HostCollector)
new_boot_state r stage hc =
    if not hc.has_service
    then panic
    else deref (get_elem? boot_stage_names stage) >>= λ group. elim (r.by_group (named group)) [
      | none ↦ ok (record { job_names = []; stage = stage }, hc)
      | some ps ↦ deref hc.collectors >>= λ cols.
          boot_pollarises r hc.target (has_links_match hc.target ps) cols ps [] hc.queue hc.heap
          >>= λ ((names, q, h) : Dict String Bool × Option JobsQueue × Heap).
              ok (record { job_names = names; stage = stage }, record hc { queue = q; heap = h })
    ]
