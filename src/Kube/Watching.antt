-- ===== src/Kube/Watching.antt =====
-- Which resources are watched: ensureWatching of ClientGoCollector.go, with isWarmed, onceForKey and
-- markWarmed of SharedRuntime.go. What the informer library answers (`start`) is a parameter: an error,
-- or the objects of the store that startInformer reads, normalised.
use l8collector.Prelude.{
  ℕ, ◌==◌, if◌then◌else◌, string_eq, Bool, true, false, not, ◌&&◌, ◌||◌, Option, none, some, List,
  [], ◌∷◌, String, Outcome, panic, ok,
}
use l8collector.Prelude.Dict.{Dict, get, put}
use l8collector.Kube.Gvr.{Gvr, parse_gvr}
use l8collector.Kube.Cache.{CachedObject, Cache, cache_key, upsert}

pub data Started : Type 0 where
  failed : String → Started
  synced : List CachedObject → Started

-- The part of sharedRuntimeState that is about informers; a nil map is `none`. A sync.Once is the
-- Boolean that says whether it has run.
pub record Watch : Type 0 where
  pub has_client : Bool
  pub warmed : Option (Dict String Bool)
  pub warm_once : Option (Dict String Bool)
  pub cache : Cache

abbrev pub flag : String → Option (Dict String Bool) → Bool
flag key none = false
flag key (some m) = elim (get key m) [ none ↦ false | some b ↦ b ]

-- Go reads a nil map as an empty one
abbrev pub is_warmed : String → Watch → Bool
is_warmed key w = flag key w.warmed

-- a write to a nil map panics
unfoldable pub mark_warmed : String → Watch → Outcome Watch
unfolding put
mark_warmed key w = elim w.warmed [
  | none ↦ panic
  | some m ↦ ok (record w { warmed = some (put key true m) })
]

unfoldable pub once_for_key : String → Watch → Watch
unfolding put get
once_for_key key w = elim w.warm_once [
  | none ↦ record w { warm_once = some (put key false []) }
  | some m ↦ elim (get key m) [
    | none ↦ record w { warm_once = some (put key false m) }
    | some b ↦ w
  ]
]

-- the Once of `key` has run
unfoldable pub run_once : String → Watch → Watch
unfolding put
run_once key w = elim w.warm_once [
  | none ↦ w
  | some m ↦ record w { warm_once = some (put key true m) }
]

unfoldable pub upsert_all : ℕ → List CachedObject → Cache → Cache
unfolding upsert
upsert_all now [] c = c
upsert_all now (o ∷ os) c = upsert_all now os (upsert now (some o) c)

-- the function that the Once runs, and the note that it ran; the message of ParseGVR also quotes the text
unfoldable pub start_watching :
    ℕ
    → (Gvr → String → Started)
    → String
    → String
    → String
    → Watch
    → Outcome (Option String × Watch)
unfolding parse_gvr upsert_all mark_warmed run_once
start_watching now start gvr namespace key w = elim (parse_gvr gvr) [
  | none ↦ ok (some "invalid gvr", run_once key w)
  | some g ↦ elim (start g namespace) [
    | failed e ↦ ok (some e, run_once key w)
    | synced os ↦ elim (mark_warmed key (record w { cache = upsert_all now os w.cache })) [
      | panic ↦ panic
      | ok v ↦ ok (none, run_once key v)
    ]
  ]
]

unfoldable pub ensure_watching :
    ℕ → (Gvr → String → Started) → String → String → Watch → Outcome (Option String × Watch)
unfolding start_watching once_for_key cache_key
ensure_watching now start gvr namespace w =
    let key = cache_key gvr namespace "*" in
    let v = once_for_key key w in
    if not w.has_client || gvr == ""
    then ok (none, w)
    else if not (namespace == "") && is_warmed (cache_key gvr "" "*") w
    then ok (none, w)
    else if is_warmed key w
    then ok (none, w)
    else if flag key v.warm_once
    then ok (none, v)
    else start_watching now start gvr namespace key v
