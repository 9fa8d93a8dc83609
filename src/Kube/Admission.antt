-- ===== src/Kube/Admission.antt =====
-- handleAdmissionEvent and normalizeObject of collector/protocols/k8sclient/ClientGoCollector.go, and the
-- warm-up of WarmUp.go.
use Prim.Native.String.{◌++◌ as str_append}
use l8collector.Prelude.{
  ℕ, suc, Bool, true, false, Option, none, some, List, [], ◌∷◌, String, Outcome, ok, panic, ◌==◌,
  if◌then◌else◌, string_eq,
}
use l8collector.Prelude.Dict.{Dict, get, put}
use l8collector.Text.Sorting.{sort_texts}
use l8collector.Kube.Value.{Value}
use l8collector.Kube.Gvr.{Gvr}
use l8collector.Kube.Cache.{CachedObject, Cache, upsert}
use l8collector.Kube.Spec.{CacheSpec}
use l8collector.Kube.Watching.{Watch, Started, ensure_watching}
use l8collector.Kube.Webhook.{AdmissionEvent, Decoded}
use l8collector.Kube.Cascade.{Shared, Notice, handle_resource_deletion}
use l8collector.Kube.Enrich.Access.{Formats}
use l8collector.Kube.Enrich.Containers.{PodContainer}
use l8collector.Kube.Enrich.{enrich_object}

-- The parameters of the texts: those of enrichObject, its JSON encoder, and fmt.Sprint of a label.
pub record Texts : Type 0 where
  pub formats : Formats
  pub marshal : List PodContainer → Option String
  pub show : Value → String

-- normalizeObject of an object that is not nil; `content` is the copy that it enriches
unfoldable pub normalize_object : Texts → String → Decoded → String → CachedObject
unfolding enrich_object
normalize_object t gvr item operation = record {
  gvr = gvr;
  namespace = item.namespace;
  name = item.name;
  uid = item.uid;
  resource_version = item.resource_version;
  operation = operation;
  body = enrich_object t.formats t.marshal gvr (some item.content);
  related = [];
  observed_at = 0;
}

-- the resource type of an event, as the cache writes it
unfoldable pub event_gvr : AdmissionEvent → String
event_gvr event =
    let text = str_append event.version (str_append "/" event.resource) in
    if event.group == "" then text else str_append event.group (str_append "/" text)

-- The runtime as the events use it: what is watched, with the cache, the delete callback with its calls,
-- and how often notifySubscribers was called.
pub record Observed : Type 0 where
  pub watch : Watch
  pub connected : Bool
  pub on_delete : Bool
  pub notices : List Notice
  pub notified : ℕ

abbrev pub shared_of : Observed → Shared
shared_of s = record {
  connected = s.connected;
  cache = s.watch.cache;
  on_delete = s.on_delete;
  notices = s.notices;
}

abbrev pub with_shared : Shared → Observed → Observed
with_shared t s = record s { watch = record (s.watch) { cache = t.cache }; notices = t.notices }

-- a deletion notifies no subscriber
abbrev pub note_event : ℕ → Texts → AdmissionEvent → Observed → Observed
note_event now t event s =
    if event.operation == "DELETE"
    then with_shared
        (handle_resource_deletion t.show (event_gvr event) event.namespace event.name (shared_of s))
        s
    else record s {
      watch = record (s.watch) { cache = note_body now t event event.body s.watch.cache };
      notified = suc s.notified;
    }
  where
    note_body : ℕ → Texts → AdmissionEvent → Option Decoded → Cache → Cache
    note_body now t event none cache = cache
    note_body now t event (some item) cache =
        upsert now (some (normalize_object t (event_gvr event) item event.operation)) cache

abbrev pub noted :
    ℕ
    → Texts
    → AdmissionEvent
    → Observed
    → Outcome (Option String × Watch)
    → Outcome (Option String × Observed)
noted now t event s panic = panic
noted now t event s (ok (some e, w)) = ok (some e, record s { watch = w })
noted now t event s (ok (none, w)) = ok (none, note_event now t event (record s { watch = w }))

-- handleAdmissionEvent: an error, or none, and the runtime
unfoldable pub handle_admission_event :
    ℕ
    → (Gvr → String → Started)
    → Texts
    → AdmissionEvent
    → Observed
    → Outcome (Option String × Observed)
unfolding ensure_watching event_gvr handle_resource_deletion normalize_object upsert
handle_admission_event now start t event s =
    noted now t event s (ensure_watching now start (event_gvr event) event.namespace s.watch)

-- A poll of a boot model: whether it is for the Kubernetes API, its text, and whether it is a table. The
-- parser gives a spec or the text of its error.
pub record BootPoll : Type 0 where
  pub kubernetes : Bool
  pub spec : Option CacheSpec

-- the loops of CacheSpecsFromPollarisModels over the polls of all models; the first spec of a key stays
unfoldable pub unique_specs : List BootPoll → Dict String CacheSpec → Option (Dict String CacheSpec)
unfolding get put
unique_specs [] unique = some unique
unique_specs (p ∷ ps) unique = elim p.kubernetes [
  | false ↦ unique_specs ps unique
  | true ↦ elim p.spec [
    | none ↦ none
    | some spec ↦
        let key = str_append spec.gvr (str_append "::" spec.namespace) in
        elim (get key unique) [
          | some old ↦ unique_specs ps unique
          | none ↦ unique_specs ps (put key spec unique)
        ]
  ]
]

unfoldable pub specs_at : Dict String CacheSpec → List String → List CacheSpec
unfolding get
specs_at unique [] = []
specs_at unique (k ∷ ks) = elim (get k unique) [
  | none ↦ specs_at unique ks
  | some spec ↦ spec ∷ specs_at unique ks
]

abbrev pub keys_in : Dict String CacheSpec → List String
keys_in [] = []
keys_in (e ∷ es) = e.0 ∷ keys_in es

abbrev pub in_order : Option (Dict String CacheSpec) → Option (List CacheSpec)
in_order none = none
in_order (some unique) = some (specs_at unique (sort_texts (keys_in unique)))

-- an error is `none`
unfoldable pub cache_specs_from_pollaris_models : List BootPoll → Option (List CacheSpec)
unfolding unique_specs specs_at sort_texts
cache_specs_from_pollaris_models polls = in_order (unique_specs polls [])

-- the loop of WarmUpFromBootModels: it stops at the first error
unfoldable pub warm_up :
    ℕ → (Gvr → String → Started) → List CacheSpec → Watch → Outcome (Option String × Watch)
unfolding ensure_watching
warm_up now start [] w = ok (none, w)
warm_up now start (spec ∷ specs) w = elim (ensure_watching now start spec.gvr spec.namespace w) [
  | panic ↦ panic
  | ok (some e, v) ↦ ok (some e, v)
  | ok (none, v) ↦ warm_up now start specs v
]
