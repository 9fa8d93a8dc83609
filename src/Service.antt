-- ===== src/Service.antt =====
-- go/collector/service/CollectorService.go and ExecuteService.go: the hosts that are polled, and the jobs
-- that are executed on demand. The aggregator, the encoder of a CMap (`marshal`), the environment's cluster
-- name and the participants of the exec service with their answers are parameters.
mod Ready
mod Polling
mod Posting
mod Stopping
mod Routing
mod Examples
use Prim.Native.String.{◌++◌ as str_append}
use l8collector.Prelude.{
  ℕ, suc, ◌+◌, Bool, true, false, Option, none, some, List, [], ◌∷◌, ◌++◌, map, String, Outcome, ok,
  panic, ◌>>=◌, ◌==◌, if◌then◌else◌, string_eq,
}
use l8collector.Prelude.Dict.{Dict, get, put, delete}
use l8collector.Types.{CJob, empty_job, Target, Host}
use l8collector.Queue.{Registry}
use l8collector.Host.State.{HostCollector, Env, new_host_collector}
use l8collector.Host.Loop.{exec_job}
use l8collector.Host.Life.{start, stop}
use l8collector.Kube.Links.{links_id}

-- A HostCollector of the map, with the number of goroutines that run its loop.
pub record Entry : Type 0 where
  pub host : HostCollector
  pub loops : ℕ

-- CollectorService: its map of hosts, and the deletes that it gave to the aggregator.
pub record CollectorService : Type 0 where
  pub host_collectors : Dict String Entry
  pub deletes : List CJob

unfoldable pub host_collector_key : String → String → String
host_collector_key device_id host_id = str_append device_id host_id

-- The key of an entry that was in the map is kept, as it is the same pointer.
unfoldable pub host_collector : String → Target → CollectorService → Entry
unfolding host_collector_key get new_host_collector
host_collector host_id target s =
    elim (get (host_collector_key target.target_id host_id) s.host_collectors) [
      | some e ↦ e
      | none ↦ record { host = new_host_collector target host_id; loops = 0 }
    ]

-- start launches a loop
abbrev pub started : Entry → Outcome HostCollector → Outcome Entry
started e panic = panic
started e (ok hc) = ok (record { host = hc; loops = suc e.loops })

-- the body of the range of startPolling
unfoldable pub start_host : Registry → Target → String → CollectorService → Outcome CollectorService
unfolding host_collector start put host_collector_key
start_host r device host_id s =
    let e = host_collector host_id device s in
    started e (start r e.host) >>= λ e'. ok (record s {
      host_collectors = put (host_collector_key device.target_id host_id) e' s.host_collectors;
    })

-- startPolling, in the order in which the range meets the hosts
unfoldable pub start_polling :
    Registry → Target → Dict String Host → CollectorService → Outcome CollectorService
unfolding start_host
start_polling r device [] s = ok s
start_polling r device (h ∷ hs) s =
    start_host r device h.1.host_id s >>= λ s'. start_polling r device hs s'

-- the body of the range of stopPolling
unfoldable pub stop_host : Env → String → CollectorService → Outcome CollectorService
unfolding stop get delete
stop_host env key s = elim (get key s.host_collectors) [
  | none ↦ ok s
  | some e ↦
      stop env e.host >>= λ _. ok (record s { host_collectors = delete key s.host_collectors })
]

unfoldable pub stop_polling :
    Env → Target → Dict String Host → CollectorService → Outcome CollectorService
unfolding stop_host host_collector_key
stop_polling env device [] s = ok s
stop_polling env device (h ∷ hs) s =
    stop_host env (host_collector_key device.target_id h.1.host_id) s >>= λ s'.
    stop_polling env device hs s'

-- L8PTargetState
pub data TargetState : Type 0 where
  up down other_state : TargetState

-- Post
unfoldable pub post :
    Registry → Env → TargetState → Target → CollectorService → Outcome CollectorService
unfolding start_polling stop_polling
post r env up device s = start_polling r device device.hosts s
post r env down device s = stop_polling env device device.hosts s
post r env other_state device s = ok s

-- handleK8sDelete; `marshal` gives no bytes where it fails
unfoldable pub handle_k8s_delete :
    (String → String → Option (List ℕ))
    → String
    → String
    → String
    → String
    → CollectorService
    → CollectorService
unfolding links_id
handle_k8s_delete marshal cluster gvr_text namespace name s =
    if links_id gvr_text == "" then s else elim (marshal namespace name) [
      | none ↦ s
      | some result ↦ record s {
        deletes =
            s.deletes
            ++ record empty_job {
              links_id = links_id gvr_text;
              host_id = cluster;
              result = some result;
            }
              ∷ [];
      }
    ]

-- ExecuteService.Put: the job, or the error that no host has it
pub data Reply : Type 0 where
  executed : CJob → Reply
  refused : String → Reply

abbrev pub local_reply : Outcome (Bool × CJob) → Outcome Reply
local_reply panic = panic
local_reply (ok p) = ok (executed p.1)

unfoldable pub execute_put : Env → CJob → CollectorService → Outcome Reply
unfolding get exec_job host_collector_key
execute_put env job s =
    elim (get (host_collector_key job.target_id job.host_id) s.host_collectors) [
      | none ↦ ok (
          refused (
            str_append "No job was found with key: "
              (host_collector_key job.target_id job.host_id)))
      | some e ↦ local_reply (exec_job env job e.host)
    ]

-- the range over the other participants: the first answer that is no error, where `none` is one
unfoldable pub first_answer : List (CJob → Option Reply) → CJob → Reply
first_answer [] job = executed (record job { error = "Primary Not Found" })
first_answer (peer ∷ peers) job = elim (peer job) [
  | some (executed done) ↦ executed done
  | _ ↦ first_answer peers job
]

-- ExecuteService.Post
unfoldable pub execute_post :
    Env → List (CJob → Option Reply) → CJob → CollectorService → Outcome Reply
unfolding get exec_job first_answer host_collector_key
execute_post env peers job s =
    elim (get (host_collector_key job.target_id job.host_id) s.host_collectors) [
      | some e ↦ local_reply (exec_job env job e.host)
      | none ↦ ok (first_answer peers job)
    ]
