-- ===== src/Host/State.antt =====
-- go/collector/service/HostCollector.go, BootSequence.go and StaticJobs.go: one host, its boot
-- sequence and its collection loop. A round of the loop is one function from state to state. What the
-- code calls outside this repository, the protocol collectors behind their interface, the clock and the
-- orders of map ranges are the `Env` of a call.
use l8collector.Prelude.{
  ℕ, Bool, true, false, Option, none, some, List, [], ◌∷◌, String, nat_eq, string_eq,
}
use l8collector.Prelude.Int.{ℤ}
use l8collector.Prelude.Dict.{Dict}
use l8collector.Types.{CJob, empty_job, Poll, Pollaris, Target, Host, Protocol, protocol_eq}
use l8collector.Queue.{World, Registry, Heap, JobsQueue, new_jobs_queue}

-- BootState of BootSequence.go
pub record BootState : Type 0 where
  pub job_names : Dict String Bool
  pub stage : ℕ

-- common.BootStages
abbrev pub boot_stage_names : List String
boot_stage_names =
    "Boot_Stage_00" ∷ "Boot_Stage_01" ∷ "Boot_Stage_02" ∷ "Boot_Stage_03" ∷ "Boot_Stage_04" ∷ []

-- `collectors` is the set of protocols that have a collector; what a collector does is in `Env`.
-- `sent` is what was handed to the aggregator or sent to the parser.
pub record HostCollector : Type 0 where
  pub target : Option Target
  pub host_id : String
  pub collectors : Option (Dict Protocol (Unit {0}))
  pub queue : Option JobsQueue
  pub heap : Heap
  pub running : Bool
  pub current_boot_stage : ℕ
  pub boot_stages : List (Option BootState)
  pub pollaris_name : String
  pub has_service : Bool
  pub admission : Bool
  pub sent : List CJob

-- The surroundings of one call. `decode` is object.Decode of a result, `none` for an error and
-- `some none` for an element that is not a CMap; `decode_text` gives "" for what is not a text.
-- `exec` is ProtocolCollector.Exec, `stops` tells whether `stop` ran while it was executing.
pub record Env : Type 0 where
  pub world : World
  pub registry : Registry
  pub poll_of : String → String → Option Poll
  pub exec : Protocol → CJob → CJob
  pub online : Protocol → Bool
  pub stops : Bool
  pub finish : ℤ
  pub range_hosts : Dict String Host → Dict String Host
  pub encode_addr : String → List ℕ
  pub encode_status : List (Protocol × Bool) → List ℕ
  pub decode : List ℕ → Option (Option (Dict String (List ℕ)))
  pub decode_text : List ℕ → String
  pub pollaris_by_oid : String → Option Pollaris

abbrev pub no_stages : List (Option BootState)
no_stages = none ∷ none ∷ none ∷ none ∷ none ∷ []

unfoldable pub new_host_collector : Target → String → HostCollector
unfolding new_jobs_queue
new_host_collector target host_id = record {
  target = some target;
  host_id = host_id;
  collectors = some [];
  queue = some (new_jobs_queue target host_id);
  heap = record { next = 0; cell = λ a. empty_job };
  running = true;
  current_boot_stage = 0;
  boot_stages = no_stages;
  pollaris_name = "";
  has_service = true;
  admission = false;
  sent = [];
}
