-- ===== src/Queue/State.antt =====
-- The jobs and the queue of collector/service/JobsQueue.go, and the surroundings of its calls.
use l8collector.Prelude.{
  ℕ, Bool, true, false, Option, none, some, List, [], String, Outcome, ok, panic, ◌==◌,
  if◌then◌else◌, nat_eq, string_eq,
}
use Prim.Native.String.{◌++◌ as str_append}
use l8collector.Prelude.Int.{ℤ, int_eq}
use l8collector.Prelude.Dict.{Dict}
use l8collector.Types.{CJob, Poll, Pollaris, PollarisKey, Target}

pub record Heap : Type 0 where
  pub next : ℕ
  pub cell : ℕ → CJob

abbrev pub update : (ℕ → CJob) → ℕ → CJob → ℕ → CJob
update f a j b = if a == b then j else f b

abbrev pub store : Heap → ℕ → CJob → Heap
store h a j = record h { cell = update h.cell a j }

pub record JobsQueue : Type 0 where
  pub target : Option Target
  pub host_id : String
  pub jobs : List ℕ
  pub jobs_map : Dict String ℕ
  pub shutdown : Bool
  pub has_service : Bool

-- What a call reads of its surroundings. `rand a n` is the number that `rand.Int63n(n)` returns when
-- the cadence of the job at `a` is computed.
pub record World : Type 0 where
  pub smooth : Bool
  pub now : ℤ
  pub rand : ℕ → ℤ → ℤ

-- l8pollaris, and the order of a range over a map
pub record Registry : Type 0 where
  pub by_key : PollarisKey → Option Pollaris
  pub by_group : PollarisKey → Option (List Pollaris)
  pub range_polls : Dict String Poll → Dict String Poll
  pub range_jobs : Dict String CJob → Dict String CJob

unfoldable pub shut : JobsQueue → JobsQueue
shut q = record q {
  shutdown = true;
  jobs = [];
  jobs_map = [];
  has_service = false;
  host_id = "";
  target = none;
}

unfoldable pub new_jobs_queue : Target → String → JobsQueue
new_jobs_queue target host_id = record {
  target = some target;
  host_id = host_id;
  jobs = [];
  jobs_map = [];
  shutdown = false;
  has_service = true;
}

unfoldable pub job_key : String → String → String
job_key pollaris_name job_name = str_append pollaris_name job_name

abbrev pub key_of : CJob → String
key_of j = job_key j.pollaris_name j.job_name

abbrev pub deref {ℓ} : {A : Type ℓ} → Option A → Outcome A
deref none = panic
deref (some a) = ok a
