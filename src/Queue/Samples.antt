-- ===== src/Queue/Samples.antt =====
-- Jobs, queues and surroundings for the tests.
use l8collector.Prelude.{
  ℕ, subst, String, ◌≡◌, refl, true, false, none, some, List, [], ◌∷◌, In, inl, inr, arith, ◌==◌,
  if◌then◌else◌, nat_eq, string_eq,
}
use l8collector.Prelude.Int.{pos}
use l8collector.Prelude.Dict
use l8collector.Types.{CJob, empty_job, CadencePlan, Poll, Pollaris, Target, snmpv2, walk_map}
use l8collector.Cadence.Bounds.{IsPlan}
use l8collector.Queue.{World, Registry, Heap, JobsQueue, key_of, job_key}
use l8collector.Queue.Visiting.{IsRunnable, IsWorld}
use l8collector.Queue.Invariant.{IsQueue}
use l8collector.Cadence.{clone_plan}
use l8collector.Queue.{polling_order}
use l8collector.Queue.Insertion.Whole.{IsRange}
use l8collector.Queue.Insertion.Making.{HasPoll}
use l8collector.Queue.Insertion.Polls.{IsRegistry, IsPollaris}
use text.Mathlib.TextEquality.{eq_iff}

abbrev pub plan : CadencePlan
plan = record { enabled = true; current = pos 0; cadences = pos 3 ∷ pos 10 ∷ []; startups = none }

-- It ended five seconds ago, and the other has just ended.
abbrev pub overdue : CJob
overdue = record empty_job {
  pollaris_name = "boot00";
  job_name = "systemMib";
  cadence = some plan;
  ended = pos 95;
}

abbrev pub recent : CJob
recent = record empty_job {
  pollaris_name = "boot01";
  job_name = "ifTable";
  cadence = some plan;
  ended = pos 100;
}

abbrev pub heap : Heap
heap = record { next = 2; cell = λ a. if a == 0 then overdue else recent }

abbrev pub target : Target
target = record { target_id = "t"; links_id = "NetDev"; hosts = [] }

abbrev pub queue_of : List ℕ → JobsQueue
queue_of jobs = record {
  target = some target;
  host_id = "h";
  jobs = jobs;
  jobs_map = ("boot00systemMib", 0) ∷ [];
  shutdown = false;
  has_service = true;
}

abbrev pub world : World
world = record { smooth = false; now = pos 100; rand = λ a n. pos 0 }

pub world-IsWorld : IsWorld world
world-IsWorld a n h = (omega arith, omega arith)

pub plan-IsPlan : IsPlan false plan
plan-IsPlan = record { in_range = omega arith; fits = tt; positive = λ e. absurd (cc) }

pub overdue-IsRunnable : IsRunnable false overdue
overdue-IsRunnable = (plan, refl, plan-IsPlan)

pub recent-IsRunnable : IsRunnable false recent
recent-IsRunnable = (plan, refl, plan-IsPlan)

only_zero : (a : ℕ) → In a (0 ∷ []) → 0 ≡ a
only_zero a (inl e) = e
only_zero a (inr f) = absurd f

only_entry :
    (key : String) (a : ℕ)
    → Dict.get key (("boot00systemMib", 0) ∷ []) ≡ some a
    → ("boot00systemMib" ≡ key) × (0 ≡ a)
unfolding Dict.get
only_entry key a e = ground (arith, eq_iff "boot00systemMib" key)

-- A queue of one job, in order.
pub one_job-IsQueue : IsQueue false (queue_of (0 ∷ [])) heap
unfolding job_key Dict.get
one_job-IsQueue = record {
  serviced = refl;
  running = refl;
  distinct = ((λ m. m), tt);
  allocated = λ a m. ground arith;
  mapped = λ key a e.
      let (k, z) = only_entry key a e in
      subst (λ (x : ℕ). In x (0 ∷ []) × (key_of (heap.cell x) ≡ key)) z (inl refl, k);
  listed = λ a m.
      subst (λ (x : ℕ). Dict.get (key_of (heap.cell x)) (("boot00systemMib", 0) ∷ []) ≡ some x)
        (only_zero a m) refl;
  runnable =
      λ a m. subst (λ (x : ℕ). IsRunnable false (heap.cell x)) (only_zero a m) overdue-IsRunnable;
}

abbrev pub poll : Poll
poll = record {
  name = "systemMib";
  what = ".1.3.6.1.2.1.1";
  operation = walk_map;
  protocol = snmpv2;
  cadence = some plan;
  timeout = pos 60;
  always = false;
}

abbrev pub pollaris : Pollaris
pollaris = record { name = "boot00"; polling = ("systemMib", poll) ∷ []; order = none }

-- It has one pollaris, under every key, and maps are ranged over from first to last.
abbrev pub registry : Registry
registry = record {
  by_key = λ key. some pollaris;
  by_group = λ key. some (pollaris ∷ []);
  range_polls = λ d. d;
  range_jobs = λ d. d;
}

pub registry-IsRange : IsRange registry
registry-IsRange d e = ((λ m. m), λ m. m)

pub pollaris-IsPollaris : IsPollaris false registry pollaris
unfolding polling_order Dict.get clone_plan
pollaris-IsPollaris n (inl e) = subst (HasPoll false pollaris) e (
  poll,
  plan,
  refl,
  refl,
  record { in_range = omega arith; fits = tt; positive = λ e. absurd (cc) },
)
pollaris-IsPollaris n (inr f) = absurd f

pub registry-IsRegistry : IsRegistry false registry
registry-IsRegistry = record {
  range = registry-IsRange;
  polls = λ key p e. subst (IsPollaris false registry) (ground arith) pollaris-IsPollaris;
}

-- A queue that was just made.
abbrev pub empty_queue : JobsQueue
empty_queue = record {
  target = some target;
  host_id = "h";
  jobs = [];
  jobs_map = [];
  shutdown = false;
  has_service = true;
}

pub empty-IsQueue : IsQueue false empty_queue heap
unfolding Dict.get
empty-IsQueue = record {
  serviced = refl;
  running = refl;
  distinct = tt;
  allocated = λ a m. absurd m;
  mapped = λ key a e. absurd (cc);
  listed = λ a m. absurd m;
  runnable = λ a m. absurd m;
}
