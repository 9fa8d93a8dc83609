-- ===== src/Host/Examples.antt =====
-- The theorems on the host at concrete inputs.
use l8collector.Prelude.{◌≡◌, refl, true, false, some, none, [], ◌∷◌, ok, arith}
use l8collector.Queue.{JobsQueue}
use l8collector.Queue.Samples.{
  heap, target, empty_queue, empty-IsQueue, registry, registry-IsRegistry,
}
use l8collector.Host.State.{BootState, HostCollector}
use l8collector.Host.Loop.{boot_progress}
use l8collector.Host.Ready.{HasQueue, IsLive}
use l8collector.Host.Steps.{Advanced}
use l8collector.Host.Progress.{IsBooting, boot_progress-Advanced}

abbrev waiting : BootState
waiting = record { job_names = ("systemMib", false) ∷ []; stage = 0 }

abbrev host : HostCollector
host = record {
  target = some target;
  host_id = "h";
  collectors = some [];
  queue = some empty_queue;
  heap = heap;
  running = true;
  current_boot_stage = 0;
  boot_stages = some waiting ∷ none ∷ none ∷ none ∷ none ∷ [];
  pollaris_name = "";
  has_service = true;
  admission = false;
  sent = [];
}

host-IsLive : IsLive host
host-IsLive = record {
  service = refl;
  collectors = ([], refl);
  target = (target, refl);
  stages = refl;
}

host-HasQueue : HasQueue false host empty_queue
host-HasQueue = record { queue = refl; order = empty-IsQueue; target = (target, refl) }

host-IsBooting : IsBooting host
host-IsBooting = record { bounded = omega arith; at = λ lt. (waiting, refl) }

boot_progress-Advanced_example :
    (hc' : HostCollector) × (q' : JobsQueue) × (boot_progress registry "systemMib" host ≡ ok hc')
    × Advanced false host empty_queue hc' q'
boot_progress-Advanced_example =
    boot_progress-Advanced false registry registry-IsRegistry "systemMib" host empty_queue
      host-IsLive host-HasQueue host-IsBooting
