-- ===== src/Service/Examples.antt =====
-- The theorems on the service at concrete inputs.
use l8collector.Prelude.{
  suc, ◌+◌, ◌≡◌, refl, subst, true, false, none, some, List, [], ◌∷◌, ◌++◌, String, Option, ok, inl,
  inr, if◌then◌else◌, ◌⊎◌, string_eq,
}
use l8collector.Prelude.Int.{pos}
use l8collector.Prelude.Dict.{get}
use l8collector.Types.{CJob, empty_job, Host, Target, snmpv2}
use l8collector.Queue.Samples.{registry, registry-IsRegistry, world, poll}
use l8collector.Host.State.{Env}
use l8collector.Host.Running.{Pause, passes, event, halted}
use l8collector.Service.{
  CollectorService, Reply, executed, refused, up, down, host_collector_key, post, execute_put,
  execute_post,
}
use l8collector.Service.Posting.{IsService, IsDevice, loops_of, times, post-up}
use l8collector.Service.Stopping.{covers, post-down}
use l8collector.Service.Routing.{AllRefuse, execute_post-down}

abbrev router : Host
router = record { host_id = "h"; configs = record { protocol = snmpv2; addr = "10.0.0.1" } ∷ [] }

abbrev device : Target
device = record { target_id = "t"; links_id = "NetDev"; hosts = ("h", router) ∷ [] }

abbrev fresh : CollectorService
fresh = record { host_collectors = []; deletes = [] }

abbrev env : Env
env = record {
  world = world;
  registry = registry;
  poll_of = λ p j. none;
  exec = λ p j. j;
  online = λ p. true;
  stops = false;
  finish = pos 100;
  range_hosts = λ d. d;
  encode_addr = λ a. [];
  encode_status = λ c. [];
  decode = λ b. none;
  decode_text = λ b. "";
  pollaris_by_oid = λ o. none;
}

fresh-IsService : IsService false fresh
unfolding get IsService
fresh-IsService k e g = absurd (cc)

device-IsDevice : IsDevice device device.hosts
unfolding IsDevice get
device-IsDevice h (inl e) = (router, subst (λ z. get z.1.host_id device.hosts ≡ some router) e refl)
device-IsDevice h (inr i) = absurd i

-- the service that polls the device
abbrev polling : CollectorService
polling =
    (post-up false registry registry-IsRegistry device env fresh device-IsDevice fresh-IsService).0

abbrev job : CJob
job = record empty_job { target_id = "t"; host_id = "h" }

abbrev refusing : CJob → Option Reply
refusing j = some (refused "no such host")

refusing-AllRefuse : AllRefuse (refusing ∷ []) job
unfolding AllRefuse
refusing-AllRefuse p (inl e) =
    subst (λ q. (q job ≡ none) ⊎ ((x : String) × (q job ≡ some (refused x)))) e
      (inr ("no such host", refl))
refusing-AllRefuse p (inr i) = absurd i

post-up_example :
    (s' : CollectorService) × (post registry env up device fresh ≡ ok s')
    × IsService false s'
    × ((k : String) → loops_of k s' ≡ times k device device.hosts + loops_of k fresh)
post-up_example =
    post-up false registry registry-IsRegistry device env fresh device-IsDevice fresh-IsService

post-down_example :
    (s' : CollectorService) × (post registry env down device polling ≡ ok s')
    × IsService false s'
    × ((k : String)
        → get k s'.host_collectors
          ≡ (if covers k device device.hosts then none else get k polling.host_collectors))
post-down_example =
    post-down false env device registry polling
      (post-up false registry registry-IsRegistry device env fresh device-IsDevice
        fresh-IsService).2

execute_post-down_example :
    (s' : CollectorService) × (post registry env down device polling ≡ ok s')
    × (execute_post env ((refusing ∷ []) ++ (λ j. some (executed j)) ∷ []) job s'
        ≡ ok (executed job))
    × (execute_post env (refusing ∷ []) job s'
        ≡ ok (executed (record job { error = "Primary Not Found" })))
    × (execute_put env job s' ≡ ok (refused "No job was found with key: th"))
unfolding host_collector_key
execute_post-down_example =
    execute_post-down false env registry device polling
      (post-up false registry registry-IsRegistry device env fresh device-IsDevice
        fresh-IsService).2
      ("h", router) (inl refl) job job refl refl (refusing ∷ []) (λ j. some (executed j)) []
      refusing-AllRefuse refl

-- surroundings in which jobs are executed, with a result or with an error
abbrev busy : Env
busy = record env {
  poll_of = λ p j. some poll;
  exec = λ p j. record j { result = some (1 ∷ []); error_count = 0 };
}

abbrev failing : Env
failing = record env {
  poll_of = λ p j. some poll;
  exec = λ p j. record j { error = "timeout"; error_count = suc j.error_count };
}

-- surroundings in which the host is stopped while its job is executed
abbrev stopping : Env
stopping = record busy { stops = true }

abbrev rounds : List (Env × Pause)
rounds = (busy, event) ∷ (failing, passes) ∷ (stopping, passes) ∷ (busy, halted) ∷ []
