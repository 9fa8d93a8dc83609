-- ===== src/Host/Life.antt =====
-- start, update and stop of go/collector/service/HostCollector.go.
use l8collector.Prelude.{
  Bool, true, false, not, none, some, List, [], ◌∷◌, ◌++◌, map, Outcome, ok, panic, ◌>>=◌,
  if◌then◌else◌, string_eq,
}
use l8collector.Prelude.Dict
use l8collector.Prelude.Dict.{Dict}
use l8collector.Types.{
  CJob, empty_job, Host, HostProtocol, Protocol, kubernetes_api, other, protocol_eq,
}
use l8collector.Queue.{Registry, deref}
use l8collector.Host.State.{BootState, HostCollector, Env, no_stages}
use l8collector.Host.Stage.{new_boot_state}

-- newProtocolCollector: whether there is a collector for the protocol. The error of its Init is only
-- logged by `start`.
unfoldable pub has_collector : Protocol → Bool
has_collector (other n) = false
has_collector _ = true

-- the range of `start` over the configurations
unfoldable pub put_collectors :
    List HostProtocol → Dict Protocol (Unit {0}) → Dict Protocol (Unit {0})
put_collectors [] cols = cols
put_collectors (c ∷ cs) cols =
    put_collectors cs (if has_collector c.protocol then Dict.put c.protocol tt cols else cols)

abbrev is_kubernetes_api : Protocol → Bool
is_kubernetes_api kubernetes_api = true
is_kubernetes_api _ = false

unfoldable pub wants_admission : List HostProtocol → Bool → Bool
wants_admission [] before = before
wants_admission (c ∷ cs) before =
    if is_kubernetes_api c.protocol then true else wants_admission cs before

abbrev this_host : HostCollector → Outcome Host
this_host hc = deref hc.target >>= λ t. deref (Dict.get hc.host_id t.hosts)

-- `bootStages[0] = newBootState(0)`
unfoldable pub first_stage : Registry → HostCollector → Outcome HostCollector
first_stage r hc = new_boot_state r 0 hc >>= λ ((bs, hc') : BootState × HostCollector).
    elim hc'.boot_stages [
      | [] ↦ panic
      | _ ∷ later ↦ ok (record hc' { boot_stages = some bs ∷ later })
    ]

-- start, without the goroutine that it leaves running the loop
unfoldable pub start : Registry → HostCollector → Outcome HostCollector
start r hc = do
  host ← this_host hc
  cols ← deref hc.collectors
  started ← first_stage r (record hc { collectors = some (put_collectors host.configs cols) })
  ok (record started { admission = wants_admission host.configs started.admission })

-- `update` stops at the first configuration that has no collector; `init_ok` is the result of Init.
unfoldable pub add_collectors :
    (Protocol → Bool)
    → List HostProtocol
    → Dict Protocol (Unit {0})
    → Bool × Dict Protocol (Unit {0})
add_collectors init_ok [] cols = (true, cols)
add_collectors init_ok (c ∷ cs) cols = elim (Dict.get c.protocol cols) [
  | some _ ↦ add_collectors init_ok cs cols
  | none ↦ elim (has_collector c.protocol) [
    | false ↦ (false, cols)
    | true ↦ elim (init_ok c.protocol) [
      | false ↦ (false, cols)
      | true ↦ add_collectors init_ok cs (Dict.put c.protocol tt cols)
    ]
  ]
]

-- The result is false where an error is returned.
unfoldable pub update :
    Registry → (Protocol → Bool) → HostCollector → Outcome (Bool × HostCollector)
update r init_ok hc = do
  host ← this_host hc
  cols ← deref hc.collectors
  let added = add_collectors init_ok host.configs cols
  let with_them : HostCollector = record hc { collectors = some added.1 }
  if not added.0
      then ok (false, with_them)
      else first_stage r (record with_them { boot_stages = no_stages }) >>= λ hc'. ok (true, hc')

-- sendDeviceDown
unfoldable pub send_device_down : Env → HostCollector → Outcome HostCollector
send_device_down env hc = do
  target ← deref hc.target
  cols ← deref hc.collectors
  let job : CJob = record empty_job {
    target_id = target.target_id;
    host_id = hc.host_id;
    links_id = target.links_id;
    job_name = "deviceStatus";
    pollaris_name = "boot02";
    always = true;
    result = some (env.encode_status (map (λ c. (c.0, false)) cols));
  }
  if not hc.has_service then panic else ok (record hc { sent = hc.sent ++ job ∷ [] })

unfoldable pub stop : Env → HostCollector → Outcome HostCollector
stop env hc = do
  told ← send_device_down env hc
  queue ← deref told.queue
  ok (record told {
    running = false;
    admission = false;
    collectors = none;
    queue = none;
    boot_stages = [];
    target = none;
    has_service = false;
  })
