-- ===== src/Host/Loop.antt =====
-- The collection loop of go/collector/service/HostCollector.go, with the static jobs of StaticJobs.go and
-- the device detail of BootSequence.go.
use l8collector.Prelude.{
  ℕ, zero, suc, Bool, true, false, not, Option, none, some, List, [], ◌∷◌, ◌++◌, map, String,
  length, get_elem?, set, Outcome, ok, panic, ◌>>=◌, ltb, ◌==◌, if◌then◌else◌, nat_eq, string_eq,
}
use l8collector.Prelude.Int.{ℤ, pos}
use l8collector.Prelude.Dict
use l8collector.Prelude.Dict.{Dict}
use l8collector.Types.{CJob, Poll, Target, Protocol, protocol_eq, named}
use l8collector.Queue.{
  Registry, Heap, JobsQueue, store, deref, insert_job, disable_job, expedite, pop,
}
use l8collector.Change.{mark_start, mark_ended, job_has_change}
use l8collector.Host.State.{BootState, HostCollector, Env}
use l8collector.Host.Stage.{is_complete, boot_job_complete, new_boot_state}

abbrev pub job_at : HostCollector → ℕ → CJob
job_at hc a = hc.heap.cell a

abbrev pub put_job : HostCollector → ℕ → CJob → HostCollector
put_job hc a j = record hc { heap = store hc.heap a j }

-- The staticJobs registry.
abbrev pub ip_address : String
ip_address = "ipAddress"

abbrev pub device_status : String
device_status = "deviceStatus"

-- IpAddressJob.do: the first address of the host that the range meets first
unfoldable pub ip_address_do : Env → Option Target → CJob → Outcome CJob
ip_address_do env none job = panic
ip_address_do env (some t) job = elim (env.range_hosts t.hosts) [
  | [] ↦ ok job
  | e ∷ _ ↦ elim e.1.configs [
    | [] ↦ ok job
    | c ∷ _ ↦ ok (record job { result = some (env.encode_addr c.addr) })
  ]
]

-- DeviceStatusJob.do
unfoldable pub device_status_do : Env → Option (Dict Protocol (Unit {0})) → CJob → Outcome CJob
device_status_do env none job = panic
device_status_do env (some cols) job =
    ok (record job { result = some (env.encode_status (map (λ c. (c.0, env.online c.0)) cols)) })

-- `none` where the name is not that of a static job
unfoldable pub static_do : Env → HostCollector → CJob → Option (Outcome CJob)
static_do env hc job =
    if job.job_name == ip_address
    then some (ip_address_do env hc.target job)
    else if job.job_name == device_status
    then some (device_status_do env hc.collectors job)
    else none

-- The system OID of a system MIB result, "" where it has none.
unfoldable pub sysoid_of : Env → Option (List ℕ) → String
sysoid_of env none = ""
sysoid_of env (some bytes) = if ltb (length bytes) 3 then "" else elim (env.decode bytes) [
  | none ↦ ""
  | some element ↦ elim element [
    | none ↦ ""
    | some entries ↦ elim (Dict.get ".1.3.6.1.2.1.1.2.0" entries) [
      | none ↦ ""
      | some value ↦ env.decode_text value
    ]
  ]
]

-- bootDetailDevice, with insertCustomJobs. The registry of `env` is the one that Post leaves.
unfoldable pub boot_detail_device : Env → CJob → HostCollector → Outcome HostCollector
boot_detail_device env job hc =
    if not (hc.pollaris_name == "")
    then ok hc
    else let sysoid = sysoid_of env job.result in
      if sysoid == "" then ok hc else elim (env.pollaris_by_oid sysoid) [
        | none ↦ ok hc
        | some p ↦
            if p.name == "boot03"
            then ok hc
            else insert_job env.registry (named p.name) hc.queue hc.heap
              >>= λ ((err, q, h) : Option String × Option JobsQueue × Heap).
                  ok (record hc { pollaris_name = p.name; queue = q; heap = h })
      ]

-- `job.Cadence.Current = 0`
unfoldable pub fast_again : CJob → Outcome CJob
fast_again job = do
  plan ← deref job.cadence
  ok (record job { cadence = some (record plan { current = pos 0 }) })

-- The end of jobComplete: the job is handed to the aggregator.
unfoldable pub forward : Env → ℕ → HostCollector → Outcome HostCollector
forward env a hc =
    let hc' : HostCollector = record hc { sent = hc.sent ++ job_at hc a ∷ [] } in
    if (job_at hc a).job_name == "systemMib"
    then boot_detail_device env (job_at hc a) hc'
    else ok hc'

unfoldable pub job_complete : Env → ℕ → HostCollector → Outcome HostCollector
job_complete env a hc =
    if not hc.has_service
    then ok hc
    else if not ((job_at hc a).error == "")
    then (fast_again (job_at hc a) >>= λ job. ok (put_job hc a job))
    else job_has_change (job_at hc a) >>= λ ((changed, job) : Bool × CJob).
        if not changed then ok (put_job hc a job) else forward env a (put_job hc a job)

-- The `for isComplete()` loop. `fuel` counts the stages left; `panic` at 0 stands for no result at all.
unfoldable pub advance : Registry → ℕ → HostCollector → Outcome HostCollector
advance r zero hc = panic
advance r (suc fuel) hc = deref (get_elem? hc.boot_stages hc.current_boot_stage) >>= deref >>= λ bs.
    elim (is_complete bs.job_names) [
      | false ↦ ok hc
      | true ↦ elim (ltb (suc hc.current_boot_stage) (length hc.boot_stages)) [
        | false ↦ ok (record hc { current_boot_stage = suc hc.current_boot_stage })
        | true ↦
            new_boot_state r (suc hc.current_boot_stage)
              (record hc { current_boot_stage = suc hc.current_boot_stage })
            >>= λ ((next, hc') : BootState × HostCollector). advance r fuel (record hc' {
              boot_stages = set hc'.boot_stages hc'.current_boot_stage (some next);
            })
      ]
    ]

unfoldable pub boot_progress : Registry → String → HostCollector → Outcome HostCollector
boot_progress r name hc =
    if not (ltb hc.current_boot_stage (length hc.boot_stages))
    then ok hc
    else deref (get_elem? hc.boot_stages hc.current_boot_stage) >>= deref >>= λ bs.
        advance r (length hc.boot_stages) (record hc {
          boot_stages = set hc.boot_stages hc.current_boot_stage (some (boot_job_complete name bs));
        })

-- MarkEnded, jobComplete and the boot sequence, after a job was executed
unfoldable pub complete_round : Env → ℕ → HostCollector → Outcome HostCollector
complete_round env a hc = do
  hc' ← job_complete env a hc
  boot_progress env.registry (job_at hc' a).job_name hc'

-- The job goes to the collector of its protocol. A collector that is not there disables the job.
unfoldable pub exec_round :
    (HostCollector → Outcome HostCollector) → Env → ℕ → Poll → HostCollector → Outcome HostCollector
exec_round stop env a poll hc = deref hc.collectors >>= λ cols. elim (Dict.get poll.protocol cols) [
  | none ↦ disable_job a (put_job hc a (mark_ended env.finish (job_at hc a))).heap >>= λ h.
      ok (record hc { heap = h })
  | some _ ↦ (if env.stops then stop hc else ok hc) >>= λ hc'.
      let job : CJob = mark_ended env.finish (env.exec poll.protocol (job_at hc' a)) in
      let hc'' : HostCollector = put_job hc' a job in
      if hc''.running then complete_round env a hc'' else ok hc''
]

unfoldable pub run_job :
    (HostCollector → Outcome HostCollector) → Env → ℕ → Poll → HostCollector → Outcome HostCollector
run_job stop env a poll hc =
    let started : HostCollector = put_job hc a (mark_start env.world.now (job_at hc a)) in
    elim (static_do env started (job_at started a)) [
      | none ↦ exec_round stop env a poll started
      | some result ↦
          result >>= λ job. complete_round env a (put_job started a (mark_ended env.finish job))
    ]

-- What a round of `for this.running` leaves: the loop ended, it sleeps, or it goes on at once.
pub data Next : Type 0 where
  ended : Next
  sleeps : ℤ → Next
  goes_on : Next

unfoldable pub collect_round :
    (HostCollector → Outcome HostCollector) → Env → HostCollector → Outcome (Next × HostCollector)
collect_round stop env hc =
    if not hc.running
    then ok (ended, hc)
    else pop env.world hc.queue hc.heap
      >>= λ ((job, wait, q, h) : Option ℕ × ℤ × Option JobsQueue × Heap).
          let popped : HostCollector = record hc { queue = q; heap = h } in
          elim job [
            | none ↦ ok (sleeps wait, popped)
            | some a ↦
                elim (env.poll_of (job_at popped a).pollaris_name (job_at popped a).job_name) [
                  | none ↦ ok (goes_on, popped)
                  | some poll ↦ run_job stop env a poll popped >>= λ hc'. ok (goes_on, hc')
                ]
          ]

-- The select on the admission channel wakes the loop before its time.
unfoldable pub woken : HostCollector → Outcome HostCollector
woken hc = expedite hc.queue hc.heap >>= λ h. ok (record hc { heap = h })

-- execJob, for the ExecuteService; a poll that is not there is a panic in the source too.
unfoldable pub exec_job : Env → CJob → HostCollector → Outcome (Bool × CJob)
exec_job env job hc =
    if not hc.has_service
    then panic
    else deref (env.poll_of job.pollaris_name job.job_name) >>= λ poll.
        deref hc.collectors >>= λ cols. ok (elim (Dict.get poll.protocol cols) [
          | none ↦ (false, mark_ended env.finish (mark_start env.world.now job))
          | some _ ↦
              (true, mark_ended env.finish (env.exec poll.protocol (mark_start env.world.now job)))
        ])
