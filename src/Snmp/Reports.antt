-- ===== src/Snmp/Reports.antt =====
-- What a walk leaves in its job, and what Online says after it.
use l8collector.Prelude.{
  ℕ, ◌≡◌, ◌≢◌, ◌⊎◌, Bool, Option, none, some, List, [], String, Outcome, ok, panic, if◌then◌else◌,
  string_eq, nat_eq, All,
}
use l8collector.Prelude.Dict.{Dict}
use l8collector.Types.{CJob}
use l8collector.Tables.{Bytes}
use l8collector.Snmp.Session.{Library, Collector}
use l8collector.Snmp.Walk.{Pdu, snmp_walk}
use l8collector.Snmp.Subtree.{Inside}
use l8collector.Snmp.Jobs.{Surroundings, Tried, map_of, walk_answer, walk_prefix, failed_job}

module _ {W Oid V : Type 0} (lib : Library W Oid V) where
  module _ (env : Surroundings V) (oid : String) (base : Oid) where
    -- what an attempt brought, at some state of the collector
    abbrev pub IsTried : Tried V → Type 0
    IsTried tried =
        (left : ℕ) × (d : Collector W) × ((walk_answer lib env
            (snmp_walk lib (env.rounds left) oid d)).0
          ≡ tried)

    -- the attempts end with what one of them brought, and without an error it is objects of the subtree
    Sound : Outcome (Tried V) × Collector W → Type 0
    Sound (panic, c) = ⊥
    Sound (ok (some e, pdus), c) = IsTried (some e, pdus)
    Sound (ok (none, pdus), c) = IsTried (none, pdus) × (pdus ≢ []) × All (Inside lib base) pdus

    -- A walk that failed: the attempts ended with an error, that of one of them; the job has its report
    -- and one error more, and no result.
    abbrev pub Failed : Outcome (Tried V) → CJob → CJob × Option (Dict String Bytes) → Type 0
    Failed tried job r =
        (e : String) × (pdus : List (Pdu V)) × (tried ≡ ok (some e, pdus))
        × IsTried (some e, pdus)
        × (r.1 ≡ none)
        × (r.0 ≡ failed_job (env.report (walk_prefix lib env e) oid e) job)

    -- A walk that succeeded: the attempts ended with the objects that one of them found, which are some,
    -- all of them in the subtree; the map has them, it is the result if that was asked for, and there are
    -- no errors.
    abbrev pub Succeeded :
        Outcome (Tried V) → CJob → Bool → CJob × Option (Dict String Bytes) → Type 0
    Succeeded tried job encode r =
        (pdus : List (Pdu V)) × (tried ≡ ok (none, pdus))
        × IsTried (none, pdus)
        × (pdus ≢ [])
        × All (Inside lib base) pdus
        × (r.1 ≡ some (map_of env.encode pdus []))
        × (r.0.error ≡ job.error)
        × (r.0.error_count ≡ 0)
        × (r.0.result ≡ (if encode then env.encode_map (map_of env.encode pdus []) else job.result))

    abbrev Reported :
        Outcome (Tried V)
        → CJob
        → Bool
        → Outcome (CJob × Option (Dict String Bytes)) × Collector W
        → Type 0
    Reported tried job encode r =
        (out : CJob × Option (Dict String Bytes)) × (r.0 ≡ ok out)
        × (Failed tried job out ⊎ Succeeded tried job encode out)
