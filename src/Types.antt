-- ===== src/Types.antt =====
-- The messages of l8pollaris (types/l8tpollaris) that the collector reads and writes, with the
-- fields that it uses. A pointer or slice that may be nil is an `Option`; a job's cadence plan is
-- owned by the job alone (`cloneCadence`), so it is a value inside the job.
use l8collector.Prelude.{
  ℕ, ◌+◌, ◌≡◌, ◌↔◌, Bool, true, false, Option, none, List, String, Comparable, nat_beq, arith,
}
use l8collector.Prelude.Int.{ℤ, pos}
use l8collector.Prelude.Dict.{Dict}

-- L8PProtocol; `other` stands for the values that the collector has no implementation for.
pub data Protocol : Type 0 where
  graphql restapi ssh snmpv2 kubectl kubernetes_api : Protocol
  other : ℕ → Protocol

abbrev pub tag : Protocol → ℕ
tag graphql = 0
tag restapi = 1
tag ssh = 2
tag snmpv2 = 3
tag kubectl = 4
tag kubernetes_api = 5
tag (other n) = 6 + n

abbrev pub protocol_beq : Protocol → Protocol → Bool
protocol_beq p q = nat_beq (tag p) (tag q)

pub protocol_beq_iff : (p q : Protocol) → (protocol_beq p q ≡ true) ↔ (p ≡ q)
protocol_beq_iff p q = ground arith

instance abbrev pub protocol_eq : Comparable Protocol
protocol_eq = record { same = protocol_beq; same_iff = protocol_beq_iff }

-- L8PCadencePlan
pub record CadencePlan : Type 0 where
  pub enabled : Bool
  pub current : ℤ
  pub cadences : List ℤ
  pub startups : Option (List ℤ)

-- CJob. `result` is the byte slice, nil or not.
pub record CJob : Type 0 where
  pub target_id : String
  pub host_id : String
  pub links_id : String
  pub pollaris_name : String
  pub job_name : String
  pub cadence : Option CadencePlan
  pub timeout : ℤ
  pub always : Bool
  pub started : ℤ
  pub ended : ℤ
  pub result : Option (List ℕ)
  pub last_result_hash : ℕ
  pub error : String
  pub error_count : ℕ
  pub arguments : Option (Dict String String)

-- &l8tpollaris.CJob{}
abbrev pub empty_job : CJob
empty_job = record {
  target_id = "";
  host_id = "";
  links_id = "";
  pollaris_name = "";
  job_name = "";
  cadence = none;
  timeout = pos 0;
  always = false;
  started = pos 0;
  ended = pos 0;
  result = none;
  last_result_hash = 0;
  error = "";
  error_count = 0;
  arguments = none;
}

-- L8C_Operation
pub data Operation : Type 0 where
  get_one walk_map walk_table : Operation
  unknown : ℕ → Operation

-- L8Poll
pub record Poll : Type 0 where
  pub name : String
  pub what : String
  pub operation : Operation
  pub protocol : Protocol
  pub cadence : Option CadencePlan
  pub timeout : ℤ
  pub always : Bool

-- L8Pollaris
pub record Pollaris : Type 0 where
  pub name : String
  pub polling : Dict String Poll
  pub order : Option (List String)

-- L8PHostProtocol, L8PHost and L8PTarget
pub record HostProtocol : Type 0 where
  pub protocol : Protocol
  pub addr : String

pub record Host : Type 0 where
  pub host_id : String
  pub configs : List HostProtocol

pub record Target : Type 0 where
  pub target_id : String
  pub links_id : String
  pub hosts : Dict String Host

-- The arguments of `pollaris.PollarisByKey` and `pollaris.PollarisByGroup`.
pub record PollarisKey : Type 0 where
  pub name : String
  pub vendor : String
  pub series : String
  pub family : String
  pub software : String
  pub hardware : String
  pub version : String

abbrev pub named : String → PollarisKey
named n = record {
  name = n;
  vendor = "";
  series = "";
  family = "";
  software = "";
  hardware = "";
  version = "";
}
