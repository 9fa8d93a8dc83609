-- ===== src/Snmp/Examples.antt =====
-- The theorems on the SNMP collector at concrete inputs.
use l8collector.Prelude.{
  ℕ, suc, ◌-◌, ◌≡◌, ◌≢◌, refl, true, false, none, some, [], ◌∷◌, ok, ltb, ◌==◌, if◌then◌else◌,
  nat_eq, arith,
}
use l8collector.Prelude.Dict.{Dict}
use l8collector.Types.{empty_job}
use l8collector.Snmp.Session.{Library, Collector, online}
use l8collector.Snmp.Walk.{out_of_time, snmp_walk}
use l8collector.Snmp.Jobs.{Surroundings, walk, failed_job}
use l8collector.Snmp.Subtree.{Falls, snmp_walk-ends}
use l8collector.Snmp.Deaf.{no_results, IsDeaf, walk-deaf-online}

-- a device with two objects in the subtree of 0
abbrev device : Library (Unit {0}) ℕ ℕ
device = record {
  parse_oid = λ s. some 0;
  show_oid = λ o. if o == 1 then "iso.2.1" else "iso.2.2";
  within = λ o base. ltb o 3;
  is_ber = λ v. false;
  credential = some "public";
  open_session = λ s w. (none, w);
  get_value = λ o w. (some o, w);
  get_next = λ o w. (some (suc o, o), w);
}

abbrev dead : Library (Unit {0}) ℕ ℕ
dead = record device { get_next = λ o w. (none, w) }

abbrev collector : Collector (Unit {0})
collector = record { session = true; connected = true; poll_success = false; world = tt }

abbrev surroundings : Surroundings ℕ
surroundings = record {
  report = λ what oid e. e;
  timeout_text = "timeout after 1m0s";
  has_timeout = λ e. false;
  rounds = λ k. 5;
  late = λ k. false;
  encode = λ v. some (v ∷ []);
  encode_map = λ m. some [];
  encode_table = λ t. some (some []);
}

device-Falls : Falls device 0 (λ o. 3 - o)
device-Falls o next v w e h = ground arith

snmp_walk-ends_example : (snmp_walk device 4 "iso.2" collector).0 ≢ out_of_time
snmp_walk-ends_example =
    snmp_walk-ends device 4 "iso.2" 0 collector (λ o. 3 - o) refl device-Falls (omega arith)

dead-IsDeaf : IsDeaf dead
dead-IsDeaf = record {
  community = "public";
  has_credential = refl;
  opens = λ w. refl;
  silent = λ o w. refl;
}

walk-deaf-online_example :
    ((walk dead surroundings empty_job "iso.2" true collector).0
      ≡ ok (failed_job no_results empty_job, none))
    × (online (walk dead surroundings empty_job "iso.2" true collector).1 ≡ true)
walk-deaf-online_example =
    walk-deaf-online dead dead-IsDeaf surroundings "iso.2" 0 empty_job true refl (λ k. omega arith)
      collector (refl, refl)
