-- ===== src/Snmp/Jobs.antt =====
-- walk, get and Exec of SNMPv2.go and table of SNMPv2Walk.go: the attempts, and what they leave in the
-- job. The texts of errors (`report`, of what failed, the identifier and the last error) and the encoders,
-- which give their bytes also after an error that is only logged, are parameters. So is the time: how
-- many rounds a walk has until its timeout, and which gets are late, for each number of attempts left.
use l8collector.Prelude.{
  ℕ, zero, suc, ◌+◌, Bool, true, false, not, Option, none, some, List, [], ◌∷◌, String, Outcome, ok,
  panic, ◌==◌, if◌then◌else◌, string_eq, nat_eq,
}
use l8collector.Prelude.Dict.{Dict, get, put}
use l8collector.Types.{CJob, Poll, Operation, get_one, walk_map, walk_table, unknown}
use l8collector.Tables.{CTable, Bytes, set_value, keys}
use l8collector.Text.Numbers.{atoi, to_int32}
use l8collector.Snmp.Oids.{normalize_oid, row_and_col_name}
use l8collector.Snmp.Session.{Library, Collector, connect, reconnect_session}
use l8collector.Snmp.Walk.{Pdu, End, out_of_time, panicked, ended, snmp_walk}
use l8collector.Snmp.Fetch.{Fetched, gave_up, failed, found, snmp_get}

pub record Surroundings (V : Type 0) : Type 0 where
  pub report : String → String → String → String
  pub timeout_text : String
  pub has_timeout : String → Bool
  pub rounds : ℕ → ℕ
  pub late : ℕ → Bool
  pub encode : V → Bytes
  pub encode_map : Dict String Bytes → Bytes
  pub encode_table : CTable → Option Bytes

-- the last error and the objects of an attempt
abbrev pub Tried : Type 0 → Type 0
Tried V = Option String × List (Pdu V)

abbrev pub after_answer : {W : Type 0} → Collector W → Collector W
after_answer c = record c { poll_success = true }

-- the timeout closes the session
abbrev pub after_timeout : {W : Type 0} → Collector W → Collector W
after_timeout c = record c { session = false; connected = false }

-- the range over the objects in `walk`
unfoldable pub map_of :
    {V : Type 0} → (V → Bytes) → List (Pdu V) → Dict String Bytes → Dict String Bytes
unfolding normalize_oid put
map_of encode [] m = m
map_of encode (p ∷ ps) m = map_of encode ps (put (normalize_oid p.name) (encode p.value) m)

-- the range over the keys in `table`
unfoldable pub fill_table : Dict String Bytes → List String → CTable → Outcome CTable
unfolding set_value row_and_col_name get atoi to_int32
fill_table m [] t = ok t
fill_table m (k ∷ ks) t =
    let place = row_and_col_name k in
    let value : Bytes = elim (get k m) [ none ↦ none | some v ↦ v ] in
    elim (set_value place.0 (to_int32 (atoi place.1)) place.1 value t) [
      | panic ↦ panic
      | ok t' ↦ fill_table m ks t'
    ]

abbrev pub empty_table : CTable
empty_table = record { rows = some []; columns = some [] }

abbrev pub failed_job : String → CJob → CJob
failed_job e job = record job { error = e; result = none; error_count = job.error_count + 1 }

module _ {W Oid V : Type 0} (lib : Library W Oid V) (env : Surroundings V) where
  -- the goroutine of a walk and the select that waits for it
  abbrev pub walk_answer : End V × Collector W → Tried V × Collector W
  walk_answer (out_of_time, c) = ((some env.timeout_text, []), after_timeout c)
  walk_answer (panicked, c) =
      ((some "SNMP Walk panic (session closed during operation)", []), after_answer c)
  walk_answer (ended e pdus, c) = ((e, pdus), after_answer c)

  -- what follows the reconnection between two attempts, where `again` are the attempts left
  abbrev pub retry :
      {R : Type 0}
      → R
      → (Collector W → Outcome R × Collector W)
      → Outcome (Option String) × Collector W
      → Outcome R × Collector W
  retry tried again (panic, c) = (panic, c)
  retry tried again (ok (some e), c) = (ok tried, c)
  retry tried again (ok none, c) = again c

  -- the end of an attempt at a walk
  abbrev pub walk_retry :
      ℕ
      → (Collector W → Outcome (Tried V) × Collector W)
      → Tried V × Collector W
      → Outcome (Tried V) × Collector W
  walk_retry left again ((none, pdus), c) = (ok (none, pdus), c)
  walk_retry left again ((some e, pdus), c) =
      if left == 0
      then (ok (some e, pdus), c)
      else retry (some e, pdus) again (reconnect_session lib c)

  -- the loop over the attempts, of which `left` are left
  unfoldable pub walk_attempts : ℕ → String → Collector W → Outcome (Tried V) × Collector W
  unfolding snmp_walk reconnect_session
  walk_attempts zero oid c = (ok (none, []), c)
  walk_attempts (suc left) oid c =
      walk_retry left (λ d. walk_attempts left oid d)
        (walk_answer (snmp_walk lib (env.rounds left) oid c))

  abbrev pub walk_prefix : String → String
  walk_prefix e = if env.has_timeout e then "SNMP Walk Timeout. Host:" else "SNMP Error Walk Host:"

  -- the rest of `walk`: the map is nil after an error
  abbrev pub walk_result :
      CJob
      → String
      → Bool
      → Outcome (Tried V) × Collector W
      → Outcome (CJob × Option (Dict String Bytes)) × Collector W
  walk_result job oid encode (panic, c) = (panic, c)
  walk_result job oid encode (ok (some e, pdus), c) =
      (ok (failed_job (env.report (walk_prefix e) oid e) job, none), c)
  walk_result job oid encode (ok (none, pdus), c) =
      let m = map_of env.encode pdus [] in
      let counted : CJob = record job { error_count = 0 } in
      (ok (if encode then record counted { result = env.encode_map m } else counted, some m), c)

  unfoldable pub walk :
      CJob → String → Bool → Collector W → Outcome (CJob × Option (Dict String Bytes)) × Collector W
  unfolding walk_attempts map_of
  walk job oid encode c = walk_result job oid encode (walk_attempts 10 oid c)

  abbrev pub encode_into : CJob → Outcome CTable → Outcome CJob
  encode_into job panic = panic
  encode_into job (ok t) = elim (env.encode_table t) [
    | none ↦ ok job
    | some b ↦ ok (record job { result = b })
  ]

  abbrev pub table_result :
      Outcome (CJob × Option (Dict String Bytes)) × Collector W → Outcome CJob × Collector W
  table_result (panic, c) = (panic, c)
  table_result (ok (job, none), c) =
      (if not (job.error == "") then ok job else encode_into job (ok empty_table), c)
  table_result (ok (job, some m), c) = (
    if not (job.error == "")
        then ok job
        else encode_into job (fill_table m (keys (some m)) empty_table),
    c,
  )

  unfoldable pub table : CJob → String → Collector W → Outcome CJob × Collector W
  unfolding walk fill_table keys
  table job oid c = table_result (walk job oid false c)

  -- the goroutine of a get and the select; a late get closes the session
  abbrev pub get_answer :
      Bool → Fetched V × Collector W → Option String × Option (Pdu V) × Collector W
  get_answer true (f, c) = (some env.timeout_text, none, after_timeout c)
  get_answer false (gave_up, c) =
      (some "SNMP GET panic (session closed during operation)", none, after_answer c)
  get_answer false (failed e, c) = (some e, none, after_answer c)
  get_answer false (found p, c) = (none, some p, after_answer c)

  abbrev pub get_retry :
      ℕ
      → (Collector W → Outcome (Option String × Option (Pdu V)) × Collector W)
      → Option String × Option (Pdu V) × Collector W
      → Outcome (Option String × Option (Pdu V)) × Collector W
  get_retry left again (none, p, c) = (ok (none, p), c)
  get_retry left again (some e, p, c) =
      if left == 0 then (ok (some e, p), c) else retry (some e, p) again (reconnect_session lib c)

  unfoldable pub get_attempts :
      ℕ → String → Collector W → Outcome (Option String × Option (Pdu V)) × Collector W
  unfolding snmp_get reconnect_session
  get_attempts zero oid c = (ok (none, none), c)
  get_attempts (suc left) oid c =
      get_retry left (λ d. get_attempts left oid d)
        (get_answer (env.late left) (snmp_get lib oid c))

  -- a nil object is dereferenced
  abbrev pub get_result :
      CJob
      → String
      → Outcome (Option String × Option (Pdu V)) × Collector W
      → Outcome CJob × Collector W
  get_result job oid (panic, c) = (panic, c)
  get_result job oid (ok (some e, p), c) =
      (ok (failed_job (env.report "SNMP Get Error Host:" oid e) job), c)
  get_result job oid (ok (none, none), c) = (panic, c)
  get_result job oid (ok (none, some p), c) = (
    ok (record job {
      error_count = 0;
      result = env.encode_map ((normalize_oid p.name, env.encode p.value) ∷ []);
    }),
    c,
  )

  unfoldable pub get_object : CJob → String → Collector W → Outcome CJob × Collector W
  unfolding get_attempts normalize_oid
  get_object job oid c = get_result job oid (get_attempts 10 oid c)

  abbrev pub job_of :
      Outcome (CJob × Option (Dict String Bytes)) × Collector W → Outcome CJob × Collector W
  job_of (panic, c) = (panic, c)
  job_of (ok p, c) = (ok p.0, c)

  abbrev pub run_poll : Operation → String → CJob → Collector W → Outcome CJob × Collector W
  unfolding get_object walk table
  run_poll get_one what job c = get_object job what c
  run_poll walk_map what job c = job_of (walk job what true c)
  run_poll walk_table what job c = table job what c
  run_poll (unknown n) what job c = (ok job, c)

  -- Exec, once there is a connection or an error; a poll that is not there leaves the job as it is
  abbrev pub exec_connected :
      Option Poll → CJob → Outcome (Option String) × Collector W → Outcome CJob × Collector W
  exec_connected poll job (panic, c) = (panic, c)
  exec_connected poll job (ok (some e), c) = (ok (failed_job e job), c)
  exec_connected none job (ok none, c) = (ok job, c)
  exec_connected (some poll) job (ok none, c) = run_poll poll.operation poll.what job c

  unfoldable pub exec :
      (String → String → Option Poll) → CJob → Collector W → Outcome CJob × Collector W
  unfolding run_poll connect
  exec poll_of job c =
      exec_connected (poll_of job.pollaris_name job.job_name) job
        (if not c.connected then connect lib c else (ok none, c))
