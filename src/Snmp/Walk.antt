-- ===== src/Snmp/Walk.antt =====
-- snmpWalk of SNMPv2Walk.go: the objects of a subtree, one GetNext after the other. The number of rounds
-- is how many the timeout of `walk` leaves time for.
use l8collector.Prelude.{
  ℕ, zero, suc, not, Option, none, some, List, [], ◌∷◌, ◌++◌, String, Outcome, ok, panic,
  if◌then◌else◌,
}
use l8collector.Snmp.Session.{Library, Collector, reconnect_session}

-- SnmpPDU
pub record Pdu (V : Type 0) : Type 0 where
  pub name : String
  pub value : V

-- How the goroutine of a walk ends: out of time, with a panic that it recovers from, or with its
-- result, which is an error or none, and the objects.
pub data End (V : Type 0) : Type 0 where
  out_of_time : End V
  panicked : End V
  ended : Option String → List (Pdu V) → End V

-- what a round gets: an object, or the end of the walk
pub data Answer (Oid V : Type 0) : Type 0 where
  got : Oid → V → Answer Oid V
  stop : End V → Answer Oid V

abbrev pub closed : String
closed = "SNMP session was closed during walk"

-- after the loop
unfoldable pub finish : {V : Type 0} → List (Pdu V) → End V
finish [] = ended (some "SNMP walk found no results") []
finish (p ∷ ps) = ended none (p ∷ ps)

-- the answer to the second GetNext, after a reconnection
abbrev pub second_answer : {Oid V : Type 0} → List (Pdu V) → Option (Oid × V) → Answer Oid V
second_answer pdus none = stop (finish pdus)
second_answer pdus (some p) = got p.0 p.1

module _ {W Oid V : Type 0} (lib : Library W Oid V) where
  -- the reconnection after a failed GetNext, and the second GetNext
  unfoldable pub ask_again :
      Oid → List (Pdu V) → Outcome (Option String) × Collector W → Answer Oid V × Collector W
  unfolding finish
  ask_again current pdus (panic, c) = (stop panicked, c)
  ask_again current pdus (ok (some e), c) = (stop (finish pdus), c)
  ask_again current pdus (ok none, c) =
      if not c.session
      then (stop (ended (some closed) pdus), c)
      else let answer = lib.get_next current c.world in
        (second_answer pdus answer.0, record c { world = answer.1 })

  -- the answer to the first GetNext; the session is looked at again before the reconnection
  unfoldable pub first_answer :
      Oid → List (Pdu V) → Collector W → Option (Oid × V) × W → Answer Oid V × Collector W
  unfolding ask_again reconnect_session
  first_answer current pdus c (some p, w) = (got p.0 p.1, record c { world = w })
  first_answer current pdus c (none, w) =
      if not c.session
      then (stop (ended (some closed) pdus), record c { world = w })
      else ask_again current pdus (reconnect_session lib (record c { world = w }))

  -- the first half of a round
  unfoldable pub ask : Oid → List (Pdu V) → Collector W → Answer Oid V × Collector W
  unfolding first_answer
  ask current pdus c =
      if not c.session
      then (stop (ended (some closed) pdus), c)
      else first_answer current pdus c (lib.get_next current c.world)

  -- the loop, in the subtree of `base`
  unfoldable pub walk_loop : ℕ → Oid → Oid → List (Pdu V) → Collector W → End V × Collector W
  unfolding ask finish
  walk_loop zero base current pdus c = (out_of_time, c)
  walk_loop (suc rounds) base current pdus c =
      let answer = ask current pdus c in
      elim answer.0 [
        | stop e ↦ (e, answer.1)
        | got next v ↦
            let rest =
              walk_loop rounds base next
                (pdus ++ record { name = lib.show_oid next; value = v } ∷ []) answer.1 in
            if not (lib.within next base)
            then (finish pdus, answer.1)
            else if lib.is_ber v
            then (finish pdus, answer.1)
            else rest
      ]

  unfoldable pub snmp_walk : ℕ → String → Collector W → End V × Collector W
  unfolding walk_loop
  snmp_walk rounds oid c =
      if not c.session
      then (ended (some "SNMP session is not initialized") [], c)
      else elim (lib.parse_oid oid) [
        | none ↦ (ended (some "failed to parse OID") [], c)
        | some base ↦ walk_loop rounds base base [] c
      ]
