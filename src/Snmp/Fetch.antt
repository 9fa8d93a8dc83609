-- ===== src/Snmp/Fetch.antt =====
-- snmpGet of SNMPv2.go: the value of one object, with one reconnection.
use l8collector.Prelude.{not, Option, none, some, String, Outcome, ok, panic, if◌then◌else◌}
use l8collector.Snmp.Session.{Library, Collector, reconnect_session}
use l8collector.Snmp.Walk.{Pdu}

pub data Fetched (V : Type 0) : Type 0 where
  gave_up : Fetched V
  failed : String → Fetched V
  found : Pdu V → Fetched V

module _ {W Oid V : Type 0} (lib : Library W Oid V) where
  abbrev pub second_value : String → Collector W → Option V × W → Fetched V × Collector W
  second_value oid c (none, w) = (failed "SNMP GET failed after reconnect", record c { world = w })
  second_value oid c (some v, w) =
      (found (record { name = oid; value = v }), record c { world = w })

  -- after the reconnection; a panic of Connect is recovered by the goroutine of `get`
  unfoldable pub fetch_again :
      String → Oid → Outcome (Option String) × Collector W → Fetched V × Collector W
  fetch_again oid parsed (panic, c) = (gave_up, c)
  fetch_again oid parsed (ok (some e), c) = (failed "SNMP GET failed (reconnect also failed)", c)
  fetch_again oid parsed (ok none, c) =
      if not c.session
      then (failed "SNMP session is nil after reconnect", c)
      else second_value oid c (lib.get_value parsed c.world)

  unfoldable pub first_value : String → Oid → Collector W → Option V × W → Fetched V × Collector W
  unfolding fetch_again reconnect_session
  first_value oid parsed c (some v, w) =
      (found (record { name = oid; value = v }), record c { world = w })
  first_value oid parsed c (none, w) =
      if not c.session
      then (failed "SNMP session was closed during get", record c { world = w })
      else fetch_again oid parsed (reconnect_session lib (record c { world = w }))

  unfoldable pub snmp_get : String → Collector W → Fetched V × Collector W
  unfolding first_value
  snmp_get oid c =
      if not c.session
      then (failed "SNMP session is not initialized", c)
      else elim (lib.parse_oid oid) [
        | none ↦ (failed "failed to parse OID", c)
        | some parsed ↦ first_value oid parsed c (lib.get_value parsed c.world)
      ]
