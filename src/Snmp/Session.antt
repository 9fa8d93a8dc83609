-- ===== src/Snmp/Session.antt =====
-- The connection of the SNMP collector: Connect, Disconnect, reconnectSession and Online.
use l8collector.Prelude.{Bool, true, false, ◌&&◌, Option, none, some, String, Outcome, ok, panic}

-- The WapSNMP library, with the device and the network behind it as a state `W`. `credential` is the
-- answer of the security service, `none` for an error. The errors of the session calls are texts.
pub record Library (W Oid V : Type 0) : Type 0 where
  pub parse_oid : String → Option Oid
  pub show_oid : Oid → String
  pub within : Oid → Oid → Bool
  pub is_ber : V → Bool
  pub credential : Option String
  pub open_session : String → W → Option String × W
  pub get_value : Oid → W → Option V × W
  pub get_next : Oid → W → Option (Oid × V) × W

-- SNMPv2Collector. `session` says whether there is one.
pub record Collector (W : Type 0) : Type 0 where
  pub session : Bool
  pub connected : Bool
  pub poll_success : Bool
  pub world : W

-- Disconnect; what the close of the session returns is only logged
unfoldable pub disconnect : {W : Type 0} → Collector W → Collector W
disconnect c = record c { session = false; connected = false }

abbrev pub online : {W : Type 0} → Collector W → Bool
online c = c.connected && c.poll_success

-- what Connect makes of the answer of NewWapSNMP
abbrev pub opened :
    {W : Type 0} → Collector W → Option String × W → Outcome (Option String) × Collector W
opened c (some e, w) = (ok (some e), record c { world = w })
opened c (none, w) = (ok none, record c { world = w; session = true; connected = true })

module _ {W Oid V : Type 0} (lib : Library W Oid V) where
  -- Connect: a missing credential panics, and a session that cannot be opened is an error.
  unfoldable pub connect : Collector W → Outcome (Option String) × Collector W
  connect c = elim lib.credential [
    | none ↦ (panic, c)
    | some community ↦ opened c (lib.open_session community c.world)
  ]

  unfoldable pub reconnect_session : Collector W → Outcome (Option String) × Collector W
  unfolding connect disconnect
  reconnect_session c = connect (disconnect c)
