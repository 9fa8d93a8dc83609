-- ===== src/Snmp/Net/Examples.antt =====
-- Tests and witnesses of the net-snmp fallback.
use l8collector.Prelude.{
  ◌≡◌, refl, some, String, string_eq, List, [], ◌∷◌, inr, ok, All, ◌==◌, if◌then◌else◌,
}
use l8collector.Prelude.Int.{pos}
use l8collector.Text.{trim_right, is_space}
use l8collector.Text.Splitting.{occurs-Lacks}
use l8collector.Text.Numbers.{decimal}
use l8collector.Text.Parts.{contains}
use l8collector.Text.Sorting.{strip_prefix}
use l8collector.Snmp.Net.{NetHost, words, signed, Run, exited, parse_value, snmp_walk, snmp_get}
use l8collector.Snmp.Net.Lines.{IsLine, pdu_of, snmp_walk-printed}
use l8collector.Snmp.Net.Values.{parse_value-decimal}

abbrev host : NetHost
host = record { addr = "10.0.0.2"; port = 161; timeout = 0 }

abbrev first_line : String × String
first_line = (".1.3.6.1.2.1.1.3.0", "42")

abbrev second_line : String × String
second_line = (".1.3.6.1.2.1.1.5.0", "core 1")

abbrev run : String → List String → Run
run tool args =
    if tool == "snmpget"
    then exited ".1.3.6.1.2.1.1.5.0 core 1\n"
    else exited ".1.3.6.1.2.1.1.3.0 42\n.1.3.6.1.2.1.1.5.0 core 1\n"

trimmed :
    (trim_right ".1.3.6.1.2.1.1.3.0" ≡ ".1.3.6.1.2.1.1.3.0")
    × (trim_right "42" ≡ "42")
    × (trim_right ".1.3.6.1.2.1.1.5.0" ≡ ".1.3.6.1.2.1.1.5.0")
    × (trim_right "core 1" ≡ "core 1")
unfolding trim_right is_space
trimmed = (refl, refl, refl, refl)

lines-IsLine : All IsLine (first_line ∷ second_line ∷ [])
unfolding is_space
lines-IsLine = (
  (
    (refl, trimmed.0, occurs-Lacks 10 ".1.3.6.1.2.1.1.3.0" refl),
    occurs-Lacks 32 ".1.3.6.1.2.1.1.3.0" refl,
    (refl, trimmed.1, occurs-Lacks 10 "42" refl),
  ),
  (
    (
      (refl, trimmed.2, occurs-Lacks 10 ".1.3.6.1.2.1.1.5.0" refl),
      occurs-Lacks 32 ".1.3.6.1.2.1.1.5.0" refl,
      (refl, trimmed.3, occurs-Lacks 10 "core 1" refl),
    ),
    tt,
  ),
)

snmp_walk-printed_example :
    (snmp_walk run (some host) (some "public") ".1.3.6.1.2.1.1.5.0"
      ≡ ok (inr (pdu_of first_line ∷ pdu_of second_line ∷ [])))
    × (snmp_get run (some host) (some "public") ".1.3.6.1.2.1.1.5.0"
        ≡ ok (inr (pdu_of second_line)))
snmp_walk-printed_example =
    snmp_walk-printed run host "public" ".1.3.6.1.2.1.1.5.0" first_line second_line
      (second_line ∷ []) [] lines-IsLine (lines-IsLine.1.0, tt) refl refl

parse_value-decimal_example : parse_value "42" ≡ signed (pos 42)
unfolding decimal
parse_value-decimal_example = parse_value-decimal 42

-- the prefix of a hexadecimal string is not removed
hex_test : parse_value "Hex-STRING: 0A 1B" ≡ words "Hex-STRING: 0A 1B"
unfolding parse_value contains strip_prefix
hex_test = refl
