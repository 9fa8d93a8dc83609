-- ===== src/Snmp/Net.antt =====
-- collector/protocols/snmp/NetSNMPv2.go: the fallback that runs the commands of net-snmp and reads their
-- output. What the operating system makes of a command is a parameter (Run).
mod Lines
mod Digits
mod Values
mod Examples
use Prim.Native.Char.{code}
use Prim.Native.String.{◌++◌ as str_append}
use l8collector.Prelude.{
  ℕ, ◌+◌, ◌-◌, ◌^◌, Bool, true, false, Option, none, some, String, List, [], ◌∷◌, ◌⊎◌, inl, inr,
  Outcome, ok, panic, ◌==◌, string_eq, nat_eq, if◌then◌else◌, ltb, leb,
}
use l8collector.Prelude.Int.{ℤ, pos, negsuc}
use l8collector.Text.{trim_space, split, cut}
use l8collector.Text.Numbers.{decimal, digits_value}
use l8collector.Text.Parts.{contains, trim_prefix}

-- a value of a parsed line: string, int64 or uint64
pub data NetValue : Type 0 where
  words : String → NetValue
  signed : ℤ → NetValue
  unsigned : ℕ → NetValue

pub record NetPdu : Type 0 where
  pub name : String
  pub value : NetValue

-- strconv.ParseUint(s, 10, bits), where an error is `none`
unfoldable pub parse_uint : ℕ → String → Option ℕ
unfolding digits_value
parse_uint bits String.[] = none
parse_uint bits (String.◌∷◌ c s) = elim (digits_value 0 (String.◌∷◌ c s)) [
  | none ↦ none
  | some n ↦ if ltb n (2 ^ bits) then some n else none
]

abbrev pub negative : Option ℕ → Option ℤ
negative none = none
negative (some n) =
    if n == 0 then some (pos 0) else if leb n (2 ^ 63) then some (negsuc (n - 1)) else none

abbrev pub positive : Option ℕ → Option ℤ
positive none = none
positive (some n) = some (pos n)

abbrev pub unsigned_digits : String → Option ℕ
unsigned_digits s = if s == "" then none else digits_value 0 s

-- strconv.ParseInt(s, 10, 64), where an error is `none`
unfoldable pub parse_int : String → Option ℤ
unfolding parse_uint digits_value
parse_int String.[] = none
parse_int (String.◌∷◌ c s) =
    if code c == 45
    then negative (unsigned_digits s)
    else if code c == 43
    then positive (parse_uint 63 s)
    else positive (parse_uint 63 (String.◌∷◌ c s))

abbrev pub int_or_words : String → NetValue
int_or_words s = elim (parse_int s) [ none ↦ words s | some v ↦ signed v ]

abbrev pub uint_or_words : ℕ → String → NetValue
uint_or_words bits s = elim (parse_uint bits s) [ none ↦ words s | some v ↦ unsigned v ]

-- the time ticks after their type: the number in front of ")", where there is one
abbrev pub ticks_value : String → NetValue
ticks_value s = elim (cut 41 s) [
  | none ↦ words s
  | some p ↦ uint_or_words 32 (trim_prefix "(" (trim_space p.0))
]

-- parseValue
unfoldable pub parse_value : String → NetValue
unfolding contains parse_int parse_uint trim_space cut
parse_value s =
    if contains "STRING: " s
    then words (trim_prefix "STRING: " s)
    else if contains "INTEGER: " s
    then int_or_words (trim_prefix "INTEGER: " s)
    else if contains "Counter32: " s
    then uint_or_words 32 (trim_prefix "Counter32: " s)
    else if contains "Counter64: " s
    then uint_or_words 64 (trim_prefix "Counter64: " s)
    else if contains "Gauge32: " s
    then uint_or_words 32 (trim_prefix "Gauge32: " s)
    else if contains "TimeTicks: " s
    then ticks_value (trim_prefix "TimeTicks: " s)
    else if contains "OID: " s
    then words (trim_prefix "OID: " s)
    else if contains "IpAddress: " s
    then words (trim_prefix "IpAddress: " s)
    else if contains "Hex-STRING: " s
    then words (trim_prefix "Hex-STRING: " s)
    else int_or_words s

-- what the two parts of a trimmed line say
abbrev pub line_pdu : Option (String × String) → Option NetPdu
line_pdu none = none
line_pdu (some p) = some (record { name = trim_space p.0; value = parse_value (trim_space p.1) })

-- the loop over the lines; a line that is empty or has no space is left out
unfoldable pub parse_lines : List String → List NetPdu
unfolding parse_value trim_space cut
parse_lines [] = []
parse_lines (l ∷ ls) =
    let rest = parse_lines ls in
    elim (if trim_space l == "" then none else line_pdu (cut 32 (trim_space l))) [
      | none ↦ rest
      | some pdu ↦ pdu ∷ rest
    ]

abbrev pub no_data : String
no_data = "failed to parse any valid SNMP data from output"

abbrev pub or_no_data : List NetPdu → String ⊎ List NetPdu
or_no_data [] = inl no_data
or_no_data (p ∷ ps) = inr (p ∷ ps)

-- parseSnmpWalkOutput
unfoldable pub parse_snmp_walk_output : String → String ⊎ List NetPdu
unfolding parse_lines split trim_space
parse_snmp_walk_output output = or_no_data (parse_lines (split 10 (trim_space output)))

-- NetSNMPCollector; the port is not negative. `config` may be nil.
pub record NetHost : Type 0 where
  pub addr : String
  pub port : ℕ
  pub timeout : ℕ

-- How a command ended: with its output, with an error and its output, or at the timeout, whose text is
-- given.
pub data Run : Type 0 where
  exited : String → Run
  exit_failed : String → String → Run
  timed_out : String → Run

-- the arguments of snmpwalk and snmpget
unfoldable pub net_args : NetHost → String → String → List String
unfolding decimal
net_args h community oid =
    "-v"
    ∷ "2c"
    ∷ "-c"
    ∷ community
    ∷ "-t"
    ∷ decimal (if h.timeout == 0 then 60 else h.timeout)
    ∷ "-r"
    ∷ "3"
    ∷ "-On"
    ∷ "-Oq"
    ∷ str_append h.addr (str_append ":" (decimal h.port))
    ∷ oid
    ∷ []

-- what a command's end makes of the call
unfoldable pub run_result : String → String → Run → String ⊎ String
run_result tool oid (exit_failed e out) = inl (
    str_append "net-snmp "
      (str_append tool (str_append " failed: " (str_append e (str_append ", output: " out)))))
run_result tool oid (timed_out t) =
    inl (str_append "net-snmp " (str_append tool (str_append " timed out after " t)))
run_result tool oid (exited out) =
    if out == ""
    then inl
        (str_append "net-snmp " (str_append tool (str_append " returned no data for OID " oid)))
    else inr out

abbrev pub then_parse : String ⊎ String → String ⊎ List NetPdu
then_parse (inl e) = inl e
then_parse (inr out) = parse_snmp_walk_output out

abbrev pub first_of : String → String ⊎ List NetPdu → String ⊎ NetPdu
first_of oid (inl e) = inl (str_append "failed to parse snmpget output for OID " oid)
first_of oid (inr []) = inl (str_append "failed to parse snmpget output for OID " oid)
first_of oid (inr (p ∷ ps)) = inr p

abbrev pub then_first : String → String ⊎ String → String ⊎ NetPdu
then_first oid (inl e) = inl e
then_first oid (inr out) = first_of oid (parse_snmp_walk_output out)

-- the commands: `run` is given the tool and its arguments; without a credential the code panics
module _ (run : String → List String → Run) where
  unfoldable pub snmp_walk :
      Option NetHost → Option String → String → Outcome (String ⊎ List NetPdu)
  unfolding net_args run_result parse_snmp_walk_output
  snmp_walk none credential oid = ok (inl "SNMP config is not initialized")
  snmp_walk (some h) none oid = panic
  snmp_walk (some h) (some community) oid =
      ok (then_parse (run_result "snmpwalk" oid (run "snmpwalk" (net_args h community oid))))

  unfoldable pub snmp_get : Option NetHost → Option String → String → Outcome (String ⊎ NetPdu)
  unfolding net_args run_result parse_snmp_walk_output
  snmp_get none credential oid = ok (inl "SNMP config is not initialized")
  snmp_get (some h) none oid = panic
  snmp_get (some h) (some community) oid =
      ok (then_first oid (run_result "snmpget" oid (run "snmpget" (net_args h community oid))))
