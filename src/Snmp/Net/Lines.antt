-- ===== src/Snmp/Net/Lines.antt =====
-- The lines of the commands are read back.
use Prim.Native.Char.{Char, code}
use Prim.Native.String.{◌++◌ as str_append}
use text.Mathlib.TextLemmas.{cons-append, nil-append}
use l8collector.Prelude.{
  ℕ, ◌≡◌, refl, sym, ap, ◌∙◌, subst, Bool, true, false, not, ◌&&◌, none, some, String, List, [],
  ◌∷◌, ◌==◌, string_eq, nat_eq, if◌then◌else◌, arith, inr, if_no, All, map, ok,
}
use l8collector.Text.{Lacks, is_space, trim_left, trim_right, trim_space, split, cut}
use l8collector.Text.Splitting.{split-append, split-Lacks, cut-append, cons_full}
use l8collector.Snmp.Net.{
  NetPdu, parse_value, parse_lines, line_pdu, or_no_data, parse_snmp_walk_output, NetHost, Run,
  exited, net_args, run_result, then_parse, then_first, first_of, snmp_walk, snmp_get,
}

abbrev is_empty : String → Bool
is_empty s = s == ""

-- the first character is no space
abbrev pub starts_full : String → Bool
starts_full String.[] = false
starts_full (String.◌∷◌ c s) = not (is_space (code c))

-- No white space is at the ends, and there is no line end.
abbrev pub IsField : String → Type 0
IsField s = (starts_full s ≡ true) × (trim_right s ≡ s) × Lacks 10 s

trim_left-full : (s : String) → starts_full s ≡ true → trim_left s ≡ s
unfolding trim_left
trim_left-full String.[] e = refl
trim_left-full (String.◌∷◌ c s) e = ground (arith, e)

trim_space-IsField : (s : String) → IsField s → trim_space s ≡ s
unfolding trim_space
trim_space-IsField s f = ap trim_right (trim_left-full s f.0) ∙ f.1

starts_full-nonempty : (s : String) → starts_full s ≡ true → (s == "") ≡ false
starts_full-nonempty String.[] e = cc
starts_full-nonempty (String.◌∷◌ c s) e = cons_full c s

append_full : (s t : String) → (t == "") ≡ false → (str_append s t == "") ≡ false
append_full String.[] t f = ap is_empty (nil-append t) ∙ f
append_full (String.◌∷◌ c s) t f = ap is_empty (cons-append c s t) ∙ cons_full c (str_append s t)

and_no : (a : Bool) → (a && false) ≡ false
and_no true = refl
and_no false = refl

trim_right-cons :
    (c : Char) (s : String)
    → (s == "") ≡ false
    → trim_right s ≡ s
    → trim_right (String.◌∷◌ c s) ≡ String.◌∷◌ c s
unfolding trim_right
trim_right-cons c s f e =
    ap (λ r. if is_space (code c) && r == "" then "" else String.◌∷◌ c r) e
    ∙ if_no "" (ap (λ b. is_space (code c) && b) f ∙ and_no (is_space (code c)))

-- A text with a text behind it that has no space at its end has none at its end.
trim_right-append :
    (s t : String)
    → (t == "") ≡ false
    → trim_right t ≡ t
    → trim_right (str_append s t) ≡ str_append s t
trim_right-append String.[] t f e = ap trim_right (nil-append t) ∙ e ∙ sym (nil-append t)
trim_right-append (String.◌∷◌ c s) t f e =
    ap trim_right (cons-append c s t)
    ∙ trim_right-cons c (str_append s t) (append_full s t f) (trim_right-append s t f e)
    ∙ sym (cons-append c s t)

-- A line end behind a text is trimmed.
trim_right-line_end : (s : String) → trim_right (str_append s "\n") ≡ trim_right s
unfolding trim_right is_space
trim_right-line_end String.[] = refl
trim_right-line_end (String.◌∷◌ c s) =
    ap trim_right (cons-append c s "\n")
    ∙ ap (λ r. if is_space (code c) && r == "" then "" else String.◌∷◌ c r) (trim_right-line_end s)

starts_full-append : (s t : String) → starts_full s ≡ true → starts_full (str_append s t) ≡ true
starts_full-append String.[] t e = cc
starts_full-append (String.◌∷◌ c s) t e = ap starts_full (cons-append c s t) ∙ e

Lacks-append : (sep : ℕ) (s t : String) → Lacks sep s → Lacks sep t → Lacks sep (str_append s t)
Lacks-append sep String.[] t a b = subst (Lacks sep) (sym (nil-append t)) b
Lacks-append sep (String.◌∷◌ c s) t a b =
    subst (Lacks sep) (sym (cons-append c s t)) (a.0, Lacks-append sep s t a.1 b)

-- an identifier and a value as a line
abbrev pub write_line : String × String → String
write_line p = str_append p.0 (String.◌∷◌ " " p.1)

abbrev pub write_lines : List (String × String) → String
write_lines [] = ""
write_lines (p ∷ []) = write_line p
write_lines (p ∷ q ∷ ps) = str_append (write_line p) (String.◌∷◌ "\n" (write_lines (q ∷ ps)))

-- what a tool prints: each line has its end
abbrev pub printed : List (String × String) → String
printed ps = str_append (write_lines ps) "\n"

-- Both are fields, and the identifier has no space.
abbrev pub IsLine : String × String → Type 0
IsLine p = IsField p.0 × Lacks 32 p.0 × IsField p.1

abbrev pub pdu_of : String × String → NetPdu
pdu_of p = record { name = p.0; value = parse_value p.1 }

write_line-IsField : (p : String × String) → IsLine p → IsField (write_line p)
write_line-IsField p (f, l, g) = (
  starts_full-append p.0 (String.◌∷◌ " " p.1) f.0,
  trim_right-append p.0 (String.◌∷◌ " " p.1) (cons_full " " p.1)
      (trim_right-cons " " p.1 (starts_full-nonempty p.1 g.0) g.1),
  Lacks-append 10 p.0 (String.◌∷◌ " " p.1) f.2 (refl, g.2),
)

line_read :
    (p : String × String)
    → IsLine p
    → (if trim_space (write_line p) == ""
        then none
        else line_pdu (cut 32 (trim_space (write_line p))))
      ≡ some (pdu_of p)
line_read p (f, l, g) =
    let field = write_line-IsField p (f, l, g) in
    ap (λ s. if s == "" then none else line_pdu (cut 32 s))
      (trim_space-IsField (write_line p) field)
    ∙ if_no none (starts_full-nonempty (write_line p) field.0)
    ∙ ap line_pdu (cut-append 32 p.0 " " p.1 l refl)
    ∙ (λ i. some (record {
      name = trim_space-IsField p.0 f i;
      value = parse_value (trim_space-IsField p.1 g i);
    }))

parse_lines-write_line :
    (ps : List (String × String)) → All IsLine ps → parse_lines (map write_line ps) ≡ map pdu_of ps
unfolding parse_lines
parse_lines-write_line [] h = refl
parse_lines-write_line (p ∷ ps) h =
    (λ i. elim (line_read p h.0 i) [
      | none ↦ parse_lines (map write_line ps)
      | some pdu ↦ pdu ∷ parse_lines (map write_line ps)
    ])
    ∙ ap (λ r. pdu_of p ∷ r) (parse_lines-write_line ps h.1)

starts_full-lines :
    (p : String × String) (ps : List (String × String))
    → All IsLine (p ∷ ps)
    → starts_full (write_lines (p ∷ ps)) ≡ true
starts_full-lines p [] h = (write_line-IsField p h.0).0
starts_full-lines p (q ∷ ps) h = starts_full-append (write_line p) _ (write_line-IsField p h.0).0

trim_right-lines :
    (p : String × String) (ps : List (String × String))
    → All IsLine (p ∷ ps)
    → trim_right (write_lines (p ∷ ps)) ≡ write_lines (p ∷ ps)
trim_right-lines p [] h = (write_line-IsField p h.0).1
trim_right-lines p (q ∷ ps) h =
    trim_right-append (write_line p) _ (cons_full "\n" (write_lines (q ∷ ps))) (
      trim_right-cons "\n" (write_lines (q ∷ ps))
        (starts_full-nonempty (write_lines (q ∷ ps)) (starts_full-lines q ps h.1))
        (trim_right-lines q ps h.1))

split-lines :
    (p : String × String) (ps : List (String × String))
    → All IsLine (p ∷ ps)
    → split 10 (write_lines (p ∷ ps)) ≡ map write_line (p ∷ ps)
split-lines p [] h = split-Lacks 10 (write_line p) (write_line-IsField p h.0).2
split-lines p (q ∷ ps) h =
    split-append 10 (write_line p) "\n" (write_lines (q ∷ ps)) (write_line-IsField p h.0).2 refl
    ∙ ap (λ ls. write_line p ∷ ls) (split-lines q ps h.1)

starts_full-printed :
    (p : String × String) (ps : List (String × String))
    → All IsLine (p ∷ ps)
    → starts_full (printed (p ∷ ps)) ≡ true
starts_full-printed p ps h =
    starts_full-append (write_lines (p ∷ ps)) "\n" (starts_full-lines p ps h)

-- The printed lines are read as the identifiers, in order, with what parseValue makes of the values.
parse_snmp_walk_output-printed :
    (p : String × String) (ps : List (String × String))
    → All IsLine (p ∷ ps)
    → parse_snmp_walk_output (printed (p ∷ ps)) ≡ inr (map pdu_of (p ∷ ps))
unfolding parse_snmp_walk_output trim_space
parse_snmp_walk_output-printed p ps h =
    ap (λ s. or_no_data (parse_lines (split 10 s)))
      (ap trim_right (trim_left-full (printed (p ∷ ps)) (starts_full-printed p ps h))
        ∙ trim_right-line_end (write_lines (p ∷ ps))
        ∙ trim_right-lines p ps h)
    ∙ ap (λ ls. or_no_data (parse_lines ls)) (split-lines p ps h)
    ∙ ap or_no_data (parse_lines-write_line (p ∷ ps) h)

run_result-exited :
    (tool oid out : String) → (out == "") ≡ false → run_result tool oid (exited out) ≡ inr out
unfolding run_result
run_result-exited tool oid out e = if_no _ e

-- Where snmpwalk and snmpget exit with one line or more each, a line being an identifier without spaces, a
-- space, a value and the line end, identifier and value not empty, without white space at their ends and
-- without line ends in them, snmpWalk returns the identifiers of the lines of snmpwalk in order, with what
-- parseValue makes of the values, and snmpGet the first line of snmpget likewise.
pub snmp_walk-printed :
    (run : String → List String → Run) (h : NetHost) (community oid : String)
    (p q : String × String) (ps qs : List (String × String))
    → All IsLine (p ∷ ps)
    → All IsLine (q ∷ qs)
    → run "snmpwalk" (net_args h community oid) ≡ exited (printed (p ∷ ps))
    → run "snmpget" (net_args h community oid) ≡ exited (printed (q ∷ qs))
    → (snmp_walk run (some h) (some community) oid ≡ ok (inr (map pdu_of (p ∷ ps))))
      × (snmp_get run (some h) (some community) oid ≡ ok (inr (pdu_of q)))
unfolding snmp_walk snmp_get
snmp_walk-printed run h community oid p q ps qs f g walk get = (
  ap (λ r. ok (then_parse (run_result "snmpwalk" oid r))) walk
      ∙ ap (λ r. ok (then_parse r)) (result "snmpwalk" p ps f)
      ∙ ap ok (parse_snmp_walk_output-printed p ps f),
  ap (λ r. ok (then_first oid (run_result "snmpget" oid r))) get
      ∙ ap (λ r. ok (then_first oid r)) (result "snmpget" q qs g)
      ∙ ap (λ r. ok (first_of oid r)) (parse_snmp_walk_output-printed q qs g),
)
  where
    result :
        (tool : String) (x : String × String) (xs : List (String × String))
        → All IsLine (x ∷ xs)
        → run_result tool oid (exited (printed (x ∷ xs))) ≡ inr (printed (x ∷ xs))
    result tool x xs l =
        run_result-exited tool oid _
          (starts_full-nonempty (printed (x ∷ xs)) (starts_full-printed x xs l))
