-- ===== src/Snmp/Oids.antt =====
-- normalizeOID of SNMPv2.go and getRowAndColName of SNMPv2Walk.go.
use Prim.Native.Char.{code}
use Prim.Native.String.{◌++◌ as str_append}
use text.Mathlib.TextLemmas.{cons-append, nil-append}
use text.Mathlib.TextEquality.{Char-path}
use mathlib.Core.Option.{some-injective}
use l8collector.Text.Splitting.{one_append}
use l8collector.Prelude.{
  ◌≡◌, refl, ap, ap₂, ◌∙◌, Option, none, some, String, ◌==◌, if◌then◌else◌, nat_eq, string_eq,
  Bool-cases, Option-cases, sym, inl, inr,
}
use l8collector.Prelude.Int.{ℤ, negsuc}
use l8collector.Text.{cut_last, last_from, Lacks}
use l8collector.Text.Numbers.{atoi, to_int32}

-- `s` after `prefix`, where it begins with it (strings.HasPrefix and the slice behind it)
unfoldable pub after_prefix : String → String → Option String
after_prefix String.[] s = some s
after_prefix (String.◌∷◌ p ps) String.[] = none
after_prefix (String.◌∷◌ p ps) (String.◌∷◌ c s) =
    let rest = after_prefix ps s in if code p == code c then rest else none

abbrev pub with_dot : String → Option String → String
with_dot oid (some rest) = oid
with_dot oid none = str_append "." oid

abbrev pub dotted_iso : String → Option String → String
dotted_iso other (some rest) = str_append ".1." rest
dotted_iso other none = other

unfoldable pub normalize_oid : String → String
unfolding after_prefix
normalize_oid oid = dotted_iso (with_dot oid (after_prefix "." oid)) (after_prefix "iso." oid)

abbrev pub col_and_row : String → Option (String × String) → ℤ × String
col_and_row row none = (negsuc 0, "")
col_and_row row (some q) = (to_int32 (atoi row), q.1)

abbrev pub row_part : Option (String × String) → ℤ × String
row_part none = (negsuc 0, "")
row_part (some p) = col_and_row p.1 (cut_last 46 p.0)

-- the row of an identifier as an int32, and the name of its column
unfoldable pub row_and_col_name : String → ℤ × String
unfolding cut_last atoi to_int32
row_and_col_name oid = row_part (cut_last 46 oid)

dotted : (s : String) → normalize_oid (String.◌∷◌ "." s) ≡ String.◌∷◌ "." s
unfolding normalize_oid
dotted s = refl

-- the three forms of a normal identifier
normal : (oid : String) → (s : String) × (normalize_oid oid ≡ String.◌∷◌ "." s)
unfolding normalize_oid
normal oid = elim (Option-cases (after_prefix "iso." oid)) [
  | inr (rest, e) ↦ (
    str_append "1." rest,
    ap (dotted_iso (with_dot oid (after_prefix "." oid))) e ∙ cons-append "." "1." rest,
  )
  | inl n ↦ elim (Option-cases (after_prefix "." oid)) [
    | inl m ↦ (
      oid,
      ap (dotted_iso (with_dot oid (after_prefix "." oid))) n ∙ ap (with_dot oid) m ∙ one_dot oid,
    )
    | inr (rest, e) ↦ (
      rest,
      ap (dotted_iso (with_dot oid (after_prefix "." oid))) n
          ∙ ap (with_dot oid) e
          ∙ begins oid rest e,
    )
  ]
]
  where
    one_dot : (s : String) → str_append "." s ≡ String.◌∷◌ "." s
    one_dot s = one_append "." s

    begins : (s t : String) → after_prefix "." s ≡ some t → s ≡ String.◌∷◌ "." t
    begins String.[] t e = cc e
    begins (String.◌∷◌ c s) t e = elim (Bool-cases (46 == code c)) [
      | inl y ↦
          ap₂ String.◌∷◌ (sym (Char-path "." c ((nat_eq.same_iff 46 (code c)).0 y)))
            (some-injective s t (rw y at e))
      | inr n ↦ cc (rw n at e)
    ]

-- What is normal stays as it is, and it begins with a dot.
pub normalize_oid-idempotent :
    (oid : String) → normalize_oid (normalize_oid oid) ≡ normalize_oid oid
normalize_oid-idempotent oid = let (s, e) = normal oid in ap normalize_oid e ∙ dotted s ∙ sym e

cut_last-Lacks : (s : String) → Lacks 46 s → cut_last 46 s ≡ none
unfolding cut_last
cut_last-Lacks String.[] h = refl
cut_last-Lacks (String.◌∷◌ c s) h = ap (last_from 46 c s) (cut_last-Lacks s h.1) ∙ rw h.0 refl

cut_last-append :
    (s t : String) → Lacks 46 t → cut_last 46 (str_append s (String.◌∷◌ "." t)) ≡ some (s, t)
unfolding cut_last
cut_last-append String.[] t h =
    ap (cut_last 46) (nil-append (String.◌∷◌ "." t)) ∙ ap (last_from 46 "." t) (cut_last-Lacks t h)
cut_last-append (String.◌∷◌ c s) t h =
    ap (cut_last 46) (cons-append c s (String.◌∷◌ "." t))
    ∙ ap (last_from 46 c (str_append s (String.◌∷◌ "." t))) (cut_last-append s t h)

-- The last two parts of an identifier are its column and its row.
pub row_and_col_name-parts :
    (pre col row : String)
    → Lacks 46 col
    → Lacks 46 row
    → row_and_col_name (str_append (str_append pre (String.◌∷◌ "." col)) (String.◌∷◌ "." row))
      ≡ (to_int32 (atoi row), col)
unfolding row_and_col_name
row_and_col_name-parts pre col row h k =
    ap row_part (cut_last-append (str_append pre (String.◌∷◌ "." col)) row k)
    ∙ ap (col_and_row row) (cut_last-append pre col h)
