-- ===== src/Kube/Results.antt =====
-- BuildCMap and BuildCTable of collector/protocols/k8sclient/Result.go. The encoder of a value (`encode`) is a
-- parameter: its bytes, or the text of its error.
use Prim.Native.String.{◌++◌ as str_append}
use l8collector.Prelude.{
  ℕ, suc, true, false, not, Option, none, some, List, [], ◌∷◌, String, ◌⊎◌, inl, inr, length,
  Outcome, ok, panic, ◌>>=◌, ◌==◌, if◌then◌else◌, nat_eq, string_eq,
}
use l8collector.Prelude.Int.{pos, int_eq}
use l8collector.Prelude.Dict.{Dict, put}
use l8collector.Text.{trim_space}
use l8collector.Text.Numbers.{decimal}
use l8collector.Tables.{CTable, Bytes, set_value}
use l8collector.Kube.Value.{Value, null}
use l8collector.Kube.Cache.{CachedObject, field_value}
use l8collector.Kube.Spec.{or_else, default_fields}

-- the nil that a missing field gives
abbrev pub or_null : Option Value → Value
or_null none = null
or_null (some v) = v

-- the loop of BuildCMap; FieldValue gives the body and the related objects as the switch does
unfoldable pub add_fields :
    (Value → String ⊎ Bytes)
    → CachedObject
    → List String
    → Dict String Bytes
    → String ⊎ Dict String Bytes
unfolding field_value trim_space put
add_fields encode o [] cmap = inr cmap
add_fields encode o (f ∷ fs) cmap = elim (trim_space f == "") [
  | true ↦ add_fields encode o fs cmap
  | false ↦ elim (encode (or_null (field_value o (trim_space f)))) [
    | inl e ↦ inl e
    | inr bytes ↦ add_fields encode o fs (put (trim_space f) bytes cmap)
  ]
]

unfoldable pub build_c_map :
    (Value → String ⊎ Bytes) → Option CachedObject → List String → String ⊎ Dict String Bytes
unfolding add_fields
build_c_map encode none fields = inr []
build_c_map encode (some o) fields = add_fields encode o (or_else fields ("object" ∷ [])) []

-- the inner loop of BuildCTable, from column `col` on; the names are as many as the fields
unfoldable pub add_cells :
    (Value → String ⊎ Bytes)
    → CachedObject
    → ℕ
    → ℕ
    → List String
    → List String
    → CTable
    → Outcome (String ⊎ CTable)
unfolding field_value set_value
add_cells encode o row col [] names t = ok (inr t)
add_cells encode o row col (f ∷ fs) [] t = panic
add_cells encode o row col (f ∷ fs) (n ∷ ns) t = elim (encode (or_null (field_value o f))) [
  | inl e ↦ ok (inl (str_append "encode " (str_append f (str_append ": " e))))
  | inr bytes ↦
      set_value (pos row) (pos col) n bytes t >>= λ t'. add_cells encode o row (suc col) fs ns t'
]

abbrev pub then_rows :
    Outcome (String ⊎ CTable) → (CTable → Outcome (String ⊎ CTable)) → Outcome (String ⊎ CTable)
then_rows panic k = panic
then_rows (ok (inl e)) k = ok (inl e)
then_rows (ok (inr t)) k = k t

unfoldable pub add_rows :
    (Value → String ⊎ Bytes)
    → ℕ
    → List CachedObject
    → List String
    → List String
    → CTable
    → Outcome (String ⊎ CTable)
unfolding add_cells
add_rows encode row [] fields names t = ok (inr t)
add_rows encode row (o ∷ os) fields names t =
    then_rows (add_cells encode o row 0 fields names t)
      (λ t'. add_rows encode (suc row) os fields names t')

-- the message of the two lengths
abbrev pub mismatch : ℕ → ℕ → String
mismatch m n =
    str_append "fields/columnNames length mismatch: "
      (str_append (decimal m) (str_append " != " (decimal n)))

unfoldable pub build_c_table :
    (Value → String ⊎ Bytes)
    → List CachedObject
    → List String
    → List String
    → Outcome (String ⊎ CTable)
unfolding add_rows decimal
build_c_table encode items fields names =
    let fields' = or_else fields default_fields in
    let names' = or_else names fields' in
    if not (length fields' == length names')
    then ok (inl (mismatch (length fields') (length names')))
    else add_rows encode 0 items fields' names' (record { rows = some []; columns = some [] })
