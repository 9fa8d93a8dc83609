-- ===== src/Tables.antt =====
-- The tables of collection results: collector/protocols/Utils.go. A nil map or slice is `none`.
pub mod Cells
mod Examples
use l8collector.Prelude.{
  ℕ, Bool, true, false, not, ◌&&◌, Option, none, some, List, [], ◌∷◌, String, map, ◌==◌,
  if◌then◌else◌, string_eq, Outcome, ok, panic,
}
use l8collector.Prelude.Int.{ℤ, int_eq}
use l8collector.Prelude.Dict.{Dict, get, put}

abbrev pub Bytes : Type 0
Bytes = Option (List ℕ)

-- CTable, with CRow as the map that it holds
pub record CTable : Type 0 where
  pub rows : Option (Dict ℤ (Option (Dict ℤ Bytes)))
  pub columns : Option (Dict ℤ String)

abbrev pub present : Bytes → Bool
present none = false
present (some bs) = true

-- `tbl.Columns[col]`
unfoldable pub column_of : ℤ → Option (Dict ℤ String) → String
unfolding get
column_of col none = ""
column_of col (some names) = elim (get col names) [ none ↦ "" | some n ↦ n ]

-- the end of SetValue; a write to a nil map panics
unfoldable pub name_column : ℤ → String → Bytes → CTable → Outcome CTable
unfolding column_of put
name_column col col_name value t =
    if present value && column_of col t.columns == ""
    then elim t.columns [
      | none ↦ panic
      | some names ↦ ok (record t { columns = some (put col col_name names) })
    ]
    else ok t

abbrev pub rows_of : Option (Dict ℤ (Option (Dict ℤ Bytes))) → Dict ℤ (Option (Dict ℤ Bytes))
rows_of none = []
rows_of (some rows) = rows

-- the row that SetValue writes to, made where the table has none
abbrev pub row_or_new : Option (Option (Dict ℤ Bytes)) → Option (Dict ℤ Bytes)
row_or_new none = some []
row_or_new (some r) = r

-- the write to that row; a row that was made elsewhere with a nil map panics
unfoldable pub write_row : ℤ → ℤ → String → Bytes → CTable → Option (Dict ℤ Bytes) → Outcome CTable
unfolding name_column put
write_row row col col_name value t none = panic
write_row row col col_name value t (some cells) =
    name_column col col_name value
      (record t { rows = some (put row (some (put col value cells)) (rows_of t.rows)) })

-- SetValue on a table that is not nil
unfoldable pub set_value : ℤ → ℤ → String → Bytes → CTable → Outcome CTable
unfolding write_row get
set_value row col col_name value t =
    write_row row col col_name value t (row_or_new (get row (rows_of t.rows)))

-- Keys, in the order in which the range meets the entries; a nil CMap or a nil map has none
unfoldable pub keys : Option (Dict String Bytes) → List String
keys none = []
keys (some m) = map (λ e. e.0) m
