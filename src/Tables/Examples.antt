-- ===== src/Tables/Examples.antt =====
-- The theorem on tables at a concrete input.
use l8collector.Prelude.{arith, ◌≡◌, refl, some, [], ◌∷◌, ok}
use l8collector.Prelude.Int.{pos, int_eq}
use l8collector.Prelude.Dict.{get}
use l8collector.Tables.{CTable, set_value}
use l8collector.Tables.Cells.{IsMade, Written, set_value-Written}

abbrev made_table : CTable
made_table = record {
  rows = some ((pos 1, some ((pos 2, some (7 ∷ [])) ∷ [])) ∷ []);
  columns = some ((pos 2, "2") ∷ []);
}

made_table-IsMade : IsMade made_table
unfolding get
made_table-IsMade = record {
  has_columns = ((pos 2, "2") ∷ [], refl);
  has_rows = λ row h. ground arith;
}

set_value-Written_example :
    (t : CTable) × (set_value (pos 1) (pos 6) "6" (some (9 ∷ [])) made_table ≡ ok t)
    × IsMade t
    × Written (pos 1) (pos 6) "6" (some (9 ∷ [])) made_table t
set_value-Written_example =
    set_value-Written (pos 1) (pos 6) "6" (some (9 ∷ [])) made_table made_table-IsMade
