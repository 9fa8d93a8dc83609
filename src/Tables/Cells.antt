-- ===== src/Tables/Cells.antt =====
-- What SetValue writes into a table, and what it leaves.
use l8collector.Prelude.{
  ◌≡◌, refl, sym, ap, ◌∙◌, inl, inr, Bool, ◌&&◌, Option, none, some, [], String, ◌==◌,
  if◌then◌else◌, string_eq, ok, arith, Bool-cases,
}
use l8collector.Prelude.Int.{ℤ, int_eq}
use l8collector.Prelude.Dict.{Dict, get, put, get-put}
use l8collector.Tables.{
  Bytes, CTable, present, column_of, name_column, rows_of, row_or_new, set_value, write_row,
}

-- the bytes at a row and a column, where there are such
abbrev pub in_row : ℤ → Option (Option (Dict ℤ Bytes)) → Option Bytes
in_row col none = none
in_row col (some none) = none
in_row col (some (some cells)) = get col cells

abbrev pub cell : ℤ → ℤ → CTable → Option Bytes
cell row col t = in_row col (get row (rows_of t.rows))

-- No map of the table is nil.
pub record IsMade (t : CTable) : Type 0 where
  pub has_columns : (names : Dict ℤ String) × (t.columns ≡ some names)
  pub has_rows : (row : ℤ) → get row (rows_of t.rows) ≡ some none → ⊥

-- What `t'` has more than `t`: the value at its place, and the name of a column that had none.
pub record Written (row col : ℤ) (name : String) (value : Bytes) (t t' : CTable) : Type 0 where
  pub cells : (r c : ℤ) → cell r c t' ≡ (if row == r && col == c then some value else cell r c t)
  pub names :
      (c : ℤ)
      → column_of c t'.columns ≡ (
          if col == c && (present value && column_of col t.columns == "")
          then name
          else column_of c t.columns)

abbrev naming : ℤ → Bytes → CTable → Bool
naming col value t = present value && column_of col t.columns == ""

column_of-put :
    (col c : ℤ) (name : String) (names : Dict ℤ String)
    → column_of c (some (put col name names))
      ≡ (if col == c then name else column_of c (some names))
unfolding column_of
column_of-put col c name names = ground (arith, get-put col c name names)

name_column_lem :
    (col : ℤ) (name : String) (value : Bytes) (t : CTable) (names : Dict ℤ String)
    → t.columns ≡ some names
    → (t' : CTable) × (name_column col name value t ≡ ok t')
      × (t'.rows ≡ t.rows)
      × ((later : Dict ℤ String) × (t'.columns ≡ some later))
      × ((c : ℤ)
          → column_of c t'.columns
            ≡ (if col == c && naming col value t then name else column_of c t.columns))
unfolding name_column
name_column_lem col name value t names e = elim (Bool-cases (naming col value t)) [
  | inl y ↦ (
    record t { columns = some (put col name names) },
    ground (arith, y, e),
    refl,
    (put col name names, refl),
    λ c. column_of-put col c name names ∙ ground (arith, y, e),
  )
  | inr n ↦ (t, rw n refl, refl, (names, e), λ c. ground (arith, n))
]

row_or_new_lem :
    (row : ℤ) (t : CTable)
    → IsMade t
    → (cells : Dict ℤ Bytes) × (row_or_new (get row (rows_of t.rows)) ≡ some cells)
      × ((c : ℤ) → get c cells ≡ cell row c t)
unfolding get
row_or_new_lem row t m = made (get row (rows_of t.rows)) (m.has_rows row)
  where
    made :
        (o : Option (Option (Dict ℤ Bytes)))
        → (o ≡ some none → ⊥)
        → (cells : Dict ℤ Bytes) × (row_or_new o ≡ some cells)
          × ((c : ℤ) → get c cells ≡ in_row c o)
    made none h = ([], refl, λ c. refl)
    made (some none) h = absurd (h refl)
    made (some (some cells)) h = (cells, refl, λ c. refl)

-- the table with the value in the row
abbrev with_row : ℤ → ℤ → Bytes → Dict ℤ Bytes → CTable → CTable
with_row row col value cells t = record t {
  rows = some (put row (some (put col value cells)) (rows_of t.rows));
}

with_row-cells :
    (row col : ℤ) (value : Bytes) (cells : Dict ℤ Bytes) (t : CTable)
    → ((c : ℤ) → get c cells ≡ cell row c t)
    → (r c : ℤ)
    → cell r c (with_row row col value cells t)
      ≡ (if row == r && col == c then some value else cell r c t)
with_row-cells row col value cells t same r c =
    ap (in_row c) (get-put row r (some (put col value cells)) (rows_of t.rows))
    ∙ elim (Bool-cases (row == r)) [
      | inr n ↦ rw n refl
      | inl y ↦ rw y (
          get-put col c value cells
          ∙ ap (λ o. if col == c then some value else o)
              (same c ∙ ap (λ i. cell i c t) ((int_eq.same_iff row r).0 y)))
    ]

with_row-rows :
    (row col : ℤ) (value : Bytes) (cells : Dict ℤ Bytes) (t : CTable) (r : ℤ)
    → (get r (rows_of t.rows) ≡ some none → ⊥)
    → get r (rows_of (with_row row col value cells t).rows) ≡ some none
    → ⊥
with_row-rows row col value cells t r h e = elim (Bool-cases (row == r)) [
  | inl y ↦ cc (rw y at (sym (get-put row r (some (put col value cells)) (rows_of t.rows)) ∙ e))
  | inr n ↦ h (rw n at (sym (get-put row r (some (put col value cells)) (rows_of t.rows)) ∙ e))
]

-- On a table that was made, SetValue returns; it writes the value at its row and column and nowhere
-- else, and names the column where the value is not nil and the column has no name.
pub set_value-Written :
    (row col : ℤ) (name : String) (value : Bytes) (t : CTable)
    → IsMade t
    → (t' : CTable) × (set_value row col name value t ≡ ok t')
      × IsMade t'
      × Written row col name value t t'
unfolding set_value write_row
set_value-Written row col name value t m =
    let (cells, found, same) = row_or_new_lem row t m in
    let (names, e) = m.has_columns in
    let (t', run, rows, later, law) =
      name_column_lem col name value (with_row row col value cells t) names e in
    (
      t',
      ap (write_row row col name value t) found ∙ run,
      record {
        has_columns = later;
        has_rows = λ r h.
            with_row-rows row col value cells t r (m.has_rows r)
              (ap (λ o. get r (rows_of o)) (sym rows) ∙ h);
      },
      record {
        cells = λ r c.
            ap (λ o. in_row c (get r (rows_of o))) rows
            ∙ with_row-cells row col value cells t same r c;
        names = law;
      },
    )
