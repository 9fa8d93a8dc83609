-- ===== src/Kube/Collecting/Tabling.antt =====
-- BuildCTable of collector/protocols/k8sclient/Result.go does not panic.
use Prim.Native.String.{◌++◌ as str_append}
use l8collector.Prelude.{
  ℕ, suc, ◌≡◌, refl, ◌∙◌, ap, subst, Bool-cases, none, some, List, [], ◌∷◌, String, ◌⊎◌, inl, inr,
  length, ok, bind_ok, arith, ◌==◌, nat_eq, string_eq,
}
use l8collector.Prelude.Int.{ℤ, pos, int_eq}
use l8collector.Prelude.Dict.{get}
use l8collector.Tables.{CTable, Bytes, rows_of}
use l8collector.Tables.Cells.{IsMade, set_value-Written}
use l8collector.Kube.Value.{Value}
use l8collector.Kube.Cache.{CachedObject, field_value}
use l8collector.Kube.Spec.{or_else, default_fields}
use l8collector.Kube.Results.{mismatch, or_null, add_cells, then_rows, add_rows, build_c_table}

-- a table that was made, or an error
abbrev pub IsTable : String ⊎ CTable → Type 0
IsTable (inl e) = Unit
IsTable (inr t) = IsMade t

no_row : (row : ℤ) → get row (rows_of (some [])) ≡ some none → ⊥
unfolding get
no_row row e = cc

sum-cases : {A B : Type 0} (x : A ⊎ B) → ((a : A) × (x ≡ inl a)) ⊎ ((b : B) × (x ≡ inr b))
sum-cases (inl a) = inl (a, refl)
sum-cases (inr b) = inr (b, refl)

module _ (encode : Value → String ⊎ Bytes) where
  add_cells-returns :
      (o : CachedObject) (row col : ℕ) (fields names : List String) (t : CTable)
      → length fields ≡ length names
      → IsMade t
      → (r : String ⊎ CTable) × (add_cells encode o row col fields names t ≡ ok r) × IsTable r
  unfolding add_cells
  add_cells-returns o row col [] names t e m = (inr t, refl, m)
  add_cells-returns o row col (f ∷ fs) [] t e m = absurd (omega (arith, e))
  add_cells-returns o row col (f ∷ fs) (n ∷ ns) t e m =
      elim (sum-cases (encode (or_null (field_value o f)))) [
        | inl (x, g) ↦ (
          inl (str_append "encode " (str_append f (str_append ": " x))),
          rw (g, add_cells) refl,
          tt,
        )
        | inr (bytes, g) ↦
            let (t', w, m', law) = set_value-Written (pos row) (pos col) n bytes t m in
            let (r, h, i) = add_cells-returns o row (suc col) fs ns t' (omega (arith, e)) m' in
            (r, rw (g, add_cells) (bind_ok _ w ∙ h), i)
      ]

  add_rows-returns :
      (row : ℕ) (items : List CachedObject) (fields names : List String) (t : CTable)
      → length fields ≡ length names
      → IsMade t
      → (r : String ⊎ CTable) × (add_rows encode row items fields names t ≡ ok r) × IsTable r
  unfolding add_rows
  add_rows-returns row [] fields names t e m = (inr t, refl, m)
  add_rows-returns row (o ∷ os) fields names t e m =
      let (r, g, i) = add_cells-returns o row 0 fields names t e m in
      elim (sum-cases r) [
        | inl (x, h) ↦ (
          inl x,
          ap (λ z. then_rows z (add_rows encode (suc row) os fields names)) (g ∙ ap ok h),
          tt,
        )
        | inr (t', h) ↦
            let (r', g', i') =
              add_rows-returns (suc row) os fields names t' e (subst IsTable h i) in
            (
              r',
              ap (λ z. then_rows z (add_rows encode (suc row) os fields names)) (g ∙ ap ok h) ∙ g',
              i',
            )
      ]

  -- BuildCTable returns a table that was made, or an error.
  pub build_c_table-returns :
      (items : List CachedObject) (fields names : List String)
      → (r : String ⊎ CTable) × (build_c_table encode items fields names ≡ ok r) × IsTable r
  unfolding build_c_table
  build_c_table-returns items fields names =
      let fields' = or_else fields default_fields in
      let names' = or_else names fields' in
      elim (Bool-cases (length fields' == length names')) [
        | inr d ↦ (inl (mismatch (length fields') (length names')), rw (d, build_c_table) refl, tt)
        | inl y ↦
            let (r, g, i) =
              add_rows-returns 0 items fields' names' (record { rows = some []; columns = some [] })
                ((nat_eq.same_iff (length fields') (length names')).0 y) made in
            (r, rw (y, build_c_table) g, i)
      ]
    where
      made : IsMade (record { rows = some []; columns = some [] })
      made = record { has_columns = ([], refl); has_rows = λ row e. no_row row e }
