-- ===== src/Kube/Spec.antt =====
-- How a poll reads from the cache: Spec.go.
-- The JSON decoder (`decode`, which fails or fills a spec) and the case folding of Go's strings
-- (`to_lower`, `to_upper`) are parameters.
use l8collector.Prelude.{
  ◌==◌, if◌then◌else◌, string_eq, nat_eq, Bool, not, ◌&&◌, ◌||◌, Option, none, some, List, [], ◌∷◌,
  String, map,
}
use l8collector.Prelude.Dict.{Dict, get}
use l8collector.Text.{trim_space}

pub record CacheSpec : Type 0 where
  pub result : String
  pub mode : String
  pub gvr : String
  pub operations : List String
  pub namespace : String
  pub namespace_from_arg : String
  pub name : String
  pub name_from_arg : String
  pub selector : String
  pub selector_from_arg : String
  pub fields : List String
  pub columns : List String
  pub column_names : List String

-- `xs` where it has elements, and otherwise `ys`
abbrev pub or_else : List String → List String → List String
or_else [] ys = ys
or_else (x ∷ xs) ys = x ∷ xs

abbrev pub default_fields : List String
default_fields = "metadata.name" ∷ "metadata.namespace" ∷ "metadata.uid" ∷ []

-- the mode and the result type
unfoldable pub default_kind : (String → String) → CacheSpec → CacheSpec
unfolding trim_space
default_kind to_lower s =
    let result = to_lower (trim_space s.result) in
    let given = to_lower (trim_space s.mode) in
    let mode =
      if given == ""
      then if not (s.name == "") || not (s.name_from_arg == "") then "get" else "list"
      else given in
    record s {
      mode = mode;
      result = if result == "" then if mode == "get" then "map" else "table" else result;
    }

-- Each of the lists is filled from the others, in the order of the code.
unfoldable pub default_lists : CacheSpec → CacheSpec
default_lists s =
    let columns = or_else s.columns s.fields in
    let fields = or_else s.fields columns in
    let column_names = or_else s.column_names columns in
    let fields' = or_else fields default_fields in
    let columns' = or_else columns fields' in
    record s { fields = fields'; columns = columns'; column_names = or_else column_names columns' }

-- applyDefaults; `poll_is_table` says of the poll, where there is one, that its operation is L8C_Table
unfoldable pub apply_defaults :
    (String → String) → (String → String) → Option Bool → CacheSpec → CacheSpec
unfolding default_kind default_lists trim_space
apply_defaults to_lower to_upper poll_is_table spec =
    let s = default_lists (default_kind to_lower spec) in
    let operations = or_else s.operations ("CREATE" ∷ "UPDATE" ∷ "DELETE" ∷ []) in
    let t = record s { operations = map (λ op. to_upper (trim_space op)) operations } in
    elim poll_is_table [
      | none ↦ t
      | some b ↦ if t.result == "" then record t { result = if b then "table" else "map" } else t
    ]

-- an error is `none`
unfoldable pub parse_cache_spec :
    (String → Option CacheSpec)
    → (String → String)
    → (String → String)
    → Option Bool
    → String
    → Option CacheSpec
unfolding apply_defaults trim_space
parse_cache_spec decode to_lower to_upper poll_is_table raw =
    if trim_space raw == "" then none else elim (decode (trim_space raw)) [
      | none ↦ none
      | some spec ↦
          let s = apply_defaults to_lower to_upper poll_is_table spec in
          if s.gvr == ""
          then none
          else if s.mode == "get" && s.name == "" && s.name_from_arg == ""
          then none
          else some s
    ]

-- a nil map of arguments reads as an empty one
unfoldable pub resolve_spec_value : String → String → Dict String String → String
unfolding get
resolve_spec_value literal arg_name args =
    if arg_name == "" then literal else elim (get arg_name args) [ none ↦ literal | some v ↦ v ]
