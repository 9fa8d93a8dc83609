-- ===== src/Kube/Value.antt =====
-- The decoded JSON values (`interface{}`) of a Kubernetes object, and nestedValue of
-- collector/protocols/k8sclient/Result.go.
use l8collector.Prelude.{
  ◌==◌, if◌then◌else◌, Bool, string_eq, List, [], ◌∷◌, Option, none, some, String, ℕ,
}
use l8collector.Prelude.Int.{ℤ}

-- A map is a chain of its fields, a slice a chain of its elements; `real` holds the bits of a float64.
mutual
  pub data Value : Type 0 where
    null : Value
    text : String → Value
    truth : Bool → Value
    number : ℤ → Value
    real : ℕ → Value
    array : Items → Value
    object : Fields → Value

  pub data Items : Type 0 where
    nil : Items
    item : Value → Items → Items

  pub data Fields : Type 0 where
    bare : Fields
    field : String → Value → Fields → Fields

-- `fields[name]`, with Go's second result
unfoldable pub field_get : String → Fields → Option Value
field_get name bare = none
field_get name (field n v fs) = if n == name then some v else field_get name fs

abbrev pub as_object : Value → Option Fields
as_object (object fs) = some fs
as_object _ = none

abbrev pub as_array : Value → Option Items
as_array (array vs) = some vs
as_array _ = none

-- the first result of `value.(string)`
abbrev pub as_text : Option Value → String
as_text (some (text s)) = s
as_text _ = ""

unfoldable pub nested_value : Value → List String → Option Value
unfolding field_get
nested_value v [] = some v
nested_value (object fs) (p ∷ ps) = elim (field_get p fs) [
  | none ↦ none
  | some v ↦ nested_value v ps
]
nested_value _ (p ∷ ps) = none
