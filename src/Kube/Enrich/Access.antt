-- ===== src/Kube/Enrich/Access.antt =====
-- The accesses to a decoded object, and its texts, that Enrich.go of collector/protocols/k8sclient is built of.
use Prim.Native.String.{◌++◌ as str_append}
use l8collector.Prelude.{
  ℕ, suc, true, false, Option, none, some, List, [], ◌∷◌, String, ◌==◌, if◌then◌else◌, string_eq,
}
use l8collector.Prelude.Int.{ℤ, pos, negsuc}
use l8collector.Text.Numbers.{decimal}
use l8collector.Text.Sorting.{sort_texts}
use l8collector.Text.{join}
use l8collector.Kube.Value.{
  Value, null, text, truth, number, real, object, Items, nil, item, Fields, bare, field, field_get,
  as_object, as_array, nested_value,
}

-- What is not in this repository. `show` is fmt.Sprint of a float64, a slice or a map, `int_of_real` the
-- conversion of a float64 to an int, `age_of` the time since an RFC 3339 time, in nanoseconds, and
-- `seconds` the whole seconds of a duration.
pub record Formats : Type 0 where
  pub show : Value → String
  pub int_of_real : ℕ → ℤ
  pub age_of : String → Option ℤ
  pub seconds : ℕ → ℕ

-- `out[key] = v`
unfoldable pub field_set : String → Value → Fields → Fields
field_set key v bare = field key v bare
field_set key v (field k w fs) = if k == key then field key v fs else field k w (field_set key v fs)

abbrev pub put_text : String → String → Fields → Fields
put_text key s out = field_set key (text s) out

-- fmt.Sprint of an int
unfoldable pub int_text : ℤ → String
unfolding decimal
int_text (pos n) = decimal n
int_text (negsuc n) = str_append "-" (decimal (suc n))

-- fmt.Sprint(m[key]), where a missing key gives nil
unfoldable pub sprint : Formats → Option Value → String
unfolding int_text
sprint f none = "<nil>"
sprint f (some null) = "<nil>"
sprint f (some (text s)) = s
sprint f (some (truth true)) = "true"
sprint f (some (truth false)) = "false"
sprint f (some (number n)) = int_text n
sprint f (some v) = f.show v

abbrev pub bind : {A B : Type 0} → Option A → (A → Option B) → Option B
bind none k = none
bind (some a) k = k a

unfoldable pub nested_map : Fields → List String → Option Fields
nested_map obj path = bind (nested_value (object obj) path) as_object

unfoldable pub nested_slice : Fields → List String → Option Items
nested_slice obj path = bind (nested_value (object obj) path) as_array

-- the elements of a slice, none where it is nil
abbrev pub elements : Option Items → Items
elements none = nil
elements (some vs) = vs

-- toInt, of `m[key]`
unfoldable pub to_int : Formats → Option Value → Option ℤ
to_int f (some (number n)) = some n
to_int f (some (real bits)) = some (f.int_of_real bits)
to_int f _ = none

abbrev pub or_int : ℤ → Option ℤ → ℤ
or_int fallback none = fallback
or_int fallback (some n) = n

unfoldable pub int_or : Formats → Fields → ℤ → List String → ℤ
unfolding to_int
int_or f obj fallback path = or_int fallback (to_int f (nested_value (object obj) path))

-- stringOf
unfoldable pub string_of : Formats → Fields → String → String
unfolding field_get sprint
string_of f m key = elim (field_get key m) [
  | none ↦ ""
  | some null ↦ ""
  | some v ↦ sprint f (some v)
]

-- mapsOf; the nil that it returns for no maps is the empty list too
unfoldable pub maps_of : Items → List Fields
maps_of nil = []
maps_of (item (object m) vs) = m ∷ maps_of vs
maps_of (item _ vs) = maps_of vs

-- the parts that mapToSelectorString joins; m[k] for a key of the range
unfoldable pub selector_parts : Formats → Fields → List String → List String
unfolding field_get sprint
selector_parts f m [] = []
selector_parts f m (k ∷ ks) =
    str_append k (str_append "=" (sprint f (field_get k m))) ∷ selector_parts f m ks

unfoldable pub keys_of : Fields → List String
keys_of bare = []
keys_of (field k v fs) = k ∷ keys_of fs

-- mapToSelectorString, in the order in which the range meets the keys
unfoldable pub map_to_selector_string : Formats → Fields → String
unfolding selector_parts keys_of sort_texts join
map_to_selector_string f m = join "," (selector_parts f m (sort_texts (keys_of m)))

abbrev pub selector_or_none : Formats → Option Fields → String
selector_or_none f none = "<none>"
selector_or_none f (some bare) = "<none>"
selector_or_none f (some (field k v fs)) = map_to_selector_string f (field k v fs)

-- matchLabelsString
unfoldable pub match_labels_string : Formats → Fields → List String → String
unfolding nested_map map_to_selector_string
match_labels_string f obj path = selector_or_none f (nested_map obj path)
