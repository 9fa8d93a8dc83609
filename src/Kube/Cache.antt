-- ===== src/Kube/Cache.antt =====
-- The cache of Kubernetes objects: Cache.go, and FieldValue of Result.go. The texts of `fmt.Sprint`
-- (`sprint`) and the time (`now`, in seconds) are parameters. A range over the map is in the order of
-- the association list, which may be any.
use Prim.Native.String.{◌++◌ as str_append}
use l8collector.Prelude.{
  ℕ, String, List, [], ◌∷◌, Option, none, some, ◌==◌, if◌then◌else◌, string_eq, nat_eq, Bool, true,
  false, ◌&&◌, ◌||◌,
}
use l8collector.Prelude.Int.{pos}
use l8collector.Prelude.Dict.{Dict, get, put, delete}
use l8collector.Text.{split, trim_space, cut}
use l8collector.Kube.Value.{
  Value, null, text, number, array, object, Fields, bare, Items, nil, item, field_get, nested_value,
}

pub record CachedObject : Type 0 where
  pub gvr : String
  pub namespace : String
  pub name : String
  pub uid : String
  pub resource_version : String
  pub operation : String
  pub body : Option Fields
  pub related : List Fields
  pub observed_at : ℕ

-- `objects` of CollectorCache; no nil pointer is ever stored (`upsert`)
abbrev pub Cache : Type 0
Cache = Dict String CachedObject

unfoldable pub cache_key : String → String → String → String
cache_key gvr namespace name =
    str_append gvr (str_append "::" (str_append namespace (str_append "::" name)))

abbrev pub key : CachedObject → String
key o = cache_key o.gvr o.namespace o.name

-- an object without a time is observed now
abbrev pub stamp : ℕ → CachedObject → CachedObject
stamp now o = if o.observed_at == 0 then record o { observed_at = now } else o

unfoldable pub upsert : ℕ → Option CachedObject → Cache → Cache
unfolding put cache_key
upsert now none c = c
upsert now (some o) c = put (cache_key o.gvr o.namespace o.name) (stamp now o) c

unfoldable pub delete_object : String → String → String → Cache → Cache
unfolding delete cache_key
delete_object gvr namespace name c = delete (cache_key gvr namespace name) c

unfoldable pub get_object : String → String → String → Cache → Option CachedObject
unfolding get cache_key
get_object gvr namespace name c = get (cache_key gvr namespace name) c

-- a nil map reads as an empty one
abbrev pub fields_of : Option Fields → Fields
fields_of none = bare
fields_of (some fs) = fs

-- `obj.Object` as an `interface{}`
abbrev pub body_value : CachedObject → Value
body_value o = object (fields_of o.body)

-- the loop over the parts of a selector
unfoldable pub matches_parts : (Value → String) → Fields → List String → Bool
unfolding field_get cut trim_space
matches_parts sprint labels [] = true
matches_parts sprint labels (part ∷ parts) =
    let rest = matches_parts sprint labels parts in
    if trim_space part == "" then rest else elim (cut 61 (trim_space part)) [
      | none ↦ false
      | some p ↦ elim (field_get (trim_space p.0) labels) [
        | none ↦ false
        | some null ↦ if "" == trim_space p.1 then rest else false
        | some v ↦ if sprint v == trim_space p.1 then rest else false
      ]
    ]

unfoldable pub matches_selector : (Value → String) → CachedObject → String → Bool
unfolding matches_parts nested_value
matches_selector sprint o selector =
    if trim_space selector == ""
    then true
    else elim (nested_value (body_value o) ("metadata" ∷ "labels" ∷ [])) [
      | some (object labels) ↦ matches_parts sprint labels (split 44 (trim_space selector))
      | _ ↦ false
    ]

-- the tests of List on one object
unfoldable pub selects : (Value → String) → String → String → String → CachedObject → Bool
unfolding matches_selector
selects sprint gvr namespace selector o =
    (gvr == "" || o.gvr == gvr)
    && (namespace == "" || o.namespace == namespace)
    && matches_selector sprint o selector

unfoldable pub list_objects :
    (Value → String) → String → String → String → Cache → List CachedObject
unfolding selects
list_objects sprint gvr namespace selector [] = []
list_objects sprint gvr namespace selector ((k, o) ∷ c) =
    let rest = list_objects sprint gvr namespace selector c in
    if selects sprint gvr namespace selector o then o ∷ rest else rest

abbrev pub related_items : List Fields → Items
related_items [] = nil
related_items (fs ∷ rest) = item (object fs) (related_items rest)

-- FieldValue of an object that is not nil
unfoldable pub field_value : CachedObject → String → Option Value
unfolding nested_value split
field_value o field =
    if field == "gvr"
    then some (text o.gvr)
    else if field == "namespace" || field == "metadata.namespace"
    then some (text o.namespace)
    else if field == "name" || field == "metadata.name"
    then some (text o.name)
    else if field == "uid" || field == "metadata.uid"
    then some (text o.uid)
    else if field == "resourceVersion" || field == "metadata.resourceVersion"
    then some (text o.resource_version)
    else if field == "operation"
    then some (text o.operation)
    else if field == "observedAt"
    then some (number (pos o.observed_at))
    else if field == "object"
    then some (body_value o)
    else if field == "related"
    then some (array (related_items o.related))
    else nested_value (body_value o) (split 46 field)
