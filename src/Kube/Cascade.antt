-- ===== src/Kube/Cascade.antt =====
-- Deletions and what follows them: Cascade.go, and reapStaleEntries of Reaper.go. The state is the part
-- of sharedRuntimeState that they use; the calls of the onDelete callback are recorded in order. Whether
-- the API server answers "not found" for an object (`gone`) and the time are parameters.
use l8collector.Prelude.{
  ℕ, ◌-◌, String, List, [], ◌∷◌, ◌++◌, Option, none, some, ◌==◌, if◌then◌else◌, string_eq, nat_eq,
  Bool, false, not, ◌&&◌, ◌||◌, ltb,
}
use l8collector.Kube.Value.{
  Value, Fields, Items, nil, item, field_get, as_object, as_array, as_text,
}
use l8collector.Kube.Cache.{CachedObject, Cache, get_object, delete_object, list_objects, fields_of}
use l8collector.Kube.Gvr.{reaper_gvr}

pub record Notice : Type 0 where
  pub gvr : String
  pub namespace : String
  pub name : String

pub record Shared : Type 0 where
  pub connected : Bool
  pub cache : Cache
  pub on_delete : Bool
  pub notices : List Notice

-- the deletion from the cache and the call of the callback, where one is registered
unfoldable pub drop_object : String → String → String → Shared → Shared
unfolding delete_object
drop_object gvr namespace name s = record s {
  cache = delete_object gvr namespace name s.cache;
  notices =
      if s.on_delete
      then s.notices ++ record { gvr = gvr; namespace = namespace; name = name } ∷ []
      else s.notices;
}

-- the reference of one owner
unfoldable pub owner_fits : String → String → String → Fields → Bool
unfolding field_get
owner_fits uid name kind owner =
    (not (uid == "") && as_text (field_get "uid" owner) == uid)
    || (as_text (field_get "name" owner) == name && as_text (field_get "kind" owner) == kind)

unfoldable pub some_owner_fits : String → String → String → Items → Bool
unfolding owner_fits
some_owner_fits uid name kind nil = false
some_owner_fits uid name kind (item v vs) =
    let rest = some_owner_fits uid name kind vs in
    elim (as_object v) [ none ↦ rest | some owner ↦ owner_fits uid name kind owner || rest ]

infixl 20 ◌>>=◌
abbrev pub ◌>>=◌ : {A B : Type 0} → Option A → (A → Option B) → Option B
(none >>= f) = none
(some a >>= f) = f a

-- an object that is not nil
unfoldable pub is_owned_by : CachedObject → String → String → String → Bool
unfolding some_owner_fits
is_owned_by o uid name kind =
    let owners = do
      metadata ← field_get "metadata" (fields_of o.body)
      fs ← as_object metadata
      refs ← field_get "ownerReferences" fs
      as_array refs
    in elim owners [ none ↦ false | some vs ↦ some_owner_fits uid name kind vs ]

-- the loop of cascadeNamespaceDelete
unfoldable pub delete_members : List CachedObject → Shared → Shared
unfolding drop_object
delete_members [] s = s
delete_members (o ∷ os) s =
    if o.gvr == "v1/namespaces"
    then delete_members os s
    else delete_members os (drop_object o.gvr o.namespace o.name s)

unfoldable pub cascade_namespace_delete : (Value → String) → String → Shared → Shared
unfolding delete_members list_objects
cascade_namespace_delete sprint namespace s =
    if namespace == "" then s else delete_members (list_objects sprint "" namespace "" s.cache) s

unfoldable pub owned : String → String → String → List CachedObject → List CachedObject
unfolding is_owned_by
owned uid name kind [] = []
owned uid name kind (o ∷ os) =
    let rest = owned uid name kind os in if is_owned_by o uid name kind then o ∷ rest else rest

-- objects that are deleted one after the other
unfoldable pub drop_all : List CachedObject → Shared → Shared
unfolding drop_object
drop_all [] s = s
drop_all (o ∷ os) s = drop_all os (drop_object o.gvr o.namespace o.name s)

-- the loop over the owned ReplicaSets: the pods of each, and then itself
unfoldable pub delete_replica_sets : (Value → String) → String → List CachedObject → Shared → Shared
unfolding drop_all owned list_objects drop_object
delete_replica_sets sprint namespace [] s = s
delete_replica_sets sprint namespace (rs ∷ rest) s =
    let pods = list_objects sprint "v1/pods" namespace "" s.cache in
    let t = drop_all (owned rs.uid rs.name "ReplicaSet" pods) s in
    delete_replica_sets sprint namespace rest (drop_object rs.gvr rs.namespace rs.name t)

unfoldable pub cascade_deployment_delete :
    (Value → String) → String → String → String → Shared → Shared
unfolding delete_replica_sets
cascade_deployment_delete sprint namespace name uid s =
    if namespace == "" || name == ""
    then s
    else let sets = list_objects sprint "apps/v1/replicasets" namespace "" s.cache in
      delete_replica_sets sprint namespace (owned uid name "Deployment" sets) s

abbrev pub uid_of : Option CachedObject → String
uid_of none = ""
uid_of (some o) = o.uid

unfoldable pub handle_resource_deletion :
    (Value → String) → String → String → String → Shared → Shared
unfolding get_object drop_object cascade_namespace_delete cascade_deployment_delete
handle_resource_deletion sprint gvr_text namespace name s =
    let uid = uid_of (get_object gvr_text namespace name s.cache) in
    let t = drop_object gvr_text namespace name s in
    let u = if gvr_text == "v1/namespaces" then cascade_namespace_delete sprint name t else t in
    if gvr_text == "apps/v1/deployments"
    then cascade_deployment_delete sprint namespace name uid u
    else u

-- the tests of the reaper before it asks the API server; `now` and `observed_at` are not negative
unfoldable pub is_reapable : ℕ → CachedObject → Bool
unfolding reaper_gvr
is_reapable now o =
    not (o.gvr == "" || o.name == "")
    && not (ltb (now - o.observed_at) 30)
    && not ((reaper_gvr o.gvr).resource == "")

-- the loop over the entries
unfoldable pub reap : (CachedObject → Bool) → ℕ → List CachedObject → Shared → Shared
unfolding is_reapable drop_object
reap gone now [] s = s
reap gone now (o ∷ os) s =
    if is_reapable now o && gone o
    then reap gone now os (drop_object o.gvr o.namespace o.name s)
    else reap gone now os s

unfoldable pub reap_stale_entries : (Value → String) → (CachedObject → Bool) → ℕ → Shared → Shared
unfolding reap list_objects
reap_stale_entries sprint gone now s =
    if s.connected then reap gone now (list_objects sprint "" "" "" s.cache) s else s
