-- ===== src/Kube/Examples.antt =====
-- The theorems on the Kubernetes cache at concrete inputs.
use l8collector.Text.Splitting.{occurs-Lacks}
use l8collector.Prelude.{string_eq, ◌==◌, ◌≡◌, refl, true, none, some}
use l8collector.Prelude.Dict.{get}
use l8collector.Kube.Gvr.{Gvr}
use l8collector.Kube.Cache.{get_object, upsert, cache_key}
use l8collector.Kube.Cascade.{
  cascade_namespace_delete, cascade_deployment_delete, reap_stale_entries, is_owned_by, is_reapable,
}
use l8collector.Kube.Store.{IsCache}
use l8collector.Kube.Keys.{get-upsert}
use l8collector.Kube.Removal.{cascade_namespace_delete-get, reap_stale_entries-get}
use l8collector.Kube.Deployment.{cascade_deployment_delete-keep, cascade_deployment_delete-pod}
use l8collector.Kube.Watching.{Watch, failed, synced, ensure_watching, is_warmed}
use l8collector.Kube.Starting.{ensure_watching-failed}
use l8collector.Prelude.{ok, [], ◌∷◌, false}
use l8collector.Kube.Spec.{CacheSpec, parse_cache_spec, default_fields}
use l8collector.Prelude.{true}
use l8collector.Kube.Samples.{replica_set, pod, far_pod, objects, shared, sprint}

objects-IsCache : IsCache objects
unfolding IsCache get cache_key
objects-IsCache = (refl, refl, (refl, refl, (refl, refl, tt)))

get-upsert_example :
    get_object "v1/pods" "shop" "web-1-a" (upsert 7 (some far_pod) objects)
    ≡ get_object "v1/pods" "shop" "web-1-a" objects
get-upsert_example =
    get-upsert "v1/pods" "shop" "web-1-a" 7 far_pod objects (occurs-Lacks 58 "v1/pods" refl)
      (occurs-Lacks 58 "shop" refl) (occurs-Lacks 58 "v1/pods" refl) (occurs-Lacks 58 "lab" refl)

pod_stored : get "v1/pods::shop::web-1-a" objects ≡ some pod
unfolding get
pod_stored = refl

far_pod_stored : get "v1/pods::lab::probe" objects ≡ some far_pod
unfolding get
far_pod_stored = refl

set_stored : get "apps/v1/replicasets::shop::web-1" objects ≡ some replica_set
unfolding get
set_stored = refl

set_owned : is_owned_by replica_set "d1" "web" "Deployment" ≡ true
unfolding is_owned_by
set_owned = refl

pod_owned : is_owned_by pod "r1" "web-1" "ReplicaSet" ≡ true
unfolding is_owned_by
pod_owned = refl

cascade_namespace_delete-get_example :
    get "v1/pods::shop::web-1-a" (cascade_namespace_delete sprint "shop" shared).cache ≡ none
unfolding get
cascade_namespace_delete-get_example =
    cascade_namespace_delete-get sprint "v1/pods::shop::web-1-a" "shop" shared objects-IsCache refl

reap_stale_entries-get_example :
    get "v1/pods::lab::probe"
      (reap_stale_entries sprint (λ o. o.namespace == "lab") 200 shared).cache
    ≡ none
unfolding get is_reapable
reap_stale_entries-get_example =
    reap_stale_entries-get sprint (λ o. o.namespace == "lab") 200 "v1/pods::lab::probe" shared
      objects-IsCache refl

cascade_deployment_delete-keep_example :
    get "v1/pods::lab::probe" (cascade_deployment_delete sprint "shop" "web" "d1" shared).cache
    ≡ some far_pod
cascade_deployment_delete-keep_example =
    cascade_deployment_delete-keep sprint "shop" "web" "d1" "v1/pods::lab::probe" far_pod shared
      objects-IsCache refl refl far_pod_stored refl refl

cascade_deployment_delete-pod_example :
    get "v1/pods::shop::web-1-a" (cascade_deployment_delete sprint "shop" "web" "d1" shared).cache
    ≡ none
cascade_deployment_delete-pod_example =
    cascade_deployment_delete-pod sprint "shop" "web" "d1" "apps/v1/replicasets::shop::web-1"
      "v1/pods::shop::web-1-a" replica_set pod shared objects-IsCache refl refl set_stored set_owned
      pod_stored pod_owned

abbrev jobs : Gvr
jobs = record { group = "batch"; version = "v1"; resource = "jobs" }

abbrev idle : Watch
idle = record { has_client = true; warmed = some []; warm_once = some []; cache = [] }

abbrev tried : Watch
tried = record {
  has_client = true;
  warmed = some [];
  warm_once = some (("v1/pods::::*", true) ∷ []);
  cache = [];
}

idle_fails :
    ensure_watching 1 (λ g n. failed "timeout") "v1/pods" "" idle ≡ ok (some "timeout", tried)
unfolding ensure_watching
idle_fails = refl

ensure_watching-failed_example :
    (is_warmed (cache_key "v1/pods" "" "*") tried ≡ false)
    × (ensure_watching 2 (λ g n. synced (pod ∷ [])) "v1/pods" "" tried ≡ ok (none, tried))
ensure_watching-failed_example =
    ensure_watching-failed 1 (λ g n. failed "timeout") "v1/pods" "" idle tried "timeout" 2
      (λ g n. synced (pod ∷ [])) idle_fails

abbrev given : CacheSpec
given = record {
  result = "";
  mode = "";
  gvr = "v1/pods";
  operations = [];
  namespace = "";
  namespace_from_arg = "";
  name = "";
  name_from_arg = "";
  selector = "";
  selector_from_arg = "";
  fields = [];
  columns = [];
  column_names = [];
}

abbrev filled : CacheSpec
filled = record given {
  result = "table";
  mode = "list";
  operations = "CREATE" ∷ "UPDATE" ∷ "DELETE" ∷ [];
  fields = default_fields;
  columns = default_fields;
  column_names = default_fields;
}

given_parsed : parse_cache_spec (λ s. some given) (λ s. s) (λ s. s) (some true) "{}" ≡ some filled
unfolding parse_cache_spec
given_parsed = refl
