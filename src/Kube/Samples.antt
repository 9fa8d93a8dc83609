-- ===== src/Kube/Samples.antt =====
-- A deployment with one ReplicaSet and one pod in namespace "shop", and a pod of another namespace.
use l8collector.Prelude.{String, true, Option, none, some, [], ◌∷◌}
use l8collector.Kube.Value.{Value, text, array, object, Fields, bare, field, nil, item}
use l8collector.Kube.Cache.{CachedObject, Cache}
use l8collector.Kube.Cascade.{Shared}

-- the body of an object with one owner
abbrev pub owned_body : String → String → String → Fields
owned_body kind name uid =
    field "metadata"
      (object (
        field "ownerReferences"
          (array (
            item
              (object
                (field "kind" (text kind) (field "name" (text name) (field "uid" (text uid) bare))))
              nil))
          bare))
      bare

abbrev pub cached : String → String → String → String → Option Fields → CachedObject
cached gvr namespace name uid body = record {
  gvr = gvr;
  namespace = namespace;
  name = name;
  uid = uid;
  resource_version = "1";
  operation = "ADD";
  body = body;
  related = [];
  observed_at = 100;
}

abbrev pub replica_set : CachedObject
replica_set =
    cached "apps/v1/replicasets" "shop" "web-1" "r1" (some (owned_body "Deployment" "web" "d1"))

abbrev pub pod : CachedObject
pod = cached "v1/pods" "shop" "web-1-a" "p1" (some (owned_body "ReplicaSet" "web-1" "r1"))

abbrev pub far_pod : CachedObject
far_pod = cached "v1/pods" "lab" "probe" "p2" none

abbrev pub objects : Cache
objects =
    ("apps/v1/replicasets::shop::web-1", replica_set)
    ∷ ("v1/pods::shop::web-1-a", pod)
    ∷ ("v1/pods::lab::probe", far_pod)
    ∷ []

abbrev pub shared : Shared
shared = record { connected = true; cache = objects; on_delete = true; notices = [] }

-- a stand-in for fmt.Sprint on texts
abbrev pub sprint : Value → String
sprint (text s) = s
sprint _ = ""
