-- ===== src/Kube/Enrich/Again.antt =====
-- What enrichObject writes, and what it does not read.
use l8collector.Prelude.{
  ◌≡◌, refl, ◌∙◌, ap, false, Option, some, List, [], ◌∷◌, ◌++◌, String, ◌==◌, if◌then◌else◌,
  string_eq,
}
use l8collector.Kube.Value.{Value, object, Fields, bare, field, field_get}
use l8collector.Kube.Enrich.Access.{Formats, put_text, int_text}
use l8collector.Kube.Enrich.Containers.{
  PodContainer, index_statuses, index_container_statuses, containers_of, collect_containers,
}
use l8collector.Kube.Enrich.Pods.{
  count_restarts, ready_text, nominated_node, put_containers, enrich_pod_containers, enrich_pod,
}
use l8collector.Kube.Enrich.{
  enrich_resource, resource_from_gvr, computed, with_computed, enrich_object,
}
use l8collector.Kube.Enrich.Frame.{
  aside, field_get-field_set, field_set-again, nested-aside, elements-aside, enrich_node-aside,
  enrich_deployment-aside, enrich_stateful_set-aside, enrich_daemon_set-aside, enrich_service-aside,
  enrich_age-aside,
}

module _ (f : Formats) (marshal : List PodContainer → Option String) (v : Value)
    (obj : Fields) where
  index-aside :
      (key : String)
      → index_container_statuses f (aside v obj) key ≡ index_container_statuses f obj key
  unfolding index_container_statuses
  index-aside key =
      ap (λ vs. index_statuses f vs []) (elements-aside v obj "status" (key ∷ []) refl)

  collect-aside :
      (spec_key kind key : String)
      → collect_containers f
          (aside v obj)
          spec_key
          kind
          (index_container_statuses f (aside v obj) key)
        ≡ collect_containers f obj spec_key kind (index_container_statuses f obj key)
  unfolding collect_containers
  collect-aside spec_key kind key = λ i.
      containers_of f kind (index-aside key i) (elements-aside v obj "spec" (spec_key ∷ []) refl i)

  enrich_pod_containers-aside :
      (out : Fields)
      → enrich_pod_containers f marshal (aside v obj) out ≡ enrich_pod_containers f marshal obj out
  unfolding enrich_pod_containers
  enrich_pod_containers-aside out = λ i.
      put_containers marshal
        (collect-aside "containers" "container" "containerStatuses" i
          ++ collect-aside "initContainers" "init" "initContainerStatuses" i)
        out

  enrich_pod-aside :
      (out : Fields) → enrich_pod f marshal (aside v obj) out ≡ enrich_pod f marshal obj out
  unfolding enrich_pod
  enrich_pod-aside out = λ i.
      enrich_pod_containers-aside
        (put_text "nominatednode"
          (nominated_node f (nested-aside v obj "status" ("nominatedNodeName" ∷ []) refl i))
          (put_text "restarts"
            (int_text
              (count_restarts f (elements-aside v obj "status" ("containerStatuses" ∷ []) refl i)))
            (put_text "ready"
              (ready_text (elements-aside v obj "status" ("containerStatuses" ∷ []) refl i)) out)))
        i

  enrich_resource-aside :
      (resource : String) (out : Fields)
      → enrich_resource f marshal resource (aside v obj) out
        ≡ enrich_resource f marshal resource obj out
  unfolding enrich_resource
  enrich_resource-aside resource out = λ i.
      if resource == "nodes"
      then enrich_node-aside v obj f out i
      else if resource == "pods"
      then enrich_pod-aside out i
      else if resource == "deployments"
      then enrich_deployment-aside v obj f out i
      else if resource == "statefulsets"
      then enrich_stateful_set-aside v obj f out i
      else if resource == "daemonsets"
      then enrich_daemon_set-aside v obj f out i
      else if resource == "services"
      then enrich_service-aside v obj f out i
      else out

  computed-aside :
      (gvr : String) → computed f marshal gvr (aside v obj) ≡ computed f marshal gvr obj
  unfolding computed
  computed-aside gvr =
      λ i. enrich_age-aside v obj f (enrich_resource-aside (resource_from_gvr gvr) bare i) i

with_computed-again :
    (cs cs' obj : Fields)
    → cs' ≡ cs
    → with_computed cs' (with_computed cs obj) ≡ with_computed cs obj
with_computed-again cs cs' obj e = ap (λ x. with_computed x (with_computed cs obj)) e ∙ same cs obj
  where
    same : (cs obj : Fields) → with_computed cs (with_computed cs obj) ≡ with_computed cs obj
    same bare obj = refl
    same (field k v fs) obj =
        field_set-again "_k" (object (field k v fs)) (object (field k v fs)) obj

computed-with_computed :
    (f : Formats) (marshal : List PodContainer → Option String) (gvr : String) (cs obj : Fields)
    → computed f marshal gvr (with_computed cs obj) ≡ computed f marshal gvr obj
unfolding aside
computed-with_computed f marshal gvr bare obj = refl
computed-with_computed f marshal gvr (field k v fs) obj =
    computed-aside f marshal (object (field k v fs)) obj gvr

with_computed-get :
    (cs obj : Fields) (k : String)
    → ("_k" == k) ≡ false
    → field_get k (with_computed cs obj) ≡ field_get k obj
with_computed-get bare obj k e = refl
with_computed-get (field j v fs) obj k e =
    field_get-field_set k "_k" (object (field j v fs)) obj ∙ rw e refl

-- At one time, enrichObject of an object that is enriched changes nothing, whatever its resource type is;
-- and of the fields of an object enrichObject writes none but "_k".
pub enrich_object-again :
    (f : Formats) (marshal : List PodContainer → Option String) (gvr : String) (obj : Fields)
    → (obj' : Fields) × (enrich_object f marshal gvr (some obj) ≡ some obj')
      × (enrich_object f marshal gvr (some obj') ≡ some obj')
      × ((k : String) → ("_k" == k) ≡ false → field_get k obj' ≡ field_get k obj)
unfolding enrich_object
enrich_object-again f marshal gvr obj =
    let cs = computed f marshal gvr obj in
    (
      with_computed cs obj,
      refl,
      ap some (
          with_computed-again cs (computed f marshal gvr (with_computed cs obj)) obj
            (computed-with_computed f marshal gvr cs obj)),
      λ k e. with_computed-get cs obj k e,
    )
