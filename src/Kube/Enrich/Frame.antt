-- ===== src/Kube/Enrich/Frame.antt =====
-- No enrichment of a resource type reads the computed fields of the object.
use Prim.Native.String.{◌++◌ as str_append}
use l8collector.Prelude.{
  ◌≡◌, refl, ◌∙◌, ap, false, Option, none, some, List, [], ◌∷◌, String, ◌==◌, arith, if◌then◌else◌,
  string_eq,
}
use l8collector.Prelude.Int.{ℤ, pos}
use l8collector.Text.{join}
use l8collector.Kube.Value.{
  Value, object, as_object, as_array, Fields, bare, field, field_get, nested_value,
}
use l8collector.Kube.Enrich.Access.{
  Formats, field_set, put_text, int_text, to_int, or_int, bind, elements, nested_map, nested_slice,
  int_or, selector_or_none, match_labels_string,
}
use l8collector.Kube.Enrich.Ages.{enrich_since, enrich_age}
use l8collector.Kube.Enrich.Nodes.{
  ready_status, node_ready_status, labels_text, node_roles, address_in, node_address, enrich_node,
}
use l8collector.Kube.Enrich.Workloads.{
  texts_at, enrich_pod_template, node_selector_string, status_count, ready_replicas, match_labels,
  enrich_deployment, enrich_stateful_set, enrich_daemon_set,
}
use l8collector.Kube.Enrich.Services.{
  ips_or, ports_text, service_external_ip, service_ports_string, enrich_service,
}

pub field_get-field_set :
    (k j : String) (v : Value) (fs : Fields)
    → field_get k (field_set j v fs) ≡ (if j == k then some v else field_get k fs)
unfolding field_get field_set
field_get-field_set k j v bare = refl
field_get-field_set k j v (field i w fs) = ground (
  arith,
  string_eq.same_iff i j,
  string_eq.same_iff i k,
  string_eq.same_iff j k,
  field_get-field_set k j v fs,
)

pub field_set-again :
    (k : String) (v w : Value) (fs : Fields) → field_set k v (field_set k w fs) ≡ field_set k v fs
unfolding field_set
field_set-again k v w bare = ground (arith, string_eq.same_iff k k)
field_set-again k v w (field i u fs) =
    ground (arith, string_eq.same_iff i k, string_eq.same_iff k k, field_set-again k v w fs)

-- The object with other computed fields.
unfoldable pub aside : Value → Fields → Fields
aside v obj = field_set "_k" v obj

module _ (v : Value) (obj : Fields) where
  pub nested-aside :
      (p : String) (ps : List String)
      → ("_k" == p) ≡ false
      → nested_value (object (aside v obj)) (p ∷ ps) ≡ nested_value (object obj) (p ∷ ps)
  unfolding nested_value aside
  nested-aside p ps e = ap (into ps) (field_get-field_set p "_k" v obj ∙ rw e refl)
    where
      into : List String → Option Value → Option Value
      into ps none = none
      into ps (some x) = nested_value x ps

  nested_map-aside :
      (p : String) (ps : List String)
      → ("_k" == p) ≡ false
      → nested_map (aside v obj) (p ∷ ps) ≡ nested_map obj (p ∷ ps)
  unfolding nested_map
  nested_map-aside p ps e = ap (λ x. bind x as_object) (nested-aside p ps e)

  pub elements-aside :
      (p : String) (ps : List String)
      → ("_k" == p) ≡ false
      → elements (nested_slice (aside v obj) (p ∷ ps)) ≡ elements (nested_slice obj (p ∷ ps))
  unfolding nested_slice
  elements-aside p ps e = ap (λ x. elements (bind x as_array)) (nested-aside p ps e)

  module _ (f : Formats) where
    int_or-aside :
        (n : ℤ) (p : String) (ps : List String)
        → ("_k" == p) ≡ false
        → int_or f (aside v obj) n (p ∷ ps) ≡ int_or f obj n (p ∷ ps)
    unfolding int_or
    int_or-aside n p ps e = ap (λ x. or_int n (to_int f x)) (nested-aside p ps e)

    pub enrich_node-aside : (out : Fields) → enrich_node f (aside v obj) out ≡ enrich_node f obj out
    unfolding enrich_node node_ready_status node_address node_roles
    enrich_node-aside out = λ i.
        put_text "status" (ready_status f (elements-aside "status" ("conditions" ∷ []) refl i)) (
          put_text "externalip"
            (address_in f "ExternalIP" (elements-aside "status" ("addresses" ∷ []) refl i))
            (put_text "internalip"
              (address_in f "InternalIP" (elements-aside "status" ("addresses" ∷ []) refl i))
              (put_text "roles" (labels_text (nested_map-aside "metadata" ("labels" ∷ []) refl i))
                out)))

    status_count-aside :
        (name : String) → status_count f (aside v obj) name ≡ status_count f obj name
    unfolding status_count
    status_count-aside name = ap int_text (int_or-aside (pos 0) "status" (name ∷ []) refl)

    ready_replicas-aside : ready_replicas f (aside v obj) ≡ ready_replicas f obj
    unfolding ready_replicas
    ready_replicas-aside = λ i.
        str_append (status_count-aside "readyReplicas" i)
          (str_append "/" (int_text (int_or-aside (pos 0) "spec" ("replicas" ∷ []) refl i)))

    match_labels-aside : match_labels f (aside v obj) ≡ match_labels f obj
    unfolding match_labels_string
    match_labels-aside =
        ap (selector_or_none f) (nested_map-aside "spec" ("selector" ∷ "matchLabels" ∷ []) refl)

    enrich_pod_template-aside :
        (out : Fields) → enrich_pod_template f (aside v obj) out ≡ enrich_pod_template f obj out
    unfolding enrich_pod_template
    enrich_pod_template-aside out =
        ap
          (λ cs.
            put_text "images" (join "," (texts_at f "image" cs))
              (put_text "containers" (join "," (texts_at f "name" cs)) out))
          (elements-aside "spec" ("template" ∷ "spec" ∷ "containers" ∷ []) refl)

    pub enrich_deployment-aside :
        (out : Fields) → enrich_deployment f (aside v obj) out ≡ enrich_deployment f obj out
    unfolding enrich_deployment
    enrich_deployment-aside out = λ i. put_text "selector" (match_labels-aside i) (
        enrich_pod_template-aside
          (put_text "available" (status_count-aside "availableReplicas" i) (
            put_text "uptodate" (status_count-aside "updatedReplicas" i)
              (put_text "ready" (ready_replicas-aside i) out)))
          i)

    pub enrich_stateful_set-aside :
        (out : Fields) → enrich_stateful_set f (aside v obj) out ≡ enrich_stateful_set f obj out
    unfolding enrich_stateful_set
    enrich_stateful_set-aside out =
        λ i. enrich_pod_template-aside (put_text "ready" (ready_replicas-aside i) out) i

    pub enrich_daemon_set-aside :
        (out : Fields) → enrich_daemon_set f (aside v obj) out ≡ enrich_daemon_set f obj out
    unfolding enrich_daemon_set node_selector_string
    enrich_daemon_set-aside out = λ i. put_text "selector" (match_labels-aside i) (
        enrich_pod_template-aside
          (put_text "nodeselector"
            (selector_or_none f
              (nested_map-aside "spec" ("template" ∷ "spec" ∷ "nodeSelector" ∷ []) refl i))
            (put_text "available" (status_count-aside "numberAvailable" i) (
              put_text "uptodate" (status_count-aside "updatedNumberScheduled" i) (
                put_text "ready" (status_count-aside "numberReady" i) (
                  put_text "current" (status_count-aside "currentNumberScheduled" i)
                    (put_text "desired" (status_count-aside "desiredNumberScheduled" i) out))))))
          i)

    pub enrich_service-aside :
        (out : Fields) → enrich_service f (aside v obj) out ≡ enrich_service f obj out
    unfolding enrich_service service_external_ip service_ports_string
    enrich_service-aside out = λ i.
        put_text "ports" (ports_text f (elements-aside "spec" ("ports" ∷ []) refl i)) (
          put_text "externalip"
            (ips_or f (elements-aside "spec" ("externalIPs" ∷ []) refl i)
              (elements-aside "status" ("loadBalancer" ∷ "ingress" ∷ []) refl i))
            out)

    pub enrich_age-aside : (out : Fields) → enrich_age f (aside v obj) out ≡ enrich_age f obj out
    unfolding enrich_age
    enrich_age-aside out =
        ap (λ x. enrich_since f x out) (nested-aside "metadata" ("creationTimestamp" ∷ []) refl)
