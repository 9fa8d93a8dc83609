-- ===== src/Kube/Enrich/Workloads.antt =====
-- The fields of deployments, stateful sets and daemon sets: collector/protocols/k8sclient/Enrich.go.
use Prim.Native.String.{◌++◌ as str_append}
use l8collector.Prelude.{Option, none, some, List, [], ◌∷◌, ◌++◌, String}
use l8collector.Prelude.Int.{pos}
use l8collector.Text.{join}
use l8collector.Kube.Value.{Value, object, Items, nil, item, Fields, field_get}
use l8collector.Kube.Enrich.Access.{
  Formats, put_text, int_text, sprint, nested_map, nested_slice, elements, int_or, selector_or_none,
  match_labels_string, map_to_selector_string,
}

-- fmt.Sprint(m[key]), where the map has the key
abbrev pub shown : Formats → Option Value → List String
shown f none = []
shown f (some v) = sprint f (some v) ∷ []

-- the names, or the images, of the containers of a template
unfoldable pub texts_at : Formats → String → Items → List String
unfolding field_get sprint
texts_at f key nil = []
texts_at f key (item (object m) vs) = shown f (field_get key m) ++ texts_at f key vs
texts_at f key (item _ vs) = texts_at f key vs

unfoldable pub enrich_pod_template : Formats → Fields → Fields → Fields
unfolding nested_slice texts_at join
enrich_pod_template f obj out =
    let containers =
      elements (nested_slice obj ("spec" ∷ "template" ∷ "spec" ∷ "containers" ∷ [])) in
    put_text "images" (join "," (texts_at f "image" containers))
      (put_text "containers" (join "," (texts_at f "name" containers)) out)

unfoldable pub node_selector_string : Formats → Fields → String
unfolding nested_map map_to_selector_string
node_selector_string f obj =
    selector_or_none f (nested_map obj ("spec" ∷ "template" ∷ "spec" ∷ "nodeSelector" ∷ []))

-- fmt.Sprint(intOr(obj, 0, "status", name))
unfoldable pub status_count : Formats → Fields → String → String
unfolding int_or int_text
status_count f obj name = int_text (int_or f obj (pos 0) ("status" ∷ name ∷ []))

-- the text "<ready>/<replicas>"
unfoldable pub ready_replicas : Formats → Fields → String
unfolding int_or int_text status_count
ready_replicas f obj =
    str_append (status_count f obj "readyReplicas")
      (str_append "/" (int_text (int_or f obj (pos 0) ("spec" ∷ "replicas" ∷ []))))

abbrev pub match_labels : Formats → Fields → String
match_labels f obj = match_labels_string f obj ("spec" ∷ "selector" ∷ "matchLabels" ∷ [])

unfoldable pub enrich_deployment : Formats → Fields → Fields → Fields
unfolding ready_replicas status_count enrich_pod_template match_labels_string
enrich_deployment f obj out = put_text "selector" (match_labels f obj) (
    enrich_pod_template f obj (
      put_text "available" (status_count f obj "availableReplicas") (
        put_text "uptodate" (status_count f obj "updatedReplicas")
          (put_text "ready" (ready_replicas f obj) out))))

unfoldable pub enrich_stateful_set : Formats → Fields → Fields → Fields
unfolding ready_replicas enrich_pod_template
enrich_stateful_set f obj out =
    enrich_pod_template f obj (put_text "ready" (ready_replicas f obj) out)

unfoldable pub enrich_daemon_set : Formats → Fields → Fields → Fields
unfolding status_count node_selector_string enrich_pod_template match_labels_string
enrich_daemon_set f obj out = put_text "selector" (match_labels f obj) (
    enrich_pod_template f obj (
      put_text "nodeselector" (node_selector_string f obj) (
        put_text "available" (status_count f obj "numberAvailable") (
          put_text "uptodate" (status_count f obj "updatedNumberScheduled") (
            put_text "ready" (status_count f obj "numberReady") (
              put_text "current" (status_count f obj "currentNumberScheduled")
                (put_text "desired" (status_count f obj "desiredNumberScheduled") out)))))))
