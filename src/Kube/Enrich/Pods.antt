-- ===== src/Kube/Enrich/Pods.antt =====
-- enrichPod and enrichPodContainers of collector/protocols/k8sclient/Enrich.go.
use Prim.Native.String.{◌++◌ as str_append}
use l8collector.Prelude.{
  ℕ, suc, ◌+◌, Bool, true, Option, none, some, List, [], ◌∷◌, ◌++◌, String, ◌==◌, if◌then◌else◌,
  string_eq,
}
use l8collector.Prelude.Int.{ℤ, pos, ◌+ℤ◌}
use l8collector.Text.Numbers.{decimal}
use l8collector.Kube.Value.{Value, object, Items, nil, item, Fields, field_get, nested_value}
use l8collector.Kube.Enrich.Access.{
  Formats, put_text, int_text, sprint, nested_slice, elements, to_int, or_int,
}
use l8collector.Kube.Enrich.Containers.{
  PodContainer, truth_of, index_container_statuses, collect_containers,
}

abbrev pub one_if : Option Bool → ℕ
one_if (some true) = 1
one_if _ = 0

unfoldable pub count_ready : Items → ℕ
unfolding field_get
count_ready nil = 0
count_ready (item (object m) vs) = one_if (truth_of (field_get "ready" m)) + count_ready vs
count_ready (item _ vs) = count_ready vs

unfoldable pub count_restarts : Formats → Items → ℤ
unfolding field_get to_int ◌+ℤ◌
count_restarts f nil = pos 0
count_restarts f (item (object m) vs) =
    or_int (pos 0) (to_int f (field_get "restartCount" m)) +ℤ count_restarts f vs
count_restarts f (item _ vs) = count_restarts f vs

unfoldable pub count_items : Items → ℕ
count_items nil = 0
count_items (item v vs) = suc (count_items vs)

-- the name of the nominated node, "<none>" where it is nil or empty
unfoldable pub nominated_node : Formats → Option Value → String
unfolding sprint
nominated_node f none = "<none>"
nominated_node f (some Value.null) = "<none>"
nominated_node f (some v) = if sprint f (some v) == "" then "<none>" else sprint f (some v)

abbrev pub put_some : Option String → Fields → Fields
put_some none out = out
put_some (some s) out = put_text "containers_json" s out

-- no key for no containers, nor where the encoder fails
abbrev pub put_containers :
    (List PodContainer → Option String) → List PodContainer → Fields → Fields
put_containers marshal [] out = out
put_containers marshal (c ∷ cs) out = put_some (marshal (c ∷ cs)) out

unfoldable pub enrich_pod_containers :
    Formats → (List PodContainer → Option String) → Fields → Fields → Fields
unfolding collect_containers index_container_statuses
enrich_pod_containers f marshal obj out =
    put_containers marshal
      (collect_containers f obj "containers" "container"
          (index_container_statuses f obj "containerStatuses")
        ++ collect_containers f obj "initContainers" "init"
            (index_container_statuses f obj "initContainerStatuses"))
      out

-- the text "<ready>/<total>"
abbrev pub ready_text : Items → String
ready_text statuses =
    str_append (decimal (count_ready statuses)) (str_append "/" (decimal (count_items statuses)))

unfoldable pub enrich_pod : Formats → (List PodContainer → Option String) → Fields → Fields → Fields
unfolding nested_slice nested_value count_ready count_items count_restarts int_text nominated_node
    enrich_pod_containers
enrich_pod f marshal obj out =
    let statuses = elements (nested_slice obj ("status" ∷ "containerStatuses" ∷ [])) in
    enrich_pod_containers f marshal obj (
      put_text "nominatednode"
        (nominated_node f (nested_value (object obj) ("status" ∷ "nominatedNodeName" ∷ [])))
        (put_text "restarts" (int_text (count_restarts f statuses))
          (put_text "ready" (ready_text statuses) out)))
