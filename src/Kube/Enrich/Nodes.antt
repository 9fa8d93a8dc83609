-- ===== src/Kube/Enrich/Nodes.antt =====
-- The fields of a node: collector/protocols/k8sclient/Enrich.go.
use l8collector.Prelude.{Option, none, some, List, [], ◌∷◌, String, ◌==◌, if◌then◌else◌, string_eq}
use l8collector.Text.{join}
use l8collector.Text.Sorting.{sort_texts, strip_prefix}
use l8collector.Kube.Value.{object, Items, nil, item, Fields, bare, field, field_get}
use l8collector.Kube.Enrich.Access.{Formats, put_text, sprint, nested_map, nested_slice, elements}

-- the loop of nodeReadyStatus
unfoldable pub ready_status : Formats → Items → String
unfolding field_get sprint
ready_status f nil = "Unknown"
ready_status f (item (object m) vs) =
    let rest = ready_status f vs in
    if sprint f (field_get "type" m) == "Ready"
    then if sprint f (field_get "status" m) == "True" then "Ready" else "NotReady"
    else rest
ready_status f (item _ vs) = ready_status f vs

unfoldable pub node_ready_status : Formats → Fields → String
unfolding nested_slice ready_status
node_ready_status f obj =
    ready_status f (elements (nested_slice obj ("status" ∷ "conditions" ∷ [])))

abbrev pub add_role : Option String → List String → List String
add_role none roles = roles
add_role (some role) roles = role ∷ roles

-- the roles in the order in which the range meets the labels
unfoldable pub roles_of : Fields → List String
unfolding strip_prefix
roles_of bare = []
roles_of (field k v fs) = add_role (strip_prefix "node-role.kubernetes.io/" k) (roles_of fs)

abbrev pub roles_text : List String → String
roles_text [] = "<none>"
roles_text (r ∷ rs) = join "," (sort_texts (r ∷ rs))

abbrev pub labels_text : Option Fields → String
labels_text none = "<none>"
labels_text (some labels) = roles_text (roles_of labels)

unfoldable pub node_roles : Fields → String
unfolding nested_map roles_of join sort_texts
node_roles obj = labels_text (nested_map obj ("metadata" ∷ "labels" ∷ []))

-- the loop of nodeAddress
unfoldable pub address_in : Formats → String → Items → String
unfolding field_get sprint
address_in f addr_type nil = "<none>"
address_in f addr_type (item (object m) vs) =
    let rest = address_in f addr_type vs in
    if sprint f (field_get "type" m) == addr_type then sprint f (field_get "address" m) else rest
address_in f addr_type (item _ vs) = address_in f addr_type vs

unfoldable pub node_address : Formats → Fields → String → String
unfolding nested_slice address_in
node_address f obj addr_type =
    address_in f addr_type (elements (nested_slice obj ("status" ∷ "addresses" ∷ [])))

unfoldable pub enrich_node : Formats → Fields → Fields → Fields
unfolding node_roles node_address node_ready_status
enrich_node f obj out = put_text "status" (node_ready_status f obj) (
    put_text "externalip" (node_address f obj "ExternalIP") (
      put_text "internalip" (node_address f obj "InternalIP")
        (put_text "roles" (node_roles obj) out)))
