-- ===== src/Kube/Enrich.antt =====
-- Enrich.go of collector/protocols/k8sclient: the fields that it computes from an object, under "_k".
pub mod Access
mod Ages
mod Nodes
mod Pods
pub mod Containers
mod Workloads
mod Services
mod Units
mod Frame
mod Again
mod Ranges
mod Examples
use l8collector.Prelude.{Option, none, some, List, [], ◌∷◌, String, ◌==◌, if◌then◌else◌, string_eq}
use l8collector.Text.{split}
use l8collector.Kube.Value.{Value, object, Fields, bare, field}
use l8collector.Kube.Enrich.Access.{Formats, field_set}
use l8collector.Kube.Enrich.Ages.{enrich_age}
use l8collector.Kube.Enrich.Nodes.{enrich_node}
use l8collector.Kube.Enrich.Pods.{enrich_pod}
use l8collector.Kube.Enrich.Containers.{PodContainer}
use l8collector.Kube.Enrich.Workloads.{enrich_deployment, enrich_stateful_set, enrich_daemon_set}
use l8collector.Kube.Enrich.Services.{enrich_service}

abbrev pub last_part : List String → String
last_part [] = ""
last_part (p ∷ []) = p
last_part (p ∷ q ∷ ps) = last_part (q ∷ ps)

-- resourceFromGVR: strings.Split gives at least one part
unfoldable pub resource_from_gvr : String → String
unfolding split
resource_from_gvr gvr = last_part (split 47 gvr)

-- the switch of enrichObject
unfoldable pub enrich_resource :
    Formats → (List PodContainer → Option String) → String → Fields → Fields → Fields
unfolding enrich_node enrich_pod enrich_deployment enrich_stateful_set enrich_daemon_set
    enrich_service
enrich_resource f marshal resource obj out =
    if resource == "nodes"
    then enrich_node f obj out
    else if resource == "pods"
    then enrich_pod f marshal obj out
    else if resource == "deployments"
    then enrich_deployment f obj out
    else if resource == "statefulsets"
    then enrich_stateful_set f obj out
    else if resource == "daemonsets"
    then enrich_daemon_set f obj out
    else if resource == "services"
    then enrich_service f obj out
    else out

unfoldable pub computed : Formats → (List PodContainer → Option String) → String → Fields → Fields
unfolding resource_from_gvr enrich_resource enrich_age
computed f marshal gvr obj =
    enrich_age f obj (enrich_resource f marshal (resource_from_gvr gvr) obj bare)

abbrev pub with_computed : Fields → Fields → Fields
with_computed bare obj = obj
with_computed (field k v fs) obj = field_set "_k" (object (field k v fs)) obj

-- enrichObject; `none` is the nil map
unfoldable pub enrich_object :
    Formats → (List PodContainer → Option String) → String → Option Fields → Option Fields
unfolding computed field_set
enrich_object f marshal gvr none = none
enrich_object f marshal gvr (some obj) = some (with_computed (computed f marshal gvr obj) obj)
