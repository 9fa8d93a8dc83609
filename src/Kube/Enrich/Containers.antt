-- ===== src/Kube/Enrich/Containers.antt =====
-- The containers of a pod, their declaration merged with their status: podContainer, indexContainerStatuses
-- and collectContainers of collector/protocols/k8sclient/Enrich.go.
use l8collector.Prelude.{
  Bool, Option, none, some, List, [], ◌∷◌, String, ◌==◌, if◌then◌else◌, string_eq,
}
use l8collector.Prelude.Int.{ℤ, pos}
use l8collector.Prelude.Dict.{Dict, get, put}
use l8collector.Kube.Value.{Value, truth, array, object, Items, nil, item, Fields, bare, field_get}
use l8collector.Kube.Enrich.Access.{
  Formats, sprint, nested_slice, elements, to_int, or_int, string_of, maps_of,
}

-- podContainer; a nil slice or map is empty here, as its JSON is left out in both cases
pub record PodContainer : Type 0 where
  pub name : String
  pub image : String
  pub image_pull_policy : String
  pub ports : List Fields
  pub env : List Fields
  pub resources : Fields
  pub volume_mounts : List Fields
  pub kind : String
  pub ready : Option Bool
  pub state : String
  pub restart_count : ℤ

-- the loop of indexContainerStatuses; a later status of a name replaces an earlier one
unfoldable pub index_statuses : Formats → Items → Dict String Fields → Dict String Fields
unfolding field_get sprint put
index_statuses f nil idx = idx
index_statuses f (item (object m) vs) idx =
    let name = sprint f (field_get "name" m) in
    index_statuses f vs (if name == "" then idx else put name m idx)
index_statuses f (item _ vs) idx = index_statuses f vs idx

unfoldable pub index_container_statuses : Formats → Fields → String → Dict String Fields
unfolding nested_slice index_statuses
index_container_statuses f obj key =
    index_statuses f (elements (nested_slice obj ("status" ∷ key ∷ []))) []

abbrev pub truth_of : Option Value → Option Bool
truth_of (some (truth b)) = some b
truth_of _ = none

abbrev pub maps_in : Option Value → List Fields
maps_in (some (array vs)) = maps_of vs
maps_in _ = []

abbrev pub fields_in : Option Value → Fields
fields_in (some (object m)) = m
fields_in _ = bare

-- containerState: the first of the three states that is there
abbrev pub state_text : Option Value → Option Value → Option Value → String
state_text (some v) waiting terminated = "Running"
state_text none (some v) terminated = "Waiting"
state_text none none (some v) = "Terminated"
state_text none none none = ""

abbrev pub state_of : Option Value → String
unfolding field_get
state_of (some (object m)) =
    state_text (field_get "running" m) (field_get "waiting" m) (field_get "terminated" m)
state_of _ = ""

unfoldable pub container_state : Fields → String
unfolding field_get
container_state st = state_of (field_get "state" st)

-- the container of a spec, with the status of its name where there is one
abbrev pub merged : Formats → Option Fields → PodContainer → PodContainer
merged f none c = c
merged f (some st) c = record c {
  ready = truth_of (field_get "ready" st);
  restart_count = or_int (pos 0) (to_int f (field_get "restartCount" st));
  state = container_state st;
}

unfoldable pub declared : Formats → String → Fields → PodContainer
unfolding string_of field_get maps_of
declared f kind spec = record {
  name = string_of f spec "name";
  image = string_of f spec "image";
  image_pull_policy = string_of f spec "imagePullPolicy";
  ports = maps_in (field_get "ports" spec);
  env = maps_in (field_get "env" spec);
  resources = fields_in (field_get "resources" spec);
  volume_mounts = maps_in (field_get "volumeMounts" spec);
  kind = kind;
  ready = none;
  state = "";
  restart_count = pos 0;
}

-- the loop of collectContainers
unfoldable pub containers_of : Formats → String → Dict String Fields → Items → List PodContainer
unfolding declared get container_state to_int
containers_of f kind statuses nil = []
containers_of f kind statuses (item (object spec) vs) =
    let c = declared f kind spec in
    merged f (get c.name statuses) c ∷ containers_of f kind statuses vs
containers_of f kind statuses (item _ vs) = containers_of f kind statuses vs

unfoldable pub collect_containers :
    Formats → Fields → String → String → Dict String Fields → List PodContainer
unfolding nested_slice containers_of
collect_containers f obj spec_key kind statuses =
    containers_of f kind statuses (elements (nested_slice obj ("spec" ∷ spec_key ∷ [])))
