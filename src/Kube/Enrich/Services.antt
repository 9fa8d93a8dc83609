-- ===== src/Kube/Enrich/Services.antt =====
-- The fields of a service: collector/protocols/k8sclient/Enrich.go.
use Prim.Native.String.{◌++◌ as str_append}
use l8collector.Prelude.{
  Option, none, some, List, [], ◌∷◌, ◌++◌, String, if◌then◌else◌, ltb, nat_eq,
}
use l8collector.Prelude.Int.{ℤ, pos}
use l8collector.Text.{join}
use l8collector.Kube.Value.{Value, object, Items, nil, item, Fields, field_get}
use l8collector.Kube.Enrich.Access.{
  Formats, put_text, int_text, sprint, nested_slice, elements, to_int,
}

abbrev pub shown_all : Formats → Items → List String
shown_all f nil = []
shown_all f (item v vs) = sprint f (some v) ∷ shown_all f vs

-- the address, or the name, of an ingress
abbrev pub ingress_name : Formats → Option Value → Option Value → List String
ingress_name f (some ip) hostname = sprint f (some ip) ∷ []
ingress_name f none (some hostname) = sprint f (some hostname) ∷ []
ingress_name f none none = []

unfoldable pub ingress_names : Formats → Items → List String
unfolding field_get sprint
ingress_names f nil = []
ingress_names f (item (object m) vs) =
    ingress_name f (field_get "ip" m) (field_get "hostname" m) ++ ingress_names f vs
ingress_names f (item _ vs) = ingress_names f vs

abbrev pub joined_or_none : List String → String
joined_or_none [] = "<none>"
joined_or_none (p ∷ ps) = join "," (p ∷ ps)

-- externalIPs, where there are any; else the ingresses
abbrev pub ips_or : Formats → Items → Items → String
ips_or f nil ingress = joined_or_none (ingress_names f ingress)
ips_or f (item v vs) ingress = join "," (shown_all f (item v vs))

unfoldable pub service_external_ip : Formats → Fields → String
unfolding nested_slice ingress_names join sprint
service_external_ip f obj =
    ips_or f (elements (nested_slice obj ("spec" ∷ "externalIPs" ∷ [])))
      (elements (nested_slice obj ("status" ∷ "loadBalancer" ∷ "ingress" ∷ [])))

abbrev pub protocol_of : Formats → Option Value → String
protocol_of f none = "TCP"
protocol_of f (some p) = sprint f (some p)

-- the port, with the node port where it is a number greater than 0
abbrev pub with_node_port : String → String → Option ℤ → String
with_node_port port protocol (some (pos n)) =
    if ltb 0 n
    then str_append port (str_append ":" (str_append (int_text (pos n)) (str_append "/" protocol)))
    else str_append port (str_append "/" protocol)
with_node_port port protocol _ = str_append port (str_append "/" protocol)

unfoldable pub port_texts : Formats → Items → List String
unfolding field_get sprint to_int int_text
port_texts f nil = []
port_texts f (item (object m) vs) =
    with_node_port (sprint f (field_get "port" m)) (protocol_of f (field_get "protocol" m))
      (to_int f (field_get "nodePort" m))
    ∷ port_texts f vs
port_texts f (item _ vs) = port_texts f vs

abbrev pub ports_text : Formats → Items → String
ports_text f nil = "<none>"
ports_text f (item v vs) = join "," (port_texts f (item v vs))

unfoldable pub service_ports_string : Formats → Fields → String
unfolding nested_slice port_texts join
service_ports_string f obj = ports_text f (elements (nested_slice obj ("spec" ∷ "ports" ∷ [])))

unfoldable pub enrich_service : Formats → Fields → Fields → Fields
unfolding service_external_ip service_ports_string
enrich_service f obj out =
    put_text "ports" (service_ports_string f obj)
      (put_text "externalip" (service_external_ip f obj) out)
