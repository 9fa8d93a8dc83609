-- ===== src/Kube/Gvr.antt =====
-- Names of resource types: GVR.go, parseGVR of Reaper.go, and the text that handleAdmissionEvent of
-- ClientGoCollector.go builds.
use Prim.Native.String.{◌++◌ as str_append}
use l8collector.Prelude.{
  String, List, [], ◌∷◌, Option, none, some, ◌==◌, if◌then◌else◌, string_eq, ◌++◌,
}
use l8collector.Text.{split, trim_space, join}

-- schema.GroupVersionResource
pub record Gvr : Type 0 where
  pub group : String
  pub version : String
  pub resource : String

-- the cases of ParseGVR; an error is `none`
abbrev pub parse_parts : List String → Option Gvr
parse_parts (v ∷ r ∷ []) = some (record { group = ""; version = v; resource = r })
parse_parts (g ∷ v ∷ r ∷ []) = some (record { group = g; version = v; resource = r })
parse_parts _ = none

unfoldable pub parse_gvr : String → Option Gvr
unfolding trim_space split
parse_gvr raw = parse_parts (split 47 (trim_space raw))

-- the last two parts as version and resource, the others joined as the group
unfoldable pub long_gvr : List String → List String → Gvr
long_gvr groups (v ∷ r ∷ []) = record { group = join "/" groups; version = v; resource = r }
long_gvr groups (g ∷ parts) = long_gvr (groups ++ g ∷ []) parts
long_gvr groups [] = record { group = ""; version = ""; resource = "" }

-- the cases of parseGVR
unfoldable pub reaper_parts : List String → Gvr
unfolding long_gvr
reaper_parts (v ∷ r ∷ []) = record { group = ""; version = v; resource = r }
reaper_parts (g ∷ v ∷ r ∷ []) = record { group = g; version = v; resource = r }
reaper_parts (g ∷ h ∷ v ∷ r ∷ parts) = long_gvr [] (g ∷ h ∷ v ∷ r ∷ parts)
reaper_parts _ = record { group = ""; version = ""; resource = "" }

unfoldable pub reaper_gvr : String → Gvr
unfolding reaper_parts split
reaper_gvr gvr_text = reaper_parts (split 47 gvr_text)

unfoldable pub gvr_text : Gvr → String
gvr_text g =
    let text = str_append g.version (str_append "/" g.resource) in
    if g.group == "" then text else str_append g.group (str_append "/" text)
