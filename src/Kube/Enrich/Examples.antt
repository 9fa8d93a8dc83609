-- ===== src/Kube/Enrich/Examples.antt =====
-- The theorems on computed fields at concrete inputs.
use l8collector.Prelude.{◌≡◌, refl, false, Option, some, List, String, ◌==◌, string_eq}
use l8collector.Prelude.Int.{pos}
use l8collector.Prelude.{ℕ}
use l8collector.Kube.Value.{text, number, object, Fields, bare, field, field_get}
use l8collector.Kube.Enrich.Access.{Formats, map_to_selector_string}
use l8collector.Kube.Enrich.Ages.{age_text}
use l8collector.Kube.Enrich.Nodes.{labels_text}
use l8collector.Kube.Enrich.Containers.{PodContainer}
use l8collector.Kube.Enrich.{enrich_object}
use l8collector.Kube.Enrich.Units.{AgeUnit, IsClose, age_text-IsClose}
use l8collector.Kube.Enrich.Again.{enrich_object-again}
use l8collector.Kube.Enrich.Ranges.{swap, selector_and_roles-Reordered}

abbrev formats : Formats
formats = record {
  show = λ v. "";
  int_of_real = λ b. pos b;
  age_of = λ s. some (pos 7200);
  seconds = λ d. d;
}

abbrev marshal : List PodContainer → Option String
marshal cs = some "[]"

abbrev deployment : Fields
deployment =
    field "metadata"
      (object
        (field "name" (text "web") (field "creationTimestamp" (text "2025-01-01T00:00:00Z") bare)))
      (field "spec" (object (field "replicas" (number (pos 3)) bare)) bare)

abbrev labels : Fields
labels = field "tier" (text "web") (field "app" (text "shop") bare)

abbrev labels' : Fields
labels' = field "app" (text "shop") (field "tier" (text "web") bare)

-- three hours and five minutes
age_text_test : age_text 11107 ≡ "3h5m"
unfolding age_text
age_text_test = refl

selector_test : map_to_selector_string formats labels ≡ "app=shop,tier=web"
unfolding map_to_selector_string
selector_test = refl

age_text-IsClose_example : (a : ℕ) × (u : AgeUnit) × (b : ℕ) × IsClose 11107 a u b
age_text-IsClose_example = age_text-IsClose 11107

enrich_object-again_example :
    (obj' : Fields) × (enrich_object formats marshal "apps/v1/deployments" (some deployment)
      ≡ some obj')
    × (enrich_object formats marshal "apps/v1/deployments" (some obj') ≡ some obj')
    × ((k : String) → ("_k" == k) ≡ false → field_get k obj' ≡ field_get k deployment)
enrich_object-again_example = enrich_object-again formats marshal "apps/v1/deployments" deployment

selector_and_roles-Reordered_example :
    (map_to_selector_string formats labels ≡ map_to_selector_string formats labels')
    × (labels_text (some labels) ≡ labels_text (some labels'))
selector_and_roles-Reordered_example =
    selector_and_roles-Reordered formats labels labels' (swap refl)
