-- ===== src/Arguments/Examples.antt =====
-- The theorem on commands at a concrete input.
use l8collector.Prelude.{◌≡◌, refl, String, string_eq, [], ◌∷◌, some}
use l8collector.Prelude.Dict.{Dict, get}
use l8collector.Text.Splitting.{occurs-Lacks}
use l8collector.Arguments.{replace_arguments}
use l8collector.Arguments.Substitution.{replace_arguments-last}

abbrev arguments : Dict String String
arguments = ("ns", "kube-system") ∷ []

command_replaced : get "ns" arguments ≡ some "kube-system"
unfolding get
command_replaced = refl

replace_arguments-last_example :
    replace_arguments "get pods -n $ns" (some arguments) ≡ "get pods -n kube-system"
replace_arguments-last_example =
    replace_arguments-last "get pods -n " "ns" "kube-system" arguments
      (occurs-Lacks 36 "get pods -n " refl) (occurs-Lacks 36 "ns" refl) (occurs-Lacks 32 "ns" refl)
      command_replaced
