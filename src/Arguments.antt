-- ===== src/Arguments.antt =====
-- The substitution of a job's arguments in a command: ReplaceArguments of collector/common/utils.go.
mod Substitution
mod Examples
use Prim.Native.Char.{Char, code}
use Prim.Native.String.{◌++◌ as str_append}
use l8collector.Prelude.{
  ℕ, String, ◌==◌, if◌then◌else◌, nat_eq, string_eq, Bool, true, false, ◌&&◌, Option, none, some,
}
use l8collector.Prelude.Dict.{Dict, get}

-- the variables of the loop: `open`, and what the two buffers hold
pub record Scan : Type 0 where
  pub open_name : Bool
  pub arg : String
  pub buff : String

-- one round of the loop; `none` stands for the return of the command as it was
unfoldable pub scan_step : Dict String String → Char → Scan → Option Scan
unfolding get
scan_step args c st =
    if code c == 36
    then some (record st { open_name = true })
    else if code c == 32 && st.open_name
    then elim (get st.arg args) [
      | none ↦ none
      | some v ↦
          some
            (record { open_name = false; arg = ""; buff = str_append st.buff (str_append v " ") })
    ]
    else if st.open_name
    then some (record st { arg = str_append st.arg (String.◌∷◌ c "") })
    else some (record st { buff = str_append st.buff (String.◌∷◌ c "") })

unfoldable pub scan_all : Dict String String → String → Scan → Option Scan
unfolding scan_step
scan_all args String.[] st = some st
scan_all args (String.◌∷◌ c s) st = elim (scan_step args c st) [
  | none ↦ none
  | some t ↦ scan_all args s t
]

-- what follows the loop
unfoldable pub finish : String → Dict String String → Option Scan → String
unfolding get
finish what args none = what
finish what args (some st) =
    if st.open_name
    then elim (get st.arg args) [ none ↦ what | some v ↦ str_append st.buff v ]
    else st.buff

-- nil arguments are `none`
unfoldable pub replace_arguments : String → Option (Dict String String) → String
unfolding scan_all finish
replace_arguments what none = what
replace_arguments what (some args) =
    finish what args (scan_all args what (record { open_name = false; arg = ""; buff = "" }))
