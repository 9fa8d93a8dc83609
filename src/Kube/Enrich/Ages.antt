-- ===== src/Kube/Enrich/Ages.antt =====
-- formatRelativeAge and enrichAge of collector/protocols/k8sclient/Enrich.go.
use Prim.Native.String.{◌++◌ as str_append}
use l8collector.Prelude.{ℕ, ◌/◌, ◌%◌, Option, none, some, [], ◌∷◌, String, ltb, if◌then◌else◌}
use l8collector.Prelude.Int.{ℤ, pos, negsuc}
use l8collector.Text.Numbers.{decimal}
use l8collector.Kube.Value.{Value, text, object, Fields, nested_value}
use l8collector.Kube.Enrich.Access.{Formats, put_text}

-- a number and its unit
abbrev pub unit_text : ℕ → String → String
unit_text n unit = str_append (decimal n) unit

-- two units, the second only where it is not 0
abbrev pub units_text : ℕ → String → ℕ → String → String
units_text n unit m small =
    if ltb 0 m then str_append (unit_text n unit) (unit_text m small) else unit_text n unit

-- formatRelativeAge of the whole seconds
unfoldable pub age_text : ℕ → String
unfolding decimal
age_text seconds =
    if ltb seconds 60
    then unit_text seconds "s"
    else let minutes = seconds / 60 in
      if ltb minutes 60
      then unit_text minutes "m"
      else let hours = minutes / 60 in
        if ltb hours 24
        then units_text hours "h" (minutes % 60) "m"
        else let days = hours / 24 in
          if ltb days 365
          then units_text days "d" (hours % 24) "h"
          else units_text (days / 365) "y" (days % 365) "d"

-- an age before the epoch of the object is 0
unfoldable pub format_relative_age : Formats → ℤ → String
unfolding age_text
format_relative_age f (pos d) = age_text (f.seconds d)
format_relative_age f (negsuc d) = age_text (f.seconds 0)

abbrev pub put_age : Formats → Option ℤ → Fields → Fields
put_age f none out = out
put_age f (some d) out = put_text "age" (format_relative_age f d) out

-- the type assertion, and the parser of the time
abbrev pub enrich_since : Formats → Option Value → Fields → Fields
enrich_since f (some (text s)) out = put_age f (f.age_of s) out
enrich_since f _ out = out

unfoldable pub enrich_age : Formats → Fields → Fields → Fields
unfolding nested_value format_relative_age
enrich_age f obj out =
    enrich_since f (nested_value (object obj) ("metadata" ∷ "creationTimestamp" ∷ [])) out
