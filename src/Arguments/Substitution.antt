-- ===== src/Arguments/Substitution.antt =====
-- A variable is replaced by its argument, and a text without variables is kept.
use Prim.Native.Char.{Char, code}
use Prim.Native.String.{◌++◌ as str_append}
use text.Mathlib.TextLemmas.{cons-append, nil-append, append_assoc, append-nil}
use l8collector.Text.Splitting.{one_append}
use l8collector.Prelude.{
  ◌≡◌, refl, sym, ap, ◌∙◌, String, ◌==◌, if◌then◌else◌, nat_eq, string_eq, Bool, true, false, ◌&&◌,
  Option, none, some,
}
use l8collector.Prelude.Dict.{Dict, get}
use l8collector.Text.{Lacks}
use l8collector.Arguments.{Scan, scan_step, scan_all, finish, replace_arguments}

abbrev outside : String → Scan
outside b = record { open_name = false; arg = ""; buff = b }

abbrev within : String → String → Scan
within a b = record { open_name = true; arg = a; buff = b }

one_more :
    (a : String) (c : Char) (s : String)
    → str_append (str_append a (String.◌∷◌ c "")) s ≡ str_append a (String.◌∷◌ c s)
one_more a c s = append_assoc a (String.◌∷◌ c "") s ∙ ap (str_append a) (one_append c s)

-- the rest of the loop after one round
go_on : Dict String String → String → Option Scan → Option Scan
go_on args s none = none
go_on args s (some t) = scan_all args s t

round :
    (args : Dict String String) (c : Char) (s t : String) (st : Scan)
    → scan_all args (str_append (String.◌∷◌ c s) t) st
      ≡ go_on args (str_append s t) (scan_step args c st)
unfolding scan_all go_on
round args c s t st = ap (λ u. scan_all args u st) (cons-append c s t) ∙ same (scan_step args c st)
  where
    same :
        (o : Option Scan)
        → (elim o [ none ↦ none | some u ↦ scan_all args (str_append s t) u ])
          ≡ go_on args (str_append s t) o
    same none = refl
    same (some u) = refl

step-outside :
    (args : Dict String String) (c : Char) (b : String)
    → (code c == 36) ≡ false
    → scan_step args c (outside b) ≡ some (outside (str_append b (String.◌∷◌ c "")))
unfolding scan_step
step-outside args c b h = rw h (plain (code c == 32))
  where
    plain :
        (t : Bool)
        → (if t && false
            then elim (get "" args) [
              | none ↦ none
              | some v ↦ some (outside (str_append b (str_append v " ")))
            ]
            else some (outside (str_append b (String.◌∷◌ c ""))))
          ≡ some (outside (str_append b (String.◌∷◌ c "")))
    plain true = refl
    plain false = refl

step-within :
    (args : Dict String String) (c : Char) (a b : String)
    → (code c == 36) ≡ false
    → (code c == 32) ≡ false
    → scan_step args c (within a b) ≡ some (within (str_append a (String.◌∷◌ c "")) b)
unfolding scan_step
step-within args c a b h k = rw (h, k) refl

scan_all-outside :
    (args : Dict String String) (s t b : String)
    → Lacks 36 s
    → scan_all args (str_append s t) (outside b) ≡ scan_all args t (outside (str_append b s))
unfolding go_on
scan_all-outside args String.[] t b h = rw (nil-append t, append-nil b) refl
scan_all-outside args (String.◌∷◌ c s) t b h =
    round args c s t (outside b)
    ∙ ap (go_on args (str_append s t)) (step-outside args c b h.0)
    ∙ scan_all-outside args s t (str_append b (String.◌∷◌ c "")) h.1
    ∙ ap (λ u. scan_all args t (outside u)) (one_more b c s)

scan_all-within :
    (args : Dict String String) (s t a b : String)
    → Lacks 36 s
    → Lacks 32 s
    → scan_all args (str_append s t) (within a b) ≡ scan_all args t (within (str_append a s) b)
unfolding go_on
scan_all-within args String.[] t a b h k = rw (nil-append t, append-nil a) refl
scan_all-within args (String.◌∷◌ c s) t a b h k =
    round args c s t (within a b)
    ∙ ap (go_on args (str_append s t)) (step-within args c a b h.0 k.0)
    ∙ scan_all-within args s t (str_append a (String.◌∷◌ c "")) b h.1 k.1
    ∙ ap (λ u. scan_all args t (within u b)) (one_more a c s)

-- In a command that ends with a variable, where no other dollar sign stands before it and its name has
-- no space and no dollar sign, the variable is replaced by its argument, and what stands before it is kept.
pub replace_arguments-last :
    (pre name v : String) (args : Dict String String)
    → Lacks 36 pre
    → Lacks 36 name
    → Lacks 32 name
    → get name args ≡ some v
    → replace_arguments (str_append pre (String.◌∷◌ "$" name)) (some args) ≡ str_append pre v
unfolding replace_arguments finish scan_all scan_step
replace_arguments-last pre name v args h k l g =
    ap (finish (str_append pre (String.◌∷◌ "$" name)) args) scanned ∙ found
  where
    found :
        finish (str_append pre (String.◌∷◌ "$" name)) args (some (within name pre))
        ≡ str_append pre v
    found = rw g refl

    scanned :
        scan_all args (str_append pre (String.◌∷◌ "$" name)) (outside "") ≡ some (within name pre)
    scanned =
        scan_all-outside args pre (String.◌∷◌ "$" name) "" h
        ∙ ap (λ u. scan_all args (String.◌∷◌ "$" name) (outside u)) (nil-append pre)
        ∙ ap (λ u. scan_all args u (within "" pre)) (sym (append-nil name))
        ∙ scan_all-within args name "" "" pre k l
        ∙ ap (λ u. some (within u pre)) (nil-append name)
