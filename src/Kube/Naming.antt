-- ===== src/Kube/Naming.antt =====
-- The text of a resource type is read back.
use Prim.Native.String.{◌++◌ as str_append}
use l8collector.Prelude.{
  ◌⊎◌, subst, ◌≡◌, refl, sym, ap, ◌∙◌, Bool, true, false, some, List, [], ◌∷◌, String, ◌==◌,
  if◌then◌else◌, string_eq, Bool-cases, inl, inr,
}
use mathlib.Core.Option.{some-injective}
use l8collector.Text.{split, trim_space, Lacks}
use l8collector.Text.Splitting.{one_append, split-append, split-Lacks}
use l8collector.Kube.Gvr.{Gvr, gvr_text, parse_gvr, reaper_gvr, reaper_parts, parse_parts}

slash : (s : String) → str_append "/" s ≡ String.◌∷◌ "/" s
slash s = one_append "/" s

-- A text before a slash is the first part.
split-slash :
    (s t : String) → Lacks 47 s → split 47 (str_append s (str_append "/" t)) ≡ s ∷ split 47 t
split-slash s t h = ap (λ u. split 47 (str_append s u)) (slash t) ∙ split-append 47 s "/" t h refl

split-gvr_text :
    (g : Gvr)
    → Lacks 47 g.group
    → Lacks 47 g.version
    → Lacks 47 g.resource
    → split 47 (gvr_text g) ≡ (
        if g.group == ""
        then g.version ∷ g.resource ∷ []
        else g.group ∷ g.version ∷ g.resource ∷ [])
unfolding gvr_text
split-gvr_text g a b c =
    let last =
      split-slash g.version g.resource b ∙ ap (λ l. g.version ∷ l) (split-Lacks 47 g.resource c) in
    elim (Bool-cases (g.group == "")) [
      | inl e ↦ subst either (sym e) last
      | inr d ↦ subst either (sym d) (
          split-slash g.group (str_append g.version (str_append "/" g.resource)) a
          ∙ ap (λ l. g.group ∷ l) last)
    ]
  where
    either : Bool → Type 0
    either b =
        let text = str_append g.version (str_append "/" g.resource) in
        split 47 (if b then text else str_append g.group (str_append "/" text))
        ≡ (if b then g.version ∷ g.resource ∷ [] else g.group ∷ g.version ∷ g.resource ∷ [])

-- The reaper reads from the text of a type, as the admission events write it, the same type again,
-- where no part has a slash.
pub reaper_gvr-gvr_text :
    (g : Gvr)
    → Lacks 47 g.group
    → Lacks 47 g.version
    → Lacks 47 g.resource
    → reaper_gvr (gvr_text g) ≡ g
unfolding reaper_gvr reaper_parts
reaper_gvr-gvr_text g a b c =
    ap reaper_parts (split-gvr_text g a b c) ∙ read (Bool-cases (g.group == ""))
  where
    read :
        ((g.group == "") ≡ true) ⊎ ((g.group == "") ≡ false)
        → reaper_parts (
            if g.group == ""
            then g.version ∷ g.resource ∷ []
            else g.group ∷ g.version ∷ g.resource ∷ [])
          ≡ g
    read (inl e) =
        subst
          (λ b.
            reaper_parts
              (if b then g.version ∷ g.resource ∷ [] else g.group ∷ g.version ∷ g.resource ∷ [])
            ≡ g)
          (sym e)
          (ap (λ h. record { group = h; version = g.version; resource = g.resource })
            (sym ((string_eq.same_iff g.group "").0 e)))
    read (inr d) =
        subst
          (λ b.
            reaper_parts
              (if b then g.version ∷ g.resource ∷ [] else g.group ∷ g.version ∷ g.resource ∷ [])
            ≡ g)
          (sym d) refl

parts_agree : (parts : List String) (g : Gvr) → parse_parts parts ≡ some g → reaper_parts parts ≡ g
unfolding reaper_parts
parts_agree [] g e = cc
parts_agree (a ∷ []) g e = cc
parts_agree (a ∷ b ∷ []) g e = some-injective _ _ e
parts_agree (a ∷ b ∷ c ∷ []) g e = some-injective _ _ e
parts_agree (a ∷ b ∷ c ∷ d ∷ ps) g e = cc

-- The reaper reads a text that ParseGVR accepts as ParseGVR reads it.
pub parse_gvr-reaper_gvr :
    (raw : String) (g : Gvr) → parse_gvr raw ≡ some g → reaper_gvr (trim_space raw) ≡ g
unfolding parse_gvr reaper_gvr
parse_gvr-reaper_gvr raw g e = parts_agree (split 47 (trim_space raw)) g e
