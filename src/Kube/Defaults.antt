-- ===== src/Kube/Defaults.antt =====
-- What a parsed cache spec promises to the code that reads the cache.
use l8collector.Prelude.{
  ◌≡◌, ◌≢◌, subst, refl, sym, ◌∙◌, inl, inr, ◌==◌, if◌then◌else◌, string_eq, Bool, true, false, not,
  ◌&&◌, ◌||◌, Option, none, some, List, [], ◌∷◌, String, Bool-cases, Option-cases,
}
use mathlib.Core.Option.{some-injective}
use l8collector.Text.{trim_space}
use l8collector.Kube.Spec.{
  CacheSpec, default_kind, default_lists, apply_defaults, parse_cache_spec, or_else, default_fields,
}

-- A spec that has all that Exec reads.
pub record IsComplete (s : CacheSpec) : Type 0 where
  pub has_gvr : (s.gvr == "") ≡ false
  pub has_mode : (s.mode == "") ≡ false
  pub has_result : (s.result == "") ≡ false
  pub has_fields : s.fields ≢ []
  pub has_columns : s.columns ≢ []
  pub has_column_names : s.column_names ≢ []
  pub has_name : (s.mode == "get" && s.name == "" && s.name_from_arg == "") ≡ false

filled : (x d : String) → (d == "") ≡ false → ((if x == "" then d else x) == "") ≡ false
filled x d h = elim (Bool-cases (x == "")) [ inl e ↦ rw e h | inr n ↦ rw n n ]

one_of :
    (b : Bool) (x y : String)
    → (x == "") ≡ false
    → (y == "") ≡ false
    → ((if b then x else y) == "") ≡ false
one_of true x y h k = h
one_of false x y h k = k

default_kind-mode :
    (to_lower : String → String) (s : CacheSpec) → ((default_kind to_lower s).mode == "") ≡ false
unfolding default_kind
default_kind-mode to_lower s =
    filled (to_lower (trim_space s.mode))
      (if not (s.name == "") || not (s.name_from_arg == "") then "get" else "list")
      (one_of (not (s.name == "") || not (s.name_from_arg == "")) "get" "list" refl refl)

default_kind-result :
    (to_lower : String → String) (s : CacheSpec) → ((default_kind to_lower s).result == "") ≡ false
unfolding default_kind
default_kind-result to_lower s =
    let mode = (default_kind to_lower s).mode in
    filled (to_lower (trim_space s.result)) (if mode == "get" then "map" else "table")
      (one_of (mode == "get") "map" "table" refl refl)

or_else-filled : (xs ys : List String) → ys ≢ [] → or_else xs ys ≢ []
or_else-filled [] ys h = h
or_else-filled (x ∷ xs) ys h = λ e. cc e

default_fields-filled : default_fields ≢ []
default_fields-filled = λ e. cc e

-- The branch of applyDefaults that reads the poll is never taken: the poll does not matter.
apply_defaults-poll :
    (to_lower to_upper : String → String) (poll : Option Bool) (s : CacheSpec)
    → apply_defaults to_lower to_upper poll s ≡ apply_defaults to_lower to_upper none s
unfolding apply_defaults default_lists
apply_defaults-poll to_lower to_upper none s = refl
apply_defaults-poll to_lower to_upper (some b) s = rw (default_kind-result to_lower s) refl

-- What parse_cache_spec returns was tested, and has the defaults.
parsed :
    (decode : String → Option CacheSpec) (to_lower to_upper : String → String) (poll : Option Bool)
    (raw : String) (s : CacheSpec)
    → parse_cache_spec decode to_lower to_upper poll raw ≡ some s
    → (given : CacheSpec) × (s ≡ apply_defaults to_lower to_upper none given)
      × ((s.gvr == "") ≡ false)
      × ((s.mode == "get" && s.name == "" && s.name_from_arg == "") ≡ false)
unfolding parse_cache_spec
parsed decode to_lower to_upper poll raw s h = elim (Bool-cases (trim_space raw == "")) [
  | inl e ↦ cc (rw e at h)
  | inr d ↦ elim (Option-cases (decode (trim_space raw))) [
    | inl n ↦ cc (rw (d, n) at h)
    | inr (given, g) ↦
        let t = apply_defaults to_lower to_upper poll given in
        let k = tested t s (rw (d, g) at h) in
        (given, k.0 ∙ apply_defaults-poll to_lower to_upper poll given, k.1, k.2)
  ]
]
  where
    tested :
        (t s : CacheSpec)
        → (if t.gvr == ""
            then none
            else if t.mode == "get" && t.name == "" && t.name_from_arg == ""
            then none
            else some t)
          ≡ some s
        → (s ≡ t)
          × ((s.gvr == "") ≡ false)
          × ((s.mode == "get" && s.name == "" && s.name_from_arg == "") ≡ false)
    tested t s h = elim (Bool-cases (t.gvr == "")) [
      | inl e ↦ cc (rw e at h)
      | inr d ↦ elim (Bool-cases (t.mode == "get" && t.name == "" && t.name_from_arg == "")) [
        | inl e ↦ cc (rw (d, e) at h)
        | inr f ↦
            let q = some-injective t s (rw (d, f) at h) in
            (
              sym q,
              subst (λ (u : CacheSpec). (u.gvr == "") ≡ false) q d,
              subst
                  (λ (u : CacheSpec).
                    (u.mode == "get" && u.name == "" && u.name_from_arg == "") ≡ false)
                  q f,
            )
      ]
    ]

apply_defaults-filled :
    (to_lower to_upper : String → String) (g : CacheSpec)
    → let s = apply_defaults to_lower to_upper none g in
      ((s.mode == "") ≡ false)
      × ((s.result == "") ≡ false)
      × (s.fields ≢ [])
      × (s.columns ≢ [])
      × (s.column_names ≢ [])
unfolding apply_defaults default_lists
apply_defaults-filled to_lower to_upper g =
    let columns = or_else g.columns g.fields in
    let fields = or_else (or_else g.fields columns) default_fields in
    let some_fields =
      or_else-filled (or_else g.fields columns) default_fields default_fields-filled in
    let some_columns = or_else-filled columns fields some_fields in
    (
      default_kind-mode to_lower g,
      default_kind-result to_lower g,
      some_fields,
      some_columns,
      or_else-filled (or_else g.column_names columns) (or_else columns fields) some_columns,
    )

-- Each spec that ParseCacheSpec returns is complete, whatever the poll is: it has a resource type, a
-- mode, a result type, fields, columns and their names, and in mode "get" a name or the argument of one.
pub parse_cache_spec-IsComplete :
    (decode : String → Option CacheSpec) (to_lower to_upper : String → String) (poll : Option Bool)
    (raw : String) (s : CacheSpec)
    → parse_cache_spec decode to_lower to_upper poll raw ≡ some s
    → IsComplete s
parse_cache_spec-IsComplete decode to_lower to_upper poll raw s h =
    let (given, e, g, n) = parsed decode to_lower to_upper poll raw s h in
    let (a, b, c, d, f) =
      subst
        (λ (t : CacheSpec).
          ((t.mode == "") ≡ false)
          × ((t.result == "") ≡ false)
          × (t.fields ≢ [])
          × (t.columns ≢ [])
          × (t.column_names ≢ []))
        (sym e) (apply_defaults-filled to_lower to_upper given) in
    record {
      has_gvr = g;
      has_mode = a;
      has_result = b;
      has_fields = c;
      has_columns = d;
      has_column_names = f;
      has_name = n;
    }
