-- ===== src/Kube/Sweep.antt =====
-- Objects that are listed, sifted and deleted one after the other.
use l8collector.Prelude.{
  ◌≡◌, In, subst, refl, sym, ap, ap₂, ◌∙◌, Bool, true, false, not, ◌&&◌, Option, none, some, List,
  [], ◌∷◌, ◌++◌, String, ◌==◌, if◌then◌else◌, string_eq, arith, Bool-cases, Option-cases, inl, inr,
  map,
}
use mathlib.Core.Option.{some-injective}
use mathlib.Core.List.{append-nil, append_assoc}
use l8collector.Prelude.Dict.{get, get-delete}
use l8collector.Kube.Value.{Value}
use l8collector.Kube.Cache.{CachedObject, Cache, key, list_objects, selects, delete_object}
use l8collector.Kube.Cascade.{Shared, Notice, drop_object, drop_all}
use l8collector.Kube.Store.{IsCache}

abbrev pub pick : (CachedObject → Bool) → List CachedObject → List CachedObject
pick p [] = []
pick p (o ∷ os) = let rest = pick p os in if p o then o ∷ rest else rest

abbrev pub keep : (CachedObject → Bool) → Option CachedObject → Option CachedObject
keep p none = none
keep p (some o) = if p o then some o else none

abbrev pub notice : CachedObject → Notice
notice o = record { gvr = o.gvr; namespace = o.namespace; name = o.name }

-- whether an object of the list is stored at this key
unfoldable pub has : String → List CachedObject → Bool
has k [] = false
has k (o ∷ os) = let rest = has k os in if key o == k then true else rest

pub get-drop_object :
    (k : String) (o : CachedObject) (s : Shared)
    → get k (drop_object o.gvr o.namespace o.name s).cache
      ≡ (if key o == k then none else get k s.cache)
unfolding drop_object delete_object
get-drop_object k o s = get-delete (key o) k s.cache

-- What was deleted is gone, and nothing else is.
pub get-drop_all :
    (k : String) (os : List CachedObject) (s : Shared)
    → get k (drop_all os s).cache ≡ (if has k os then none else get k s.cache)
unfolding drop_all has
get-drop_all k [] s = refl
get-drop_all k (o ∷ os) s =
    ground
      (arith, get-drop_all k os (drop_object o.gvr o.namespace o.name s), get-drop_object k o s)

-- The callback is called once for each deletion, in their order.
pub drop_all-notices :
    (os : List CachedObject) (s : Shared)
    → s.on_delete ≡ true
    → (drop_all os s).notices ≡ s.notices ++ map notice os
unfolding drop_all drop_object
drop_all-notices [] s e = sym (append-nil s.notices)
drop_all-notices (o ∷ os) s e =
    drop_all-notices os (drop_object o.gvr o.namespace o.name s) e
    ∙ (rw e (append_assoc s.notices (notice o ∷ []) (map notice os)))

module _ (sprint : Value → String) (gvr namespace selector : String) (q : CachedObject → Bool) where
  abbrev listed : Cache → List CachedObject
  listed c = pick q (list_objects sprint gvr namespace selector c)

  abbrev chosen : CachedObject → Bool
  chosen o = selects sprint gvr namespace selector o && q o

  listed-step :
      (j : String) (p : CachedObject) (c : Cache)
      → listed ((j, p) ∷ c) ≡ (if chosen p then p ∷ listed c else listed c)
  unfolding list_objects
  listed-step j p c = elim (Bool-cases (selects sprint gvr namespace selector p)) [
    | inl s ↦ rw s refl
    | inr d ↦ rw d refl
  ]

  has-step :
      (k j : String) (p : CachedObject) (c : Cache)
      → j ≡ key p
      → has k (listed ((j, p) ∷ c)) ≡ (if chosen p && j == k then true else has k (listed c))
  unfolding has
  has-step k j p c e = elim (Bool-cases (chosen p)) [
    | inl s ↦ rw (listed-step j p c, s, e) refl
    | inr d ↦ rw (listed-step j p c, d) refl
  ]

  has-absent : (k : String) (c : Cache) → IsCache c → get k c ≡ none → has k (listed c) ≡ false
  unfolding has list_objects IsCache get
  has-absent k [] h e = refl
  has-absent k ((j, o) ∷ c) h e = elim (Bool-cases (j == k)) [
    | inl s ↦ cc (rw s at e)
    | inr d ↦ has-step k j o c h.0 ∙ ground (arith, d, has-absent k c h.2 (rw d at e))
  ]

  pub has-listed :
      (k : String) (o : CachedObject) (c : Cache)
      → IsCache c
      → get k c ≡ some o
      → has k (listed c) ≡ chosen o
  unfolding has list_objects IsCache get
  has-listed k o [] h e = cc
  has-listed k o ((j, p) ∷ c) h e = elim (Bool-cases (j == k)) [
    | inl s ↦
        has-step k j p c h.0
        ∙ ap₂ (λ b t. if chosen p && b then true else t) s
            (has-absent k c h.2 (ap (λ i. get i c) (sym ((string_eq.same_iff j k).0 s)) ∙ h.1))
        ∙ plain (chosen p)
        ∙ ap chosen (some-injective p o (rw s at e))
    | inr d ↦
        has-step k j p c h.0
        ∙ ap₂ (λ b t. if chosen p && b then true else t) d (has-listed k o c h.2 (rw d at e))
        ∙ other (chosen p) (chosen o)
  ]
    where
      other : (b t : Bool) → (if b && false then true else t) ≡ t
      other true t = refl
      other false t = refl

      plain : (b : Bool) → (if b && true then true else false) ≡ b
      plain true = refl
      plain false = refl

  pub In-listed :
      (k : String) (o : CachedObject) (c : Cache)
      → get k c ≡ some o
      → chosen o ≡ true
      → In o (listed c)
  unfolding get
  In-listed k o [] e m = cc
  In-listed k o ((j, p) ∷ c) e m =
      subst (λ os. In o os) (sym (listed-step j p c))
        (elim (Bool-cases (j == k)) [
          | inl s ↦
              first (chosen p) (some-injective p o (rw s at e))
                (ap chosen (some-injective p o (rw s at e)) ∙ m)
          | inr d ↦ later (chosen p) (In-listed k o c (rw d at e) m)
        ])
    where
      first : (b : Bool) → p ≡ o → b ≡ true → In o (if b then p ∷ listed c else listed c)
      first true q t = inl q
      first false q t = cc

      later : (b : Bool) → In o (listed c) → In o (if b then p ∷ listed c else listed c)
      later true i = inr i
      later false i = i

  -- After the deletion of the chosen objects a key holds what it held, where that was not chosen.
  pub swept :
      (k : String) (s : Shared)
      → IsCache s.cache
      → get k (drop_all (listed s.cache) s).cache ≡ keep (λ o. not (chosen o)) (get k s.cache)
  swept k s h = get-drop_all k (listed s.cache) s ∙ elim (Option-cases (get k s.cache)) [
    | inl n ↦ rw (n, has-absent k s.cache h n) refl
    | inr (o, e) ↦ rw (e, has-listed k o s.cache h e) (flip (chosen o) o)
  ]
    where
      flip :
          (b : Bool) (o : CachedObject)
          → (if b then none else some o) ≡ (if not b then some o else none)
      flip true o = refl
      flip false o = refl
