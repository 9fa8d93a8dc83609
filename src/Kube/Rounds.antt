-- ===== src/Kube/Rounds.antt =====
-- One round of the loop over the ReplicaSets of a deployment: cascadeDeploymentDelete of Cascade.go.
use l8collector.Prelude.{
  ◌≡◌, refl, ap, ◌∙◌, Bool, true, false, ◌&&◌, Option, none, some, List, [], ◌∷◌, String, ◌==◌,
  if◌then◌else◌, string_eq, inl, inr, In,
}
use l8collector.Prelude.Dict.{get}
use l8collector.Kube.Value.{Value}
use l8collector.Kube.Cache.{CachedObject, list_objects, selects, key}
use l8collector.Kube.Cascade.{Shared, drop_all, drop_object, owned, is_owned_by}
use l8collector.Kube.Store.{IsCache, delete_object-IsCache}
use l8collector.Kube.Sweep.{pick, has, get-drop_all, get-drop_object, has-listed}

pub owned-pick :
    (uid name kind : String) (os : List CachedObject)
    → owned uid name kind os ≡ pick (λ o. is_owned_by o uid name kind) os
unfolding owned
owned-pick uid name kind [] = refl
owned-pick uid name kind (o ∷ os) =
    ap (λ rest. if is_owned_by o uid name kind then o ∷ rest else rest)
      (owned-pick uid name kind os)

drop_object-IsCache :
    (g n m : String) (s : Shared) → IsCache s.cache → IsCache (drop_object g n m s).cache
unfolding drop_object
drop_object-IsCache g n m s h = delete_object-IsCache g n m s.cache h

drop_all-IsCache :
    (os : List CachedObject) (s : Shared) → IsCache s.cache → IsCache (drop_all os s).cache
unfolding drop_all
drop_all-IsCache [] s h = h
drop_all-IsCache (o ∷ os) s h =
    drop_all-IsCache os (drop_object o.gvr o.namespace o.name s)
      (drop_object-IsCache o.gvr o.namespace o.name s h)

pub has-In : (o : CachedObject) (os : List CachedObject) → In o os → has (key o) os ≡ true
unfolding has
has-In o [] m = absurd m
has-In o (p ∷ os) (inl e) = rw (e, (string_eq.same_iff (key o) (key o)).1 refl) refl
has-In o (p ∷ os) (inr m) =
    ap (λ t. if key p == key o then true else t) (has-In o os m) ∙ both (key p == key o)
  where
    both : (b : Bool) → (if b then true else true) ≡ true
    both true = refl
    both false = refl

plain : (a b : Bool) → (a && b && true) ≡ a && b
plain true true = refl
plain true false = refl
plain false b = refl

pub none_left :
    (a b : Bool) (r : Option CachedObject)
    → r ≡ none
    → (if a then none else if b then none else r) ≡ none
none_left true b r e = refl
none_left false true r e = refl
none_left false false r e = e

pub some_left :
    (a b : Bool) (r : Option CachedObject) (o : CachedObject)
    → (if a then none else if b then none else r) ≡ some o
    → r ≡ some o
some_left true b r o e = cc
some_left false true r o e = cc
some_left false false r o e = e

module _ (sprint : Value → String) (n : String) where
  -- the pods of the namespace that the ReplicaSet owns
  unfoldable pub pods : CachedObject → Shared → List CachedObject
  pods rs s = owned rs.uid rs.name "ReplicaSet" (list_objects sprint "v1/pods" n "" s.cache)

  -- one round of the loop
  unfoldable pub round : CachedObject → Shared → Shared
  round rs s = drop_object rs.gvr rs.namespace rs.name (drop_all (pods rs s) s)

  -- pods of the namespace
  abbrev pub pod_here : CachedObject → Bool
  pod_here o = o.gvr == "v1/pods" && o.namespace == n

  abbrev pub set_here : CachedObject → Bool
  set_here o = o.gvr == "apps/v1/replicasets" && o.namespace == n

  pub round-get :
      (k : String) (rs : CachedObject) (s : Shared)
      → get k (round rs s).cache
        ≡ (if key rs == k then none else if has k (pods rs s) then none else get k s.cache)
  unfolding round
  round-get k rs s =
      get-drop_object k rs (drop_all (pods rs s) s)
      ∙ ap (λ t. if key rs == k then none else t) (get-drop_all k (pods rs s) s)

  pub round-IsCache :
      (rs : CachedObject) (s : Shared) → IsCache s.cache → IsCache (round rs s).cache
  unfolding round
  round-IsCache rs s h =
      drop_object-IsCache rs.gvr rs.namespace rs.name (drop_all (pods rs s) s)
        (drop_all-IsCache (pods rs s) s h)

  selects-pods :
      (o : CachedObject) → (n == "") ≡ false → selects sprint "v1/pods" n "" o ≡ pod_here o
  unfolding selects
  selects-pods o e = rw e (plain (o.gvr == "v1/pods") (o.namespace == n))

  pub selects-sets :
      (o : CachedObject)
      → (n == "") ≡ false
      → selects sprint "apps/v1/replicasets" n "" o ≡ set_here o
  unfolding selects
  selects-sets o e = rw e (plain (o.gvr == "apps/v1/replicasets") (o.namespace == n))

  pub pods-has :
      (k : String) (o : CachedObject) (rs : CachedObject) (s : Shared)
      → (n == "") ≡ false
      → IsCache s.cache
      → get k s.cache ≡ some o
      → has k (pods rs s) ≡ (pod_here o && is_owned_by o rs.uid rs.name "ReplicaSet")
  unfolding pods
  pods-has k o rs s e h g =
      ap (has k)
        (owned-pick rs.uid rs.name "ReplicaSet" (list_objects sprint "v1/pods" n "" s.cache))
      ∙ has-listed sprint "v1/pods" n "" (λ p. is_owned_by p rs.uid rs.name "ReplicaSet") k o
          s.cache h g
      ∙ ap (λ b. b && is_owned_by o rs.uid rs.name "ReplicaSet") (selects-pods o e)
