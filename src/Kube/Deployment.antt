-- ===== src/Kube/Deployment.antt =====
-- What the deletion of a deployment takes out of the cache.
use l8collector.Prelude.{
  ◌≡◌, subst, refl, sym, ap, ap₂, ◌∙◌, true, false, ◌&&◌, none, some, List, [], ◌∷◌, String, ◌==◌,
  if◌then◌else◌, string_eq, Bool-cases, Option-cases, inl, inr, In,
}
use l8collector.Prelude.Dict.{get}
use l8collector.Kube.Value.{Value}
use l8collector.Kube.Cache.{CachedObject, list_objects, key}
use l8collector.Kube.Cascade.{
  Shared, owned, is_owned_by, delete_replica_sets, cascade_deployment_delete,
}
use l8collector.Kube.Store.{IsCache}
use l8collector.Kube.Sweep.{has, has-listed, In-listed}
use l8collector.Kube.Rounds.{
  none_left, some_left, pods, round, pod_here, set_here, round-get, round-IsCache, selects-sets,
  pods-has, owned-pick,
}

module _ (sprint : Value → String) (n : String) where
  -- An absent key stays absent.
  sets_absent :
      (k : String) (sets : List CachedObject) (s : Shared)
      → get k s.cache ≡ none
      → get k (delete_replica_sets sprint n sets s).cache ≡ none
  unfolding delete_replica_sets round pods
  sets_absent k [] s e = e
  sets_absent k (rs ∷ rest) s e = sets_absent k rest (round sprint n rs s) (
      round-get sprint n k rs s
      ∙ none_left (key rs == k) (has k (pods sprint n rs s)) (get k s.cache) e)

  sets_gone :
      (k : String) (sets : List CachedObject) (s : Shared)
      → has k sets ≡ true
      → get k (delete_replica_sets sprint n sets s).cache ≡ none
  unfolding delete_replica_sets has round pods
  sets_gone k [] s m = cc
  sets_gone k (rs ∷ rest) s m = elim (Bool-cases (key rs == k)) [
    | inl e ↦ sets_absent k rest (round sprint n rs s) (
        round-get sprint n k rs s
        ∙ ap (λ b. if b then none else if has k (pods sprint n rs s) then none else get k s.cache)
            e)
    | inr d ↦
        sets_gone k rest (round sprint n rs s)
          (ap (λ b. if b then true else has k rest) (sym d) ∙ m)
  ]

  sets_keep :
      (k : String) (o : CachedObject) (sets : List CachedObject) (s : Shared)
      → (n == "") ≡ false
      → IsCache s.cache
      → pod_here sprint n o ≡ false
      → has k sets ≡ false
      → get k s.cache ≡ some o
      → get k (delete_replica_sets sprint n sets s).cache ≡ some o
  unfolding delete_replica_sets has round pods
  sets_keep k o [] s e h p m g = g
  sets_keep k o (rs ∷ rest) s e h p m g = elim (Bool-cases (key rs == k)) [
    | inl t ↦ cc (rw t at m)
    | inr d ↦
        sets_keep k o rest (round sprint n rs s) e (round-IsCache sprint n rs s h) p
          (ap (λ b. if b then true else has k rest) (sym d) ∙ m)
          (round-get sprint n k rs s
            ∙ ap₂ (λ a b. if a then none else if b then none else get k s.cache) d
                (pods-has sprint n k o rs s e h g
                  ∙ ap (λ b. b && is_owned_by o rs.uid rs.name "ReplicaSet") p)
            ∙ g)
  ]

  -- The pods of a ReplicaSet that is deleted are deleted.
  pods_gone :
      (k : String) (o rs : CachedObject) (sets : List CachedObject) (s : Shared)
      → (n == "") ≡ false
      → IsCache s.cache
      → In rs sets
      → (pod_here sprint n o && is_owned_by o rs.uid rs.name "ReplicaSet") ≡ true
      → get k s.cache ≡ some o
      → get k (delete_replica_sets sprint n sets s).cache ≡ none
  unfolding delete_replica_sets round pods
  pods_gone k o rs [] s e h m p g = absurd m
  pods_gone k o rs (r ∷ rest) s e h (inl i) p g = sets_absent k rest (round sprint n r s) (
      round-get sprint n k r s
      ∙ ap (λ b. if key r == k then none else if b then none else get k s.cache)
          (pods-has sprint n k o r s e h g
            ∙ ap
                (λ (t : CachedObject).
                  pod_here sprint n o && is_owned_by o t.uid t.name "ReplicaSet")
                i
            ∙ p)
      ∙ none_left (key r == k) true none refl)
  pods_gone k o rs (r ∷ rest) s e h (inr m) p g =
      elim (Option-cases (get k (round sprint n r s).cache)) [
        | inl z ↦ sets_absent k rest (round sprint n r s) z
        | inr (q, z) ↦
            pods_gone k o rs rest (round sprint n r s) e (round-IsCache sprint n r s h) m p (
              z
              ∙ sym (
                  some_left (key r == k) (has k (pods sprint n r s)) (get k s.cache) q
                    (sym (round-get sprint n k r s) ∙ z))
              ∙ g)
      ]

  sets-has :
      (k uid name : String) (o : CachedObject) (s : Shared)
      → (n == "") ≡ false
      → IsCache s.cache
      → get k s.cache ≡ some o
      → has k (owned uid name "Deployment" (list_objects sprint "apps/v1/replicasets" n "" s.cache))
        ≡ (set_here sprint n o && is_owned_by o uid name "Deployment")
  sets-has k uid name o s e h g =
      ap (has k)
        (owned-pick uid name "Deployment" (list_objects sprint "apps/v1/replicasets" n "" s.cache))
      ∙ has-listed sprint "apps/v1/replicasets" n "" (λ p. is_owned_by p uid name "Deployment") k o
          s.cache h g
      ∙ ap (λ b. b && is_owned_by o uid name "Deployment") (selects-sets sprint n o e)

  -- On a cache with IsCache, and with a namespace and a name that are not empty: with the deletion of a
  -- deployment an object that is neither a pod of its namespace nor a
  -- ReplicaSet of its namespace that it owns stays in the cache.
  pub cascade_deployment_delete-keep :
      (name uid k : String) (o : CachedObject) (s : Shared)
      → IsCache s.cache
      → (n == "") ≡ false
      → (name == "") ≡ false
      → get k s.cache ≡ some o
      → pod_here sprint n o ≡ false
      → (set_here sprint n o && is_owned_by o uid name "Deployment") ≡ false
      → get k (cascade_deployment_delete sprint n name uid s).cache ≡ some o
  unfolding cascade_deployment_delete
  cascade_deployment_delete-keep name uid k o s h e f g p m =
      rw (e, f) (sets_keep k o _ s e h p (sets-has k uid name o s e h g ∙ m) g)

  -- The ReplicaSets of the deployment are deleted.
  pub cascade_deployment_delete-set :
      (name uid k : String) (o : CachedObject) (s : Shared)
      → IsCache s.cache
      → (n == "") ≡ false
      → (name == "") ≡ false
      → get k s.cache ≡ some o
      → (set_here sprint n o && is_owned_by o uid name "Deployment") ≡ true
      → get k (cascade_deployment_delete sprint n name uid s).cache ≡ none
  unfolding cascade_deployment_delete
  cascade_deployment_delete-set name uid k o s h e f g m =
      rw (e, f) (sets_gone k _ s (sets-has k uid name o s e h g ∙ m))

  -- On a cache with IsCache, and with a namespace and a name that are not empty, the deletion of a
  -- deployment takes each pod of the namespace that is owned by a cached ReplicaSet of the namespace
  -- which the deployment owns.
  pub cascade_deployment_delete-pod :
      (name uid j k : String) (rs o : CachedObject) (s : Shared)
      → IsCache s.cache
      → (n == "") ≡ false
      → (name == "") ≡ false
      → get j s.cache ≡ some rs
      → (set_here sprint n rs && is_owned_by rs uid name "Deployment") ≡ true
      → get k s.cache ≡ some o
      → (pod_here sprint n o && is_owned_by o rs.uid rs.name "ReplicaSet") ≡ true
      → get k (cascade_deployment_delete sprint n name uid s).cache ≡ none
  unfolding cascade_deployment_delete
  cascade_deployment_delete-pod name uid j k rs o s h e f a b g m =
      let sets = list_objects sprint "apps/v1/replicasets" n "" s.cache in
      rw (e, f)
        (pods_gone k o rs (owned uid name "Deployment" sets) s e h
          (subst (λ os. In rs os) (sym (owned-pick uid name "Deployment" sets))
            (In-listed sprint "apps/v1/replicasets" n "" (λ p. is_owned_by p uid name "Deployment")
              j rs s.cache a
              (ap (λ t. t && is_owned_by rs uid name "Deployment") (selects-sets sprint n rs e)
                ∙ b)))
          m g)
