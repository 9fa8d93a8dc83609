-- ===== src/Kube/Removal.antt =====
-- What the deletion of a namespace and the reaper take out of the cache.
use l8collector.Prelude.{
  ℕ, ◌≡◌, refl, ap, ◌∙◌, Bool, true, false, not, ◌&&◌, ◌||◌, Option, none, some, List, [], ◌∷◌,
  ◌++◌, String, ◌==◌, if◌then◌else◌, string_eq, Bool-cases, inl, inr, map,
}
use l8collector.Prelude.Dict.{get}
use l8collector.Kube.Value.{Value}
use l8collector.Kube.Cache.{CachedObject, list_objects, selects}
use l8collector.Kube.Cascade.{
  Shared, drop_all, drop_object, delete_members, cascade_namespace_delete, reap, reap_stale_entries,
  is_reapable,
}
use l8collector.Kube.Store.{IsCache}
use l8collector.Kube.Sweep.{pick, keep, notice, swept, drop_all-notices}

abbrev no_namespace : CachedObject → Bool
no_namespace o = not (o.gvr == "v1/namespaces")

delete_members-drop_all :
    (os : List CachedObject) (s : Shared) → delete_members os s ≡ drop_all (pick no_namespace os) s
unfolding delete_members drop_all
delete_members-drop_all [] s = refl
delete_members-drop_all (o ∷ os) s = elim (Bool-cases (o.gvr == "v1/namespaces")) [
  | inl e ↦ rw e (delete_members-drop_all os s)
  | inr d ↦ rw d (delete_members-drop_all os (drop_object o.gvr o.namespace o.name s))
]

reap-drop_all :
    (gone : CachedObject → Bool) (now : ℕ) (os : List CachedObject) (s : Shared)
    → reap gone now os s ≡ drop_all (pick (λ o. is_reapable now o && gone o) os) s
unfolding reap drop_all
reap-drop_all gone now [] s = refl
reap-drop_all gone now (o ∷ os) s = elim (Bool-cases (is_reapable now o && gone o)) [
  | inl e ↦ rw e (reap-drop_all gone now os (drop_object o.gvr o.namespace o.name s))
  | inr d ↦ rw d (reap-drop_all gone now os s)
]

-- an object outside the namespace, or a namespace itself
abbrev pub stays : String → CachedObject → Bool
stays namespace o = not (o.namespace == namespace) || o.gvr == "v1/namespaces"

keep-ap :
    (p q : CachedObject → Bool)
    → ((o : CachedObject) → p o ≡ q o)
    → (r : Option CachedObject) → keep p r ≡ keep q r
keep-ap p q e none = refl
keep-ap p q e (some o) = rw (e o) refl

module _ (sprint : Value → String) where
  chosen-stays :
      (n : String) (o : CachedObject)
      → (n == "") ≡ false
      → not (selects sprint "" n "" o && no_namespace o) ≡ stays n o
  unfolding selects
  chosen-stays n o e = rw e (de_morgan (o.namespace == n) (o.gvr == "v1/namespaces"))
    where
      de_morgan : (a b : Bool) → not (a && true && not b) ≡ not a || b
      de_morgan true true = refl
      de_morgan true false = refl
      de_morgan false b = refl

  -- On a cache with IsCache, the deletion of a namespace with a name that is not empty takes the object
  -- of a key if and only if it lies in the namespace and is no namespace itself.
  pub cascade_namespace_delete-get :
      (k n : String) (s : Shared)
      → IsCache s.cache
      → (n == "") ≡ false
      → get k (cascade_namespace_delete sprint n s).cache ≡ keep (stays n) (get k s.cache)
  unfolding cascade_namespace_delete
  cascade_namespace_delete-get k n s h e =
      rw (e, delete_members-drop_all (list_objects sprint "" n "" s.cache) s)
        (swept sprint "" n "" no_namespace k s h
          ∙ keep-ap (λ o. not (selects sprint "" n "" o && no_namespace o)) (stays n)
              (λ o. chosen-stays n o e) (get k s.cache))

  chosen-reaped : (b : Bool) (o : CachedObject) → not (selects sprint "" "" "" o && b) ≡ not b
  unfolding selects
  chosen-reaped b o = refl

  reap_stale_entries-drop_all :
      (gone : CachedObject → Bool) (now : ℕ) (s : Shared)
      → s.connected ≡ true
      → reap_stale_entries sprint gone now s
        ≡ drop_all
            (pick (λ o. is_reapable now o && gone o) (list_objects sprint "" "" "" s.cache))
            s
  unfolding reap_stale_entries
  reap_stale_entries-drop_all gone now s e =
      let entries = list_objects sprint "" "" "" s.cache in
      ap (λ b. if b then reap gone now entries s else s) e ∙ reap-drop_all gone now entries s

  -- On a cache with IsCache and with a client, a cycle of the reaper takes out exactly the objects that were observed half a minute ago or
  -- earlier, have a name and a type that can be read, and are not found on the API server.
  pub reap_stale_entries-get :
      (gone : CachedObject → Bool) (now : ℕ) (k : String) (s : Shared)
      → IsCache s.cache
      → s.connected ≡ true
      → get k (reap_stale_entries sprint gone now s).cache
        ≡ keep (λ o. not (is_reapable now o && gone o)) (get k s.cache)
  reap_stale_entries-get gone now k s h e =
      ap (λ t. get k t.cache) (reap_stale_entries-drop_all gone now s e)
      ∙ swept sprint "" "" "" (λ o. is_reapable now o && gone o) k s h
      ∙ keep-ap _ _ (λ o. chosen-reaped (is_reapable now o && gone o) o) (get k s.cache)

  -- Each removal of a cycle is told to the callback, once.
  pub reap_stale_entries-notices :
      (gone : CachedObject → Bool) (now : ℕ) (s : Shared)
      → s.connected ≡ true
      → s.on_delete ≡ true
      → (reap_stale_entries sprint gone now s).notices
        ≡ s.notices
          ++ map notice
              (pick (λ o. is_reapable now o && gone o) (list_objects sprint "" "" "" s.cache))
  reap_stale_entries-notices gone now s e c =
      ap (λ t. t.notices) (reap_stale_entries-drop_all gone now s e) ∙ drop_all-notices _ s c
