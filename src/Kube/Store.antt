-- ===== src/Kube/Store.antt =====
-- The cache holds one object at a key, and each object at its own key.
use l8collector.Prelude.{
  ℕ, ◌≡◌, refl, Option, none, some, [], ◌∷◌, String, ◌==◌, nat_eq, string_eq, arith, Bool-cases,
  inl, inr,
}
use l8collector.Prelude.Dict.{get, put, delete, get-put, get-delete}
use l8collector.Kube.Cache.{CachedObject, Cache, key, cache_key, upsert, stamp, delete_object}

unfoldable pub IsCache : Cache → Type 0
unfolding get
IsCache [] = Unit
IsCache ((k, o) ∷ c) = (k ≡ key o) × (get k c ≡ none) × IsCache c

put-IsCache :
    (k : String) (o : CachedObject) (c : Cache) → k ≡ key o → IsCache c → IsCache (put k o c)
unfolding IsCache put
put-IsCache k o [] e h = (e, refl, tt)
put-IsCache k o ((j, p) ∷ c) e h = elim (Bool-cases (j == k)) [
  | inl s ↦ rw s (e, ground (arith, string_eq.same_iff j k, h.1), h.2)
  | inr d ↦ rw d (
    h.0,
    ground (arith, get-put k j o c, string_eq.same_iff j k, string_eq.same_iff k j, h.1),
    put-IsCache k o c e h.2,
  )
]

delete-IsCache : (k : String) (c : Cache) → IsCache c → IsCache (delete k c)
unfolding IsCache delete
delete-IsCache k [] h = tt
delete-IsCache k ((j, p) ∷ c) h = elim (Bool-cases (j == k)) [
  | inl s ↦ rw s (delete-IsCache k c h.2)
  | inr d ↦ rw d (h.0, ground (arith, get-delete k j c, h.1), delete-IsCache k c h.2)
]

-- From a cache with IsCache, Upsert makes one: each object at its own key, and one object at a key.
pub upsert-IsCache :
    (now : ℕ) (o : Option CachedObject) (c : Cache) → IsCache c → IsCache (upsert now o c)
unfolding upsert
upsert-IsCache now none c h = h
upsert-IsCache now (some o) c h = put-IsCache (key o) (stamp now o) c (own o) h
  where
    own : (o : CachedObject) → key o ≡ key (stamp now o)
    own o = elim (Bool-cases (o.observed_at == 0)) [ inl s ↦ rw s refl | inr d ↦ rw d refl ]

pub delete_object-IsCache :
    (g n m : String) (c : Cache) → IsCache c → IsCache (delete_object g n m c)
unfolding delete_object
delete_object-IsCache g n m c h = delete-IsCache (cache_key g n m) c h
