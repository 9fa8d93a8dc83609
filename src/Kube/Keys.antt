-- ===== src/Kube/Keys.antt =====
-- The keys of the cache tell its objects apart.
use Prim.Native.String.{◌++◌ as str_append}
use l8collector.Prelude.{
  ◌&&◌, Bool-cases, inl, inr, arith, ==-self, ℕ, ◌≡◌, refl, sym, ap, ◌∙◌, Bool, none, some, String,
  ◌==◌, if◌then◌else◌, nat_eq, string_eq,
}
use l8collector.Text.{Lacks}
use l8collector.Text.Splitting.{split_once, two_append}
use l8collector.Prelude.Dict.{get, get-put, get-delete}
use l8collector.Kube.Cache.{
  cache_key, key, CachedObject, Cache, get_object, upsert, stamp, delete_object,
}

abbrev after : String → String
after String.[] = ""
after (String.◌∷◌ c s) = s

colons : (s : String) → str_append "::" s ≡ String.◌∷◌ ":" (String.◌∷◌ ":" s)
colons s = two_append ":" ":" s

abbrev tail : String → String → String
tail n m = String.◌∷◌ ":" (str_append n (String.◌∷◌ ":" (String.◌∷◌ ":" m)))

joined : (g n m : String) → cache_key g n m ≡ str_append g (String.◌∷◌ ":" (tail n m))
unfolding cache_key
joined g n m = rw (colons, colons) refl

-- Two keys are equal only for the same resource type, namespace and name, where no colon is in the first two.
pub cache_key-injective :
    (g n m h o p : String)
    → Lacks 58 g
    → Lacks 58 n
    → Lacks 58 h
    → Lacks 58 o
    → cache_key g n m ≡ cache_key h o p
    → (g ≡ h) × (n ≡ o) × (m ≡ p)
cache_key-injective g n m h o p lg ln lh lo e =
    let (a, b) =
      split_once 58 ":" g h (tail n m) (tail o p) refl lg lh
        (sym (joined g n m) ∙ e ∙ joined h o p) in
    let (c, d) =
      split_once 58 ":" n o (String.◌∷◌ ":" m) (String.◌∷◌ ":" p) refl ln lo (ap after b) in
    (a, c, ap after d)

-- the comparison of the three parts
abbrev pub named : String → String → String → String → String → String → Bool
named g n m h o p = g == h && n == o && m == p

-- The comparison of two keys is the comparison of their parts.
pub key_beq :
    (g n m h o p : String)
    → Lacks 58 g
    → Lacks 58 n
    → Lacks 58 h
    → Lacks 58 o
    → (cache_key g n m == cache_key h o p) ≡ named g n m h o p
key_beq g n m h o p lg ln lh lo = elim (Bool-cases (cache_key g n m == cache_key h o p)) [
  | inl s ↦
      let (a, b, c) =
        cache_key-injective g n m h o p lg ln lh lo
          ((string_eq.same_iff (cache_key g n m) (cache_key h o p)).0 s) in
      rw (s, a, b, c, ==-self h, ==-self o, ==-self p) refl
  | inr d ↦ elim (Bool-cases (named g n m h o p)) [
    | inr f ↦ d ∙ sym f
    | inl t ↦ ground (
      arith,
      d,
      t,
      string_eq.same_iff g h,
      string_eq.same_iff n o,
      string_eq.same_iff m p,
      ==-self (cache_key g n m),
    )
  ]
]

-- A read after a write finds the object written, with its time set, under exactly its own type,
-- namespace and name, and any other as before, where no type and no namespace has a colon.
pub get-upsert :
    (g n m : String) (now : ℕ) (o : CachedObject) (c : Cache)
    → Lacks 58 g
    → Lacks 58 n
    → Lacks 58 o.gvr
    → Lacks 58 o.namespace
    → get_object g n m (upsert now (some o) c)
      ≡ (if named o.gvr o.namespace o.name g n m then some (stamp now o) else get_object g n m c)
unfolding get_object upsert
get-upsert g n m now o c lg ln lh lo = rw (get-put (key o) (cache_key g n m) (stamp now o) c) (
    ap (λ b. if b then some (stamp now o) else get (cache_key g n m) c)
      (key_beq o.gvr o.namespace o.name g n m lh lo lg ln))

pub get-delete_object :
    (g n m h o p : String) (c : Cache)
    → Lacks 58 g
    → Lacks 58 n
    → Lacks 58 h
    → Lacks 58 o
    → get_object g n m (delete_object h o p c)
      ≡ (if named h o p g n m then none else get_object g n m c)
unfolding get_object delete_object
get-delete_object g n m h o p c lg ln lh lo =
    rw (get-delete (cache_key h o p) (cache_key g n m) c)
      (ap (λ b. if b then none else get (cache_key g n m) c) (key_beq h o p g n m lh lo lg ln))
