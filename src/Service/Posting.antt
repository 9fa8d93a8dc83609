-- ===== src/Service/Posting.antt =====
-- What Post of go/collector/service/CollectorService.go makes of the map of hosts when a device is up.
use l8collector.Prelude.{
  ℕ, suc, ◌+◌, ◌≡◌, refl, ◌∙◌, sym, subst, ap, Bool, true, false, Option, none, some, [], ◌∷◌,
  String, ok, bind_ok, arith, Option-cases, ◌⊎◌, inl, inr, In, ◌==◌, if◌then◌else◌, string_eq,
}
use mathlib.Core.Option.{some-injective}
use l8collector.Prelude.Dict.{Dict, get, put, get-put}
use l8collector.Types.{Host, Target}
use l8collector.Queue.{Registry}
use l8collector.Queue.Insertion.Polls.{IsRegistry}
use l8collector.Host.State.{Env}
use l8collector.Service.{
  Entry, CollectorService, up, host_collector_key, host_collector, started, start_host,
  start_polling, post,
}
use l8collector.Service.Ready.{IsHost, new_host_collector-IsHost, start-IsHost}

-- Every host of the map was not stopped.
unfoldable pub IsService : Bool → CollectorService → Type 0
IsService smooth s =
    (k : String) (e : Entry) → get k s.host_collectors ≡ some e → IsHost smooth e.host

-- The hosts of the device are at their own identifiers.
unfoldable pub IsDevice : Target → Dict String Host → Type 0
IsDevice device hosts =
    (h : String × Host) → In h hosts → (x : Host) × (get h.1.host_id device.hosts ≡ some x)

loops_in : Option Entry → ℕ
loops_in none = 0
loops_in (some e) = e.loops

-- the number of goroutines that poll the host of a key
pub loops_of : String → CollectorService → ℕ
loops_of k s = loops_in (get k s.host_collectors)

-- how many of the hosts have the key
pub times : String → Target → Dict String Host → ℕ
times k device [] = 0
times k device (h ∷ hs) =
    (if host_collector_key device.target_id h.1.host_id == k then 1 else 0) + times k device hs

host_collector-loops :
    (host_id : String) (device : Target) (s : CollectorService)
    → (host_collector host_id device s).loops
      ≡ loops_of (host_collector_key device.target_id host_id) s
unfolding host_collector loops_of loops_in
host_collector-loops host_id device s =
    elim (Option-cases (get (host_collector_key device.target_id host_id) s.host_collectors)) [
      | inl e ↦ rw (e, host_collector, loops_in) refl
      | inr (x, e) ↦ rw (e, host_collector, loops_in) refl
    ]

host_collector-IsHost :
    (smooth : Bool) (host_id : String) (device : Target) (s : CollectorService) (x : Host)
    → get host_id device.hosts ≡ some x
    → IsService smooth s
    → IsHost smooth (host_collector host_id device s).host
unfolding host_collector IsService
host_collector-IsHost smooth host_id device s x e i =
    elim (Option-cases (get (host_collector_key device.target_id host_id) s.host_collectors)) [
      | inl n ↦ rw (n, host_collector) (new_host_collector-IsHost smooth device host_id x e)
      | inr (y, n) ↦ rw (n, host_collector) (i (host_collector_key device.target_id host_id) y n)
    ]

with_entry : String → Entry → CollectorService → CollectorService
with_entry key e s = record s { host_collectors = put key e s.host_collectors }

written_or_before :
    (b : Bool) (e x : Entry) (o : Option Entry)
    → (if b then some e else o) ≡ some x
    → (e ≡ x) ⊎ (o ≡ some x)
written_or_before true e x o h = inl (some-injective e x h)
written_or_before false e x o h = inr h

with_entry-IsService :
    (smooth : Bool) (key : String) (e : Entry) (s : CollectorService)
    → IsService smooth s
    → IsHost smooth e.host
    → IsService smooth (with_entry key e s)
unfolding IsService with_entry
with_entry-IsService smooth key e s v h k x g =
    elim (written_or_before (key == k) e x (get k s.host_collectors)
      (sym (get-put key k e s.host_collectors) ∙ g)) [
        | inl y ↦ subst (λ z. IsHost smooth z.host) y h
        | inr n ↦ v k x n
      ]

with_entry-loops :
    (key : String) (e : Entry) (s : CollectorService) (k : String)
    → e.loops ≡ suc (loops_of key s)
    → loops_of k (with_entry key e s) ≡ (if key == k then 1 else 0) + loops_of k s
unfolding loops_of loops_in with_entry
with_entry-loops key e s k l =
    ground (arith, get-put key k e s.host_collectors, l, string_eq.same_iff key k)

module _ (smooth : Bool) (r : Registry) (i : IsRegistry smooth r) (device : Target) where
  start_host-returns :
      (host_id : String) (s : CollectorService) (x : Host)
      → get host_id device.hosts ≡ some x
      → IsService smooth s
      → (s' : CollectorService) × (start_host r device host_id s ≡ ok s')
        × IsService smooth s'
        × ((k : String)
            → loops_of k s'
              ≡ (if host_collector_key device.target_id host_id == k then 1 else 0) + loops_of k s)
  unfolding start_host with_entry
  start_host-returns host_id s x g v =
      let key = host_collector_key device.target_id host_id in
      let e = host_collector host_id device s in
      let (hc', f, v', boots) =
        start-IsHost smooth r i e.host (host_collector-IsHost smooth host_id device s x g v) in
      let e' : Entry = record { host = hc'; loops = suc e.loops } in
      (
        with_entry key e' s,
        bind_ok _ (ap (started e) f),
        with_entry-IsService smooth key e' s v v',
        λ k. with_entry-loops key e' s k (ap suc (host_collector-loops host_id device s)),
      )

  start_polling-returns :
      (hs : Dict String Host) (s : CollectorService)
      → IsDevice device hs
      → IsService smooth s
      → (s' : CollectorService) × (start_polling r device hs s ≡ ok s')
        × IsService smooth s'
        × ((k : String) → loops_of k s' ≡ times k device hs + loops_of k s)
  unfolding start_polling times IsDevice
  start_polling-returns [] s d v = (s, refl, v, λ k. omega arith)
  start_polling-returns (h ∷ hs) s d v =
      let (x, g) = d h (inl refl) in
      let (s1, e1, v1, l1) = start_host-returns h.1.host_id s x g v in
      let (s2, e2, v2, l2) = start_polling-returns hs s1 (λ h' i'. d h' (inr i')) v1 in
      (s2, bind_ok _ e1 ∙ e2, v2, λ k. omega (arith, l1 k, l2 k))

  -- Post of a device that is up, whose hosts are at their identifiers, returns; it keeps the hosts of
  -- the map ready, and each host of the device gets one goroutine more, also where it has one.
  pub post-up :
      (env : Env) (s : CollectorService)
      → IsDevice device device.hosts
      → IsService smooth s
      → (s' : CollectorService) × (post r env up device s ≡ ok s')
        × IsService smooth s'
        × ((k : String) → loops_of k s' ≡ times k device device.hosts + loops_of k s)
  unfolding post
  post-up env s d v = start_polling-returns device.hosts s d v
