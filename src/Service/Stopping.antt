-- ===== src/Service/Stopping.antt =====
-- What Post of go/collector/service/CollectorService.go makes of the map of hosts when a device is down.
use l8collector.Prelude.{
  ◌≡◌, refl, ◌∙◌, sym, ap, Bool, true, false, Option, none, some, [], ◌∷◌, String, ok, bind_ok,
  arith, Option-cases, inl, inr, In, ◌==◌, if◌then◌else◌, string_eq,
}
use l8collector.Prelude.Dict.{Dict, get, delete, get-delete}
use l8collector.Types.{Host, Target}
use l8collector.Queue.{Registry}
use l8collector.Host.State.{Env}
use l8collector.Service.{
  Entry, CollectorService, down, host_collector_key, stop_host, stop_polling, post,
}
use l8collector.Service.Ready.{stop-IsHost}
use l8collector.Service.Posting.{IsService}

pub covers : String → Target → Dict String Host → Bool
covers k device [] = false
covers k device (h ∷ hs) =
    if host_collector_key device.target_id h.1.host_id == k then true else covers k device hs

pub covers-In :
    (device : Target) (hs : Dict String Host) (h : String × Host)
    → In h hs
    → covers (host_collector_key device.target_id h.1.host_id) device hs ≡ true
unfolding covers
covers-In device [] h i = absurd i
covers-In device (g ∷ hs) h (inl e) = ground (
  arith,
  ap (λ z. host_collector_key device.target_id z.1.host_id) e,
  string_eq.same_iff (host_collector_key device.target_id g.1.host_id)
      (host_collector_key device.target_id h.1.host_id),
)
covers-In device (g ∷ hs) h (inr i) = ground (arith, covers-In device hs h i)

module _ (smooth : Bool) (env : Env) (device : Target) where
  stop_host-returns :
      (key : String) (s : CollectorService)
      → IsService smooth s
      → (s' : CollectorService) × (stop_host env key s ≡ ok s')
        × IsService smooth s'
        × ((k : String)
            → get k s'.host_collectors ≡ (if key == k then none else get k s.host_collectors))
  unfolding stop_host IsService
  stop_host-returns key s v = elim (Option-cases (get key s.host_collectors)) [
    | inl n ↦ (s, rw (n, stop_host) refl, v, λ k. nothing key k s n)
    | inr (e, f) ↦
        let (hc', g) = stop-IsHost smooth env e.host (v key e f) in
        (
          record s { host_collectors = delete key s.host_collectors },
          rw (f, stop_host) (bind_ok _ g),
          λ k x h. v k x (other_of (key == k) x _ (sym (get-delete key k s.host_collectors) ∙ h)),
          λ k. get-delete key k s.host_collectors,
        )
  ]
    where
      nothing :
          (key k : String) (s : CollectorService)
          → get key s.host_collectors ≡ none
          → get k s.host_collectors ≡ (if key == k then none else get k s.host_collectors)
      nothing key k s n = ground (arith, n, string_eq.same_iff key k)

      other_of :
          (b : Bool) (x : Entry) (o : Option Entry) → (if b then none else o) ≡ some x → o ≡ some x
      other_of true x o h = absurd (cc)
      other_of false x o h = h

  stop_polling-returns :
      (hs : Dict String Host) (s : CollectorService)
      → IsService smooth s
      → (s' : CollectorService) × (stop_polling env device hs s ≡ ok s')
        × IsService smooth s'
        × ((k : String)
            → get k s'.host_collectors
              ≡ (if covers k device hs then none else get k s.host_collectors))
  unfolding stop_polling covers
  stop_polling-returns [] s v = (s, refl, v, λ k. refl)
  stop_polling-returns (h ∷ hs) s v =
      let (s1, e1, v1, g1) =
        stop_host-returns (host_collector_key device.target_id h.1.host_id) s v in
      let (s2, e2, v2, g2) = stop_polling-returns hs s1 v1 in
      (s2, bind_ok _ e1 ∙ e2, v2, λ k. ground (arith, g1 k, g2 k))

  -- On a service whose hosts are ready Post of a device that is down returns; it takes from the map exactly the entries whose key, the target
  -- and the host identifier run together, is the key of a host of the device, and keeps the others ready.
  -- The host of another device whose two identifiers run together to such a key is taken too.
  pub post-down :
      (r : Registry) (s : CollectorService)
      → IsService smooth s
      → (s' : CollectorService) × (post r env down device s ≡ ok s')
        × IsService smooth s'
        × ((k : String)
            → get k s'.host_collectors
              ≡ (if covers k device device.hosts then none else get k s.host_collectors))
  unfolding post
  post-down r s v = stop_polling-returns device.hosts s v
