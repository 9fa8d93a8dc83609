-- ===== src/Kube/Starting.antt =====
-- An informer is started at most once.
use l8collector.Prelude.{
  ℕ, ◌≡◌, sym, ap, ◌∙◌, inl, inr, ◌==◌, if◌then◌else◌, string_eq, Bool, true, false, not, ◌&&◌,
  ◌||◌, Option, none, some, String, ok, ◌≢◌, Option-cases, subst, Bool-cases, arith, ==-self,
  ok-injective,
}
use l8collector.Prelude.Dict.{Dict, put, get-put}
use l8collector.Kube.Gvr.{Gvr}
use l8collector.Kube.Cache.{cache_key}
use l8collector.Kube.Watching.{
  Watch, Started, flag, is_warmed, ensure_watching, start_watching, once_for_key, run_once,
  mark_warmed,
}

flag-put : (key : String) (m : Dict String Bool) → flag key (some (put key true m)) ≡ true
flag-put key m = ground (arith, get-put key key true m, ==-self key)

once_for_key-seen :
    (key : String) (w : Watch) → flag key w.warm_once ≡ true → once_for_key key w ≡ w
unfolding once_for_key
once_for_key-seen key w e = ground (arith, e)

once_for_key-made : (key : String) (w : Watch) → (once_for_key key w).warm_once ≢ none
unfolding once_for_key
once_for_key-made key w e = ground (arith, e)

-- A request for what has been requested once asks for nothing.
settled :
    (now : ℕ) (start : Gvr → String → Started) (gvr namespace : String) (w : Watch)
    → flag (cache_key gvr namespace "*") w.warm_once ≡ true
    → ensure_watching now start gvr namespace w ≡ ok (none, w)
unfolding ensure_watching
settled now start gvr namespace w e =
    rw (once_for_key-seen (cache_key gvr namespace "*") w e, e) ground arith

started :
    (now : ℕ) (start : Gvr → String → Started) (gvr namespace key : String) (w v : Watch)
    (m : Dict String Bool) (r : Option String)
    → w.warm_once ≡ some m
    → start_watching now start gvr namespace key w ≡ ok (r, v)
    → flag key v.warm_once ≡ true
unfolding start_watching run_once mark_warmed
started now start gvr namespace key w v m r e h = ground (arith, e, h, flag-put key m)

-- there is nothing to watch, or it is watched
covered : String → String → Watch → Bool
covered gvr namespace w =
    (not w.has_client || gvr == "")
    || (not (namespace == "") && is_warmed (cache_key gvr "" "*") w)
    || is_warmed (cache_key gvr namespace "*") w

covered-nothing :
    (now : ℕ) (start : Gvr → String → Started) (gvr namespace : String) (w : Watch)
    → covered gvr namespace w ≡ true
    → ensure_watching now start gvr namespace w ≡ ok (none, w)
unfolding ensure_watching covered
covered-nothing now start gvr namespace w e = ground (arith, e)

uncovered :
    (now : ℕ) (start : Gvr → String → Started) (gvr namespace : String) (w : Watch)
    → covered gvr namespace w ≡ false
    → ensure_watching now start gvr namespace w ≡ (
        let key = cache_key gvr namespace "*" in
        let v = once_for_key key w in
        if flag key v.warm_once then ok (none, v) else start_watching now start gvr namespace key v)
unfolding ensure_watching covered
uncovered now start gvr namespace w e = ground (arith, e)

requested :
    (now : ℕ) (start : Gvr → String → Started) (gvr namespace : String) (w v : Watch)
    (r : Option String)
    → covered gvr namespace w ≡ false
    → ensure_watching now start gvr namespace w ≡ ok (r, v)
    → flag (cache_key gvr namespace "*") v.warm_once ≡ true
requested now start gvr namespace w v r c h =
    let key = cache_key gvr namespace "*" in
    let u = once_for_key key w in
    let g = sym (uncovered now start gvr namespace w c) ∙ h in
    elim (Bool-cases (flag key u.warm_once)) [
      | inl s ↦
          subst (λ (t : Watch). flag key t.warm_once ≡ true)
            (ap (λ p. p.1) (ok-injective (rw s at g))) s
      | inr d ↦ elim (Option-cases u.warm_once) [
        | inl n ↦ absurd (once_for_key-made key w n)
        | inr (m, e) ↦ started now start gvr namespace key u v m r e (rw d at g)
      ]
    ]

-- After a call of ensureWatching that returned, with an error or without, the same call returns no
-- error and changes nothing, whatever the informer library would now answer.
pub ensure_watching-again :
    (now : ℕ) (start : Gvr → String → Started) (gvr namespace : String) (w v : Watch)
    (r : Option String) (later : ℕ) (restart : Gvr → String → Started)
    → ensure_watching now start gvr namespace w ≡ ok (r, v)
    → ensure_watching later restart gvr namespace v ≡ ok (none, v)
ensure_watching-again now start gvr namespace w v r later restart h =
    elim (Bool-cases (covered gvr namespace w)) [
      | inl c ↦
          subst (λ t. ensure_watching later restart gvr namespace t ≡ ok (none, t))
            (ap (λ p. p.1) (ok-injective (sym (covered-nothing now start gvr namespace w c) ∙ h)))
            (covered-nothing later restart gvr namespace w c)
      | inr d ↦ settled later restart gvr namespace v (requested now start gvr namespace w v r d h)
    ]

start_watching-failed :
    (now : ℕ) (start : Gvr → String → Started) (gvr namespace key : String) (w v : Watch)
    (e : String)
    → start_watching now start gvr namespace key w ≡ ok (some e, v)
    → is_warmed key v ≡ is_warmed key w
unfolding start_watching run_once mark_warmed
start_watching-failed now start gvr namespace key w v e h = ground (arith, h)

once_for_key-warmed :
    (key : String) (w : Watch) → is_warmed key (once_for_key key w) ≡ is_warmed key w
unfolding once_for_key
once_for_key-warmed key w = ground arith

not_warmed :
    (gvr namespace : String) (w : Watch)
    → covered gvr namespace w ≡ false
    → is_warmed (cache_key gvr namespace "*") w ≡ false
unfolding covered
not_warmed gvr namespace w e = ground (arith, e)

-- A call of ensureWatching that returns an error leaves the resource unwatched, and after it the same
-- call returns no error and changes nothing, although the informer library would now start.
pub ensure_watching-failed :
    (now : ℕ) (start : Gvr → String → Started) (gvr namespace : String) (w v : Watch) (e : String)
    (later : ℕ) (restart : Gvr → String → Started)
    → ensure_watching now start gvr namespace w ≡ ok (some e, v)
    → (is_warmed (cache_key gvr namespace "*") v ≡ false)
      × (ensure_watching later restart gvr namespace v ≡ ok (none, v))
ensure_watching-failed now start gvr namespace w v e later restart h =
    let key = cache_key gvr namespace "*" in
    let u = once_for_key key w in
    (
      elim (Bool-cases (covered gvr namespace w)) [
        | inl c ↦ cc (covered-nothing now start gvr namespace w c, h)
        | inr d ↦ elim (Bool-cases (flag key u.warm_once)) [
          | inl s ↦ cc (rw s at (sym (uncovered now start gvr namespace w d) ∙ h))
          | inr f ↦
              start_watching-failed now start gvr namespace key u v e
                (rw f at (sym (uncovered now start gvr namespace w d) ∙ h))
              ∙ once_for_key-warmed key w
              ∙ not_warmed gvr namespace w d
        ]
      ],
      ensure_watching-again now start gvr namespace w v (some e) later restart h,
    )
