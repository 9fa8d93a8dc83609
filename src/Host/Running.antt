-- ===== src/Host/Running.antt =====
-- The collection loop from the start of a host on: its rounds, and what happens between them.
use l8collector.Prelude.{
  ◌≡◌, refl, sym, ap, ◌∙◌, ◌⊎◌, inl, inr, subst, Bool, true, false, not, ◌||◌, List, [], ◌∷◌, All,
  Outcome, ok, ◌>>=◌, bind_ok, if◌then◌else◌, if_yes, if_no, string_eq, Bool-cases, arith,
}
use l8collector.Queue.{JobsQueue, expedite}
use l8collector.Host.State.{HostCollector, Env}
use l8collector.Host.Life.{stop}
use l8collector.Host.Loop.{Next, ended, sleeps, goes_on, woken, collect_round}
use l8collector.Host.Working.{IsWorking}
use l8collector.Host.Halting.{IsStopped, stop-IsStopped, woken-Works}
use l8collector.Host.Executing.{IsEnv}
use l8collector.Host.Collecting.{collect_round-Leaves}

-- What happens to the loop between two rounds: nothing but that time passes, an admission event, or that
-- the service stops the host.
pub data Pause : Type 0 where
  passes event halted : Pause

-- An event wakes a loop that sleeps and that subscribed to events; an event that comes during a round waits
-- in the channel until the loop sleeps. The service stops a host once.
unfoldable pub pause : Env → Pause → Next → HostCollector → Outcome HostCollector
unfolding woken stop
pause env passes n hc = ok hc
pause env event ended hc = ok hc
pause env event goes_on hc = ok hc
pause env event (sleeps t) hc = if hc.admission then woken hc else ok hc
pause env halted n hc = if hc.running then stop env hc else ok hc

-- The rounds of the loop, each with its surroundings and with what happens after it.
unfoldable pub collect_rounds : List (Env × Pause) → HostCollector → Outcome HostCollector
unfolding collect_round pause
collect_rounds [] hc = ok hc
collect_rounds ((env, p) ∷ rounds) hc =
    collect_round (λ h. stop env h) env hc >>= λ ((n, hc') : Next × HostCollector).
    pause env p n hc' >>= λ hc''. collect_rounds rounds hc''

-- whether the host is stopped, while a collector executes its job or after the round
abbrev is_halted : Pause → Bool
is_halted halted = true
is_halted _ = false

abbrev stops_in : Env × Pause → Bool
stops_in (env, p) = env.stops || is_halted p

abbrev pub any_stop : List (Env × Pause) → Bool
any_stop [] = false
any_stop (r ∷ rounds) = stops_in r || any_stop rounds

-- the surroundings of a round, with or without smoothing as the others
abbrev pub IsRound : Bool → Env × Pause → Type 0
IsRound smooth r = IsEnv r.0 × (r.0.world.smooth ≡ smooth)

-- The host works, or it was stopped.
abbrev pub IsOver : Bool → Bool → HostCollector → Type 0
IsOver smooth stops hc = ((q : JobsQueue) × IsWorking smooth hc q) ⊎ (IsStopped hc × (stops ≡ true))

or_right : (a b : Bool) → b ≡ true → (a || b) ≡ true
or_right a b e = ground arith

module _ (smooth : Bool) where
  IsOver-more :
      (a b : Bool) (hc : HostCollector)
      → (a ≡ true → b ≡ true)
      → IsOver smooth a hc
      → IsOver smooth b hc
  IsOver-more a b hc f (inl w) = inl w
  IsOver-more a b hc f (inr (s, e)) = inr (s, f e)

  -- a call that returns, and what it leaves
  abbrev Returns : Bool → Outcome HostCollector → Type 0
  Returns stops o = (hc : HostCollector) × (o ≡ ok hc) × IsOver smooth stops hc

  pause-working :
      (env : Env) (p : Pause) (n : Next) (hc : HostCollector) (q : JobsQueue)
      → IsWorking smooth hc q
      → Returns (is_halted p) (pause env p n hc)
  unfolding pause
  pause-working env passes n hc q w = (hc, refl, inl (q, w))
  pause-working env event ended hc q w = (hc, refl, inl (q, w))
  pause-working env event goes_on hc q w = (hc, refl, inl (q, w))
  pause-working env event (sleeps t) hc q w = elim (Bool-cases hc.admission) [
    | inl y ↦ let (hc', q', e, v) = woken-Works smooth hc q w in (hc', if_yes _ y ∙ e, inl (q', v))
    | inr d ↦ (hc, if_no _ d, inl (q, w))
  ]
  pause-working env halted n hc q w = elim (Bool-cases hc.running) [
    | inl y ↦
        let (hc', e, s) = stop-IsStopped smooth env hc q w.live w.queue in
        (hc', if_yes _ y ∙ e, inr (s, refl))
    | inr d ↦ (hc, if_no _ d, inl (q, w))
  ]

woken-stopped : (hc : HostCollector) → IsStopped hc → woken hc ≡ ok hc
unfolding woken expedite
woken-stopped hc s =
    bind_ok (λ h. ok (record hc { heap = h })) (ap (λ o. expedite o hc.heap) s.queue)

-- A host that was stopped is left alone, by what happens between rounds and by the rounds.
pause-stopped :
    (env : Env) (p : Pause) (n : Next) (hc : HostCollector)
    → IsStopped hc
    → pause env p n hc ≡ ok hc
unfolding pause
pause-stopped env passes n hc s = refl
pause-stopped env event ended hc s = refl
pause-stopped env event goes_on hc s = refl
pause-stopped env event (sleeps t) hc s = elim (Bool-cases hc.admission) [
  | inl y ↦ if_yes _ y ∙ woken-stopped hc s
  | inr d ↦ if_no _ d
]
pause-stopped env halted n hc s = if_no _ s.running

collect_rounds-stopped :
    (rounds : List (Env × Pause)) (hc : HostCollector)
    → IsStopped hc
    → collect_rounds rounds hc ≡ ok hc
unfolding collect_rounds collect_round
collect_rounds-stopped [] hc s = refl
collect_rounds-stopped ((env, p) ∷ rounds) hc s =
    bind_ok _ (if_yes _ (ap not s.running))
    ∙ bind_ok _ (pause-stopped env p ended hc s)
    ∙ collect_rounds-stopped rounds hc s

module _ (smooth : Bool) where
  round-Leaves :
      (env : Env) (p : Pause) (hc : HostCollector) (q : JobsQueue)
      → IsRound smooth (env, p)
      → IsWorking smooth hc q
      → (n : Next) × (hc' : HostCollector) × (collect_round (λ h. stop env h) env hc ≡ ok (n, hc'))
        × IsOver smooth env.stops hc'
  round-Leaves env p hc q (i, e) w =
      let (n, hc', f, l) =
        collect_round-Leaves env i hc q (subst (λ s. IsWorking s hc q) (sym e) w) in
      (n, hc', f, subst (λ s. IsOver s env.stops hc') e l)

  -- the rest after a round
  paused-Returns :
      (env : Env) (p : Pause) (n : Next) (rounds : List (Env × Pause)) (hc : HostCollector)
      → ((hc' : HostCollector) (q : JobsQueue)
          → IsWorking smooth hc' q
          → Returns smooth (any_stop rounds) (collect_rounds rounds hc'))
      → IsOver smooth env.stops hc
      → Returns smooth
          (any_stop ((env, p) ∷ rounds))
          (pause env p n hc >>= λ hc'. collect_rounds rounds hc')
  paused-Returns env p n rounds hc later (inr (s, e)) = (
    hc,
    bind_ok _ (pause-stopped env p n hc s) ∙ collect_rounds-stopped rounds hc s,
    inr (s, ground arith),
  )
  paused-Returns env p n rounds hc later (inl (q, w)) =
      let (hc1, e, o) = pause-working smooth env p n hc q w in
      elim o [
        | inr (s, t) ↦
            (hc1, bind_ok _ e ∙ collect_rounds-stopped rounds hc1 s, inr (s, ground arith))
        | inl (q1, w1) ↦
            let (hc2, f, r) = later hc1 q1 w1 in
            (
              hc2,
              bind_ok _ e ∙ f,
              IsOver-more smooth (any_stop rounds) _ hc2 (or_right (stops_in (env, p)) _) r,
            )
      ]

  -- a host that works goes through rounds until it is stopped
  pub collect_rounds-Returns :
      (rounds : List (Env × Pause)) (hc : HostCollector) (q : JobsQueue)
      → All (IsRound smooth) rounds
      → IsWorking smooth hc q
      → Returns smooth (any_stop rounds) (collect_rounds rounds hc)
  unfolding collect_rounds
  collect_rounds-Returns [] hc q h w = (hc, refl, inl (q, w))
  collect_rounds-Returns ((env, p) ∷ rounds) hc q h w =
      let (n, hc1, e, o) = round-Leaves env p hc q h.0 w in
      let (hc2, f, r) =
        paused-Returns env p n rounds hc1 (λ d k. collect_rounds-Returns rounds d k h.1) o in
      (hc2, bind_ok _ e ∙ f, r)
