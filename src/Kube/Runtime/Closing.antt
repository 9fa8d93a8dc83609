-- ===== src/Kube/Runtime/Closing.antt =====
-- The shared runtime under any sequence of calls: channels are closed at most once, and signals arrive.
use l8collector.Prelude.{
  ℕ, ◌≡◌, refl, ◌∙◌, Bool, true, false, Bool-cases, none, List, [], ◌∷◌, ok, bind_ok, arith, In,
  In-right, inl, inr, if◌then◌else◌, All,
}
use l8collector.Kube.Runtime.{
  Channel, Runtime, init, current, connect, connect_store, server_store, has_channel, subscribe,
  notify_subscribers, disconnect, start_reaper,
}
use l8collector.Kube.Runtime.Channels.{
  AllOpen, has_channel_iff, close_all-returns, close_stop-returns, signal_all-returns,
}
use l8collector.Kube.Runtime.Sharing.{
  Event, inits, serves, subscribes, notifies, disconnects, reaps, connects, stores, unsubscribes,
  listeners, run, run_all, IsRuntime, keeps, Left, keep_or_store-Left, connect_or-Left, init-Left,
  subscribe-Left, unsubscribe-Left,
}

module _ {Connection : Type 0} where
  notify-returns :
      (s : Runtime Connection)
      → IsRuntime s
      → (s' : Runtime Connection) × (notify_subscribers s ≡ ok s')
        × Left notifies s s'
        × ((a : ℕ) → In a (listeners s) → (s'.channel a).signalled ≡ true)
  unfolding notify_subscribers AllOpen
  notify-returns s i =
      let (cs, e, c, g) = signal_all-returns (listeners s) s.channel i.opened in
      (
        record s { channel = cs },
        bind_ok _ e,
        record {
          order = record {
            distinct = i.distinct;
            made = i.made;
            opened = λ a m. c a ∙ i.opened a m;
            later = λ a le. c a ∙ i.later a le;
            stop = i.stop;
          };
          stays = λ a k m. m;
        },
        λ a m. g a ∙ rw ((has_channel_iff a (listeners s)).1 m) refl,
      )

  disconnect-returns :
      (s : Runtime Connection)
      → IsRuntime s
      → (s' : Runtime Connection) × (disconnect s ≡ ok s')
        × IsRuntime s'
        × ((a : ℕ) → In a (listeners s) → (s'.channel a).closed ≡ true)
  unfolding disconnect AllOpen
  disconnect-returns s i =
      let (cs, e, o, l) = close_stop-returns s.stop_ch (listeners s) s.next s.channel i.stop in
      let (ds, f, c) =
        close_all-returns (listeners s) cs i.distinct (λ a m. o a m (i.opened a m)) in
      (
        record s {
          channel = ds;
          connection = none;
          connected = false;
          warmed = none;
          warm_once = none;
          stop_ch = none;
          server_started = false;
          reaper_started = false;
          subscribers = none;
        },
        bind_ok _ e ∙ bind_ok _ f,
        record {
          distinct = tt;
          made = λ a m. absurd m;
          opened = λ a m. absurd m;
          later = λ a le. c a ∙ still cs a (λ m. omega (arith, i.made a m)) (l a le (i.later a le));
          stop = λ a g. absurd (cc);
        },
        λ a m. c a ∙ rw ((has_channel_iff a (listeners s)).1 m) refl,
      )
    where
      still :
          (cs : ℕ → Channel) (a : ℕ)
          → ¬ In a (listeners s)
          → (cs a).closed ≡ false
          → (if has_channel a (listeners s) then true else (cs a).closed) ≡ false
      still cs a n e = elim (Bool-cases (has_channel a (listeners s))) [
        | inl y ↦ absurd (n ((has_channel_iff a (listeners s)).0 y))
        | inr d ↦ rw d e
      ]

  flags-Left :
      {e : Event Connection} (s : Runtime Connection) (server reaper : Bool)
      → IsRuntime s
      → Left e s (record s { server_started = server; reaper_started = reaper })
  flags-Left s server reaper i = record {
    order = record {
      distinct = i.distinct;
      made = i.made;
      opened = i.opened;
      later = i.later;
      stop = i.stop;
    };
    stays = λ a k m. m;
  }

  run-Left :
      (e : Event Connection) (s : Runtime Connection)
      → IsRuntime s
      → (s' : Runtime Connection) × (run e s ≡ ok s') × Left e s s'
  unfolding run connect connect_store server_store start_reaper keeps
  run-Left inits s i = (init s, refl, init-Left s i)
  run-Left serves s i = (server_store s, refl, flags-Left s true s.reaper_started i)
  run-Left subscribes s i = ((subscribe s).1, refl, subscribe-Left s i)
  run-Left notifies s i = let (s', e, v, g) = notify-returns s i in (s', e, v)
  run-Left disconnects s i =
      let (s', e, v, c) = disconnect-returns s i in
      (s', e, record { order = v; stays = λ a k m. absurd (cc) })
  run-Left reaps s i = ((start_reaper s).1, refl, flags-Left s s.server_started true i)
  run-Left (connects make) s i = ((connect make s).1, refl, connect_or-Left (current s) make s i)
  run-Left (stores made) s i =
      ((connect_store made s).1, refl, keep_or_store-Left (current s) made s i)
  run-Left (unsubscribes a) s i = unsubscribe-Left a s i

  -- Whatever calls follow on each other, none of them closes a closed channel or sends on one: they return,
  -- and the subscribers stay different open channels.
  pub run_all-IsRuntime :
      (es : List (Event Connection)) (s : Runtime Connection)
      → IsRuntime s
      → (s' : Runtime Connection) × (run_all es s ≡ ok s') × IsRuntime s'
  unfolding run_all
  run_all-IsRuntime [] s i = (s, refl, i)
  run_all-IsRuntime (e ∷ es) s i =
      let (s1, f, l) = run-Left e s i in
      let (s2, g, k) = run_all-IsRuntime es s1 l.order in (s2, bind_ok _ f ∙ g, k)

  run_all-stays :
      (a : ℕ) (es : List (Event Connection)) (s : Runtime Connection)
      → IsRuntime s
      → All (λ e. keeps a e ≡ true) es
      → In a (listeners s)
      → (s' : Runtime Connection) × (run_all es s ≡ ok s') × IsRuntime s' × In a (listeners s')
  unfolding run_all
  run_all-stays a [] s i k m = (s, refl, i, m)
  run_all-stays a (e ∷ es) s i k m =
      let (s1, f, l) = run-Left e s i in
      let (s2, g, j, n) = run_all-stays a es s1 l.order k.1 (l.stays a k.0 m) in
      (s2, bind_ok _ f ∙ g, j, n)

  -- A channel that was subscribed, and that no later call unsubscribes or disconnects, is open and has a
  -- signal after notifySubscribers.
  pub notify_subscribers-signalled :
      (s : Runtime Connection) (es : List (Event Connection))
      → IsRuntime s
      → All (λ e. keeps (subscribe s).0 e ≡ true) es
      → (t : Runtime Connection) × (s' : Runtime Connection) × (run_all es (subscribe s).1 ≡ ok t)
        × (notify_subscribers t ≡ ok s')
        × ((s'.channel (subscribe s).0).signalled ≡ true)
        × ((s'.channel (subscribe s).0).closed ≡ false)
  unfolding subscribe keeps
  notify_subscribers-signalled s es i k =
      let (t, e, j, m) =
        run_all-stays s.next es (subscribe s).1 (subscribe-Left s i).order k
          (In-right s.next (listeners s) (s.next ∷ []) (inl refl)) in
      let (s', f, l, g) = notify-returns t j in
      (t, s', e, f, g s.next m, l.order.opened s.next (l.stays s.next refl m))
