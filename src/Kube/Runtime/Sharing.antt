-- ===== src/Kube/Runtime/Sharing.antt =====
-- The shared runtime under any sequence of calls.
use mathlib.Core.Option.{some-injective}
use l8collector.Prelude.{
  ℕ, ◌≡◌, ◌<◌, ◌≤◌, refl, subst, Bool, true, false, Bool-cases, none, some, Option, List, [], ◌∷◌,
  Outcome, ok, ◌>>=◌, bind_ok, arith, In, In-append, In-left, not, Distinct, Distinct-snoc, inl,
  inr, ◌==◌, nat_eq,
}
use l8collector.Kube.Runtime.{
  Runtime, or_new, has_channel, without, fresh, with_stop, init, current, keep_or_store,
  connect_store, connect_or, connect, server_store, subscribe, unsubscribe, notify_subscribers,
  disconnect, start_reaper,
}
use l8collector.Kube.Runtime.Channels.{
  closed_at, has_channel_iff, In-without, without-In, Distinct-without, not_In-without,
  closed_at-other, close-open,
}

-- A call of one goroutine.
pub data Event (Connection : Type 0) : Type 0 where
  inits serves subscribes notifies disconnects reaps : Event Connection
  connects : Option Connection → Event Connection
  stores : Connection → Event Connection
  unsubscribes : ℕ → Event Connection

module _ {Connection : Type 0} where
  -- the subscribers, none where the set is nil
  abbrev pub listeners : Runtime Connection → List ℕ
  listeners s = or_new s.subscribers

  unfoldable pub run : Event Connection → Runtime Connection → Outcome (Runtime Connection)
  unfolding init connect connect_store server_store subscribe unsubscribe notify_subscribers
      disconnect start_reaper
  run inits s = ok (init s)
  run serves s = ok (server_store s)
  run subscribes s = ok (subscribe s).1
  run notifies s = notify_subscribers s
  run disconnects s = disconnect s
  run reaps s = ok (start_reaper s).1
  run (connects make) s = ok (connect make s).1
  run (stores made) s = ok (connect_store made s).1
  run (unsubscribes a) s = unsubscribe a s

  unfoldable pub run_all :
      List (Event Connection) → Runtime Connection → Outcome (Runtime Connection)
  unfolding run
  run_all [] s = ok s
  run_all (e ∷ es) s = run e s >>= λ s'. run_all es s'

  -- The subscribers are different open channels, and the channel that stops the informers is none of them.
  pub record IsRuntime (s : Runtime Connection) : Type 0 where
    pub distinct : Distinct (listeners s)
    pub made : (a : ℕ) → In a (listeners s) → a < s.next
    pub opened : (a : ℕ) → In a (listeners s) → (s.channel a).closed ≡ false
    pub later : (a : ℕ) → s.next ≤ a → (s.channel a).closed ≡ false
    pub stop : (a : ℕ) → s.stop_ch ≡ some a → (a < s.next) × ¬ In a (listeners s)

  -- The call neither unsubscribes the channel nor disconnects.
  unfoldable pub keeps : ℕ → Event Connection → Bool
  keeps a disconnects = false
  keeps a (unsubscribes b) = not (b == a)
  keeps a _ = true

  -- What a call leaves: a runtime in order, with each subscriber that the call keeps.
  pub record Left (e : Event Connection) (s s' : Runtime Connection) : Type 0 where
    pub order : IsRuntime s'
    pub stays : (a : ℕ) → keeps a e ≡ true → In a (listeners s) → In a (listeners s')

  pub keep_or_store-Left :
      {e : Event Connection} (o : Option Connection) (made : Connection) (s : Runtime Connection)
      → IsRuntime s
      → Left e s (keep_or_store o made s).1
  keep_or_store-Left none made s i = record {
    order = record {
      distinct = i.distinct;
      made = i.made;
      opened = i.opened;
      later = i.later;
      stop = i.stop;
    };
    stays = λ a k m. m;
  }
  keep_or_store-Left (some c) made s i = record { order = i; stays = λ a k m. m }

  pub connect_or-Left :
      {e : Event Connection} (o make : Option Connection) (s : Runtime Connection)
      → IsRuntime s
      → Left e s (connect_or o make s).1
  unfolding connect_store
  connect_or-Left (some c) make s i = record { order = i; stays = λ a k m. m }
  connect_or-Left none none s i = record { order = i; stays = λ a k m. m }
  connect_or-Left none (some made) s i = keep_or_store-Left (current s) made s i

  fresh-closed :
      (s : Runtime Connection) (a : ℕ)
      → (s.channel a).closed ≡ false
      → ((fresh s).channel a).closed ≡ false
  fresh-closed s a e = elim (Bool-cases (a == s.next)) [ inl y ↦ rw y refl | inr n ↦ rw n e ]

  with_stop-Left :
      {e : Event Connection} (o : Option ℕ) (s : Runtime Connection)
      → IsRuntime s
      → Left e s (with_stop o s)
  with_stop-Left (some a) s i = record { order = i; stays = λ a k m. m }
  with_stop-Left none s i = record {
    stays = λ a k m. m;
    order = record {
      distinct = i.distinct;
      made = λ a m. omega (arith, i.made a m);
      opened = λ a m. fresh-closed s a (i.opened a m);
      later = λ a le. fresh-closed s a (i.later a (omega arith));
      stop = λ a e. (
        omega (arith, some-injective s.next a e),
        λ m. omega (arith, i.made a m, some-injective s.next a e),
      );
    };
  }

  pub init-Left : (s : Runtime Connection) → IsRuntime s → Left inits s (init s)
  unfolding init
  init-Left s i =
      let l =
        with_stop-Left {e = inits} s.stop_ch
          (record s {
            warmed = some (or_new s.warmed);
            warm_once = some (or_new s.warm_once);
            subscribers = some (or_new s.subscribers);
          })
          (record {
            distinct = i.distinct;
            made = i.made;
            opened = i.opened;
            later = i.later;
            stop = i.stop;
          }) in
      record { order = l.order; stays = l.stays }

  pub subscribe-Left : (s : Runtime Connection) → IsRuntime s → Left subscribes s (subscribe s).1
  unfolding subscribe
  subscribe-Left s i = record {
    stays = λ a k m. In-left a (listeners s) (s.next ∷ []) m;
    order = record {
      distinct =
          Distinct-snoc (listeners s) s.next i.distinct
            (λ m. absurd (omega (arith, i.made s.next m)));
      made = λ a m. elim (In-append a (listeners s) (s.next ∷ []) m) [
        | inl l ↦ omega (arith, i.made a l)
        | inr (inl e) ↦ omega (arith, e)
        | inr (inr f) ↦ absurd f
      ];
      opened = λ a m. elim (In-append a (listeners s) (s.next ∷ []) m) [
        | inl l ↦ fresh-closed s a (i.opened a l)
        | inr (inl e) ↦ fresh-closed s a (i.later a (omega (arith, e)))
        | inr (inr f) ↦ absurd f
      ];
      later = λ a le. fresh-closed s a (i.later a (omega arith));
      stop = λ a e. (
        omega (arith, (i.stop a e).0),
        λ m. elim (In-append a (listeners s) (s.next ∷ []) m) [
          | inl l ↦ (i.stop a e).1 l
          | inr (inl f) ↦ omega (arith, f, (i.stop a e).0)
          | inr (inr f) ↦ f
        ],
      );
    };
  }

  pub unsubscribe-Left :
      (a : ℕ) (s : Runtime Connection)
      → IsRuntime s
      → (s' : Runtime Connection) × (unsubscribe a s ≡ ok s') × Left (unsubscribes a) s s'
  unfolding unsubscribe keeps
  unsubscribe-Left a s i = elim (Bool-cases (has_channel a (listeners s))) [
    | inl y ↦ (
      record s { channel = closed_at a s.channel; subscribers = some (without a (listeners s)) },
      rw (y, unsubscribe)
          (bind_ok _ (close-open a s.channel (i.opened a ((has_channel_iff a (listeners s)).0 y)))),
      record {
        stays = λ b k m. without-In a b (listeners s) (not_true k) m;
        order = record {
          distinct = Distinct-without a (listeners s) i.distinct;
          made = λ b m. i.made b (In-without a b (listeners s) m);
          opened = λ b m.
              closed_at-other a b s.channel
                (λ e.
                  not_In-without a (listeners s) (subst (λ z. In z (without a (listeners s))) e m))
                (i.opened b (In-without a b (listeners s) m));
          later = λ b le.
              closed_at-other a b s.channel
                (λ e. omega (arith, e, le, i.made a ((has_channel_iff a (listeners s)).0 y)))
                (i.later b le);
          stop = λ b e. ((i.stop b e).0, λ m. (i.stop b e).1 (In-without a b (listeners s) m));
        };
      },
    )
    | inr n ↦ (s, rw (n, unsubscribe) refl, record { order = i; stays = λ b k m. m })
  ]
    where
      not_true : {b : Bool} → not b ≡ true → b ≡ false
      not_true k = ground (arith, k)
