-- ===== src/Kube/Runtime.antt =====
-- SharedRuntime.go of collector/protocols/k8sclient: the state that all Kubernetes collectors of the process
-- share. Its mutex makes each function one step; connect and ensureAdmissionServer release it while they
-- work, so they are two steps. `Connection` is the pair of the REST configuration and the client, which
-- are set and cleared together.
mod Channels
mod Sharing
mod Closing
mod Examples
use l8collector.Prelude.{
  ℕ, suc, Bool, true, false, not, ◌&&◌, Option, none, some, List, [], ◌∷◌, ◌++◌, String, Outcome,
  ok, panic, ◌>>=◌, ◌==◌, if◌then◌else◌, nat_eq, string_eq,
}
use l8collector.Prelude.Dict.{Dict, put}

-- A channel of signals. A subscription has room for one.
pub record Channel : Type 0 where
  pub signalled : Bool
  pub closed : Bool

-- The channels that were made have addresses below `next`. Nil pointers, maps and channels are `none`;
-- the set of subscribers is a list in the order in which the range meets them.
pub record Runtime (Connection : Type 0) : Type 0 where
  pub channel : ℕ → Channel
  pub next : ℕ
  pub connection : Option Connection
  pub connected : Bool
  pub warmed : Option (Dict String Bool)
  pub warm_once : Option (Dict String Bool)
  pub stop_ch : Option ℕ
  pub server_started : Bool
  pub reaper_started : Bool
  pub subscribers : Option (List ℕ)

abbrev pub set_channel : ℕ → Channel → (ℕ → Channel) → ℕ → Channel
set_channel a c channels b = if b == a then c else channels b

-- close(ch): a channel that is closed panics
unfoldable pub close : ℕ → (ℕ → Channel) → Outcome (ℕ → Channel)
close a channels =
    if (channels a).closed
    then panic
    else ok (set_channel a (record { signalled = (channels a).signalled; closed = true }) channels)

-- the select of notifySubscribers: it sends where there is room; a closed channel panics
unfoldable pub signal : ℕ → (ℕ → Channel) → Outcome (ℕ → Channel)
signal a channels =
    if (channels a).closed
    then panic
    else ok (set_channel a (record { signalled = true; closed = (channels a).closed }) channels)

unfoldable pub close_all : List ℕ → (ℕ → Channel) → Outcome (ℕ → Channel)
unfolding close
close_all [] channels = ok channels
close_all (a ∷ rest) channels = close a channels >>= λ cs. close_all rest cs

unfoldable pub signal_all : List ℕ → (ℕ → Channel) → Outcome (ℕ → Channel)
unfolding signal
signal_all [] channels = ok channels
signal_all (a ∷ rest) channels = signal a channels >>= λ cs. signal_all rest cs

abbrev pub or_new {ℓ} : {A : Type ℓ} → Option (List A) → List A
or_new none = []
or_new (some xs) = xs

unfoldable pub has_channel : ℕ → List ℕ → Bool
has_channel a [] = false
has_channel a (b ∷ bs) = let rest = has_channel a bs in if a == b then true else rest

unfoldable pub without : ℕ → List ℕ → List ℕ
without a [] = []
without a (b ∷ bs) = let rest = without a bs in if a == b then rest else b ∷ rest

-- the first select of disconnect
unfoldable pub close_stop : Option ℕ → (ℕ → Channel) → Outcome (ℕ → Channel)
unfolding close
close_stop none channels = ok channels
close_stop (some a) channels = if (channels a).closed then ok channels else close a channels

module _ {Connection : Type 0} where
  -- make(chan struct{}, n)
  abbrev pub fresh : Runtime Connection → Runtime Connection
  fresh s = record s {
    channel = set_channel s.next (record { signalled = false; closed = false }) s.channel;
    next = suc s.next;
  }

  abbrev pub with_stop : Option ℕ → Runtime Connection → Runtime Connection
  with_stop none s = record (fresh s) { stop_ch = some s.next }
  with_stop (some a) s = s

  -- init, without the cache, which disconnect leaves alone
  unfoldable pub init : Runtime Connection → Runtime Connection
  init s = with_stop s.stop_ch (record s {
    warmed = some (or_new s.warmed);
    warm_once = some (or_new s.warm_once);
    subscribers = some (or_new s.subscribers);
  })

  -- `s.connected && s.dynamicClient != nil`
  abbrev pub current : Runtime Connection → Option Connection
  current s = if s.connected then s.connection else none

  -- the end of connect, after a client was made; the result is the connection that is in use
  abbrev pub keep_or_store :
      Option Connection → Connection → Runtime Connection → Connection × Runtime Connection
  keep_or_store (some c) made s = (c, s)
  keep_or_store none made s = (made, record s { connection = some made; connected = true })

  unfoldable pub connect_store : Connection → Runtime Connection → Connection × Runtime Connection
  connect_store made s = keep_or_store (current s) made s

  -- connect, where no other goroutine comes between its two steps; `make` is the client or an error
  abbrev pub connect_made :
      Option Connection → Runtime Connection → Option Connection × Runtime Connection
  connect_made none s = (none, s)
  connect_made (some made) s = let p = connect_store made s in (some p.0, p.1)

  abbrev pub connect_or :
      Option Connection
      → Option Connection
      → Runtime Connection
      → Option Connection × Runtime Connection
  connect_or (some c) make s = (some c, s)
  connect_or none make s = connect_made make s

  unfoldable pub connect :
      Option Connection → Runtime Connection → Option Connection × Runtime Connection
  unfolding connect_store
  connect make s = connect_or (current s) make s

  -- the end of ensureAdmissionServer, after startFn returned no error
  unfoldable pub server_store : Runtime Connection → Runtime Connection
  server_store s = record s { server_started = true }

  -- whether ensureAdmissionServer calls startFn
  abbrev pub server_wanted : Runtime Connection → Bool
  server_wanted s = not s.server_started

  unfoldable pub subscribe : Runtime Connection → ℕ × Runtime Connection
  subscribe s =
      (s.next, record (fresh s) { subscribers = some (or_new s.subscribers ++ s.next ∷ []) })

  unfoldable pub unsubscribe : ℕ → Runtime Connection → Outcome (Runtime Connection)
  unfolding close has_channel without
  unsubscribe a s =
      if has_channel a (or_new s.subscribers)
      then (close a s.channel >>= λ cs.
          ok (record s { channel = cs; subscribers = some (without a (or_new s.subscribers)) }))
      else ok s

  unfoldable pub notify_subscribers : Runtime Connection → Outcome (Runtime Connection)
  unfolding signal_all
  notify_subscribers s =
      signal_all (or_new s.subscribers) s.channel >>= λ cs. ok (record s { channel = cs })

  unfoldable pub disconnect : Runtime Connection → Outcome (Runtime Connection)
  unfolding close close_all close_stop
  disconnect s = do
    stopped ← close_stop s.stop_ch s.channel
    closed ← close_all (or_new s.subscribers) stopped
    ok (record s {
      channel = closed;
      connection = none;
      connected = false;
      warmed = none;
      warm_once = none;
      stop_ch = none;
      server_started = false;
      reaper_started = false;
      subscribers = none;
    })

  -- startReaper: whether a goroutine is started
  unfoldable pub start_reaper : Runtime Connection → Bool × Runtime Connection
  start_reaper s = (not s.reaper_started, record s { reaper_started = true })
