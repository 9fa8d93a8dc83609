-- ===== src/Kube/Runtime/Examples.antt =====
-- The theorems on the shared runtime at concrete inputs.
use l8collector.Prelude.{ℕ, ◌≡◌, refl, true, false, none, some, List, [], ◌∷◌, ok}
use l8collector.Kube.Runtime.{Runtime, subscribe, notify_subscribers}
use l8collector.Kube.Runtime.Sharing.{
  Event, inits, connects, subscribes, unsubscribes, notifies, disconnects, run_all, keeps,
  IsRuntime,
}
use l8collector.Kube.Runtime.Closing.{run_all-IsRuntime, notify_subscribers-signalled}

-- the value of `shared` when the process starts
abbrev start_up : Runtime ℕ
start_up = record {
  channel = λ a. record { signalled = false; closed = false };
  next = 0;
  connection = none;
  connected = false;
  warmed = none;
  warm_once = none;
  stop_ch = none;
  server_started = false;
  reaper_started = false;
  subscribers = none;
}

start_up-IsRuntime : IsRuntime start_up
start_up-IsRuntime = record {
  distinct = tt;
  made = λ a m. absurd m;
  opened = λ a m. absurd m;
  later = λ a le. refl;
  stop = λ a e. absurd (cc);
}

abbrev calls : List (Event ℕ)
calls =
    inits
    ∷ connects (some 7)
    ∷ subscribes
    ∷ subscribes
    ∷ notifies
    ∷ unsubscribes 1
    ∷ unsubscribes 1
    ∷ disconnects
    ∷ disconnects
    ∷ []

run_all-IsRuntime_example : (s' : Runtime ℕ) × (run_all calls start_up ≡ ok s') × IsRuntime s'
run_all-IsRuntime_example = run_all-IsRuntime calls start_up start_up-IsRuntime

abbrev others : List (Event ℕ)
others = connects none ∷ subscribes ∷ unsubscribes 1 ∷ []

notify_subscribers-signalled_example :
    (t : Runtime ℕ) × (s' : Runtime ℕ) × (run_all others (subscribe start_up).1 ≡ ok t)
    × (notify_subscribers t ≡ ok s')
    × ((s'.channel (subscribe start_up).0).signalled ≡ true)
    × ((s'.channel (subscribe start_up).0).closed ≡ false)
unfolding keeps subscribe
notify_subscribers-signalled_example =
    notify_subscribers-signalled start_up others start_up-IsRuntime (refl, (refl, (refl, tt)))
