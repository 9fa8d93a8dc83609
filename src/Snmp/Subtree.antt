-- ===== src/Snmp/Subtree.antt =====
-- What a walk returns lies in its subtree, and a walk of a finite subtree ends.
use l8collector.Prelude.{
  ℕ, zero, suc, ◌<◌, ◌≡◌, ◌≢◌, refl, sym, ap, subst, true, false, not, Option, none, some, List, [],
  ◌∷◌, ◌++◌, String, Outcome, ok, panic, if◌then◌else◌, All, All-append, if_both, arith, Bool-cases,
  inl, inr,
}
use l8collector.Snmp.Session.{Library, Collector, reconnect_session}
use l8collector.Snmp.Walk.{
  Pdu, End, out_of_time, panicked, ended, Answer, got, stop, closed, finish, second_answer,
  ask_again, first_answer, ask, walk_loop, snmp_walk,
}

module _ {W Oid V : Type 0} (lib : Library W Oid V) where
  -- An object of the subtree, with a value.
  abbrev pub Inside : Oid → Pdu V → Type 0
  Inside base p =
      (o : Oid) × (p.name ≡ lib.show_oid o)
      × (lib.within o base ≡ true)
      × (lib.is_ber p.value ≡ false)

  -- A walk that ends without an error has found something, and whatever it found lies inside.
  abbrev pub Proper : Oid → End V → Type 0
  Proper base out_of_time = Unit
  Proper base panicked = Unit
  Proper base (ended e pdus) = (e ≡ none → pdus ≢ []) × All (Inside base) pdus

  finish-Proper :
      (base : Oid) (pdus : List (Pdu V)) → All (Inside base) pdus → Proper base (finish pdus)
  unfolding finish
  finish-Proper base [] h = ((λ e. cc e), tt)
  finish-Proper base (p ∷ ps) h = ((λ e n. cc n), h)

  -- An answer that stops the walk stops it properly, and another one is an answer of GetNext.
  abbrev Told : Oid → Oid → Answer Oid V → Type 0
  Told base current (stop e) = Proper base e × (e ≢ out_of_time)
  Told base current (got n v) = (w : W) × ((lib.get_next current w).0 ≡ some (n, v))

  finish-ends : (pdus : List (Pdu V)) → finish pdus ≢ out_of_time
  unfolding finish
  finish-ends [] e = cc e
  finish-ends (p ∷ ps) e = cc e

  second-Told :
      (base current : Oid) (pdus : List (Pdu V)) (w : W)
      → All (Inside base) pdus
      → Told base current (second_answer pdus (lib.get_next current w).0)
  second-Told base current pdus w h = go (lib.get_next current w).0 refl
    where
      go :
          (o : Option (Oid × V))
          → (lib.get_next current w).0 ≡ o
          → Told base current (second_answer pdus o)
      go none e = (finish-Proper base pdus h, finish-ends pdus)
      go (some p) e = (w, e)

  closed-Told :
      (base current : Oid) (pdus : List (Pdu V))
      → All (Inside base) pdus
      → Told base current (stop (ended (some closed) pdus))
  closed-Told base current pdus h = (((λ e. cc e), h), λ e. cc e)

  again-Told :
      (base current : Oid) (pdus : List (Pdu V)) (r : Outcome (Option String) × Collector W)
      → All (Inside base) pdus
      → Told base current (ask_again lib current pdus r).0
  unfolding ask_again
  again-Told base current pdus (panic, c) h = (tt, λ e. cc e)
  again-Told base current pdus (ok (some x), c) h = (finish-Proper base pdus h, finish-ends pdus)
  again-Told base current pdus (ok none, c) h =
      if_both (λ (a : Answer Oid V × Collector W). Told base current a.0) (not c.session) _ _
        (closed-Told base current pdus h) (second-Told base current pdus c.world h)

  first-Told :
      (base current : Oid) (pdus : List (Pdu V)) (c : Collector W) (w : W)
      → All (Inside base) pdus
      → Told base current (first_answer lib current pdus c (lib.get_next current w)).0
  unfolding first_answer
  first-Told base current pdus c w h = go (lib.get_next current w) refl
    where
      go :
          (r : Option (Oid × V) × W)
          → lib.get_next current w ≡ r
          → Told base current (first_answer lib current pdus c r).0
      go (some p, v) e = (w, ap (λ (t : Option (Oid × V) × W). t.0) e)
      go (none, v) e =
          if_both (λ (a : Answer Oid V × Collector W). Told base current a.0) (not c.session) _ _
            (closed-Told base current pdus h)
            (again-Told base current pdus (reconnect_session lib (record c { world = v })) h)

  ask-Told :
      (base current : Oid) (pdus : List (Pdu V)) (c : Collector W)
      → All (Inside base) pdus
      → Told base current (ask lib current pdus c).0
  unfolding ask
  ask-Told base current pdus c h =
      if_both (λ (a : Answer Oid V × Collector W). Told base current a.0) (not c.session) _ _
        (closed-Told base current pdus h) (first-Told base current pdus c c.world h)

  -- the end of a round that got an answer
  abbrev pub turn : ℕ → Oid → List (Pdu V) → Answer Oid V × Collector W → End V × Collector W
  turn rounds base pdus (stop e, c) = (e, c)
  turn rounds base pdus (got next v, c) =
      let rest =
        walk_loop lib rounds base next (pdus ++ record { name = lib.show_oid next; value = v } ∷ [])
          c in
      if not (lib.within next base)
      then (finish pdus, c)
      else if lib.is_ber v
      then (finish pdus, c)
      else rest

  pdu_of : Oid → V → Pdu V
  pdu_of next v = record { name = lib.show_oid next; value = v }

  Later : ℕ → Oid → Type 0
  Later rounds base =
      (next : Oid) (pdus : List (Pdu V)) (c : Collector W)
      → All (Inside base) pdus
      → Proper base (walk_loop lib rounds base next pdus c).0

  turn-Proper :
      (rounds : ℕ) (base current : Oid) (pdus : List (Pdu V)) (a : Answer Oid V × Collector W)
      → Later rounds base
      → All (Inside base) pdus
      → Told base current a.0
      → Proper base (turn rounds base pdus a).0
  unfolding Later pdu_of
  turn-Proper rounds base current pdus (stop e, c) later h t = t.0
  turn-Proper rounds base current pdus (got next v, c) later h t =
      elim (Bool-cases (lib.within next base)) [
        | inr n ↦ rw n (finish-Proper base pdus h)
        | inl y ↦ elim (Bool-cases (lib.is_ber v)) [
          | inl b ↦ rw (y, b) (finish-Proper base pdus h)
          | inr b ↦
              rw (y, b)
                (later next (pdus ++ pdu_of next v ∷ []) c
                  (All-append (Inside base) pdus (pdu_of next v ∷ []) h ((next, refl, y, b), tt)))
        ]
      ]

  pub walk_loop-turn :
      (rounds : ℕ) (base current : Oid) (pdus : List (Pdu V)) (c : Collector W)
      → walk_loop lib (suc rounds) base current pdus c
        ≡ turn rounds base pdus (ask lib current pdus c)
  unfolding walk_loop
  walk_loop-turn rounds base current pdus c = go (ask lib current pdus c)
    where
      go :
          (a : Answer Oid V × Collector W)
          → (elim a.0 [
            | stop e ↦ (e, a.1)
            | got next v ↦
                let rest =
                  walk_loop lib rounds base next
                    (pdus ++ record { name = lib.show_oid next; value = v } ∷ [])
                    a.1 in
                if not (lib.within next base)
                then (finish pdus, a.1)
                else if lib.is_ber v
                then (finish pdus, a.1)
                else rest
          ])
            ≡ turn rounds base pdus a
      go (stop e, d) = refl
      go (got next v, d) = refl

  walk_loop-zero :
      (base current : Oid) (pdus : List (Pdu V)) (c : Collector W)
      → walk_loop lib 0 base current pdus c ≡ (out_of_time, c)
  unfolding walk_loop
  walk_loop-zero base current pdus c = refl

  walk_loop-Proper :
      (rounds : ℕ) (base current : Oid) (pdus : List (Pdu V)) (c : Collector W)
      → All (Inside base) pdus
      → Proper base (walk_loop lib rounds base current pdus c).0
  unfolding Later
  walk_loop-Proper zero base current pdus c h =
      subst (λ (r : End V × Collector W). Proper base r.0)
        (sym (walk_loop-zero base current pdus c)) tt
  walk_loop-Proper (suc rounds) base current pdus c h =
      subst (λ (r : End V × Collector W). Proper base r.0)
        (sym (walk_loop-turn rounds base current pdus c))
        (turn-Proper rounds base current pdus (ask lib current pdus c)
          (λ next ps d. walk_loop-Proper rounds base next ps d) h (ask-Told base current pdus c h))

  -- Whatever ends a walk, it is proper: a walk without an error has found something, and each object
  -- that a walk returns, also one with an error, is in the subtree of its identifier and has a value.
  pub snmp_walk-Proper :
      (rounds : ℕ) (oid : String) (base : Oid) (c : Collector W)
      → lib.parse_oid oid ≡ some base
      → Proper base (snmp_walk lib rounds oid c).0
  unfolding snmp_walk
  snmp_walk-Proper rounds oid base c e = rw e (
      if_both (λ (r : End V × Collector W). Proper base r.0) (not c.session) _ _ ((λ n. cc n), tt)
        (walk_loop-Proper rounds base base [] c tt))

  -- The identifiers that GetNext answers in the subtree fall by `rank`.
  abbrev pub Falls : Oid → (Oid → ℕ) → Type 0
  Falls base rank =
      (o next : Oid) (v : V) (w : W)
      → (lib.get_next o w).0 ≡ some (next, v)
      → lib.within next base ≡ true
      → rank next < rank o

  turn-ends :
      (rounds : ℕ) (base current : Oid) (pdus : List (Pdu V)) (rank : Oid → ℕ)
      (a : Answer Oid V × Collector W)
      → Falls base rank
      → rank current < suc rounds
      → ((next : Oid) (ps : List (Pdu V)) (c : Collector W)
          → rank next < rounds
          → All (Inside base) ps
          → (walk_loop lib rounds base next ps c).0 ≢ out_of_time)
      → All (Inside base) pdus
      → Told base current a.0
      → (turn rounds base pdus a).0 ≢ out_of_time
  unfolding pdu_of
  turn-ends rounds base current pdus rank (stop e, c) falls r later h t = t.1
  turn-ends rounds base current pdus rank (got next v, c) falls r later h t =
      elim (Bool-cases (lib.within next base)) [
        | inr n ↦ rw n (finish-ends pdus)
        | inl y ↦ elim (Bool-cases (lib.is_ber v)) [
          | inl b ↦ rw (y, b) (finish-ends pdus)
          | inr b ↦
              rw (y, b)
                (later next (pdus ++ pdu_of next v ∷ []) c
                  (omega (arith, falls current next v t.0 t.1 y))
                  (All-append (Inside base) pdus (pdu_of next v ∷ []) h ((next, refl, y, b), tt)))
        ]
      ]

  walk_loop-ends :
      (rounds : ℕ) (base current : Oid) (pdus : List (Pdu V)) (c : Collector W) (rank : Oid → ℕ)
      → Falls base rank
      → rank current < rounds
      → All (Inside base) pdus
      → (walk_loop lib rounds base current pdus c).0 ≢ out_of_time
  walk_loop-ends zero base current pdus c rank falls r h = absurd (omega arith)
  walk_loop-ends (suc rounds) base current pdus c rank falls r h =
      subst (λ (t : End V × Collector W). t.0 ≢ out_of_time)
        (sym (walk_loop-turn rounds base current pdus c))
        (turn-ends rounds base current pdus rank (ask lib current pdus c) falls r
          (λ next ps d k m. walk_loop-ends rounds base next ps d rank falls k m) h
          (ask-Told base current pdus c h))

  -- Where the answers of the device go through the subtree in one direction, a walk of a time for more
  -- rounds than the rank of the first identifier ends, with a result or with a panic of the credential.
  pub snmp_walk-ends :
      (rounds : ℕ) (oid : String) (base : Oid) (c : Collector W) (rank : Oid → ℕ)
      → lib.parse_oid oid ≡ some base
      → Falls base rank
      → rank base < rounds
      → (snmp_walk lib rounds oid c).0 ≢ out_of_time
  unfolding snmp_walk
  snmp_walk-ends rounds oid base c rank e falls r = rw e (
      if_both (λ (t : End V × Collector W). t.0 ≢ out_of_time) (not c.session) _ _ (λ n. cc n)
        (walk_loop-ends rounds base base [] c rank falls r tt))
