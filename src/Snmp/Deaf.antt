-- ===== src/Snmp/Deaf.antt =====
-- A device that never answers.
use l8collector.Prelude.{
  ℕ, zero, suc, ◌<◌, ◌≡◌, refl, sym, ap, subst, Bool, true, false, not, Option, none, some, List,
  [], ◌&&◌, String, Outcome, ok, panic, ◌==◌, nat_eq, arith, if_else, Bool-cases, inl, inr,
}
use l8collector.Types.{CJob}
use l8collector.Snmp.Session.{
  Library, Collector, connect, disconnect, reconnect_session, opened, online,
}
use l8collector.Snmp.Walk.{
  Pdu, End, out_of_time, panicked, ended, Answer, got, stop, finish, second_answer, ask_again,
  first_answer, ask, walk_loop, snmp_walk,
}
use l8collector.Snmp.Subtree.{turn, walk_loop-turn}
use l8collector.Snmp.Jobs.{
  Surroundings, Tried, walk_answer, retry, after_answer, walk_retry, walk_attempts, walk_prefix,
  walk_result, walk, failed_job,
}

-- There is a session, and Connect has said so.
abbrev pub IsUp : {W : Type 0} → Collector W → Type 0
IsUp c = (c.session ≡ true) × (c.connected ≡ true)

abbrev pub no_results : String
no_results = "SNMP walk found no results"

-- A session can always be opened, as over UDP, and no GetNext is answered.
pub record IsDeaf {W Oid V : Type 0} (lib : Library W Oid V) : Type 0 where
  pub community : String
  pub has_credential : lib.credential ≡ some community
  pub opens : (w : W) → (lib.open_session community w).0 ≡ none
  pub silent : (o : Oid) (w : W) → (lib.get_next o w).0 ≡ none

module _ {W Oid V : Type 0} (lib : Library W Oid V) (deaf : IsDeaf lib) where
  reconnect-IsUp :
      (c : Collector W) → (c' : Collector W) × (reconnect_session lib c ≡ (ok none, c')) × IsUp c'
  unfolding reconnect_session connect disconnect
  reconnect-IsUp c =
      rw deaf.has_credential
        (answered (lib.open_session deaf.community c.world) (deaf.opens c.world))
    where
      answered :
          (a : Option String × W)
          → a.0 ≡ none
          → (c' : Collector W) × (opened (record c { session = false; connected = false }) a
              ≡ (ok none, c'))
            × IsUp c'
      answered (none, w) e =
          (record c { session = true; connected = true; world = w }, refl, (refl, refl))
      answered (some x, w) e = cc e

  -- what a stopped round leaves
  abbrev Stopped : List (Pdu V) → Answer Oid V × Collector W → Type 0
  Stopped pdus a = (a.0 ≡ stop (finish pdus)) × IsUp a.1

  again-Stopped :
      (current : Oid) (pdus : List (Pdu V)) (c : Collector W)
      → IsUp c
      → Stopped pdus (ask_again lib current pdus (ok none, c))
  unfolding ask_again
  again-Stopped current pdus c up =
      if_else (Stopped pdus) (not c.session) _ _ (ap not up.0)
        (ap (second_answer pdus) (deaf.silent current c.world), up)

  ask-Stopped :
      (current : Oid) (pdus : List (Pdu V)) (c : Collector W)
      → IsUp c
      → Stopped pdus (ask lib current pdus c)
  unfolding ask first_answer
  ask-Stopped current pdus c up =
      if_else (Stopped pdus) (not c.session) _ _ (ap not up.0)
        (answered (lib.get_next current c.world) (deaf.silent current c.world))
    where
      reconnected :
          (w : W)
          → Stopped pdus
              (ask_again lib current pdus (reconnect_session lib (record c { world = w })))
      reconnected w =
          let (c', e, u) = reconnect-IsUp (record c { world = w }) in
          subst (λ r. Stopped pdus (ask_again lib current pdus r)) (sym e)
            (again-Stopped current pdus c' u)

      answered :
          (a : Option (Oid × V) × W) → a.0 ≡ none → Stopped pdus (first_answer lib current pdus c a)
      answered (some p, w) e = cc e
      answered (none, w) e =
          if_else (Stopped pdus) (not c.session) _ _ (ap not up.0) (reconnected w)

  -- how a walk ends
  abbrev Empty : End V × Collector W → Type 0
  Empty r = (r.0 ≡ ended (some no_results) []) × IsUp r.1

  loop-Empty :
      (rounds : ℕ) (base : Oid) (c : Collector W)
      → 0 < rounds
      → IsUp c
      → Empty (walk_loop lib rounds base base [] c)
  unfolding finish
  loop-Empty zero base c h up = absurd (omega arith)
  loop-Empty (suc rounds) base c h up =
      subst Empty (sym (walk_loop-turn lib rounds base base [] c))
        (by_answer (ask lib base [] c) (ask-Stopped base [] c up))
    where
      by_answer :
          (a : Answer Oid V × Collector W) → Stopped [] a → Empty (turn lib rounds base [] a)
      by_answer (stop e, d) t = (cc (t.0), t.1)
      by_answer (got next v, d) t = cc (t.0)

  module _ (env : Surroundings V) (oid : String) (base : Oid) (job : CJob) (encode : Bool)
      (parsed : lib.parse_oid oid ≡ some base) (in_time : (k : ℕ) → 0 < env.rounds k) where
    walk-Empty :
        (rounds : ℕ) (c : Collector W) → 0 < rounds → IsUp c → Empty (snmp_walk lib rounds oid c)
    unfolding snmp_walk
    walk-Empty rounds c h up =
        if_else Empty (not c.session) _ _ (ap not up.0) (rw parsed (loop-Empty rounds base c h up))

    -- after all attempts
    abbrev Hopeless : Outcome (Tried V) × Collector W → Type 0
    Hopeless r = (r.0 ≡ ok (some no_results, [])) × (online r.1 ≡ true)

    next-Hopeless :
        (left : ℕ) (again : Collector W → Outcome (Tried V) × Collector W) (r : End V × Collector W)
        → Empty r
        → ((c : Collector W) → (left == 0) ≡ false → IsUp c → Hopeless (again c))
        → Hopeless (walk_retry lib env left again (walk_answer lib env r))
    next-Hopeless left again (out_of_time, c) m h = cc (m.0)
    next-Hopeless left again (panicked, c) m h = cc (m.0)
    next-Hopeless left again (ended none pdus, c) m h = cc (m.0)
    next-Hopeless left again (ended (some e) pdus, c) m h = elim (Bool-cases (left == 0)) [
      | inl z ↦ rw z (cc (m.0), ap (λ b. b && true) m.1.1)
      | inr n ↦ rw n (reconnected (λ d u. h d n u) (reconnect-IsUp (after_answer c)))
    ]
      where
        reconnected :
            ((d : Collector W) → IsUp d → Hopeless (again d))
            → (c' : Collector W) × (reconnect_session lib (after_answer c) ≡ (ok none, c'))
              × IsUp c'
            → Hopeless (retry lib env (some e, pdus) again (reconnect_session lib (after_answer c)))
        reconnected k (c', f, u) =
            subst (λ r. Hopeless (retry lib env (some e, pdus) again r)) (sym f) (k c' u)

    attempts-Hopeless :
        (left : ℕ) (c : Collector W) → IsUp c → Hopeless (walk_attempts lib env (suc left) oid c)
    unfolding walk_attempts
    attempts-Hopeless zero c up =
        next-Hopeless zero (λ d. walk_attempts lib env zero oid d)
          (snmp_walk lib (env.rounds zero) oid c) (walk-Empty (env.rounds zero) c (in_time zero) up)
          (λ d n u. cc n)
    attempts-Hopeless (suc left) c up =
        next-Hopeless (suc left) (λ d. walk_attempts lib env (suc left) oid d)
          (snmp_walk lib (env.rounds (suc left)) oid c)
          (walk-Empty (env.rounds (suc left)) c (in_time (suc left)) up)
          (λ d n u. attempts-Hopeless left d u)

    -- A walk of a device that never answers fails after its attempts with the error that it found nothing,
    -- and Online is true after it. There is a credential and an open session, sessions can be opened
    -- without the device, the identifier can be read, and each attempt has time for one request to fail
    -- before its timeout.
    pub walk-deaf-online :
        (c : Collector W)
        → IsUp c
        → ((walk lib env job oid encode c).0
            ≡ ok
                (failed_job (env.report (walk_prefix lib env no_results) oid no_results) job, none))
          × (online (walk lib env job oid encode c).1 ≡ true)
    unfolding walk
    walk-deaf-online c up = ended_so (walk_attempts lib env 10 oid c) (attempts-Hopeless 9 c up)
      where
        ended_so :
            (r : Outcome (Tried V) × Collector W)
            → Hopeless r
            → ((walk_result lib env job oid encode r).0
                ≡ ok (
                  failed_job (env.report (walk_prefix lib env no_results) oid no_results) job,
                  none,
                ))
              × (online (walk_result lib env job oid encode r).1 ≡ true)
        ended_so (panic, d) h = cc (h.0)
        ended_so (ok (none, pdus), d) h = cc (h.0)
        ended_so (ok (some e, pdus), d) h = (cc (h.0), h.1)
