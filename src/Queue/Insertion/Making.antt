-- ===== src/Queue/Insertion/Making.antt =====
-- The jobs that newJobsForKey makes of a pollaris.
use l8collector.Prelude.{
  ◌≡◌, refl, sym, ap, subst, ◌∙◌, ◌⊎◌, inl, inr, Bool, some, List, [], ◌∷◌, String, In, ok,
  Bool-cases, ◌==◌, ==-self, string_eq,
}
use l8collector.Prelude.Int.{pos, int_eq}
use l8collector.Prelude.Dict
use l8collector.Prelude.Dict.{Dict, get-put, get-In, In-put}
use l8collector.Types.{CJob, empty_job, CadencePlan, Poll, Pollaris, Target}
use l8collector.Cadence.{clone_plan, clone_cadence}
use l8collector.Cadence.Bounds.{IsPlan}
use l8collector.Queue.{JobsQueue, new_job_for_key, make_jobs}
use l8collector.Queue.Insertion.Whole.{IsNew}

-- The job of one poll.
abbrev pub job_of : JobsQueue → Target → Pollaris → String → Poll → CJob
job_of q t p n poll = record empty_job {
  job_name = n;
  pollaris_name = p.name;
  cadence = clone_cadence poll.cadence;
  timeout = poll.timeout;
  target_id = t.target_id;
  host_id = q.host_id;
  links_id = t.links_id;
  always = poll.always;
}

-- The poll is there, with a cadence plan in order.
abbrev pub HasPoll : Bool → Pollaris → String → Type 0
HasPoll smooth p n =
    (poll : Poll) × (plan : CadencePlan) × (Dict.get n p.polling ≡ some poll)
    × (poll.cadence ≡ some plan)
    × IsPlan smooth (clone_plan plan)

new_job-job_of :
    (q : JobsQueue) (t : Target) (p : Pollaris) (n : String) (poll : Poll)
    → q.target ≡ some t
    → Dict.get n p.polling ≡ some poll
    → new_job_for_key q p n ≡ ok (job_of q t p n poll)
unfolding new_job_for_key
new_job-job_of q t p n poll e f =
    rw (f, e) (elim (Bool-cases (poll.timeout == pos 0)) [ inl z ↦ rw z refl | inr z ↦ rw z refl ])

job_of-IsNew :
    (smooth : Bool) (q : JobsQueue) (t : Target) (p : Pollaris) (n : String) (poll : Poll)
    (plan : CadencePlan)
    → poll.cadence ≡ some plan
    → IsPlan smooth (clone_plan plan)
    → IsNew smooth (job_of q t p n poll)
unfolding clone_cadence
job_of-IsNew smooth q t p n poll plan e v = record {
  runnable = (clone_plan plan, ap clone_cadence e, v);
  started = refl;
  ended = refl;
}

-- What a map of made jobs holds: jobs in order, and one for each name that was met.
pub record Made (smooth : Bool) (q : JobsQueue) (t : Target) (p : Pollaris) (names : List String)
    (start jobs : Dict String CJob) : Type 0 where
  pub result : make_jobs q p names start ≡ ok jobs
  pub new : (n : String) (job : CJob) → In (n, job) jobs → IsNew smooth job ⊎ In (n, job) start
  pub met :
      (n : String) (poll : Poll)
      → In n names
      → Dict.get n p.polling ≡ some poll
      → Dict.get n jobs ≡ some (job_of q t p n poll)
  pub kept :
      (n : String) (poll : Poll)
      → Dict.get n p.polling ≡ some poll
      → Dict.get n start ≡ some (job_of q t p n poll)
      → Dict.get n jobs ≡ some (job_of q t p n poll)

module _ (smooth : Bool) (q : JobsQueue) (t : Target) (p : Pollaris) (has : q.target ≡ some t) where
  put_kept :
      (n k : String) (poll poll' : Poll) (start : Dict String CJob)
      → Dict.get n p.polling ≡ some poll
      → Dict.get k p.polling ≡ some poll'
      → Dict.get k start ≡ some (job_of q t p k poll')
      → Dict.get k (Dict.put n (job_of q t p n poll) start) ≡ some (job_of q t p k poll')
  put_kept n k poll poll' start e f g = elim (Bool-cases (n == k)) [
    | inl s ↦
        get-put n k (job_of q t p n poll) start ∙ rw s (same_job ((string_eq.same_iff n k).0 s))
    | inr d ↦ get-put n k (job_of q t p n poll) start ∙ rw d g
  ]
    where
      same_job : n ≡ k → some (job_of q t p n poll) ≡ some (job_of q t p k poll')
      same_job s =
          let u : some poll ≡ some poll' =
            sym e ∙ ap (λ (x : String). Dict.get x p.polling) s ∙ f in
          cc (s, u)

  pub make_jobs-Made :
      (names : List String) (start : Dict String CJob)
      → ((n : String) → In n names → HasPoll smooth p n)
      → (jobs : Dict String CJob) × Made smooth q t p names start jobs
  unfolding make_jobs
  make_jobs-Made [] start has_polls = (
    start,
    record {
      result = refl;
      new = λ n job m. inr m;
      met = λ n poll m e. absurd m;
      kept = λ n poll e g. g;
    },
  )
  make_jobs-Made (n ∷ ns) start has_polls =
      let (poll, plan, e, f, v) = has_polls n (inl refl) in
      let job : CJob = job_of q t p n poll in
      let (jobs, m) = make_jobs-Made ns (Dict.put n job start) (λ k i. has_polls k (inr i)) in
      (
        jobs,
        record {
          result = rw (new_job-job_of q t p n poll has e) m.result;
          new = λ k j i. elim (m.new k j i) [
            | inl l ↦ inl l
            | inr r ↦ elim (In-put n job start (k, j) r) [
              | inl s ↦ inl (
                  subst (λ (x : String × CJob). IsNew smooth x.1) s
                    (job_of-IsNew smooth q t p n poll plan f v))
              | inr o ↦ inr o
            ]
          ];
          met = λ k poll' i g. elim i [
            | inl s ↦ m.kept k poll' g (met_now k poll' poll start s e g)
            | inr o ↦ m.met k poll' o g
          ];
          kept = λ k poll' g c. m.kept k poll' g (put_kept n k poll poll' start e g c);
        },
      )
    where
      met_now :
          (k : String) (poll' poll : Poll) (start : Dict String CJob)
          → n ≡ k
          → Dict.get n p.polling ≡ some poll
          → Dict.get k p.polling ≡ some poll'
          → Dict.get k (Dict.put n (job_of q t p n poll) start) ≡ some (job_of q t p k poll')
      met_now k poll' poll start s e g =
          let u : some poll ≡ some poll' =
            sym e ∙ ap (λ (x : String). Dict.get x p.polling) s ∙ g in
          get-put n k (job_of q t p n poll) start ∙ rw (s, ==-self k) (cc u)
