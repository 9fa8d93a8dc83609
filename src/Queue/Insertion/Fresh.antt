-- ===== src/Queue/Insertion/Fresh.antt =====
-- The branch of InsertJob that adds a job under a new key.
use l8collector.Prelude.{
  ℕ, suc, ◌<◌, ◌≡◌, refl, sym, ap, subst, ◌∙◌, ◌⊎◌, inl, inr, Bool, true, none, some, [], ◌∷◌, ◌++◌,
  String, In, Distinct-snoc, In-append, In-left, In-right, arith, if◌then◌else◌, Bool-cases, ◌==◌,
  ==-self, nat_eq, string_eq,
}
use l8collector.Prelude.Int.{pos}
use l8collector.Prelude.Dict
use l8collector.Prelude.Dict.{get-put}
use l8collector.Types.{CJob, CadencePlan}
use l8collector.Cadence.Bounds.{IsPlan}
use l8collector.Queue.{Heap, JobsQueue, update, key_of, insert_one}
use l8collector.Queue.Visiting.{IsRunnable}
use l8collector.Queue.Invariant.{IsQueue}
use l8collector.Queue.Insertion.{Round}

module _ (smooth : Bool) (job : CJob) (q : JobsQueue) (h : Heap) (v : IsQueue smooth q h)
    (plan : CadencePlan) (e : job.cadence ≡ some plan)
    (fresh : Dict.get (key_of job) q.jobs_map ≡ none) where
  abbrev pub queue_with : JobsQueue
  queue_with = record q {
    jobs_map = Dict.put (key_of job) h.next q.jobs_map;
    jobs = q.jobs ++ h.next ∷ [];
  }

  pub heap_with : Heap
  heap_with = record h { next = suc h.next; cell = update h.cell h.next job }

  cell-new : heap_with.cell h.next ≡ job
  unfolding heap_with
  cell-new = rw (==-self h.next) refl

  cell-below : (a : ℕ) → a < h.next → heap_with.cell a ≡ h.cell a
  unfolding heap_with
  cell-below a lt = ground arith

  cell-In : (a : ℕ) → In a q.jobs → heap_with.cell a ≡ h.cell a
  cell-In a m = cell-below a (v.allocated a m)

  In-with : (a : ℕ) → In a (q.jobs ++ h.next ∷ []) → In a q.jobs ⊎ (h.next ≡ a)
  In-with a m = elim (In-append a q.jobs (h.next ∷ []) m) [
    | inl l ↦ inl l
    | inr (inl p) ↦ inr p
    | inr (inr f) ↦ absurd f
  ]

  get-with :
      (key : String)
      → Dict.get key (Dict.put (key_of job) h.next q.jobs_map)
        ≡ (if key_of job == key then some h.next else Dict.get key q.jobs_map)
  get-with key = get-put (key_of job) key h.next q.jobs_map

  get_self : Dict.get (key_of job) (Dict.put (key_of job) h.next q.jobs_map) ≡ some h.next
  get_self = get-with (key_of job) ∙ rw (==-self (key_of job)) refl

  key_eq : (key : String) → (key_of job == key) ≡ true → key_of job ≡ key
  key_eq key p = (string_eq.same_iff (key_of job) key).0 p

  mapped-with :
      (key : String) (a : ℕ)
      → Dict.get key (Dict.put (key_of job) h.next q.jobs_map) ≡ some a
      → In a (q.jobs ++ h.next ∷ []) × (key_of (heap_with.cell a) ≡ key)
  mapped-with key a p = elim (Bool-cases (key_of job == key)) [
    | inl same ↦
        let n : h.next ≡ a = ground (arith, get-with key) in
        (
          In-right a q.jobs (h.next ∷ []) (inl n),
          subst (λ (x : ℕ). key_of (heap_with.cell x) ≡ key) n
              (ap key_of cell-new ∙ key_eq key same),
        )
    | inr other ↦
        let (m, k) = v.mapped key a (ground (arith, get-with key)) in
        (In-left a q.jobs (h.next ∷ []) m, ap key_of (cell-In a m) ∙ k)
  ]

  listed-old :
      (a : ℕ)
      → In a q.jobs
      → Dict.get (key_of (h.cell a)) (Dict.put (key_of job) h.next q.jobs_map) ≡ some a
  listed-old a m = elim (Bool-cases (key_of job == key_of (h.cell a))) [
    | inl same ↦ cc (
      ap (λ (k : String). Dict.get k q.jobs_map) (key_eq (key_of (h.cell a)) same),
      fresh,
      v.listed a m,
    )
    | inr other ↦ get-with (key_of (h.cell a)) ∙ rw other (v.listed a m)
  ]

  listed-with :
      (a : ℕ)
      → In a (q.jobs ++ h.next ∷ [])
      → Dict.get (key_of (heap_with.cell a)) (Dict.put (key_of job) h.next q.jobs_map) ≡ some a
  listed-with a m = elim (In-with a m) [
    | inl l ↦ rw (cell-In a l) (listed-old a l)
    | inr n ↦
        subst
          (λ (x : ℕ).
            Dict.get (key_of (heap_with.cell x)) (Dict.put (key_of job) h.next q.jobs_map) ≡ some x)
          n (rw cell-new get_self)
  ]

  next-lt : (a : ℕ) → a < h.next → a < heap_with.next
  unfolding heap_with
  next-lt a lt = omega arith

  next_self : h.next < heap_with.next
  unfolding heap_with
  next_self = omega arith

  IsQueue-with : IsPlan smooth plan → IsQueue smooth queue_with heap_with
  IsQueue-with p = record {
    serviced = v.serviced;
    running = v.running;
    distinct =
        Distinct-snoc q.jobs h.next v.distinct (λ m. absurd (omega (arith, v.allocated h.next m)));
    allocated = λ a m. elim (In-with a m) [
      | inl l ↦ next-lt a (v.allocated a l)
      | inr n ↦ rw (← n) next_self
    ];
    mapped = mapped-with;
    listed = listed-with;
    runnable = λ a m. elim (In-with a m) [
      | inl l ↦ subst (IsRunnable smooth) (sym (cell-In a l)) (v.runnable a l)
      | inr n ↦
          subst (λ (x : ℕ). IsRunnable smooth (heap_with.cell x)) n
            (subst (IsRunnable smooth) (sym cell-new) (plan, e, p))
    ];
  }

  mapped-old :
      (key : String) (a : ℕ)
      → Dict.get key q.jobs_map ≡ some a
      → Dict.get key (Dict.put (key_of job) h.next q.jobs_map) ≡ some a
  mapped-old key a g = elim (Bool-cases (key_of job == key)) [
    | inl same ↦ cc (ap (λ (k : String). Dict.get k q.jobs_map) (key_eq key same), fresh, g)
    | inr other ↦ get-with key ∙ rw other g
  ]

  pub new-Round :
      IsPlan smooth plan
      → plan.enabled ≡ true
      → job.started ≡ pos 0
      → job.ended ≡ pos 0
      → Round smooth job q h queue_with heap_with
  unfolding insert_one heap_with
  new-Round p on s d = record {
    result = ground (arith, v.serviced);
    order = IsQueue-with p;
    grows = record {
      appended = (h.next ∷ [], refl);
      kept = λ a m. inl (cell-In a m);
      mapped = λ key a g. mapped-old key a g;
      target = refl;
    };
    scheduled = λ p2 c o. (
      h.next,
      get_self,
      In-right h.next q.jobs (h.next ∷ []) (inl refl),
      ap (λ (j : CJob). j.started) cell-new ∙ s,
      ap (λ (j : CJob). j.ended) cell-new ∙ d,
    );
  }
