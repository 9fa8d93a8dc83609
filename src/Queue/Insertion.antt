-- ===== src/Queue/Insertion.antt =====
-- InsertJob keeps a queue in order, schedules each enabled job at once, and adds none twice.
pub mod Fresh
pub mod Whole
pub mod Making
pub mod Polls
use l8collector.Prelude.{
  ℕ, zero, suc, ◌+◌, ◌<◌, ◌≤◌, ◌≡◌, ◌≢◌, refl, sym, ap, subst, subst₂, ◌∙◌, ◌⊎◌, ◌↔◌, inl, inr,
  Bool, true, false, Option, none, some, List, [], ◌∷◌, ◌++◌, String, All, In, Distinct,
  Distinct-snoc, In-append, In-left, In-right, Outcome, ok, panic, ◌>>=◌, arith, if◌then◌else◌,
  Bool-cases, Option-cases, ◌==◌, ==-self, nat_eq, string_eq,
}
use mathlib.Core.List.{append-nil, append_assoc}
use l8collector.Prelude.Int.{ℤ, pos}
use l8collector.Prelude.Dict
use l8collector.Prelude.Dict.{Dict, get-put}
use l8collector.Types.{CJob, CadencePlan}
use l8collector.Cadence.Bounds.{IsPlan}
use l8collector.Queue.{World, Heap, JobsQueue, update, store, key_of, insert_one, insert_all}
use l8collector.Queue.Visiting.{IsRunnable}
use l8collector.Queue.Invariant.{IsQueue, IsQueue-change}

abbrev pub reset : CJob → CJob
reset j = record j { started = pos 0; ended = pos 0 }

-- The jobs that were there keep their places, their keys and their cadence, and are reset or as before.
pub record Grows (q : JobsQueue) (h : Heap) (q' : JobsQueue) (h' : Heap) : Type 0 where
  pub appended : (new : List ℕ) × (q'.jobs ≡ q.jobs ++ new)
  pub kept : (a : ℕ) → In a q.jobs → (h'.cell a ≡ h.cell a) ⊎ (h'.cell a ≡ reset (h.cell a))
  pub mapped :
      (key : String) (a : ℕ) → Dict.get key q.jobs_map ≡ some a → Dict.get key q'.jobs_map ≡ some a
  pub target : q'.target ≡ q.target

-- A job with the key is in the queue, and counts as never run.
abbrev pub Scheduled : JobsQueue → Heap → String → Type 0
Scheduled q h key =
    (a : ℕ) × (Dict.get key q.jobs_map ≡ some a)
    × In a q.jobs
    × ((h.cell a).started ≡ pos 0)
    × ((h.cell a).ended ≡ pos 0)

pub Grows-refl : (q : JobsQueue) (h : Heap) → Grows q h q h
Grows-refl q h = record {
  appended = ([], sym (append-nil q.jobs));
  kept = λ a m. inl refl;
  mapped = λ key a e. e;
  target = refl;
}

reset_twice :
    (j k l : CJob) → (k ≡ j) ⊎ (k ≡ reset j) → (l ≡ k) ⊎ (l ≡ reset k) → (l ≡ j) ⊎ (l ≡ reset j)
reset_twice j k l (inl p) (inl q) = inl (q ∙ p)
reset_twice j k l (inl p) (inr q) = inr (q ∙ ap reset p)
reset_twice j k l (inr p) (inl q) = inr (q ∙ p)
reset_twice j k l (inr p) (inr q) = inr (q ∙ ap reset p)

pub Grows-trans :
    (q q1 q2 : JobsQueue) (h h1 h2 : Heap) → Grows q h q1 h1 → Grows q1 h1 q2 h2 → Grows q h q2 h2
Grows-trans q q1 q2 h h1 h2 g k =
    let (xs, e) = g.appended in
    let (ys, f) = k.appended in
    record {
      appended = (xs ++ ys, f ∙ ap (λ (l : List ℕ). l ++ ys) e ∙ append_assoc q.jobs xs ys);
      kept = λ a m.
          reset_twice (h.cell a) (h1.cell a) (h2.cell a) (g.kept a m)
            (k.kept a (subst (In a) (sym e) (In-left a q.jobs xs m)));
      mapped = λ key a p. k.mapped key a (g.mapped key a p);
      target = k.target ∙ g.target;
    }

reset_fields :
    (j k : CJob)
    → (k ≡ j) ⊎ (k ≡ reset j)
    → j.started ≡ pos 0
    → j.ended ≡ pos 0
    → (k.started ≡ pos 0) × (k.ended ≡ pos 0)
reset_fields j k (inl p) s e =
    (ap (λ (x : CJob). x.started) p ∙ s, ap (λ (x : CJob). x.ended) p ∙ e)
reset_fields j k (inr p) s e = (ap (λ (x : CJob). x.started) p, ap (λ (x : CJob). x.ended) p)

-- What is scheduled stays scheduled.
pub Scheduled-Grows :
    (q q' : JobsQueue) (h h' : Heap) (key : String)
    → Grows q h q' h'
    → Scheduled q h key
    → Scheduled q' h' key
Scheduled-Grows q q' h h' key g (a, e, m, s, d) =
    let (new, p) = g.appended in
    let (s', d') = reset_fields (h.cell a) (h'.cell a) (g.kept a m) s d in
    (a, g.mapped key a e, subst (In a) (sym p) (In-left a q.jobs new m), s', d')

-- What one round of the range in InsertJob does.
pub record Round (smooth : Bool) (job : CJob) (q : JobsQueue) (h : Heap) (q' : JobsQueue)
    (h' : Heap) : Type 0 where
  pub result : insert_one job q h ≡ ok (q', h')
  pub order : IsQueue smooth q' h'
  pub grows : Grows q h q' h'
  pub scheduled :
      (plan : CadencePlan)
      → job.cadence ≡ some plan
      → plan.enabled ≡ true
      → Scheduled q' h' (key_of job)

module _ (smooth : Bool) (job : CJob) (q : JobsQueue) (h : Heap) (v : IsQueue smooth q h)
    (plan : CadencePlan) (e : job.cadence ≡ some plan) where
  pub off-Round : plan.enabled ≡ false → Round smooth job q h q h
  unfolding insert_one
  off-Round off = record {
    result = ground arith;
    order = v;
    grows = Grows-refl q h;
    scheduled = λ p c on. ground arith;
  }

  module _ (old : ℕ) (at : Dict.get (key_of job) q.jobs_map ≡ some old) where
    pub after_reset : Heap
    after_reset = store h old (reset (h.cell old))

    cell-after_reset :
        (a : ℕ)
        → ((a ≡ old) × (after_reset.cell a ≡ reset (h.cell a))) ⊎ (after_reset.cell a ≡ h.cell a)
    unfolding after_reset
    cell-after_reset a = elim (Bool-cases (old == a)) [
      | inl s ↦
          let p = (nat_eq.same_iff old a).0 s in
          inl (sym p, rw s (ap (λ (n : ℕ). reset (h.cell n)) p))
      | inr d ↦ inr (rw d refl)
    ]

    key-after_reset : (a : ℕ) → key_of (after_reset.cell a) ≡ key_of (h.cell a)
    key-after_reset a = elim (cell-after_reset a) [ inl (s, p) ↦ ap key_of p | inr p ↦ ap key_of p ]

    run-after_reset :
        (a : ℕ) → IsRunnable smooth (h.cell a) → IsRunnable smooth (after_reset.cell a)
    run-after_reset a r = elim (cell-after_reset a) [
      | inl (s, p) ↦ subst (IsRunnable smooth) (sym p) r
      | inr p ↦ subst (IsRunnable smooth) (sym p) r
    ]

    pub old-Round : plan.enabled ≡ true → Round smooth job q h q after_reset
    unfolding insert_one after_reset
    old-Round on = record {
      result = ground arith;
      order =
          IsQueue-change smooth q h after_reset q.jobs v (omega arith) key-after_reset
            (λ a m. run-after_reset a (v.runnable a m)) v.distinct (λ a. (λ m. m, λ m. m));
      grows = record {
        appended = ([], sym (append-nil q.jobs));
        kept = λ a m. elim (cell-after_reset a) [ inl (s, p) ↦ inr p | inr p ↦ inl p ];
        mapped = λ key a p. p;
        target = refl;
      };
      scheduled = λ p c o.
          (old, at, (v.mapped (key_of job) old at).0, rw (==-self old) refl, rw (==-self old) refl);
    }
