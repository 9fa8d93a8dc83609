-- ===== src/Queue/Expediting.antt =====
-- Expedite makes the enabled jobs due.
use l8collector.Prelude.{
  ℕ, ◌≡◌, ◌≢◌, refl, sym, ap, subst, ◌∙◌, inl, inr, Bool, true, false, not, none, some, List, [],
  ◌∷◌, In, Distinct, ok, ok-injective, arith, if◌then◌else◌, nat_eq,
}
use l8collector.Prelude.Int.{ℤ, pos, ◌≤ℤ◌, ◌+ℤ◌}
use l8collector.Types.{CJob, CadencePlan}
use l8collector.Cadence.{index}
use l8collector.Queue.{World, Heap, JobsQueue, store, expedite, expedite_all}
use l8collector.Queue.Visiting.{IsRunnable, is_due, is_due-steady}
use l8collector.Queue.Invariant.{IsQueue}

-- What Expedite makes of a job.
abbrev pub hurried : CJob → CJob
hurried j = elim j.cadence [
  | none ↦ j
  | some plan ↦ if not plan.enabled then j else record j { ended = pos 0 }
]

pub record Hurried (jobs : List ℕ) (h k : Heap) : Type 0 where
  pub listed : (a : ℕ) → In a jobs → k.cell a ≡ hurried (h.cell a)
  pub others : (a : ℕ) → (¬ In a jobs) → k.cell a ≡ h.cell a
  pub next : k.next ≡ h.next

hurry_one : (a : ℕ) (h : Heap) (plan : CadencePlan) → Heap
hurry_one a h plan = if not plan.enabled then h else store h a (record (h.cell a) { ended = pos 0 })

module _ (a : ℕ) (h : Heap) (plan : CadencePlan) (e : (h.cell a).cadence ≡ some plan) where
  hurry_one_self : (hurry_one a h plan).cell a ≡ hurried (h.cell a)
  unfolding hurry_one
  hurry_one_self = ground arith

  hurry_one-ne : (b : ℕ) → a ≢ b → (hurry_one a h plan).cell b ≡ h.cell b
  unfolding hurry_one
  hurry_one-ne b d = ground arith

  hurry_one-next : (hurry_one a h plan).next ≡ h.next
  unfolding hurry_one
  hurry_one-next = ground arith

expedite_all-step :
    (a : ℕ) (rest : List ℕ) (h k : Heap) (plan : CadencePlan)
    → (h.cell a).cadence ≡ some plan
    → expedite_all rest (hurry_one a h plan) ≡ ok k
    → expedite_all (a ∷ rest) h ≡ ok k
unfolding expedite_all hurry_one
expedite_all-step a rest h k plan e f = ground arith

expedite_all-Hurried :
    (smooth : Bool) (jobs : List ℕ) (h : Heap)
    → Distinct jobs
    → ((a : ℕ) → In a jobs → IsRunnable smooth (h.cell a))
    → (k : Heap) × (expedite_all jobs h ≡ ok k) × Hurried jobs h k
unfolding expedite_all
expedite_all-Hurried smooth [] h d r =
    (h, refl, record { listed = λ a m. absurd m; others = λ a n. refl; next = refl })
expedite_all-Hurried smooth (a ∷ rest) h d r =
    let (plan, e, p) = r a (inl refl) in
    let h1 : Heap = hurry_one a h plan in
    let apart = λ (b : ℕ) (m : In b rest).
      hurry_one-ne a h plan e b (λ s. d.0 (subst (λ (x : ℕ). In x rest) (sym s) m)) in
    let (k, f, g) =
      expedite_all-Hurried smooth rest h1 d.1
        (λ b m. subst (IsRunnable smooth) (sym (apart b m)) (r b (inr m))) in
    (
      k,
      expedite_all-step a rest h k plan e f,
      record {
        listed = λ b m. elim m [
          | inl s ↦
              subst (λ (x : ℕ). k.cell x ≡ hurried (h.cell x)) s
                (g.others a d.0 ∙ hurry_one_self a h plan e)
          | inr o ↦ g.listed b o ∙ ap hurried (apart b o)
        ];
        others = λ b n. g.others b (λ m. n (inr m)) ∙ hurry_one-ne a h plan e b (λ s. n (inl s));
        next = g.next ∙ hurry_one-next a h plan e;
      },
    )

-- On a queue in order Expedite returns. It sets `Ended` of the enabled jobs of the queue to 0, and
-- changes nothing else in the heap.
pub expedite-Hurried :
    (smooth : Bool) (q : JobsQueue) (h : Heap)
    → IsQueue smooth q h
    → (k : Heap) × (expedite (some q) h ≡ ok k) × Hurried q.jobs h k
unfolding expedite
expedite-Hurried smooth q h v =
    let (k, e, g) = expedite_all-Hurried smooth q.jobs h v.distinct v.runnable in
    (k, rw v.running e, g)

-- With SmoothFirstCollection off, on a queue in order, after Expedite each enabled job of the queue whose cadence is at most the
-- time since the epoch is due.
pub expedite_due :
    (w : World) (q : JobsQueue) (h k : Heap) (a : ℕ) (plan : CadencePlan) (n : ℤ)
    → w.smooth ≡ false
    → IsQueue false q h
    → expedite (some q) h ≡ ok k
    → In a q.jobs
    → (h.cell a).cadence ≡ some plan
    → plan.enabled ≡ true
    → index plan.cadences plan.current ≡ ok n
    → n ≤ℤ w.now
    → is_due w a (k.cell a) ≡ true
unfolding ◌+ℤ◌
expedite_due w q h k a plan n s v x m e on at le =
    let (k1, f, g) = expedite-Hurried false q h v in
    let c : k.cell a ≡ record (h.cell a) { ended = pos 0 } =
      ap (λ (z : Heap). z.cell a) (ok-injective (sym x ∙ f)) ∙ g.listed a m ∙ ground arith in
    subst (λ j. is_due w a j ≡ true) (sym c)
      ((is_due-steady w a (record (h.cell a) { ended = pos 0 }) plan n s e at).1 (on, ground arith))
