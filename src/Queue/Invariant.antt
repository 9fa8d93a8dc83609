-- ===== src/Queue/Invariant.antt =====
-- The list and the map of a queue hold the same jobs, one for each key.
use l8collector.Prelude.{
  ℕ, ◌<◌, ◌≤◌, ◌≡◌, refl, sym, ap, subst, subst₂, ◌∙◌, ◌↔◌, inl, inr, Bool, true, false, Option,
  some, List, [], ◌∷◌, ◌++◌, String, In, Distinct, Distinct-rotate, In-rotate, rotate-In, ok, arith,
  nat_eq, string_eq,
}
use l8collector.Prelude.Int.{ℤ}
use l8collector.Prelude.Dict
use l8collector.Prelude.Dict.{Dict, get-put}
use l8collector.Queue.{World, Heap, JobsQueue, key_of, pop}
use l8collector.Queue.Visiting.{IsRunnable, IsWorld}
use l8collector.Queue.Selection.{SameJobs, AllRunnable}
use l8collector.Queue.Rotation.{IsOpen, pop_first_due}

pub record IsQueue (smooth : Bool) (q : JobsQueue) (h : Heap) : Type 0 where
  pub serviced : q.has_service ≡ true
  pub running : q.shutdown ≡ false
  pub distinct : Distinct q.jobs
  pub allocated : (a : ℕ) → In a q.jobs → a < h.next
  pub mapped :
      (key : String) (a : ℕ)
      → Dict.get key q.jobs_map ≡ some a
      → In a q.jobs × (key_of (h.cell a) ≡ key)
  pub listed : (a : ℕ) → In a q.jobs → Dict.get (key_of (h.cell a)) q.jobs_map ≡ some a
  pub runnable : (a : ℕ) → In a q.jobs → IsRunnable smooth (h.cell a)

-- Same key, plan in order: what a change of a job's other fields leaves alone.
key-SameJobs : (h k : Heap) → SameJobs h k → (a : ℕ) → key_of (k.cell a) ≡ key_of (h.cell a)
key-SameJobs h k same a = ap key_of (same.1 a)

-- A heap that differs in other fields, and a list with the same members.
pub IsQueue-change :
    (smooth : Bool) (q : JobsQueue) (h k : Heap) (jobs : List ℕ)
    → IsQueue smooth q h
    → h.next ≤ k.next
    → ((a : ℕ) → key_of (k.cell a) ≡ key_of (h.cell a))
    → ((a : ℕ) → In a q.jobs → IsRunnable smooth (k.cell a))
    → Distinct jobs
    → ((a : ℕ) → In a jobs ↔ In a q.jobs)
    → IsQueue smooth (record q { jobs = jobs }) k
IsQueue-change smooth q h k jobs v le keys runs d same = record {
  serviced = v.serviced;
  running = v.running;
  distinct = d;
  allocated = λ a m. omega (arith, v.allocated a ((same a).0 m));
  mapped = λ key a e. ((same a).1 (v.mapped key a e).0, keys a ∙ (v.mapped key a e).1);
  listed = λ a m. rw (keys a) (v.listed a ((same a).0 m));
  runnable = λ a m. runs a ((same a).0 m);
}

runnable_all :
    (w : World) (h : Heap) (jobs : List ℕ)
    → ((a : ℕ) → In a jobs → IsRunnable w.smooth (h.cell a))
    → AllRunnable w h jobs
runnable_all w h [] r = tt
runnable_all w h (x ∷ xs) r = (r x (inl refl), runnable_all w h xs (λ a m. r a (inr m)))

pub IsQueue-IsOpen : (w : World) (q : JobsQueue) (h : Heap) → IsQueue w.smooth q h → IsOpen w q h
IsQueue-IsOpen w q h v = record {
  serviced = v.serviced;
  running = v.running;
  distinct = v.distinct;
  runnable = runnable_all w h q.jobs v.runnable;
}

-- What Pop leaves of a queue in order is in order.
pub pop-IsQueue :
    (w : World) (q q' : JobsQueue) (h k : Heap) {job : Option ℕ} {t : ℤ}
    → IsWorld w
    → IsQueue w.smooth q h
    → pop w (some q) h ≡ ok (job, t, some q', k)
    → IsQueue w.smooth q' k
pop-IsQueue w q q' h k r v e =
    let (k1, same, on, found) = pop_first_due w q h r (IsQueue-IsOpen w q h v) in
    let keys = key-SameJobs h k1 same in
    let runs = λ (a : ℕ) (m : In a q.jobs). on a (v.runnable a m) in
    elim found [
      | inl m ↦ subst₂ (IsQueue w.smooth) (ground (arith, m.result)) (ground (arith, m.result)) (
          IsQueue-change w.smooth q h k1 q.jobs v (omega (arith, same.0)) keys runs v.distinct
            (λ a. (λ m. m, λ m. m)))
      | inr (xs, x, ys, t1, f) ↦
          subst₂ (IsQueue w.smooth) (ground (arith, f.result)) (ground (arith, f.result)) (
            IsQueue-change w.smooth q h k1 ((xs ++ ys) ++ x ∷ []) v (omega (arith, same.0)) keys
              runs (Distinct-rotate xs x ys (subst Distinct f.split v.distinct))
              (λ a. (
                λ m. subst (In a) (sym f.split) (In-rotate a xs x ys m),
                λ m. rotate-In a xs x ys (subst (In a) f.split m),
              )))
    ]
