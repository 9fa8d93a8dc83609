-- ===== src/Queue/Rotation.antt =====
-- Pop as a whole, and the rotation of the list.
use l8collector.Prelude.{
  ℕ, suc, ◌≡◌, refl, ap, ◌∙◌, ◌⊎◌, inl, inr, true, false, none, some, List, [], ◌∷◌, ◌++◌, length,
  get_elem?, take, drop, Distinct, ok, arith,
}
use l8collector.Prelude.Int.{ℤ}
use l8collector.Queue.{World, Heap, JobsQueue, scan, move_to_last, pop_live, pop, first_wait}
use l8collector.Queue.Visiting.{IsWorld, is_due}
use l8collector.Queue.Selection.{SameJobs, RunsOn, NoneDue, AllRunnable, shortest, scan-Scanned}

module _ {A : Type 0} where
  get_elem?-split :
      (xs : List A) (a : A) (ys : List A) → get_elem? (xs ++ a ∷ ys) (length xs) ≡ some a
  get_elem?-split [] a ys = refl
  get_elem?-split (x ∷ xs) a ys = get_elem?-split xs a ys

  take-split : (xs ys : List A) → take (length xs) (xs ++ ys) ≡ xs
  take-split [] ys = refl
  take-split (x ∷ xs) ys = ap (◌∷◌ x) (take-split xs ys)

  drop-split : (xs : List A) (a : A) (ys : List A) → drop (suc (length xs)) (xs ++ a ∷ ys) ≡ ys
  drop-split [] a ys = refl
  drop-split (x ∷ xs) a ys = drop-split xs a ys

-- The job at the index moves behind the others, which keep their order.
pub move_to_last-split :
    (before : List ℕ) (a : ℕ) (after : List ℕ)
    → move_to_last (some (length before)) (before ++ a ∷ after) ≡ ok ((before ++ after) ++ a ∷ [])
unfolding move_to_last
move_to_last-split before a after =
    rw (get_elem?-split before a after, take-split before (a ∷ after), drop-split before a after)

-- An open queue of distinct jobs that Pop can look at.
pub record IsOpen (w : World) (q : JobsQueue) (h : Heap) : Type 0 where
  pub serviced : q.has_service ≡ true
  pub running : q.shutdown ≡ false
  pub distinct : Distinct q.jobs
  pub runnable : AllRunnable w h q.jobs

-- Pop found nothing to do.
pub record Idle (w : World) (q : JobsQueue) (h k : Heap) : Type 0 where
  pub idle : NoneDue w h q.jobs
  pub result : pop w (some q) h ≡ ok (none, shortest w h q.jobs first_wait, some q, k)

-- Pop took `a`, and put it behind the others.
pub record Taken (w : World) (q : JobsQueue) (h k : Heap) (before : List ℕ) (a : ℕ) (after : List ℕ)
    (t : ℤ) : Type 0 where
  pub split : q.jobs ≡ before ++ a ∷ after
  pub idle : NoneDue w h before
  pub due : is_due w a (h.cell a) ≡ true
  pub result :
      pop w (some q) h ≡ ok (some a, t, some (record q { jobs = (before ++ after) ++ a ∷ [] }), k)

abbrev pub TakesFirst : World → JobsQueue → Heap → Heap → Type 0
TakesFirst w q h k =
    (before : List ℕ) × (a : ℕ) × (after : List ℕ) × (t : ℤ) × Taken w q h k before a after t

pop_of_miss :
    (w : World) (q : JobsQueue) (h k : Heap) {t : ℤ}
    → q.has_service ≡ true
    → q.shutdown ≡ false
    → scan w q.jobs 0 first_wait h ≡ ok (none, t, k)
    → pop w (some q) h ≡ ok (none, t, some q, k)
unfolding pop pop_live move_to_last
pop_of_miss w q h k s r e = ground arith

pop_of_hit :
    (w : World) (q : JobsQueue) (h k : Heap) (i a : ℕ) (jobs : List ℕ) {t : ℤ}
    → q.has_service ≡ true
    → q.shutdown ≡ false
    → scan w q.jobs 0 first_wait h ≡ ok (some (record { index = i; job = a }), t, k)
    → move_to_last (some i) q.jobs ≡ ok jobs
    → pop w (some q) h ≡ ok (some a, t, some (record q { jobs = jobs }), k)
unfolding pop pop_live
pop_of_hit w q h k i a jobs s r e m = ground arith

-- On an open queue Pop returns. It takes the first job of the list that is due and moves it behind the
-- others, whose order it keeps; or nothing is due, the queue is as it was, and the wait is the shortest
-- of the jobs' waits and 999999. In the heap it changes start-up delays alone.
pub pop_first_due :
    (w : World) (q : JobsQueue) (h : Heap)
    → IsWorld w
    → IsOpen w q h
    → (k : Heap) × SameJobs h k × RunsOn w h k × (Idle w q h k ⊎ TakesFirst w q h k)
pop_first_due w q h r o =
    let (k, same, on, found) = scan-Scanned w q.jobs 0 first_wait h r o.distinct o.runnable in
    (
      k,
      same,
      on,
      elim found [
        | inl m ↦
            inl
              (record { idle = m.idle; result = pop_of_miss w q h k o.serviced o.running m.result })
        | inr (before, a, after, t, f) ↦ inr (
          before,
          a,
          after,
          t,
          record {
            split = f.split;
            idle = f.idle;
            due = f.is_due;
            result =
                pop_of_hit w q h k (length before) a _ o.serviced o.running
                  (f.result
                    ∙ ap (λ (n : ℕ). ok (some (record { index = n; job = a }), t, k)) (omega arith))
                  (ap (move_to_last (some (length before))) f.split
                    ∙ move_to_last-split before a after);
          },
        )
      ],
    )
