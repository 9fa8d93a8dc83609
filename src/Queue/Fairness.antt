-- ===== src/Queue/Fairness.antt =====
-- Round-robin: no job that stays due waits for more Pops than there are jobs before it.
use l8collector.Prelude.{
  ℕ, suc, ◌<◌, ◌≡◌, sym, ap, subst, ◌∙◌, ◌⊎◌, inl, inr, true, false, Option, some, List, [], ◌∷◌,
  ◌++◌, length, length-append, In, ok, arith,
}
use mathlib.Core.List.{append_assoc}
use l8collector.Prelude.Int.{ℤ}
use l8collector.Queue.{World, Heap, JobsQueue, pop}
use l8collector.Queue.Visiting.{IsWorld, is_due}
use l8collector.Queue.Selection.{NoneDue}
use l8collector.Queue.Rotation.{IsOpen, pop_first_due}

-- What InsertJob added since the last Pop.
abbrev pub arrive : JobsQueue → List ℕ → JobsQueue
arrive q new = record q { jobs = q.jobs ++ new }

-- Pops of one queue, with what each returned. Between two of them jobs arrive, time passes, and the
-- jobs are executed and changed, but the job at `a` is due at each.
pub data Turns (a : ℕ) : JobsQueue → List (Option ℕ) → Type 0 where
  stop : {q : JobsQueue} → Turns a q []
  turn :
      {q q' : JobsQueue} {popped : List (Option ℕ)} (new : List ℕ) (w : World) (h k : Heap)
      (job : Option ℕ) (t : ℤ)
      → IsWorld w
      → IsOpen w (arrive q new) h
      → is_due w a (h.cell a) ≡ true
      → pop w (some (arrive q new)) h ≡ ok (job, t, some q', k)
      → Turns a q' popped
      → Turns a q (job ∷ popped)

-- In a list that is split at two places the split at the first due job comes first.
later_split :
    (w : World) (h : Heap) (xs : List ℕ) (x : ℕ) (ys us : List ℕ) (v : ℕ) (vs : List ℕ)
    → xs ++ x ∷ ys ≡ us ++ v ∷ vs
    → NoneDue w h xs
    → is_due w v (h.cell v) ≡ true
    → (x ≡ v) ⊎ ((mid : List ℕ) × (us ≡ xs ++ x ∷ mid) × (ys ≡ mid ++ v ∷ vs))
later_split w h [] x ys [] v vs e n d = inl (ground arith)
later_split w h [] x ys (u ∷ us) v vs e n d = inr (us, ground arith, ground arith)
later_split w h (z ∷ xs) x ys [] v vs e n d = ground (arith, n.0)
later_split w h (z ∷ xs) x ys (u ∷ us) v vs e n d =
    elim (later_split w h xs x ys us v vs (ground arith) n.1 d) [
      | inl same ↦ inl same
      | inr (mid, p, q) ↦ inr (mid, ground arith, q)
    ]

NoneDue-at :
    (w : World) (h : Heap) (us : List ℕ) (v : ℕ) (vs : List ℕ)
    → NoneDue w h (us ++ v ∷ vs)
    → is_due w v (h.cell v) ≡ false
NoneDue-at w h [] v vs n = n.0
NoneDue-at w h (u ∷ us) v vs n = NoneDue-at w h us v vs n.1

-- the list after a Pop that took another job
rotated :
    (xs : List ℕ) (x : ℕ) (ys mid : List ℕ) (v : ℕ) (vs : List ℕ)
    → ys ≡ mid ++ v ∷ vs
    → (xs ++ ys) ++ x ∷ [] ≡ (xs ++ mid) ++ v ∷ (vs ++ x ∷ [])
rotated xs x ys mid v vs e = rw e (simp append_assoc)

-- One Pop takes the job, or brings it one place nearer to the front.
pub pop_advances :
    (w : World) (q q' : JobsQueue) (h k : Heap) (job : Option ℕ) (t : ℤ) (before : List ℕ) (a : ℕ)
    (after : List ℕ)
    → IsWorld w
    → IsOpen w q h
    → q.jobs ≡ before ++ a ∷ after
    → is_due w a (h.cell a) ≡ true
    → pop w (some q) h ≡ ok (job, t, some q', k)
    → (job ≡ some a)
      ⊎ ((before' : List ℕ) × (after' : List ℕ) × (q'.jobs ≡ before' ++ a ∷ after')
          × (length before ≡ suc (length before')))
pop_advances w q q' h k job t before a after r o split d e =
    let (k1, same, on, found) = pop_first_due w q h r o in
    elim found [
      | inl m ↦ ground (arith, NoneDue-at w h before a after (subst (NoneDue w h) split m.idle))
      | inr (xs, x, ys, t1, f) ↦
          elim (later_split w h xs x ys before a after (sym f.split ∙ split) f.idle d) [
            | inl same ↦ inl (ground (arith, f.result))
            | inr (mid, p, s) ↦ inr (
              xs ++ mid,
              after ++ x ∷ [],
              ground (arith, f.result, rotated xs x ys mid a after s),
              rw p (omega (arith, length-append xs (x ∷ mid), length-append xs mid)),
            )
          ]
    ]

-- Whatever arrives and happens in between, a job that is due at every Pop is returned by one of the
-- first n + 1, where n jobs stand before it.
pub round_robin :
    (a : ℕ) (q : JobsQueue) (popped : List (Option ℕ)) (before after : List ℕ)
    → Turns a q popped
    → q.jobs ≡ before ++ a ∷ after
    → length before < length popped
    → In (some a) popped
round_robin a q popped before after stop split h = elim h [ ]
round_robin a q popped before after (turn {q'} {popped = rest} new w h k job t r o d e more) split
      lt =
    elim (pop_advances w (arrive q new) q' h k job t before a (after ++ new) r o
      (ap (λ (l : List ℕ). l ++ new) split ∙ append_assoc before (a ∷ after) new) d e) [
        | inl same ↦ inl same
        | inr (before', after', split', len) ↦
            inr (round_robin a q' rest before' after' more split' (omega arith))
      ]
