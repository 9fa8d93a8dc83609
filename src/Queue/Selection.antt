-- ===== src/Queue/Selection.antt =====
-- Which job Pop takes: the first of the list that is due.
use l8collector.Prelude.{
  ℕ, suc, ◌+◌, ◌≡◌, ◌≢◌, refl, sym, ap, subst, ◌∙◌, ◌⊎◌, inl, inr, true, false, Option, none, some,
  List, [], ◌∷◌, ◌++◌, length, All, In, Distinct, Outcome, ok, arith, if◌then◌else◌, Bool-cases,
  ◌==◌, nat_eq,
}
use l8collector.Prelude.Int.{ℤ, ltb_ℤ}
use l8collector.Types.{CJob}
use l8collector.Queue.{World, Heap, Found, Visit, disabled, due, later, visit, scan, store}
use l8collector.Queue.Visiting.{
  due?, IsRunnable, IsWorld, is_due, wait_of, visit-total, visit-keeps, forget_startups,
}

-- The loop has the shortest of the waits and `wait`.
unfoldable pub shortest : World → Heap → List ℕ → ℤ → ℤ
shortest w h [] wait = wait
shortest w h (a ∷ rest) wait =
    shortest w h rest
      (elim (wait_of w a (h.cell a)) [ none ↦ wait | some t ↦ if ltb_ℤ t wait then t else wait ])

-- Heaps that agree on all jobs but for the start-up delays.
abbrev pub SameJobs : Heap → Heap → Type 0
SameJobs h k =
    (k.next ≡ h.next) × ((b : ℕ) → forget_startups (k.cell b) ≡ forget_startups (h.cell b))

abbrev pub AllRunnable : World → Heap → List ℕ → Type 0
AllRunnable w h = All (λ a. IsRunnable w.smooth (h.cell a))

-- What Pop can look at, it can look at afterwards.
abbrev pub RunsOn : World → Heap → Heap → Type 0
RunsOn w h k = (b : ℕ) → IsRunnable w.smooth (h.cell b) → IsRunnable w.smooth (k.cell b)

abbrev pub NoneDue : World → Heap → List ℕ → Type 0
NoneDue w h = All (λ a. is_due w a (h.cell a) ≡ false)

-- Nothing is due.
pub record Miss (w : World) (h : Heap) (jobs : List ℕ) (wait : ℤ) (k : Heap)
    (r : Outcome (Option Found × ℤ × Heap)) : Type 0 where
  pub idle : NoneDue w h jobs
  pub result : r ≡ ok (none, shortest w h jobs wait, k)

-- `a` is the first job that is due.
pub record Hit (w : World) (h : Heap) (jobs : List ℕ) (i : ℕ) (before : List ℕ) (a : ℕ)
    (after : List ℕ) (t : ℤ) (k : Heap) (r : Outcome (Option Found × ℤ × Heap)) : Type 0 where
  pub split : jobs ≡ before ++ a ∷ after
  pub idle : NoneDue w h before
  pub is_due : is_due w a (h.cell a) ≡ true
  pub result : r ≡ ok (some (record { index = i + length before; job = a }), t, k)

abbrev pub Scanned : World → Heap → List ℕ → ℕ → ℤ → Outcome (Option Found × ℤ × Heap) → Type 0
Scanned w h jobs i wait r =
    (k : Heap) × SameJobs h k
    × RunsOn w h k
    × (Miss w h jobs wait k r
        ⊎ ((before : List ℕ) × (a : ℕ) × (after : List ℕ) × (t : ℤ) × Hit w h jobs i before a after
              t k r))

-- a job that is not in the list is the same after the write
cell-store : (h : Heap) (a : ℕ) (j : CJob) (b : ℕ) → a ≢ b → (store h a j).cell b ≡ h.cell b
cell-store h a j b d = ground arith

abbrev Agree : Heap → Heap → List ℕ → Type 0
Agree h k = All (λ b. k.cell b ≡ h.cell b)

Agree-store : (h : Heap) (a : ℕ) (j : CJob) (bs : List ℕ) → ¬ In a bs → Agree h (store h a j) bs
Agree-store h a j [] d = tt
Agree-store h a j (b ∷ bs) d =
    (cell-store h a j b (λ e. d (inl (sym e))), Agree-store h a j bs (λ m. d (inr m)))

module _ (w : World) (h k : Heap) where
  AllRunnable-Agree : (bs : List ℕ) → Agree h k bs → AllRunnable w h bs → AllRunnable w k bs
  AllRunnable-Agree [] g r = tt
  AllRunnable-Agree (b ∷ bs) g r =
      (subst (IsRunnable w.smooth) (sym g.0) r.0, AllRunnable-Agree bs g.1 r.1)

  NoneDue-Agree : (bs : List ℕ) → Agree h k bs → NoneDue w k bs → NoneDue w h bs
  NoneDue-Agree [] g r = tt
  NoneDue-Agree (b ∷ bs) g r = (subst (λ j. is_due w b j ≡ false) g.0 r.0, NoneDue-Agree bs g.1 r.1)

  shortest-Agree : (bs : List ℕ) (t : ℤ) → Agree h k bs → shortest w k bs t ≡ shortest w h bs t
  unfolding shortest
  shortest-Agree [] t g = refl
  shortest-Agree (b ∷ bs) t g = rw g.0 (shortest-Agree bs _ g.1)

Agree-left : (h k : Heap) (xs ys : List ℕ) → Agree h k (xs ++ ys) → Agree h k xs
Agree-left h k [] ys g = tt
Agree-left h k (x ∷ xs) ys g = (g.0, Agree-left h k xs ys g.1)

module _ (w : World) (h : Heap) (a : ℕ) (j : CJob) where
  SameJobs-store : forget_startups j ≡ forget_startups (h.cell a) → SameJobs h (store h a j)
  SameJobs-store same = (
    refl,
    λ b. elim (Bool-cases (a == b)) [
      | inl e ↦ rw e (same ∙ ap (λ (n : ℕ). forget_startups (h.cell n)) ((nat_eq.same_iff a b).0 e))
      | inr e ↦ rw e refl
    ],
  )

  RunsOn-store : IsRunnable w.smooth j → RunsOn w h (store h a j)
  RunsOn-store runs b r = elim (Bool-cases (a == b)) [ inl e ↦ rw e runs | inr e ↦ rw e r ]

-- One round that goes on: the job at `a` was not due.
module _ (w : World) (h : Heap) (a : ℕ) (j : CJob) (rest : List ℕ) (fresh : ¬ In a rest)
    (same : forget_startups j ≡ forget_startups (h.cell a)) (runs : IsRunnable w.smooth j)
    (wait wait' : ℤ) (idle : is_due w a (h.cell a) ≡ false)
    (waits : shortest w h (a ∷ rest) wait ≡ shortest w h rest wait') where
  Scanned-store :
      (i : ℕ) (r : Outcome (Option Found × ℤ × Heap))
      → Scanned w (store h a j) rest (suc i) wait' r
      → Scanned w h (a ∷ rest) i wait r
  Scanned-store i r (k, sames, on, found) =
      let agree = Agree-store h a j rest fresh in
      (
        k,
        (sames.0, λ b. sames.1 b ∙ (SameJobs-store w h a j same).1 b),
        (λ b s. on b (RunsOn-store w h a j runs b s)),
        elim found [
          | inl m ↦ inl (record {
            idle = (idle, NoneDue-Agree w h (store h a j) rest agree m.idle);
            result =
                m.result
                ∙ ap (λ t. ok (none, t, k))
                    (shortest-Agree w h (store h a j) rest wait' agree ∙ sym waits);
          })
          | inr (before, x, after, t, f) ↦ inr (
            a ∷ before,
            x,
            after,
            t,
            record {
              split = ap (◌∷◌ a) f.split;
              idle = (
                idle,
                NoneDue-Agree w h (store h a j) before
                    (Agree-left h (store h a j) before (x ∷ after)
                      (subst (Agree h (store h a j)) f.split agree))
                    f.idle,
              );
              is_due = cell-due x before after f.split f.is_due;
              result =
                  f.result
                  ∙ ap (λ (n : ℕ). ok (some (record { index = n; job = x }), t, k)) (omega arith);
            },
          )
        ],
      )
    where
      Agree-at :
          (x : ℕ) (ys zs : List ℕ)
          → Agree h (store h a j) (ys ++ x ∷ zs)
          → (store h a j).cell x ≡ h.cell x
      Agree-at x [] zs g = g.0
      Agree-at x (y ∷ ys) zs g = Agree-at x ys zs g.1

      cell-due :
          (x : ℕ) (ys zs : List ℕ)
          → rest ≡ ys ++ x ∷ zs
          → is_due w x ((store h a j).cell x) ≡ true
          → is_due w x (h.cell x) ≡ true
      cell-due x ys zs e d =
          subst (λ c. is_due w x c ≡ true)
            (Agree-at x ys zs (subst (Agree h (store h a j)) e (Agree-store h a j rest fresh))) d

is_due-visit :
    (w : World) (a : ℕ) (j : CJob) {v : Visit} {j' : CJob}
    → visit w a j ≡ ok (v, j')
    → is_due w a j ≡ due? (ok (v, j'))
unfolding is_due
is_due-visit w a j e = ap due? e

module _ (w : World) (h : Heap) (a : ℕ) (rest : List ℕ) (i : ℕ) (wait : ℤ) (fresh : ¬ In a rest)
    (ran : IsRunnable w.smooth (h.cell a)) where
  scan-visited :
      (v : Visit) (j : CJob)
      → visit w a (h.cell a) ≡ ok (v, j)
      → IsRunnable w.smooth j
      → ((wait' : ℤ)
          → Scanned w (store h a j) rest (suc i) wait' (scan w rest (suc i) wait' (store h a j)))
      → Scanned w h (a ∷ rest) i wait (scan w (a ∷ rest) i wait h)
  unfolding scan shortest wait_of
  scan-visited disabled j e runs ih = rw e (
      Scanned-store w h a j rest fresh (visit-keeps w a (h.cell a) j disabled e) runs wait wait
        (is_due-visit w a (h.cell a) e) (rw e refl) i _ (ih wait))
  scan-visited (later t) j e runs ih = rw e (
      Scanned-store w h a j rest fresh (visit-keeps w a (h.cell a) j (later t) e) runs wait
        (if ltb_ℤ t wait then t else wait) (is_due-visit w a (h.cell a) e) (rw e refl) i _
        (ih (if ltb_ℤ t wait then t else wait)))
  scan-visited due j e runs ih =
      let same = visit-keeps w a (h.cell a) j due e in
      (
        store h a j,
        SameJobs-store w h a j same,
        RunsOn-store w h a j runs,
        inr (
          [],
          a,
          rest,
          wait,
          record {
            split = refl;
            idle = tt;
            is_due = is_due-visit w a (h.cell a) e;
            result = rw e (
                ap (λ (n : ℕ). ok (some (record { index = n; job = a }), wait, store h a j))
                  (omega arith));
          },
        ),
      )

-- The loop of Pop over distinct jobs that it can look at returns, and it stops at the first that is due.
pub scan-Scanned :
    (w : World) (jobs : List ℕ) (i : ℕ) (wait : ℤ) (h : Heap)
    → IsWorld w
    → Distinct jobs
    → AllRunnable w h jobs
    → Scanned w h jobs i wait (scan w jobs i wait h)
unfolding scan shortest
scan-Scanned w [] i wait h r d all =
    (h, (refl, λ b. refl), (λ b s. s), inl (record { idle = tt; result = refl }))
scan-Scanned w (a ∷ rest) i wait h r d all =
    let (v, j, e, runs) = visit-total w a (h.cell a) r all.0 in
    scan-visited w h a rest i wait d.0 all.0 v j e runs λ wait'.
      scan-Scanned w rest (suc i) wait' (store h a j) r d.1
        (AllRunnable-Agree w h (store h a j) rest (Agree-store h a j rest d.0) all.1)
