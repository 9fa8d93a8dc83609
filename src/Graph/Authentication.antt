-- ===== src/Graph/Authentication.antt =====
-- How often the GraphQL collector authenticates.
use l8collector.Prelude.{
  ℕ, suc, ◌+◌, ◌≡◌, refl, ap, ◌∙◌, false, Option, none, some, String, List, [], ◌∷◌, ◌⊎◌, inl, inr,
  Outcome, ok, panic, ◌>>=◌, bind_ok, length, arith,
}
use l8collector.Types.{CJob}
use l8collector.Graph.{
  Library, GraphPoll, GraphQlCollector, connect, exec_connected, exec, answered,
}

-- the client with a counter of its authentications
abbrev pub counted : {W R : Type 0} → Library W R → Library (W × ℕ) R
counted lib = record {
  credential = lib.credential;
  new_client = λ c. elim (lib.new_client c) [ inl e ↦ inl e | inr w ↦ inr (w, 0) ];
  auth = λ u p w. ((lib.auth u p w.0).0, ((lib.auth u p w.0).1, suc w.1));
  query = λ q r w. ((lib.query q r w.0).0, ((lib.query q r w.0).1, w.1));
  marshal = lib.marshal;
}

-- The jobs of a list, one after the other.
unfoldable pub exec_jobs :
    {W R : Type 0}
    → Library W R
    → List ((String ⊎ GraphPoll) × CJob)
    → GraphQlCollector W
    → Outcome (List CJob × GraphQlCollector W)
unfolding exec
exec_jobs lib [] c = ok ([], c)
exec_jobs lib ((poll, job) ∷ jobs) c =
    exec lib poll job c >>= λ p. exec_jobs lib jobs p.1 >>= λ q. ok (p.0 ∷ q.0, q.1)

abbrev pub ready : {W : Type 0} → W → ℕ → GraphQlCollector (W × ℕ)
ready w n = record { client = some (w, n); connected = false }

module _ {W R : Type 0} (lib : Library W R) where
  answered_keeps :
      (job : CJob) (a : String ⊎ R) (v : W) (m : ℕ)
      → (answered (counted lib) job (a, (v, m))).1 ≡ (v, m)
  answered_keeps job (inl e) v m = refl
  answered_keeps job (inr r) v m = refl

  exec_connected_keeps :
      (poll : String ⊎ GraphPoll) (job : CJob) (x : Option String) (u : W) (m : ℕ)
      → (v : W) × ((exec_connected (counted lib) poll job (x, (u, m))).1 ≡ (v, m))
  exec_connected_keeps poll job (some e) u m = (u, refl)
  exec_connected_keeps (inl e) job none u m = (u, refl)
  exec_connected_keeps (inr p) job none u m =
      let r = lib.query p.0 p.1 u in (r.1, answered_keeps job r.0 r.1 m)

  connected_once :
      (w : W) (n : ℕ) (p : String × String)
      → lib.credential ≡ some p
      → connect (counted lib) (w, n) ≡ ok ((lib.auth p.0 p.1 w).0, ((lib.auth p.0 p.1 w).1, suc n))
  unfolding connect
  connected_once w n p e =
      ap (λ o. elim o [ none ↦ panic | some q ↦ ok ((counted lib).auth q.0 q.1 (w, n)) ]) e

  exec-counted :
      (poll : String ⊎ GraphPoll) (job : CJob) (w : W) (n : ℕ) (p : String × String)
      → lib.credential ≡ some p
      → (done : CJob) × (v : W) × (exec (counted lib) poll job (ready w n)
          ≡ ok (done, ready v (suc n)))
  unfolding exec
  exec-counted poll job w n p e =
      let r = lib.auth p.0 p.1 w in
      let (v, kept) = exec_connected_keeps poll job r.0 r.1 (suc n) in
      let done = exec_connected (counted lib) poll job (r.0, (r.1, suc n)) in
      (
        done.0,
        v,
        bind_ok _ (connected_once w n p e)
            ∙ ap (λ u. ok (done.0, record { client = some u; connected = false })) kept,
      )

  -- A collector that was initialised and has a credential authenticates once for each job.
  pub exec_jobs-counted :
      (jobs : List ((String ⊎ GraphPoll) × CJob)) (w : W) (n : ℕ) (p : String × String)
      → lib.credential ≡ some p
      → (done : List CJob) × (v : W) × (exec_jobs (counted lib) jobs (ready w n)
          ≡ ok (done, ready v (n + length jobs)))
  unfolding exec_jobs
  exec_jobs-counted [] w n p e = ([], w, ap (λ k. ok ([], ready w k)) (omega arith))
  exec_jobs-counted ((poll, job) ∷ jobs) w n p e =
      let (done, v, f) = exec-counted poll job w n p e in
      let (rest, u, g) = exec_jobs-counted jobs v (suc n) p e in
      (
        done ∷ rest,
        u,
        bind_ok _ f ∙ bind_ok _ g ∙ ap (λ k. ok (done ∷ rest, ready u k)) (omega arith),
      )
