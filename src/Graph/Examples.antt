-- ===== src/Graph/Examples.antt =====
-- Tests and witnesses of the GraphQL collector, with an endpoint that counts its queries.
use l8collector.Prelude.{ℕ, suc, ◌≡◌, refl, none, some, String, List, [], ◌∷◌, ◌⊎◌, inl, inr, ok}
use l8collector.Types.{CJob, empty_job}
use l8collector.Graph.{Library, GraphPoll}
use l8collector.Graph.Authentication.{counted, exec_jobs, ready, exec_jobs-counted}

abbrev lib : Library ℕ (List ℕ)
lib = record {
  credential = some ("ann", "k1");
  new_client = λ c. inr 0;
  auth = λ u p w. (none, w);
  query = λ q r w. (inr (w ∷ []), suc w);
  marshal = λ r. some r;
}

abbrev jobs : List ((String ⊎ GraphPoll) × CJob)
jobs = (inr ("{ nodes }", "Nodes"), empty_job) ∷ (inl "no poll", empty_job) ∷ []

exec_jobs-counted_example :
    (done : List CJob) × (v : ℕ) × (exec_jobs (counted lib) jobs (ready 5 0) ≡ ok (done, ready v 2))
exec_jobs-counted_example = exec_jobs-counted lib jobs 5 0 ("ann", "k1") refl
