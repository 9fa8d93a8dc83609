-- ===== src/Kube/Collecting/Examples.antt =====
-- The theorem on Exec at a concrete input: a poll for a table of pods, on an empty cache.
use l8collector.Prelude.{◌≡◌, refl, true, none, some, [], ◌∷◌, inr, ok}
use l8collector.Types.{CJob, empty_job}
use l8collector.Kube.Spec.{CacheSpec}
use l8collector.Kube.Watching.{Watch, synced}
use l8collector.Kube.Collecting.{Calls, exec}
use l8collector.Kube.Collecting.Running.{Ran, exec-returns}

abbrev pods_spec : CacheSpec
pods_spec = record {
  result = "table";
  mode = "list";
  gvr = "v1/pods";
  operations = [];
  namespace = "";
  namespace_from_arg = "";
  name = "";
  name_from_arg = "";
  selector = "";
  selector_from_arg = "";
  fields = "metadata.name" ∷ [];
  columns = [];
  column_names = [];
}

abbrev calls : Calls
calls = record {
  now = 100;
  start = λ g n. synced [];
  connect = none;
  poll = λ p j. inr ("{}", true);
  decode = λ s. some pods_spec;
  to_lower = λ s. s;
  to_upper = λ s. s;
  parse_error = λ s. "invalid spec";
  show = λ v. "";
  encode = λ v. inr (some []);
  encode_map = λ m. inr (some []);
  encode_table = λ t. inr (some (1 ∷ []));
}

abbrev running : Watch
running = record { has_client = true; warmed = some []; warm_once = some []; cache = [] }

abbrev pods_job : CJob
pods_job = record empty_job { pollaris_name = "boot00"; job_name = "pods" }

exec-returns_example :
    (job' : CJob) × (w' : Watch) × (exec calls pods_job running ≡ ok (job', w')) × Ran pods_job job'
exec-returns_example = exec-returns calls pods_job refl running [] refl
