-- ===== src/Kubectl/Examples.antt =====
-- Tests and witnesses of the kubectl collector.
use l8collector.Prelude.{
  ◌≡◌, refl, true, false, none, some, String, string_eq, List, [], ◌∷◌, inr, ok, ◌==◌,
  if◌then◌else◌,
}
use l8collector.Prelude.Dict.{get, put, delete}
use l8collector.Types.{CJob, empty_job}
use l8collector.Arguments.{replace_arguments}
use l8collector.Kubectl.{Files, Kubernetes, System, script_of, finished, exec, online}
use l8collector.Kubectl.Scripts.{
  Call, initialise, connecting, disconnecting, executing, run_calls, fresh, exec_script,
}

abbrev sys : System
sys = record {
  credential = some ("lab", "Y2Zn");
  decode = λ s. inr "cfg";
  write_error = λ path. none;
  bash = λ path files. elim (get path files) [
    | none ↦ ((some "exit status 127", ""), files)
    | some script ↦ ((none, script), put "out.txt" script files)
  ];
  encode = λ s. if s == "" then [] else 7 ∷ [];
}

abbrev job : CJob
job = record empty_job { error_count = 1; arguments = some (("ns", "shop") ∷ []) }

abbrev calls : List Call
calls =
    initialise sys
    ∷ connecting
    ∷ executing sys (some "get pods") "u1" job
    ∷ disconnecting
    ∷ initialise sys
    ∷ []

abbrev lab : Kubernetes
lab = record {
  ready = true;
  kube_config = ".kubeadm-lab";
  cluster_context = "lab";
  connected = false;
  files =
      ("out.txt", "kubectl --kubeconfig=.kubeadm-lab --context=lab get pods\n")
      ∷ (".kubeadm-lab", "cfg")
      ∷ [];
}

calls_run : run_calls calls (fresh []) ≡ ok lab
unfolding run_calls put delete
calls_run = refl

-- the variable is replaced
script_test :
    script_of sys "get pods -n $ns" job lab
    ≡ "kubectl --kubeconfig=.kubeadm-lab --context=lab get pods -n shop\n"
unfolding script_of replace_arguments
script_test = refl

exec_script_example :
    (seen : Files) × (l : Kubernetes) × ((j : String)
      → get j seen ≡ (
          if "./u2.sh" == j
          then some (script_of sys "get pods -n $ns" job lab)
          else get j lab.files))
    × (exec sys (some "get pods -n $ns") "u2" job lab
        ≡ ok (finished sys job (sys.bash "./u2.sh" seen).0, l))
    × ((j : String)
        → get j l.files ≡ (if "./u2.sh" == j then none else get j (sys.bash "./u2.sh" seen).1))
    × (online l ≡ false)
exec_script_example = exec_script sys calls [] lab "get pods -n $ns" "u2" job calls_run refl refl
