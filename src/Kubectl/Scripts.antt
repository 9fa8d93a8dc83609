-- ===== src/Kubectl/Scripts.antt =====
-- The files and the status of the kubectl collector.
use Prim.Native.String.{◌++◌ as str_append}
use l8collector.Prelude.{
  ◌≡◌, refl, sym, ap, ◌∙◌, Bool, true, false, Option, none, some, String, string_eq, List, [], ◌∷◌,
  ◌⊎◌, inl, inr, Outcome, ok, panic, ◌>>=◌, ◌==◌, if◌then◌else◌, arith, if_yes,
}
use l8collector.Prelude.Dict.{get, put, delete, get-put, get-delete}
use l8collector.Types.{CJob}
use l8collector.Kubectl.{
  Files, Kubernetes, System, write_file, init, init_config, script_of, finished, exec, disconnect,
  online,
}

Outcome-cases : (o : Outcome Kubernetes) → (o ≡ panic) ⊎ ((k : Kubernetes) × (o ≡ ok k))
Outcome-cases panic = inl refl
Outcome-cases (ok k) = inr (k, refl)

-- the calls of a collector; a job has the What of its poll, and the random name of its script
pub data Call : Type 0 where
  initialise : System → Call
  connecting disconnecting : Call
  executing : System → Option String → String → CJob → Call

abbrev pub second : {A : Type 0} → Outcome (A × Kubernetes) → Outcome Kubernetes
second panic = panic
second (ok p) = ok p.1

-- Connect does nothing.
unfoldable pub run_call : Call → Kubernetes → Outcome Kubernetes
unfolding init exec disconnect
run_call (initialise sys) k = second (init sys k)
run_call connecting k = ok k
run_call disconnecting k = ok (disconnect k)
run_call (executing sys what id job) k = second (exec sys what id job k)

unfoldable pub run_calls : List Call → Kubernetes → Outcome Kubernetes
unfolding run_call
run_calls [] k = ok k
run_calls (c ∷ cs) k = run_call c k >>= λ k'. run_calls cs k'

run_call-offline :
    (c : Call) (k l : Kubernetes) → k.connected ≡ false → run_call c k ≡ ok l → l.connected ≡ false
unfolding run_call init init_config exec disconnect
run_call-offline (initialise sys) k l e h = ground (arith, e, h)
run_call-offline connecting k l e h = ground (arith, e, h)
run_call-offline disconnecting k l e h = ground (arith, e, h)
run_call-offline (executing sys what id job) k l e h = ground (arith, e, h)

-- whether a collector is online after calls that return
abbrev online_after : Outcome Kubernetes → Bool
online_after panic = false
online_after (ok k) = online k

run_calls-offline :
    (cs : List Call) (k : Kubernetes) → k.connected ≡ false → online_after (run_calls cs k) ≡ false
unfolding run_calls
run_calls-offline [] k e = e
run_calls-offline (c ∷ cs) k e = elim (Outcome-cases (run_call c k)) [
  | inl p ↦ ap (λ o. online_after (o >>= λ k'. run_calls cs k')) p
  | inr (l, h) ↦
      ap (λ o. online_after (o >>= λ k'. run_calls cs k')) h
      ∙ run_calls-offline cs l (run_call-offline c k l e h)
]

-- a collector before Init
abbrev pub fresh : Files → Kubernetes
fresh files = record {
  ready = false;
  kube_config = "";
  cluster_context = "";
  connected = false;
  files = files;
}

abbrev pub script_path : String → String
script_path id = str_append "./" (str_append id ".sh")

written-file :
    (sys : System) (path text j : String) (files : Files)
    → sys.write_error path ≡ none
    → get j (write_file sys path text files).1 ≡ (if path == j then some text else get j files)
unfolding write_file
written-file sys path text j files e =
    ap (λ (o : Option String). get j (written o).1) e ∙ get-put path j text files
  where
    written : Option String → Option String × Files
    written none = (none, put path text files)
    written (some x) = (some x, files)

-- After whichever calls on a new collector a job of a collector that is ready, and whose script can be
-- written, returns. Bash runs the script with the command in which the arguments are replaced, next to the
-- files that were there. Its output is the result, and the errors in a row are one more or none. The files
-- are those that bash leaves, but for the script, which is removed. The collector is not online.
pub exec_script :
    (sys : System) (cs : List Call) (files : Files) (k : Kubernetes) (text id : String) (job : CJob)
    → run_calls cs (fresh files) ≡ ok k
    → k.ready ≡ true
    → sys.write_error (script_path id) ≡ none
    → (seen : Files) × (l : Kubernetes) × ((j : String)
        → get j seen
          ≡ (if script_path id == j then some (script_of sys text job k) else get j k.files))
      × (exec sys (some text) id job k
          ≡ ok (finished sys job (sys.bash (script_path id) seen).0, l))
      × ((j : String)
          → get j l.files
            ≡ (if script_path id == j then none else get j (sys.bash (script_path id) seen).1))
      × (online l ≡ false)
unfolding exec
exec_script sys cs files k text id job h r w =
    let path = script_path id in
    let script = script_of sys text job k in
    let seen = (write_file sys path script k.files).1 in
    (
      seen,
      record k { files = delete path (sys.bash path seen).1 },
      (λ j. written-file sys path script j k.files w),
      if_yes panic r,
      (λ j. get-delete path j (sys.bash path seen).1),
      sym (ap online_after h) ∙ run_calls-offline cs (fresh files) refl,
    )
