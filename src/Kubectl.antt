-- ===== src/Kubectl.antt =====
-- go/collector/protocols/k8s/Kubernetes.go: kubectl commands in temporary scripts. The security service,
-- base64, the files that cannot be written, the names of the scripts and bash are parameters.
mod Scripts
mod Examples
use Prim.Native.String.{◌++◌ as str_append}
use l8collector.Prelude.{
  ℕ, suc, Bool, true, false, Option, none, some, String, string_eq, List, ◌⊎◌, inl, inr, Outcome,
  ok, panic, ◌==◌, if◌then◌else◌,
}
use l8collector.Prelude.Dict.{Dict, put, delete}
use l8collector.Types.{CJob}
use l8collector.Arguments.{replace_arguments}

-- the files of the working directory, by path
abbrev pub Files : Type 0
Files = Dict String String

-- The collector; `ready` says that the configuration and the resources are not nil.
pub record Kubernetes : Type 0 where
  pub ready : Bool
  pub kube_config : String
  pub cluster_context : String
  pub connected : Bool
  pub files : Files

-- `write_error` is the error of writing a file; `bash` runs a script, given the files, and returns an
-- error or none, the output, and the files it leaves.
pub record System : Type 0 where
  pub credential : Option (String × String)
  pub decode : String → String ⊎ String
  pub write_error : String → Option String
  pub bash : String → Files → (Option String × String) × Files
  pub encode : String → List ℕ

module _ (sys : System) where
  -- os.WriteFile: an error, or none, and the files
  unfoldable pub write_file : String → String → Files → Option String × Files
  unfolding put
  write_file path text files = elim (sys.write_error path) [
    | some e ↦ (some e, files)
    | none ↦ (none, put path text files)
  ]

  -- Init, with the credential
  unfoldable pub init_config : String → String ⊎ String → Kubernetes → Option String × Kubernetes
  unfolding write_file
  init_config context decoded k =
      let path = str_append ".kubeadm-" context in
      let named : Kubernetes = record k {
        ready = true;
        kube_config = path;
        cluster_context = context;
      } in
      elim decoded [
        | inl e ↦ (some e, named)
        | inr text ↦
            let written = write_file path text k.files in
            (written.0, record named { files = written.1 })
      ]

  -- Init: an error, or none; without a credential the code panics
  unfoldable pub init : Kubernetes → Outcome (Option String × Kubernetes)
  unfolding init_config
  init k = elim sys.credential [ none ↦ panic | some p ↦ ok (init_config p.0 (sys.decode p.1) k) ]

  -- the text of a job's script
  unfoldable pub script_of : String → CJob → Kubernetes → String
  unfolding replace_arguments
  script_of what job k = str_append "kubectl --kubeconfig=" (
      str_append k.kube_config (
        str_append " --context=" (
          str_append k.cluster_context
            (str_append " " (str_append (replace_arguments what job.arguments) "\n")))))

  -- the job after its command: the output is its result, also with an error
  abbrev pub finished : CJob → Option String × String → CJob
  finished job (some e, out) = record job {
    error = e;
    error_count = suc job.error_count;
    result = some (sys.encode out);
  }
  finished job (none, out) = record job { error_count = 0; result = some (sys.encode out) }

  -- Exec, for the What of the poll or `none` where it is not found, and the random name of the script
  unfoldable pub exec : Option String → String → CJob → Kubernetes → Outcome (CJob × Kubernetes)
  unfolding write_file script_of delete
  exec what id job k =
      if k.ready
      then elim what [
        | none ↦ ok (job, k)
        | some text ↦
            let path = str_append "./" (str_append id ".sh") in
            let files = (write_file path (script_of text job k) k.files).1 in
            let ran : (Option String × String) × Files = sys.bash path files in
            ok (finished job ran.0, record k { files = delete path ran.1 })
      ]
      else panic

-- Disconnect, which removes the configuration that Init wrote
unfoldable pub disconnect : Kubernetes → Kubernetes
unfolding delete
disconnect k = record k {
  ready = false;
  kube_config = "";
  cluster_context = "";
  connected = false;
  files = if k.kube_config == "" then k.files else delete k.kube_config k.files;
}

-- Online
abbrev pub online : Kubernetes → Bool
online k = k.connected
