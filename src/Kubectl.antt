-- ===== src/Kubectl.antt =====
-- The kubectl calls of plugin/kubectl_marimo/k8s.py.
pub mod Replies
pub mod Harmless
use marimo_operator.Base.{
  ℕ, Text, codes, take, drop, Bool, true, false, Option, none, some, List, [], ◌∷◌, ◌++◌, ◌==◌,
  if◌then◌else◌,
}
use marimo_operator.Exec.{
  Process, Outside, M, ◌>>=◌, ◌>>◌, pure, throw, lift, echo, echo_err, run_command,
}
use marimo_operator.Result.{Result, ok, raise, yaml_error}
use marimo_operator.Value.{Value, Fields, dict}

-- cmd.insert(i, arg)
abbrev pub insert_at : ℕ → Text → List Text → List Text
insert_at i arg cmd = take i cmd ++ (arg ∷ drop i cmd)

-- The two insertions of a namespace, if there is one.
unfoldable pub with_namespace : ℕ → Option Text → List Text → List Text
with_namespace i none cmd = cmd
with_namespace i (some ns) cmd = insert_at i (codes "-n") (insert_at i ns cmd)

-- The namespace behind the command.
unfoldable pub extend_namespace : Option Text → List Text → List Text
extend_namespace none cmd = cmd
extend_namespace (some ns) cmd = cmd ++ (codes "-n" ∷ ns ∷ [])

abbrev pub kubectl : Text
kubectl = codes "kubectl"

abbrev pub not_found : Text
not_found = codes "kubectl not found in PATH"

unfoldable pub delete_command : Text → Text → Option Text → Bool → List Text
unfolding extend_namespace
delete_command kind name namespace ignore_not_found =
    let cmd = extend_namespace namespace (kubectl ∷ codes "delete" ∷ kind ∷ name ∷ []) in
    if ignore_not_found then cmd ++ (codes "--ignore-not-found" ∷ []) else cmd

unfoldable pub exec_command : Text → Option Text → Text → List Text
unfolding with_namespace
exec_command pod namespace command =
    with_namespace 2 namespace
      (kubectl ∷ codes "exec" ∷ pod ∷ codes "--" ∷ codes "sh" ∷ codes "-c" ∷ command ∷ [])

unfoldable pub logs_command : Text → Option Text → List Text
unfolding with_namespace
logs_command pod namespace = with_namespace 2 namespace (kubectl ∷ codes "logs" ∷ pod ∷ [])

unfoldable pub patch_command : Text → Text → Option Text → Text → List Text
unfolding with_namespace
patch_command kind name namespace patch =
    with_namespace 4 namespace
      (kubectl ∷ codes "patch" ∷ kind ∷ name ∷ codes "--type=merge" ∷ codes "-p" ∷ patch ∷ [])

unfoldable pub get_command : Text → Text → Option Text → List Text
unfolding with_namespace
get_command kind name namespace =
    with_namespace 4 namespace
      (kubectl ∷ codes "get" ∷ kind ∷ name ∷ codes "-o" ∷ codes "yaml" ∷ [])

-- How `apply_resource`, `delete_resource` and `patch_resource` end.
unfoldable pub report : Option Process → M Bool
unfolding echo echo_err
report none = echo_err (codes "Error: " ++ not_found) >> pure false
report (some p) =
    if p.returncode == 0
    then echo p.stdout >> pure true
    else echo_err (codes "Error: " ++ p.stderr) >> pure false

-- How `exec_in_pod` and `get_pod_logs` end: success, and the output or the error.
unfoldable pub output_of : Option Process → Bool × Text
output_of none = (false, not_found)
output_of (some p) = if p.returncode == 0 then (true, p.stdout) else (false, p.stderr)

-- What `get_resource` returns: a value, or the text of an error.
pub data Fetched : Type 0 where
  fetched : Value → Fetched
  failed : Text → Fetched

unfoldable pub loaded : Option Value → Result Fetched
loaded none = raise yaml_error
loaded (some v) = ok (fetched v)

module _ (o : Outside) where
  unfoldable pub apply_resource : Fields → Bool → M Bool
  unfolding run_command report echo
  apply_resource resource dry_run =
      if dry_run
      then echo (o.yaml_dump (dict resource)) >> pure true
      else (run_command o (kubectl ∷ codes "apply" ∷ codes "-f" ∷ codes "-" ∷ [])
            (o.yaml_dump (dict resource))
          >>= report)

  unfoldable pub delete_resource : Text → Text → Option Text → Bool → M Bool
  unfolding run_command report delete_command
  delete_resource kind name namespace ignore_not_found =
      run_command o (delete_command kind name namespace ignore_not_found) [] >>= report

  unfoldable pub exec_in_pod : Text → Option Text → Text → M (Bool × Text)
  unfolding run_command output_of exec_command
  exec_in_pod pod namespace command =
      run_command o (exec_command pod namespace command) [] >>= λ r. pure (output_of r)

  unfoldable pub get_pod_logs : Text → Option Text → M (Bool × Text)
  unfolding run_command output_of logs_command
  get_pod_logs pod namespace =
      run_command o (logs_command pod namespace) [] >>= λ r. pure (output_of r)

  unfoldable pub patch_resource : Text → Text → Option Text → Text → M Bool
  unfolding run_command report patch_command
  patch_resource kind name namespace patch =
      run_command o (patch_command kind name namespace patch) [] >>= report

  unfoldable pub resource_reply : Option Process → Result Fetched
  unfolding loaded
  resource_reply none = ok (failed not_found)
  resource_reply (some p) =
      if p.returncode == 0 then loaded (o.yaml_load p.stdout) else ok (failed p.stderr)

  unfoldable pub get_resource : Text → Text → Option Text → M Fetched
  unfolding run_command get_command resource_reply
  get_resource kind name namespace =
      run_command o (get_command kind name namespace) [] >>= λ r. lift (resource_reply r)
