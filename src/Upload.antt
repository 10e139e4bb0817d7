-- ===== src/Upload.antt =====
-- Local files that are copied into the pod: `wait_for_ready` and `sync_local_source` of
-- plugin/kubectl_marimo/deploy.py.
use marimo_operator.Base.{
  ℕ, Text, codes, decimal, Bool, true, false, Option, List, [], ◌∷◌, ◌++◌, ◌==◌, if◌then◌else◌,
}
use marimo_operator.Credentials.{run_found}
use marimo_operator.Exec.{Process, Outside, M, ◌>>=◌, ◌>>◌, pure, echo, echo_err, is_dir, exists}
use marimo_operator.Kubectl.{kubectl, with_namespace}
use marimo_operator.Paths.{path}

abbrev pub wait_command : Text → Option Text → ℕ → List Text
wait_command name namespace timeout = with_namespace 2 namespace (
    kubectl
    ∷ codes "wait"
    ∷ (codes "pod/" ++ name)
    ∷ codes "--for=condition=Ready"
    ∷ (codes "--timeout=" ++ (decimal timeout ++ codes "s"))
    ∷ [])

-- kubectl exec name -c marimo -- ...
abbrev pub in_pod : Text → Option Text → List Text → List Text
in_pod name namespace command =
    with_namespace 2 namespace
      (kubectl ∷ codes "exec" ∷ name ∷ codes "-c" ∷ codes "marimo" ∷ codes "--" ∷ command)

abbrev pub copy_in_command : Text → Option Text → Text → Text → List Text
copy_in_command name namespace src mount_point = with_namespace 2 namespace (
    kubectl
    ∷ codes "cp"
    ∷ src
    ∷ (codes "pod/" ++ (name ++ (codes ":" ++ mount_point)))
    ∷ codes "-c"
    ∷ codes "marimo"
    ∷ [])

unfoldable pub source_text : Text → Bool → Text
source_text local_path folder = if folder then local_path ++ codes "/." else local_path

module _ (o : Outside) where
  unfoldable pub wait_for_ready : Text → Option Text → ℕ → M Bool
  unfolding run_found with_namespace decimal
  wait_for_ready name namespace timeout =
      run_found o (wait_command name namespace timeout) >>= λ p. pure (p.returncode == 0)

  -- How the copy ends, with the clean-up of swap files in the pod.
  unfoldable pub copied : Text → Option Text → Text → Text → Process → M Bool
  unfolding run_found with_namespace echo echo_err
  copied name namespace local_path mount_point p =
      if p.returncode == 0
      then (run_found o (
            in_pod name namespace (
              codes "find" ∷ mount_point ∷ codes "-name" ∷ codes "*.marimo" ∷ codes "-delete" ∷ []))
          >>= λ _.
              echo (codes "Synced " ++ (local_path ++ (codes " → " ++ mount_point))) >> pure true)
      else (echo_err (codes "Warning: Failed to sync " ++ (local_path ++ (codes ": " ++ p.stderr)))
          >> pure false)

  unfoldable pub copy_in : Text → Option Text → Text → Text → M Bool
  unfolding run_found with_namespace is_dir source_text copied path
  copy_in name namespace local_path mount_point =
      run_found o (in_pod name namespace (codes "mkdir" ∷ codes "-p" ∷ mount_point ∷ [])) >>= λ _.
      is_dir (path local_path) >>= λ folder.
      run_found o (copy_in_command name namespace (source_text local_path folder) mount_point)
      >>= copied name namespace local_path mount_point

  unfoldable pub sync_local_source : Text → Option Text → Text → Text → M Bool
  unfolding exists echo_err copy_in path
  sync_local_source name namespace local_path mount_point = exists (path local_path) >>= λ there.
      if there
      then copy_in name namespace local_path mount_point
      else (echo_err (codes "Warning: Local path '" ++ (local_path ++ codes "' does not exist"))
          >> pure false)
