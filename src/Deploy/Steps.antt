-- ===== src/Deploy/Steps.antt =====
-- What the steps of a deployment keep: whatever talking to the user and to programs keeps.
use marimo_operator.Base.{
  Text, codes, same, ◌≡◌, refl, Bool, true, false, Option, none, some, List, [], ◌∷◌, ◌++◌, map,
  if◌then◌else◌, ◌==◌,
}
use marimo_operator.Credentials.{run_found, ensure_cw_credentials, ensure_ssh_pubkey}
use marimo_operator.Credentials.Keeps.{
  Hears, told, told_err, run_found-Keeps, ensure_cw_credentials-Keeps, ensure_ssh_pubkey-Keeps,
}
use marimo_operator.Deploy.{
  rsync_line, sshfs_line, echo_lines, echo_titled, rsync_title, sshfs_title, ask_to_redeploy,
  may_deploy, to_yaml, dry_deploy, ensure_secrets, sync_sources, sync_when_ready,
}
use marimo_operator.Exec.{
  Outside, Process, World, ◌>>=◌, ◌>>◌, pure, sys_exit, echo, echo_err, is_dir, exists, read_text,
  confirm,
}
use marimo_operator.Exec.Keeps.{
  Keeps, Keeps-bind, Keeps-then, Keeps-pure, Keeps-throw, Keeps-if, Keeps-exists, Keeps-is_dir,
  Keeps-read_text,
}
use marimo_operator.Kubectl.{kubectl}
use marimo_operator.Kubectl.Harmless.{is_harmless, with_namespace_harmless}
use marimo_operator.Mounts.{RsyncMount}
use marimo_operator.Notebook.{Notebook, has_cw_mounts, has_sshfs_sidecars}
use marimo_operator.Paths.{path}
use marimo_operator.Result.{exit}
use marimo_operator.Swap.{SwapMeta}
use marimo_operator.Sync.{compute_hash}
use marimo_operator.Upload.{
  wait_command, in_pod, copy_in_command, source_text, wait_for_ready, copied, copy_in,
  sync_local_source,
}
use marimo_operator.Value.{Fields}

in_pod_harmless :
    (n : Text) (ns : Option Text) (command : List Text) → is_harmless (in_pod n ns command) ≡ true
in_pod_harmless n ns command =
    with_namespace_harmless 0 ns kubectl (codes "exec")
      (n ∷ codes "-c" ∷ codes "marimo" ∷ codes "--" ∷ command) (unfold same in refl)

module _ (o : Outside) {P : World → Type 0} (heard : Hears o P) where
  copied-Keeps :
      (n : Text) (ns : Option Text) (l d : Text) (p : Process) → Keeps P (copied o n ns l d p)
  unfolding copied
  copied-Keeps n ns l d p =
      Keeps-if (p.returncode == 0) _ _
        (Keeps-bind
          (run_found o (
            in_pod n ns
              (codes "find" ∷ d ∷ codes "-name" ∷ codes "*.marimo" ∷ codes "-delete" ∷ [])))
          (λ _. echo (codes "Synced " ++ (l ++ (codes " → " ++ d))) >> pure true)
          (run_found-Keeps o heard _ (in_pod_harmless n ns _))
          (λ _. told o heard true (codes "Synced " ++ (l ++ (codes " → " ++ d)))))
        (told_err o heard false
          (codes "Warning: Failed to sync " ++ (l ++ (codes ": " ++ p.stderr))))

  copy_in-Keeps : (n : Text) (ns : Option Text) (l d : Text) → Keeps P (copy_in o n ns l d)
  unfolding copy_in
  copy_in-Keeps n ns l d =
      Keeps-bind (run_found o (in_pod n ns (codes "mkdir" ∷ codes "-p" ∷ d ∷ []))) _
        (run_found-Keeps o heard (in_pod n ns (codes "mkdir" ∷ codes "-p" ∷ d ∷ []))
          (in_pod_harmless n ns (codes "mkdir" ∷ codes "-p" ∷ d ∷ [])))
        (λ _. Keeps-bind (is_dir (path l)) _ (Keeps-is_dir (path l)) (λ folder.
          Keeps-bind (run_found o (copy_in_command n ns (source_text l folder) d))
            (copied o n ns l d)
            (run_found-Keeps o heard (copy_in_command n ns (source_text l folder) d)
              (with_namespace_harmless 0 ns kubectl (codes "cp") _ (unfold same in refl)))
            (copied-Keeps n ns l d)))

  sync_local_source-Keeps :
      (n : Text) (ns : Option Text) (l d : Text) → Keeps P (sync_local_source o n ns l d)
  unfolding sync_local_source
  sync_local_source-Keeps n ns l d =
      Keeps-bind (exists (path l)) _ (Keeps-exists (path l)) (λ there.
        Keeps-if there (copy_in o n ns l d) _ (copy_in-Keeps n ns l d) (
          told_err o heard false
            (codes "Warning: Local path '" ++ (l ++ codes "' does not exist"))))

  sync_sources-Keeps :
      (n : Text) (ns : Option Text) (ms : List RsyncMount) → Keeps P (sync_sources o n ns ms)
  unfolding sync_sources
  sync_sources-Keeps n ns [] = Keeps-pure tt
  sync_sources-Keeps n ns (m ∷ ms) =
      Keeps-bind (sync_local_source o n ns m.source m.mount) (λ _. sync_sources o n ns ms)
        (sync_local_source-Keeps n ns m.source m.mount) (λ _. sync_sources-Keeps n ns ms)

  pub wait_for_ready-Keeps : (n : Text) (ns : Option Text) → Keeps P (wait_for_ready o n ns 120)
  unfolding wait_for_ready
  wait_for_ready-Keeps n ns =
      Keeps-bind (run_found o (wait_command n ns 120)) (λ p. pure (p.returncode == 0))
        (run_found-Keeps o heard (wait_command n ns 120)
          (with_namespace_harmless 0 ns kubectl (codes "wait") _ (unfold same in refl)))
        (λ p. Keeps-pure (p.returncode == 0))

  pub sync_when_ready-Keeps :
      (n : Text) (ns : Option Text) (ms : List RsyncMount) → Keeps P (sync_when_ready o n ns ms)
  unfolding sync_when_ready
  sync_when_ready-Keeps n ns [] = Keeps-pure tt
  sync_when_ready-Keeps n ns (m ∷ ms) =
      Keeps-then (echo (codes "Waiting for " ++ (n ++ codes " to be ready for local sync..."))) _
        (heard.says (codes "Waiting for " ++ (n ++ codes " to be ready for local sync...")))
        (Keeps-bind (wait_for_ready o n ns 120) _ (wait_for_ready-Keeps n ns) (λ ready.
          Keeps-if ready (sync_sources o n ns (m ∷ ms)) _ (sync_sources-Keeps n ns (m ∷ ms))
            (heard.says_err (codes "Warning: Pod not ready, skipping local sync"))))

  pub ensure_secrets-Keeps : (ns : Option Text) (r : Fields) → Keeps P (ensure_secrets o ns r)
  unfolding ensure_secrets
  ensure_secrets-Keeps ns r =
      Keeps-then
        (if has_cw_mounts r then (ensure_cw_credentials o ns >>= λ _. pure tt) else pure tt) _
        (Keeps-if (has_cw_mounts r) (ensure_cw_credentials o ns >>= λ _. pure tt) (pure tt)
          (Keeps-bind (ensure_cw_credentials o ns) (λ _. pure tt)
            (ensure_cw_credentials-Keeps o heard ns) (λ _. Keeps-pure tt))
          (Keeps-pure tt))
        (Keeps-if (has_sshfs_sidecars r) _ (pure tt)
          (Keeps-bind (ensure_ssh_pubkey o ns false) _ (ensure_ssh_pubkey-Keeps o heard ns false)
            (λ there. Keeps-if there (pure tt) _ (Keeps-pure tt) (
              Keeps-then (echo_err (codes "Error: SSH pubkey required for sshfs mounts"))
                (sys_exit 1) (heard.says_err (codes "Error: SSH pubkey required for sshfs mounts"))
                (Keeps-throw (exit 1)))))
          (Keeps-pure tt))

  pub echo_lines-Keeps : (ls : List Text) → Keeps P (echo_lines ls)
  unfolding echo_lines
  echo_lines-Keeps [] = Keeps-pure tt
  echo_lines-Keeps (l ∷ ls) =
      Keeps-then (echo l) (echo_lines ls) (heard.says l) (echo_lines-Keeps ls)

  echo_titled-Keeps : (t : Text) (ls : List Text) → Keeps P (echo_titled t ls)
  unfolding echo_titled
  echo_titled-Keeps t [] = Keeps-pure tt
  echo_titled-Keeps t (l ∷ ls) =
      Keeps-then (echo t) (echo_lines (l ∷ ls)) (heard.says t) (echo_lines-Keeps (l ∷ ls))

  pub dry_deploy-Keeps : (ns : Option Text) (nb : Notebook) → Keeps P (dry_deploy o ns nb)
  unfolding dry_deploy
  dry_deploy-Keeps ns nb =
      Keeps-then (echo (to_yaml o nb.resource)) _ (heard.says (to_yaml o nb.resource)) (
        Keeps-then (echo_titled rsync_title (map rsync_line nb.rsync_mounts)) _
          (echo_titled-Keeps rsync_title (map rsync_line nb.rsync_mounts))
          (Keeps-then (echo_titled sshfs_title (map sshfs_line nb.sshfs_mounts)) _
            (echo_titled-Keeps sshfs_title (map sshfs_line nb.sshfs_mounts))
            (Keeps-if (has_sshfs_sidecars nb.resource)
              (ensure_ssh_pubkey o ns true >>= λ _. pure none) (pure none)
              (Keeps-bind (ensure_ssh_pubkey o ns true) (λ _. pure none)
                (ensure_ssh_pubkey-Keeps o heard ns true) (λ _. Keeps-pure none))
              (Keeps-pure none))))

  ask_to_redeploy-Keeps : (f h t : Text) → Keeps P (ask_to_redeploy o f h t)
  unfolding ask_to_redeploy
  ask_to_redeploy-Keeps f h t =
      Keeps-if (same (compute_hash o t) h) (pure true) _ (Keeps-pure true) (
        Keeps-then
          (echo (codes "Warning: Local file '" ++ (f ++ codes "' modified since last deploy.")))
          (confirm o (codes "Continue and overwrite tracking?"))
          (heard.says
            (codes "Warning: Local file '" ++ (f ++ codes "' modified since last deploy.")))
          (heard.confirms (codes "Continue and overwrite tracking?")))

  pub may_deploy-Keeps :
      (f : Text) (force : Bool) (m : Option SwapMeta) → Keeps P (may_deploy o f force m)
  unfolding may_deploy
  may_deploy-Keeps f force none = Keeps-pure true
  may_deploy-Keeps f force (some m) =
      Keeps-if force (pure true) (read_text (path f) >>= ask_to_redeploy o f m.file_hash)
        (Keeps-pure true)
        (Keeps-bind (read_text (path f)) (ask_to_redeploy o f m.file_hash)
          (Keeps-read_text (path f)) (ask_to_redeploy-Keeps f m.file_hash))
