-- ===== src/Access/Keeps.antt =====
-- What the access to a notebook keeps, however it ends.
use marimo_operator.Base.{
  ℕ, zero, suc, Text, codes, same, refl, Bool, true, Option, none, some, List, [], ◌∷◌, ◌++◌,
}
use marimo_operator.Access.{
  port_of, access_lines, is_none_text, print_access_info, search_token, token_command, url_of,
  get_access_token, or_again, wait_for_token, setup_mounts, setup_sshfs, cleanup_mounts,
  cleanup_sshfs, warn_sync, catch_sync, sync_at_exit, close_notebook, serve, warn_not_ready,
  open_notebook, access,
}
use marimo_operator.Credentials.{run_found}
use marimo_operator.Credentials.Keeps.{run_found-Keeps}
use marimo_operator.Deploy.{Tracked}
use marimo_operator.Deploy.Steps.{wait_for_ready-Keeps, echo_lines-Keeps}
use marimo_operator.Exec.{Outside, World, ◌>>=◌, ◌>>◌, pure, lift, echo}
use marimo_operator.Exec.Keeps.{
  Keeps, Keeps-bind, Keeps-then, Keeps-pure, Keeps-throw, Keeps-lift, Keeps-if,
}
use marimo_operator.Exec.Programs.{start, sleep, visit, run_blocking}
use marimo_operator.Kubectl.{kubectl}
use marimo_operator.Kubectl.Harmless.{with_namespace_harmless}
use marimo_operator.Mounts.{SshfsMount}
use marimo_operator.Notebook.{fields_of}
use marimo_operator.Result.{Exn, exit, Result, ok, raise}
use marimo_operator.Sshfs.{
  forward_command, find_available_port, setup_local_sshfs_mount, cleanup_sshfs_mount,
}
use marimo_operator.Sshfs.Keeps.{
  Serves, forward_harmless, setup_local_sshfs_mount-Keeps, cleanup_sshfs_mount-Keeps,
}
use marimo_operator.Sync.{sync_notebook}
use marimo_operator.Sync.Keeps.{sync_notebook-Keeps}
use marimo_operator.Upload.{wait_for_ready}
use marimo_operator.Value.{ℤ, pos, Fields, get}

module _ (o : Outside) {P : World → Type 0} (serves : Serves o P) where
  get_access_token-Keeps : (name : Text) (ns : Option Text) → Keeps P (get_access_token o name ns)
  unfolding get_access_token
  get_access_token-Keeps name ns =
      Keeps-bind (run_found o (token_command name ns)) (λ p. pure (search_token p.stdout))
        (run_found-Keeps o serves.acts.heard (token_command name ns)
          (with_namespace_harmless 0 ns kubectl (codes "logs") _ (unfold same in refl)))
        (λ p. Keeps-pure (search_token p.stdout))

  or_again-Keeps :
      (n : ℕ) (name : Text) (ns : Option Text) (r : Option Text)
      → Keeps P (wait_for_token o n name ns)
      → Keeps P (or_again o (wait_for_token o n name ns) r)
  unfolding or_again
  or_again-Keeps n name ns none k =
      Keeps-then (sleep 1) (wait_for_token o n name ns) (serves.sleeps 1) k
  or_again-Keeps n name ns (some token) k = Keeps-pure (some token)

  pub wait_for_token-Keeps :
      (n : ℕ) (name : Text) (ns : Option Text) → Keeps P (wait_for_token o n name ns)
  unfolding wait_for_token
  wait_for_token-Keeps zero name ns = Keeps-pure none
  wait_for_token-Keeps (suc n) name ns =
      let k = wait_for_token-Keeps n name ns in
      Keeps-bind (get_access_token o name ns) (or_again o (wait_for_token o n name ns))
        (get_access_token-Keeps name ns) (λ r. or_again-Keeps n name ns r k)

  setup_mounts-Keeps :
      ((cmd : List Text) → Keeps P (start o cmd))
      → (name : Text) (ns : Option Text) (ms : List SshfsMount)
      → Keeps P (setup_mounts o name ns ms)
  unfolding setup_mounts
  setup_mounts-Keeps starts name ns [] = Keeps-pure []
  setup_mounts-Keeps starts name ns (m ∷ ms) =
      Keeps-bind (setup_local_sshfs_mount o name ns m.remote_path m.local_mount (pos 2222)) _
        (setup_local_sshfs_mount-Keeps o serves starts name ns m.remote_path m.local_mount
          (pos 2222))
        (λ proc.
          Keeps-bind (setup_mounts o name ns ms) (λ procs. pure ((m.local_mount, proc) ∷ procs))
            (setup_mounts-Keeps starts name ns ms)
            (λ procs. Keeps-pure ((m.local_mount, proc) ∷ procs)))

  setup_sshfs-Keeps :
      ((cmd : List Text) → Keeps P (start o cmd))
      → (name : Text) (ns : Option Text) (ms : List SshfsMount) → Keeps P (setup_sshfs o name ns ms)
  unfolding setup_sshfs
  setup_sshfs-Keeps starts name ns [] = Keeps-pure []
  setup_sshfs-Keeps starts name ns (m ∷ ms) =
      Keeps-then (echo (codes "Setting up sshfs mounts...")) (setup_mounts o name ns (m ∷ ms))
        (serves.acts.heard.says (codes "Setting up sshfs mounts..."))
        (setup_mounts-Keeps starts name ns (m ∷ ms))

  pub cleanup_mounts-Keeps : (procs : List (Text × Option ℕ)) → Keeps P (cleanup_mounts o procs)
  unfolding cleanup_mounts
  cleanup_mounts-Keeps [] = Keeps-pure tt
  cleanup_mounts-Keeps ((local, proc) ∷ procs) =
      Keeps-then (cleanup_sshfs_mount o local proc) (cleanup_mounts o procs)
        (cleanup_sshfs_mount-Keeps o serves local proc) (cleanup_mounts-Keeps procs)

  cleanup_sshfs-Keeps : (procs : List (Text × Option ℕ)) → Keeps P (cleanup_sshfs o procs)
  unfolding cleanup_sshfs
  cleanup_sshfs-Keeps [] = Keeps-pure tt
  cleanup_sshfs-Keeps (p ∷ procs) =
      Keeps-then (echo (codes "\nCleaning up sshfs mounts...")) (cleanup_mounts o (p ∷ procs))
        (serves.acts.heard.says (codes "\nCleaning up sshfs mounts..."))
        (cleanup_mounts-Keeps (p ∷ procs))

  warn_sync-Keeps : (e : Exn) → Keeps P (warn_sync o e)
  unfolding warn_sync
  warn_sync-Keeps (exit n) = Keeps-throw (exit n)
  warn_sync-Keeps e = serves.acts.heard.says_err (codes "Warning: Sync failed: " ++ o.message e)

  catch_sync-keeps : (r : Result (Unit {0}) × World) → P r.1 → P (catch_sync o r).1
  catch_sync-keeps (ok u, w) h = h
  catch_sync-keeps (raise e, w) h = (warn_sync-Keeps e).at w h

  sync_at_exit-Keeps : (f : Text) (ns : Option Text) → Keeps P (sync_at_exit o f ns)
  unfolding sync_at_exit
  sync_at_exit-Keeps f ns = record {
    at = λ w h.
        catch_sync-keeps (sync_notebook o f ns true w)
          ((sync_notebook-Keeps o serves.acts f ns true).at w h);
  }

  -- What follows the clean-up.
  pub last_sync-Keeps :
      (f : Text) (ns : Option Text)
      → Keeps P
          (echo (codes "\nSyncing changes...") >> (sync_at_exit o f ns >> echo (codes "Done")))
  last_sync-Keeps f ns =
      Keeps-then (echo (codes "\nSyncing changes...")) (sync_at_exit o f ns >> echo (codes "Done"))
        (serves.acts.heard.says (codes "\nSyncing changes..."))
        (Keeps-then (sync_at_exit o f ns) (echo (codes "Done")) (sync_at_exit-Keeps f ns)
          (serves.acts.heard.says (codes "Done")))

  pub close_notebook-Keeps :
      (f : Text) (ns : Option Text) (procs : List (Text × Option ℕ))
      → Keeps P (close_notebook o f ns procs)
  unfolding close_notebook
  close_notebook-Keeps f ns procs =
      Keeps-then (cleanup_sshfs o procs) _ (cleanup_sshfs-Keeps procs) (last_sync-Keeps f ns)

  serve-Keeps :
      (name : Text) (ns : Option Text) (port : ℤ) (f : Text) (procs : List (Text × Option ℕ))
      (token : Option Text)
      → Keeps P (serve o name ns port f procs token)
  unfolding serve
  serve-Keeps name ns port f procs token =
      Keeps-bind (find_available_port o port) _ (serves.ports port) (λ local_port.
        Keeps-then (echo (codes "Opening " ++ url_of local_port token)) _
          (serves.acts.heard.says (codes "Opening " ++ url_of local_port token))
          (Keeps-then (echo (codes "Press Ctrl+C to stop port-forward and sync changes")) _
            (serves.acts.heard.says (codes "Press Ctrl+C to stop port-forward and sync changes"))
            (Keeps-then (echo []) _ (serves.acts.heard.says []) (
              Keeps-then (visit (url_of local_port token)) _
                (serves.visits (url_of local_port token))
                (Keeps-bind (run_blocking o (forward_command name ns local_port port)) _
                  (serves.blocks (forward_command name ns local_port port)
                    (forward_harmless name ns local_port port))
                  (λ interrupted.
                    Keeps-if interrupted (close_notebook o f ns procs) (pure tt)
                      (close_notebook-Keeps f ns procs) (Keeps-pure tt)))))))

  pub warn_not_ready-Keeps : (ready : Bool) → Keeps P (warn_not_ready o ready)
  unfolding warn_not_ready
  warn_not_ready-Keeps ready =
      Keeps-if ready (pure tt) _ (Keeps-pure tt)
        (serves.acts.heard.says_err (codes "Warning: Pod may not be ready, continuing anyway..."))

  open_notebook-Keeps :
      ((cmd : List Text) → Keeps P (start o cmd))
      → (name : Text) (ns : Option Text) (port : ℤ) (f : Text) (ms : List SshfsMount)
      → Keeps P (open_notebook o name ns port f ms)
  unfolding open_notebook
  open_notebook-Keeps starts name ns port f ms =
      Keeps-then (echo (codes "Waiting for " ++ (name ++ codes " to be ready..."))) _
        (serves.acts.heard.says (codes "Waiting for " ++ (name ++ codes " to be ready...")))
        (Keeps-then (wait_for_ready o name ns 120 >>= warn_not_ready o) _
          (Keeps-bind (wait_for_ready o name ns 120) (warn_not_ready o)
            (wait_for_ready-Keeps o serves.acts.heard name ns) warn_not_ready-Keeps)
          (Keeps-bind (setup_sshfs o name ns ms) _ (setup_sshfs-Keeps starts name ns ms) (λ procs.
            Keeps-bind (wait_for_token o 5 name ns) (serve o name ns port f procs)
              (wait_for_token-Keeps 5 name ns) (serve-Keeps name ns port f procs))))

  print_access_info-Keeps :
      (name : Text) (ns : Option Text) (mode : Text) (fm : Option Fields) (ms : List SshfsMount)
      → Keeps P (print_access_info name ns mode fm ms)
  unfolding print_access_info
  print_access_info-Keeps name ns mode fm ms =
      Keeps-bind (lift (port_of fm)) _ (Keeps-lift (port_of fm)) (λ port.
        echo_lines-Keeps o serves.acts.heard
          (access_lines name ns mode (is_none_text (get (codes "auth") (fields_of fm))) ms port))

  pub access-Keeps :
      ((cmd : List Text) → Keeps P (start o cmd))
      → (f mode : Text) (ns : Option Text) (headless : Bool) (t : Option Tracked)
      → Keeps P (access o f mode ns headless t)
  unfolding access
  access-Keeps starts f mode ns headless none = Keeps-pure tt
  access-Keeps starts f mode ns headless (some t) =
      Keeps-bind (lift (port_of t.frontmatter)) _ (Keeps-lift (port_of t.frontmatter)) (λ port.
        Keeps-if headless (print_access_info t.name ns mode t.frontmatter t.sshfs_mounts)
          (open_notebook o t.name ns port f t.sshfs_mounts)
          (print_access_info-Keeps t.name ns mode t.frontmatter t.sshfs_mounts)
          (open_notebook-Keeps starts t.name ns port f t.sshfs_mounts))
