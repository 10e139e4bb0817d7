-- ===== src/Access/Missing.antt =====
-- The end of `open_notebook` on a machine without fusermount.
use marimo_operator.Base.{
  ℕ, Text, codes, ◌≡◌, refl, ap, ◌∙◌, false, Option, none, some, List, [], ◌∷◌, if◌then◌else◌,
}
use marimo_operator.Access.{cleanup_mounts, cleanup_sshfs, sync_at_exit, close_notebook}
use marimo_operator.Credentials.{run_found, found}
use marimo_operator.Exec.{
  Node, ran, said, log, Outside, World, next, ◌>>◌, pure, run_command, echo, exists, find, is_there,
}
use marimo_operator.Paths.{path, path_text}
use marimo_operator.Result.{raise, os_error}
use marimo_operator.Sshfs.{
  stop_started, unmount, cleanup_sshfs_mount, local_path, fusermount_command,
}

module _ (o : Outside) (local : Text) where
  -- The world after the attempt to run fusermount.
  abbrev pub after_attempt : World → World
  after_attempt w =
      let t = ran (fusermount_command (local_path o local)) [] ∷ w.trace in
      record w { files = o.moves t w.files; trace = t }

  unmount_missing :
      (w : World)
      → o.reply (after_attempt w).trace ≡ none
      → unmount o (local_path o local) w ≡ (raise os_error, after_attempt w)
  unfolding unmount run_found run_command found
  unmount_missing w missing = rw missing refl

  cleanup_missing :
      (proc : Option ℕ) (node : Node) (w : World)
      → find (path_text (path (local_path o local))) w.files ≡ some node
      → o.reply (after_attempt w).trace ≡ none
      → cleanup_sshfs_mount o local proc w ≡ (raise os_error, after_attempt w)
  unfolding cleanup_sshfs_mount exists
  cleanup_missing proc node w there missing =
      ap
        (λ (n : Option Node).
          next ((if is_there n then unmount o (local_path o local) else pure tt) w)
            (λ _. stop_started proc))
        there
      ∙ ap (λ r. next r (λ _. stop_started proc)) (unmount_missing w missing)

  abbrev pub titled : World → World
  titled w = log (said false (codes "\nCleaning up sshfs mounts...")) w

  -- With at least one sshfs mount set up, the first one's local directory there and fusermount not
  -- installed, Ctrl+C ends in an exception at once: umount is not tried, no port-forward is stopped,
  -- no other mount is cleaned up, and nothing is synced.
  pub close_notebook_missing :
      (f : Text) (ns : Option Text) (proc : Option ℕ) (procs : List (Text × Option ℕ)) (node : Node)
      (w : World)
      → find (path_text (path (local_path o local))) w.files ≡ some node
      → o.reply (after_attempt (titled w)).trace ≡ none
      → close_notebook o f ns ((local, proc) ∷ procs) w ≡ (raise os_error, after_attempt (titled w))
  unfolding close_notebook cleanup_sshfs echo cleanup_mounts
  close_notebook_missing f ns proc procs node w there missing =
      ap
        (λ r. next (next r (λ _. cleanup_mounts o procs)) (λ _.
          echo (codes "\nSyncing changes...") >> (sync_at_exit o f ns >> echo (codes "Done"))))
        (cleanup_missing proc node (titled w) there missing)
