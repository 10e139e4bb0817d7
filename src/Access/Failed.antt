-- ===== src/Access/Failed.antt =====
-- The end of `open_notebook` where the pod cannot be read.
use marimo_operator.Base.{
  Text, codes, ◌≡◌, refl, ap, inl, true, false, Option, none, some, [], ◌++◌,
}
use marimo_operator.Access.{cleanup_sshfs, warn_sync, catch_sync, sync_at_exit, close_notebook}
use marimo_operator.Exec.{file, said, log, Outside, World, next, find, echo, echo_err}
use marimo_operator.Kubectl.{output_of}
use marimo_operator.Paths.{path_text}
use marimo_operator.Result.{raise, exit}
use marimo_operator.Swap.{SwapMeta, to_dict}
use marimo_operator.Swap.Tracking.{swap_at}
use marimo_operator.Sync.{pulled}
use marimo_operator.Sync.Local.{local_key}
use marimo_operator.Sync.Pull.{asked_trace, sync_notebook-pulled}

module _ (o : Outside) (f text : Text) (namespace : Option Text) (meta : SwapMeta) (w : World) where
  -- The world in which the last sync begins.
  abbrev pub at_sync : World
  at_sync = log (said false (codes "\nSyncing changes...")) w

  -- The world behind the attempt: the message of the failed read, and every file as it was.
  abbrev pub after_failure : Text → World
  after_failure message =
      log (said true (codes "Error reading from pod: " ++ message))
        (record w { trace = asked_trace o f text namespace true meta at_sync })

  -- Where the pod of a notebook without mounts cannot be read, Ctrl+C ends the command with status 1:
  -- the exit of the sync is not caught, so neither a warning nor the closing line is printed. No file
  -- is touched.
  pub close_notebook_failed :
      (message : Text)
      → find (local_key f) w.files ≡ some (file text)
      → find (path_text (swap_at f w)) w.files ≡ some (file (o.json_dump (to_dict meta)))
      → o.json_load (o.json_dump (to_dict meta)) ≡ some (to_dict meta)
      → meta.local_mounts ≡ none
      → output_of (o.reply (asked_trace o f text namespace true meta at_sync)) ≡ (false, message)
      → o.moves (asked_trace o f text namespace true meta at_sync) w.files ≡ w.files
      → close_notebook o f namespace [] w ≡ (raise (exit 1), after_failure message)
  unfolding close_notebook cleanup_sshfs echo echo_err sync_at_exit pulled warn_sync
  close_notebook_failed message here tracked codec no_mounts failed untouched =
      ap (λ r. next (catch_sync o r) (λ _. echo (codes "Done")))
        (sync_notebook-pulled o f text namespace true meta at_sync (false, message) here tracked
          codec no_mounts (inl refl) failed untouched)
