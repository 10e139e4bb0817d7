-- ===== src/Sync/Declined.antt =====
-- A sync that the user declines: `sync_notebook` of a changed file.
use marimo_operator.Base.{Text, codes, same, ◌≡◌, ap, ◌∙◌, false, Option, none, some, ◌∷◌}
use marimo_operator.Exec.{file, said, Outside, World, next, find}
use marimo_operator.Paths.{path_text}
use marimo_operator.Result.{ok}
use marimo_operator.Swap.{SwapMeta, to_dict}
use marimo_operator.Swap.Tracking.{swap_at, read_swap_file-found}
use marimo_operator.Sync.{compute_hash, sync_found, sync_notebook, or_namespace}
use marimo_operator.Sync.Local.{local_key, after_question, sync_content_declined}
use marimo_operator.Sync.Pull.{sync_deployed_lem}

-- A notebook that was deployed without mounts and whose local file was changed since: if the user
-- declines to overwrite it, `sync` runs no command and writes no file, and ends with a message.
-- (The JSON library reads what it prints.)
pub sync_notebook_declined :
    (o : Outside) (f text : Text) (namespace : Option Text) (meta : SwapMeta) (w : World)
    → find (local_key f) w.files ≡ some (file text)
    → find (path_text (swap_at f w)) w.files ≡ some (file (o.json_dump (to_dict meta)))
    → o.json_load (o.json_dump (to_dict meta)) ≡ some (to_dict meta)
    → meta.local_mounts ≡ none
    → same (compute_hash o text) meta.file_hash ≡ false
    → o.confirms (after_question f w).trace ≡ false
    → sync_notebook o f namespace false w ≡ (
      ok tt,
      record w { trace = said false (codes "Sync cancelled") ∷ (after_question f w).trace },
    )
unfolding sync_notebook sync_found
sync_notebook_declined o f text namespace meta w here tracked codec no_mounts changed declined =
    ap (λ x. next x (sync_found o f namespace false))
      (read_swap_file-found o meta f w tracked codec)
    ∙ (sync_deployed_lem o f text w here namespace false meta no_mounts
        ∙ sync_content_declined o f text (or_namespace namespace meta.namespace) meta w here changed
            declined)
