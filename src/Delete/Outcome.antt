-- ===== src/Delete/Outcome.antt =====
-- How `delete_notebook` ends where it does not delete.
use marimo_operator.Base.{
  Text, codes, same, ◌≡◌, ap, ◌∙◌, Bool, true, false, Option, some, [], ◌∷◌, ◌++◌, if◌then◌else◌,
}
use marimo_operator.Delete.{
  cancelled_line, notebook_kind, may_sync, pull_all, sync_first, before_delete, remove, forget,
  delete_cluster, meta_namespace, delete_named, parse_file, delete_parsed, delete_notebook,
}
use marimo_operator.Exec.{
  Node, file, folder, ran, said, Event, Outside, Process, World, ◌>>=◌, ◌>>◌, next, pure, sys_exit,
  echo, echo_err, log, run_command, read_text, find, file_text, is_there,
}
use marimo_operator.Content.{parse_content}
use marimo_operator.Exec.Files.{read_text-file}
use marimo_operator.Kubectl.{report, delete_command, delete_resource}
use marimo_operator.Kubectl.Replies.{succeeded, answer, report-succeeded, report-files}
use marimo_operator.Paths.{path}
use marimo_operator.Result.{ok, raise, exit, os_error}
use marimo_operator.Swap.{SwapMeta}
use marimo_operator.Sync.{compute_hash, ask_if_modified, or_namespace}
use marimo_operator.Sync.Local.{local_key, after_question, ask_if_modified_other}

parse_file_folder :
    (o : Outside) (f : Text) (w : World)
    → find (local_key f) w.files ≡ some folder
    → parse_file o f w ≡ (raise os_error, w)
unfolding parse_file read_text
parse_file_folder o f w h =
    ap
      (λ (n : Option Node).
        next (file_text n, w) (λ content. pure (parse_content o.yaml_load (path f) content)))
      h

-- A directory can be deployed, and `delete` fails on it: it reads the directory as a file, which
-- raises, and nothing is done. The deployment, its volume and its swap file stay.
pub delete_notebook_folder :
    (o : Outside) (f : Text) (namespace : Option Text) (force no_sync delete_pvc : Bool) (w : World)
    → find (local_key f) w.files ≡ some folder
    → delete_notebook o f namespace force no_sync delete_pvc w ≡ (raise os_error, w)
delete_notebook_folder o f namespace force no_sync delete_pvc w h = there ∙ parsed
  where
    there :
        delete_notebook o f namespace force no_sync delete_pvc w
        ≡ next (parse_file o f w) (delete_parsed o f namespace force no_sync delete_pvc)
    there =
        unfold delete_notebook in
        ap
          (λ (n : Option Node).
            next (ok (is_there n), w)
              (λ b.
                if b
                then (parse_file o f >>= delete_parsed o f namespace force no_sync delete_pvc)
                else echo_err (codes "Error: File '" ++ (f ++ codes "' not found")) >> sys_exit 1))
          h

    parsed :
        next (parse_file o f w) (delete_parsed o f namespace force no_sync delete_pvc)
        ≡ (raise os_error, w)
    parsed =
        ap (λ r. next r (delete_parsed o f namespace force no_sync delete_pvc))
          (parse_file_folder o f w h)

abbrev pub first_line : Text
first_line = codes "Syncing changes from pod before delete..."

-- Where the local file was changed since it was deployed and the user declines, the command ends
-- with a message: nothing is run, so neither the volume nor the notebook is touched, and no local
-- file is written.
pub delete_named_declined :
    (o : Outside) (f text content n : Text) (namespace : Option Text) (delete_pvc : Bool)
    (meta : SwapMeta) (w : World)
    → find (local_key f) w.files ≡ some (file text)
    → same (compute_hash o text) meta.file_hash ≡ false
    → o.confirms (after_question f (log (said false first_line) w)).trace ≡ false
    → delete_named o f namespace false false delete_pvc content n (some meta) w ≡ (
      ok tt,
      log (said false (cancelled_line o)) (after_question f (log (said false first_line) w)),
    )
unfolding echo
delete_named_declined o f text content n namespace delete_pvc meta w here changed declined = named (
    synced (
      may_sync-of (read_text-file (path f) text w1 here)
      ∙ ask_if_modified_other o f meta.file_hash text w1 changed
      ∙ ap (λ b. (ok b, after_question f w1)) declined))
  where
    w1 : World
    w1 = log (said false first_line) w

    ns : Option Text
    ns = or_namespace namespace (meta_namespace o (some meta))

    may_sync-of :
        read_text (path f) (log (said false first_line) w)
          ≡ (ok text, log (said false first_line) w)
        → may_sync o f false meta (log (said false first_line) w)
          ≡ ask_if_modified o f meta.file_hash text (log (said false first_line) w)
    may_sync-of e = unfold may_sync in ap (λ r. next r (ask_if_modified o f meta.file_hash)) e

    synced :
        may_sync o f false meta (log (said false first_line) w)
          ≡ (ok false, after_question f (log (said false first_line) w))
        → sync_first o f ns false content meta w ≡ (
          ok false,
          log (said false (cancelled_line o)) (after_question f (log (said false first_line) w)),
        )
    synced e =
        unfold sync_first in
        ap
          (λ r. next r (λ go.
            if go then pull_all o f ns content meta else echo (cancelled_line o) >> pure false))
          e

    named :
        sync_first o f ns false content meta w ≡ (
          ok false,
          log (said false (cancelled_line o)) (after_question f (log (said false first_line) w)),
        )
        → delete_named o f namespace false false delete_pvc content n (some meta) w ≡ (
          ok tt,
          log (said false (cancelled_line o)) (after_question f (log (said false first_line) w)),
        )
    named e =
        unfold delete_named in
        unfold before_delete in
        ap (λ r. next r (λ go. if go then remove o f n ns delete_pvc else pure tt)) e

-- A `kubectl delete` that fails ends the command with status 1, and the swap file stays: what
-- changes local files is at most kubectl itself.
pub delete_cluster_failed :
    (o : Outside) (f n : Text) (namespace : Option Text) (w : World)
    → succeeded (answer o w (ran (delete_command notebook_kind n namespace true) [])) ≡ false
    → ((delete_cluster o f n namespace w).0 ≡ raise (exit 1))
      × ((delete_cluster o f n namespace w).1.files
          ≡ o.moves (ran (delete_command notebook_kind n namespace true) [] ∷ w.trace) w.files)
delete_cluster_failed o f n namespace w h =
    (ap (λ r. r.0) ended, ap (λ r. r.1.files) ended ∙ report-files reply w1)
  where
    e : Event
    e = ran (delete_command notebook_kind n namespace true) []

    w1 : World
    w1 = record w { files = o.moves (e ∷ w.trace) w.files; trace = e ∷ w.trace }

    reply : Option Process
    reply = answer o w e

    deleted : delete_resource o notebook_kind n namespace true w ≡ (ok false, (report reply w1).1)
    deleted =
        unfold delete_resource in
        unfold run_command in
        ap (λ b. (b, (report reply w1).1)) (report-succeeded reply w1 ∙ ap ok h)

    ended : delete_cluster o f n namespace w ≡ (raise (exit 1), (report reply w1).1)
    ended =
        unfold delete_cluster in
        ap (λ r. next r (λ d. if d then forget o f n namespace else sys_exit 1)) deleted
