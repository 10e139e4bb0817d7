-- ===== src/Sync/Keeps.antt =====
-- What `sync_notebook` and its steps keep: whatever talking to the user, running programs, and
-- writing and removing local files keeps.
use marimo_operator.Base.{
  Text, codes, same, refl, Bool, true, false, not, ◌&&◌, Option, none, some, List, [], ◌∷◌, ◌++◌,
  ◌==◌,
}
use marimo_operator.Content.{detect_content_type}
use marimo_operator.Credentials.Keeps.{Hears}
use marimo_operator.Exec.{
  Outside, Process, World, ◌>>=◌, ◌>>◌, pure, sys_exit, echo, echo_err, confirm, run_command,
  write_text, read_text, is_dir, exists, unlink,
}
use marimo_operator.Exec.Keeps.{
  Keeps, Keeps-bind, Keeps-then, Keeps-pure, Keeps-throw, Keeps-if, Keeps-read_text, Keeps-is_dir,
  Keeps-exists,
}
use marimo_operator.Kubectl.{kubectl, exec_command, exec_in_pod, output_of}
use marimo_operator.Kubectl.Harmless.{verb_harmless, with_namespace_harmless}
use marimo_operator.Paths.{FilePath, path}
use marimo_operator.Result.{os_error, exit}
use marimo_operator.Swap.{LocalMount, SwapMeta, swap_file_path, write_swap_file, to_dict}
use marimo_operator.Swap.Keeps.{swap_file_path-Keeps, read_swap_file-Keeps}
use marimo_operator.Sync.{
  compute_hash, shown, modified_warning, overwrite_question, ask_if_modified, copy_command,
  swap_copies, unlink_all, clean_copies, mount_synced, sync_local_mounts, sync_optional_mounts,
  cat_command, may_overwrite, local_text, store_pulled, pulled, pull, sync_content, sync_deployed,
  sync_found, sync_notebook, or_namespace,
}

-- What local files are written and removed with keeps, too.
pub record Acts (o : Outside) (P : World → Type 0) : Type 0 where
  pub heard : Hears o P
  pub writes : (p : FilePath) (s : Text) → Keeps P (write_text p s)
  pub unlinks : (key : Text) → Keeps P (unlink key)

module _ (o : Outside) {P : World → Type 0} (acts : Acts o P) where
  pub ask_if_modified-Keeps : (f hash text : Text) → Keeps P (ask_if_modified o f hash text)
  unfolding ask_if_modified
  ask_if_modified-Keeps f hash text =
      Keeps-if (same (compute_hash o text) hash) (pure true)
        (echo (modified_warning f) >> confirm o overwrite_question) (Keeps-pure true)
        (Keeps-then (echo (modified_warning f)) (confirm o overwrite_question)
          (acts.heard.says (modified_warning f)) (acts.heard.confirms overwrite_question))

  pub exec_in_pod-Keeps :
      (pod : Text) (ns : Option Text) (command : Text) → Keeps P (exec_in_pod o pod ns command)
  unfolding exec_in_pod exec_command
  exec_in_pod-Keeps pod ns command =
      Keeps-bind (run_command o (exec_command pod ns command) []) (λ r. pure (output_of r))
        (acts.heard.runs (exec_command pod ns command) []
          (with_namespace_harmless 0 ns kubectl (codes "exec") _ (unfold same in refl)))
        (λ r. Keeps-pure (output_of r))

  unlink_all-Keeps : (keys : List Text) → Keeps P (unlink_all keys)
  unfolding unlink_all
  unlink_all-Keeps [] = Keeps-pure tt
  unlink_all-Keeps (key ∷ keys) =
      Keeps-then (unlink key) (unlink_all keys) (acts.unlinks key) (unlink_all-Keeps keys)

  clean_copies-Keeps : (p : FilePath) → Keeps P (clean_copies p)
  unfolding clean_copies
  clean_copies-Keeps p = Keeps-bind (is_dir p) _ (Keeps-is_dir p) (λ folder.
      Keeps-if folder (λ w. unlink_all (swap_copies p w.files) w) (pure tt)
        (record { at = λ w h. (unlink_all-Keeps (swap_copies p w.files)).at w h }) (Keeps-pure tt))

  mount_synced-Keeps : (m : LocalMount) (r : Option Process) → Keeps P (mount_synced m r)
  unfolding mount_synced
  mount_synced-Keeps m none = Keeps-throw os_error
  mount_synced-Keeps m (some p) =
      Keeps-if (p.returncode == 0) _ _
        (Keeps-then (echo (codes "Synced " ++ (m.remote ++ (codes " → " ++ m.local))))
          (clean_copies (path m.local))
          (acts.heard.says (codes "Synced " ++ (m.remote ++ (codes " → " ++ m.local))))
          (clean_copies-Keeps (path m.local)))
        (acts.heard.says_err
          (codes "Warning: Failed to sync " ++ (m.remote ++ (codes ": " ++ p.stderr))))

  sync_local_mounts-Keeps :
      (n : Text) (ns : Option Text) (ms : List LocalMount) → Keeps P (sync_local_mounts o n ns ms)
  unfolding sync_local_mounts copy_command
  sync_local_mounts-Keeps n ns [] = Keeps-pure tt
  sync_local_mounts-Keeps n ns (m ∷ ms) =
      Keeps-then (run_command o (copy_command n ns m) [] >>= mount_synced m)
        (sync_local_mounts o n ns ms)
        (Keeps-bind (run_command o (copy_command n ns m) []) (mount_synced m)
          (acts.heard.runs (copy_command n ns m) []
            (verb_harmless kubectl (codes "cp") _ (unfold same in refl)))
          (mount_synced-Keeps m))
        (sync_local_mounts-Keeps n ns ms)

  pub sync_optional_mounts-Keeps :
      (n : Text) (ns : Option Text) (ms : Option (List LocalMount))
      → Keeps P (sync_optional_mounts o n ns ms)
  unfolding sync_optional_mounts
  sync_optional_mounts-Keeps n ns none = Keeps-pure tt
  sync_optional_mounts-Keeps n ns (some ms) = sync_local_mounts-Keeps n ns ms

  may_overwrite-Keeps :
      (f : Text) (force : Bool) (meta : SwapMeta) → Keeps P (may_overwrite o f force meta)
  unfolding may_overwrite
  may_overwrite-Keeps f force meta =
      Keeps-bind (exists (path f)) _ (Keeps-exists (path f)) (λ there.
        Keeps-if (not force && there) (read_text (path f) >>= ask_if_modified o f meta.file_hash)
          (pure true)
          (Keeps-bind (read_text (path f)) (ask_if_modified o f meta.file_hash)
            (Keeps-read_text (path f)) (ask_if_modified-Keeps f meta.file_hash))
          (Keeps-pure true))

  local_text-Keeps : (p : FilePath) → Keeps P (local_text o p)
  unfolding local_text
  local_text-Keeps p =
      Keeps-bind (exists p) _ (Keeps-exists p)
        (λ there. Keeps-if there (read_text p) (pure []) (Keeps-read_text p) (Keeps-pure []))

  pub write_swap_file-Keeps : (f : Text) (meta : SwapMeta) → Keeps P (write_swap_file o f meta)
  unfolding write_swap_file
  write_swap_file-Keeps f meta =
      Keeps-bind (swap_file_path f) (λ p. write_text p (o.json_dump (to_dict meta)))
        (swap_file_path-Keeps f) (λ p. acts.writes p (o.json_dump (to_dict meta)))

  pulled-Keeps :
      (f : Text) (ns : Option Text) (meta : SwapMeta) (r : Bool × Text)
      → Keeps P (pulled o f ns meta r)
  unfolding pulled store_pulled
  pulled-Keeps f ns meta (false, message) =
      Keeps-then (echo_err (codes "Error reading from pod: " ++ message)) (sys_exit 1)
        (acts.heard.says_err (codes "Error reading from pod: " ++ message)) (Keeps-throw (exit 1))
  pulled-Keeps f ns meta (true, content) =
      Keeps-then (store_pulled o f meta content) _
        (Keeps-then (write_text (path f) content) _ (acts.writes (path f) content)
          (write_swap_file-Keeps f (record meta { file_hash = compute_hash o content })))
        (acts.heard.says _)

  pull-Keeps : (f : Text) (ns : Option Text) (meta : SwapMeta) → Keeps P (pull o f ns meta)
  unfolding pull
  pull-Keeps f ns meta = Keeps-bind (local_text o (path f)) _ (local_text-Keeps (path f)) (λ text.
      Keeps-bind (exec_in_pod o meta.name ns (cat_command (detect_content_type text)))
        (pulled o f ns meta)
        (exec_in_pod-Keeps meta.name ns (cat_command (detect_content_type text)))
        (pulled-Keeps f ns meta))

  sync_content-Keeps :
      (f : Text) (ns : Option Text) (force : Bool) (meta : SwapMeta)
      → Keeps P (sync_content o f ns force meta)
  unfolding sync_content
  sync_content-Keeps f ns force meta =
      Keeps-bind (may_overwrite o f force meta) _ (may_overwrite-Keeps f force meta) (λ go.
        Keeps-if go (pull o f ns meta) (echo (codes "Sync cancelled")) (pull-Keeps f ns meta)
          (acts.heard.says (codes "Sync cancelled")))

  sync_deployed-Keeps :
      (f : Text) (namespace : Option Text) (force : Bool) (meta : SwapMeta)
      → Keeps P (sync_deployed o f namespace force meta)
  unfolding sync_deployed
  sync_deployed-Keeps f namespace force meta =
      let ns = or_namespace namespace meta.namespace in
      Keeps-then (sync_optional_mounts o meta.name ns meta.local_mounts) _
        (sync_optional_mounts-Keeps meta.name ns meta.local_mounts)
        (Keeps-bind (is_dir (path f)) _ (Keeps-is_dir (path f)) (λ folder.
          Keeps-if folder _ (sync_content o f ns force meta)
            (acts.heard.says
              (codes "Synced mounts from " ++ (shown ns ++ (codes "/" ++ meta.name))))
            (sync_content-Keeps f ns force meta)))

  sync_found-Keeps :
      (f : Text) (namespace : Option Text) (force : Bool) (meta : Option SwapMeta)
      → Keeps P (sync_found o f namespace force meta)
  unfolding sync_found
  sync_found-Keeps f namespace force none =
      Keeps-then (echo_err (codes "Error: No active deployment found for '" ++ (f ++ codes "'"))) _
        (acts.heard.says_err (codes "Error: No active deployment found for '" ++ (f ++ codes "'")))
        (Keeps-then (echo_err (codes "Hint: Run 'kubectl marimo apply' first")) (sys_exit 1)
          (acts.heard.says_err (codes "Hint: Run 'kubectl marimo apply' first"))
          (Keeps-throw (exit 1)))
  sync_found-Keeps f namespace force (some meta) = sync_deployed-Keeps f namespace force meta

  pub sync_notebook-Keeps :
      (f : Text) (namespace : Option Text) (force : Bool)
      → Keeps P (sync_notebook o f namespace force)
  unfolding sync_notebook
  sync_notebook-Keeps f namespace force =
      Keeps-bind _ (sync_found o f namespace force) (read_swap_file-Keeps o f)
        (sync_found-Keeps f namespace force)
