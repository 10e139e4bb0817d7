-- ===== src/Sync.antt =====
-- `sync_local_mounts` and `sync_notebook` of plugin/kubectl_marimo/sync.py, and `compute_hash` of
-- plugin/kubectl_marimo/resources.py.
pub mod Local
pub mod Keeps
pub mod Pull
pub mod Declined
pub mod Copies
pub mod Below
use marimo_operator.Base.{
  ℕ, Text, codes, same, starts_with, take, Bool, true, false, not, ◌&&◌, ◌||◌, Option, none, some,
  List, [], ◌∷◌, ◌++◌, ◌==◌, if◌then◌else◌,
}
use marimo_operator.Content.{ContentType, markdown, python, detect_content_type}
use marimo_operator.Exec.{
  FileTable, Process, Outside, World, M, ◌>>=◌, ◌>>◌, pure, throw, sys_exit, echo, echo_err, is_dir,
  exists, read_text, write_text, unlink, confirm, run_command,
}
use marimo_operator.Kubectl.{kubectl, exec_in_pod}
use marimo_operator.Paths.{FilePath, path, path_text}
use marimo_operator.Result.{os_error}
use marimo_operator.Swap.{LocalMount, SwapMeta, extension, read_swap_file, write_swap_file}

-- An optional text in an f-string.
unfoldable pub shown : Option Text → Text
shown none = codes "None"
shown (some s) = s

unfoldable pub copy_command : Text → Option Text → LocalMount → List Text
unfolding shown
copy_command name namespace m =
    kubectl
    ∷ codes "cp"
    ∷ (shown namespace ++ (codes "/" ++ (name ++ (codes ":" ++ (m.remote ++ codes "/.")))))
    ∷ m.local
    ∷ codes "-c"
    ∷ codes "marimo"
    ∷ []

-- s.endswith(p)
unfoldable pub ends_in : Text → Text → Bool
unfolding same
ends_in p [] = same p []
ends_in p (c ∷ s) = same p (c ∷ s) || ends_in p s

-- A key that lies below a directory.
unfoldable pub is_below : FilePath → Text → Bool
unfolding starts_with path_text same
is_below p key =
    if same (path_text p) (codes ".")
    then not (starts_with (codes "/") key) && not (same key (codes "."))
    else if same (path_text p) (codes "/")
    then starts_with (codes "/") key && not (same key (codes "/"))
    else starts_with (path_text p ++ codes "/") key

-- local_dir.rglob("*.marimo")
unfoldable pub swap_copies : FilePath → FileTable → List Text
unfolding is_below ends_in
swap_copies p [] = []
swap_copies p ((key, node) ∷ files) =
    let rest = swap_copies p files in
    if is_below p key && ends_in extension key then key ∷ rest else rest

unfoldable pub unlink_all : List Text → M (Unit {0})
unfolding unlink
unlink_all [] = pure tt
unlink_all (key ∷ keys) = unlink key >> unlink_all keys

-- The clean-up of swap files that were copied back.
unfoldable pub clean_copies : FilePath → M (Unit {0})
unfolding is_dir swap_copies unlink_all
clean_copies p =
    is_dir p >>= λ folder. if folder then (λ w. unlink_all (swap_copies p w.files) w) else pure tt

unfoldable pub mount_synced : LocalMount → Option Process → M (Unit {0})
unfolding echo echo_err clean_copies path
mount_synced m none = throw os_error
mount_synced m (some p) =
    if p.returncode == 0
    then (echo (codes "Synced " ++ (m.remote ++ (codes " → " ++ m.local)))
        >> clean_copies (path m.local))
    else echo_err (codes "Warning: Failed to sync " ++ (m.remote ++ (codes ": " ++ p.stderr)))

-- "sha256:" and 16 digits of the hash.
unfoldable pub compute_hash : Outside → Text → Text
compute_hash o content = codes "sha256:" ++ take 16 (o.hexdigest content)

unfoldable pub notebook_file : ContentType → Text
notebook_file markdown = codes "notebook.md"
notebook_file python = codes "notebook.py"

abbrev pub cat_command : ContentType → Text
cat_command t = codes "cat /home/marimo/notebooks/" ++ notebook_file t

abbrev pub modified_warning : Text → Text
modified_warning file_path =
    codes "Warning: Local file '" ++ (file_path ++ codes "' modified since deploy.")

abbrev pub overwrite_question : Text
overwrite_question = codes "Overwrite with pod content?"

-- The option, or else the namespace of the swap file.
abbrev pub or_namespace : Option Text → Option Text → Option Text
or_namespace none ns = ns
or_namespace (some ns) _ = some ns

abbrev pub synced_line : Text → Option Text → SwapMeta → Text
synced_line file_path namespace meta =
    codes "Synced from "
    ++ (shown namespace ++ (codes "/" ++ (meta.name ++ (codes " to " ++ file_path))))

module _ (o : Outside) where
  unfoldable pub sync_local_mounts : Text → Option Text → List LocalMount → M (Unit {0})
  unfolding run_command copy_command mount_synced
  sync_local_mounts name namespace [] = pure tt
  sync_local_mounts name namespace (m ∷ ms) =
      (run_command o (copy_command name namespace m) [] >>= mount_synced m)
      >> sync_local_mounts name namespace ms

  -- `if meta.local_mounts:`
  unfoldable pub sync_optional_mounts : Text → Option Text → Option (List LocalMount) → M (Unit {0})
  unfolding sync_local_mounts
  sync_optional_mounts name namespace none = pure tt
  sync_optional_mounts name namespace (some ms) = sync_local_mounts name namespace ms

  -- The question, if the local text is not the one that was deployed. The answer is whether to go on.
  unfoldable pub ask_if_modified : Text → Text → Text → M Bool
  unfolding echo confirm compute_hash same
  ask_if_modified file_path file_hash text =
      if same (compute_hash o text) file_hash
      then pure true
      else echo (modified_warning file_path) >> confirm o overwrite_question

  -- `if not force and path.exists():`
  unfoldable pub may_overwrite : Text → Bool → SwapMeta → M Bool
  unfolding exists read_text ask_if_modified path
  may_overwrite file_path force meta = exists (path file_path) >>= λ there.
      if not force && there
      then (read_text (path file_path) >>= ask_if_modified file_path meta.file_hash)
      else pure true

  -- path.read_text() if path.exists() else ""
  unfoldable pub local_text : FilePath → M Text
  unfolding exists read_text
  local_text p = exists p >>= λ there. if there then read_text p else pure []

  -- The file and the hash in its swap file are written.
  unfoldable pub store_pulled : Text → SwapMeta → Text → M (Unit {0})
  unfolding write_text write_swap_file compute_hash path
  store_pulled file_path meta content =
      write_text (path file_path) content
      >> write_swap_file o file_path (record meta { file_hash = compute_hash o content })

  unfoldable pub pulled : Text → Option Text → SwapMeta → Bool × Text → M (Unit {0})
  unfolding echo_err echo store_pulled shown
  pulled file_path namespace meta (false, message) =
      echo_err (codes "Error reading from pod: " ++ message) >> sys_exit 1
  pulled file_path namespace meta (true, content) =
      store_pulled file_path meta content >> echo (synced_line file_path namespace meta)

  unfoldable pub pull : Text → Option Text → SwapMeta → M (Unit {0})
  unfolding local_text exec_in_pod pulled detect_content_type notebook_file path
  pull file_path namespace meta = local_text (path file_path) >>= λ text.
      (exec_in_pod o meta.name namespace (cat_command (detect_content_type text))
        >>= pulled file_path namespace meta)

  -- The content of a file, unless the user keeps the local one.
  unfoldable pub sync_content : Text → Option Text → Bool → SwapMeta → M (Unit {0})
  unfolding may_overwrite pull echo
  sync_content file_path namespace force meta = may_overwrite file_path force meta >>= λ go.
      if go then pull file_path namespace meta else echo (codes "Sync cancelled")

  unfoldable pub sync_deployed : Text → Option Text → Bool → SwapMeta → M (Unit {0})
  unfolding sync_optional_mounts is_dir sync_content echo shown path
  sync_deployed file_path namespace force meta =
      let ns = or_namespace namespace meta.namespace in
      sync_optional_mounts meta.name ns meta.local_mounts
      >> (is_dir (path file_path) >>= λ folder.
          if folder
          then echo (codes "Synced mounts from " ++ (shown ns ++ (codes "/" ++ meta.name)))
          else sync_content file_path ns force meta)

  unfoldable pub sync_found : Text → Option Text → Bool → Option SwapMeta → M (Unit {0})
  unfolding sync_deployed echo_err
  sync_found file_path namespace force none = do
    echo_err (codes "Error: No active deployment found for '" ++ (file_path ++ codes "'"))
    echo_err (codes "Hint: Run 'kubectl marimo apply' first")
    sys_exit 1
  sync_found file_path namespace force (some meta) = sync_deployed file_path namespace force meta

  unfoldable pub sync_notebook : Text → Option Text → Bool → M (Unit {0})
  unfolding read_swap_file sync_found
  sync_notebook file_path namespace force =
      read_swap_file o file_path >>= sync_found file_path namespace force
