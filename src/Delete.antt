-- ===== src/Delete.antt =====
-- `delete_notebook` of plugin/kubectl_marimo/delete.py, with `parse_file` of formats and
-- `resource_name` of resources.
pub mod Trace
pub mod Steps
pub mod Patch
pub mod Release
pub mod Volume
pub mod Outcome
use marimo_operator.Base.{
  ℕ, Text, codes, same, Bool, true, false, not, Option, none, some, List, [], ◌∷◌, ◌++◌,
  if◌then◌else◌,
}
use marimo_operator.Content.{parse_content, detect_content_type}
use marimo_operator.Exec.{
  Outside, World, M, ◌>>=◌, ◌>>◌, pure, throw, lift, sys_exit, echo, echo_err, is_dir, exists,
  read_text, write_text, confirm,
}
use marimo_operator.Kubectl.{exec_in_pod, patch_resource, delete_resource}
use marimo_operator.Paths.{FilePath, path, name, stem}
use marimo_operator.Result.{Result, ok, raise, attribute_error}
use marimo_operator.Slug.{slugify}
use marimo_operator.Swap.{SwapMeta, read_swap_file, delete_swap_file}
use marimo_operator.Sync.{
  shown, ask_if_modified, sync_optional_mounts, cat_command, or_namespace, notebook_file,
}
use marimo_operator.Value.{Value, Fields, str, get, truthy}

-- A title that counts, if there is one.
unfoldable pub title_of : Option Fields → Option Value
unfolding get truthy
title_of none = none
title_of (some fm) = elim (get (codes "title") fm) [
  | none ↦ none
  | some v ↦ if truthy v then some v else none
]

-- slugify(title). Only a text has a lower case.
unfoldable pub title_slug : Value → Result Text
unfolding slugify
title_slug (str s) = ok (slugify s)
title_slug _ = raise attribute_error

-- a or b
unfoldable pub text_or : Text → Text → Text
text_or [] t = t
text_or (c ∷ s) t = c ∷ s

abbrev pub patch_json : Text
patch_json = codes "{\"metadata\":{\"ownerReferences\":null}}"

abbrev pub pvc_name : Text → Text
pvc_name n = n ++ codes "-pvc"

abbrev pub notebook_kind : Text
notebook_kind = codes "marimos.marimo.io"

abbrev pub volume_warning : Text
volume_warning =
    codes "Warning: Could not patch PVC to remove owner references. "
    ++ codes "PVC may be deleted with the notebook."

module _ (o : Outside) where
  unfoldable pub path_slug : Text → Bool → Text
  unfolding slugify text_or name stem path
  path_slug file_path folder =
      if folder
      then slugify (text_or (name (path file_path)) (o.resolved_name file_path))
      else slugify (stem (path file_path))

  unfoldable pub resource_name_of : Text → Option Value → M Text
  unfolding title_slug is_dir path_slug path
  resource_name_of file_path (some title) = lift (title_slug title)
  resource_name_of file_path none =
      is_dir (path file_path) >>= λ folder. pure (path_slug file_path folder)

  unfoldable pub resource_name : Text → Option Fields → M Text
  unfolding resource_name_of title_of
  resource_name file_path frontmatter = resource_name_of file_path (title_of frontmatter)

  unfoldable pub parse_file : Text → M (Text × Option Fields)
  unfolding read_text parse_content path
  parse_file file_path = read_text (path file_path) >>= λ content.
      pure (parse_content o.yaml_load (path file_path) content)

  -- `if not force:`, and what the user answers.
  unfoldable pub may_sync : Text → Bool → SwapMeta → M Bool
  unfolding read_text ask_if_modified path
  may_sync file_path force meta =
      if force
      then pure true
      else (read_text (path file_path) >>= ask_if_modified o file_path meta.file_hash)

  unfoldable pub store_content : Text → Bool × Text → M (Unit {0})
  unfolding write_text echo echo_err path
  store_content file_path (false, message) =
      echo_err (codes "Warning: Could not sync from pod: " ++ message)
      >> echo (codes "Continuing with delete...")
  store_content file_path (true, content) =
      write_text (path file_path) content >> echo (codes "Synced content to " ++ file_path)

  abbrev pub cancelled_line : Text
  cancelled_line = codes "Delete cancelled. Use --no-sync to delete without syncing."

  -- The content and the mounts are pulled. The answer is whether to go on.
  unfoldable pub pull_all : Text → Option Text → Text → SwapMeta → M Bool
  unfolding exec_in_pod store_content sync_optional_mounts detect_content_type notebook_file
  pull_all file_path namespace content meta =
      (exec_in_pod o meta.name namespace (cat_command (detect_content_type content))
        >>= store_content file_path)
      >> (sync_optional_mounts o meta.name namespace meta.local_mounts >> pure true)

  unfoldable pub sync_first : Text → Option Text → Bool → Text → SwapMeta → M Bool
  unfolding echo may_sync pull_all
  sync_first file_path namespace force content meta =
      echo (codes "Syncing changes from pod before delete...")
      >> (may_sync file_path force meta >>= λ go.
          if go
          then pull_all file_path namespace content meta
          else echo cancelled_line >> pure false)

  -- `if not no_sync and meta is not None:`
  unfoldable pub before_delete : Text → Option Text → Bool → Bool → Text → Option SwapMeta → M Bool
  unfolding sync_first
  before_delete file_path namespace force no_sync content none = pure true
  before_delete file_path namespace force no_sync content (some meta) =
      if no_sync then pure true else sync_first file_path namespace force content meta

  -- The volume claim is released from its owner, so that it outlives the notebook.
  unfoldable pub keep_volume : Text → Option Text → M (Unit {0})
  unfolding patch_resource echo_err
  keep_volume n namespace =
      patch_resource o (codes "pvc") (pvc_name n) namespace patch_json >>= λ patched.
      if patched then pure tt else echo_err volume_warning

  unfoldable pub forget : Text → Text → Option Text → M (Unit {0})
  unfolding delete_swap_file echo shown
  forget file_path n namespace = delete_swap_file file_path >>= λ _.
      echo (codes "Deleted " ++ (shown namespace ++ (codes "/" ++ n)))

  unfoldable pub delete_cluster : Text → Text → Option Text → M (Unit {0})
  unfolding delete_resource forget
  delete_cluster file_path n namespace =
      delete_resource o notebook_kind n namespace true >>= λ deleted.
      if deleted then forget file_path n namespace else sys_exit 1

  unfoldable pub remove : Text → Text → Option Text → Bool → M (Unit {0})
  unfolding keep_volume delete_cluster
  remove file_path n namespace delete_pvc =
      (if delete_pvc then pure tt else keep_volume n namespace)
      >> delete_cluster file_path n namespace

  abbrev pub meta_namespace : Option SwapMeta → Option Text
  meta_namespace none = none
  meta_namespace (some meta) = meta.namespace

  -- What follows once the name and the swap file are read.
  unfoldable pub delete_named :
      Text → Option Text → Bool → Bool → Bool → Text → Text → Option SwapMeta → M (Unit {0})
  unfolding before_delete remove
  delete_named file_path namespace force no_sync delete_pvc content n meta =
      let ns = or_namespace namespace (meta_namespace meta) in
      before_delete file_path ns force no_sync content meta >>= λ go.
      if go then remove file_path n ns delete_pvc else pure tt

  unfoldable pub delete_parsed :
      Text → Option Text → Bool → Bool → Bool → Text × Option Fields → M (Unit {0})
  unfolding resource_name read_swap_file delete_named
  delete_parsed file_path namespace force no_sync delete_pvc (content, frontmatter) =
      resource_name file_path frontmatter >>= λ n.
      (read_swap_file o file_path
        >>= delete_named file_path namespace force no_sync delete_pvc content n)

  unfoldable pub delete_notebook : Text → Option Text → Bool → Bool → Bool → M (Unit {0})
  unfolding exists parse_file delete_parsed echo_err path
  delete_notebook file_path namespace force no_sync delete_pvc =
      exists (path file_path) >>= λ there.
      if there
      then (parse_file file_path >>= delete_parsed file_path namespace force no_sync delete_pvc)
      else echo_err (codes "Error: File '" ++ (file_path ++ codes "' not found")) >> sys_exit 1
