-- ===== src/Examples/Commands.antt =====
-- The commands in a small world: one notebook that is deployed, and kubectl's answers.
use marimo_operator.Base.{
  inl, ℕ, Text, codes, same, ◌≡◌, refl, true, false, none, some, [], ◌∷◌, ◌++◌,
}
use marimo_operator.Delete.{
  cancelled_line, notebook_kind, delete_named, delete_cluster, delete_notebook,
}
use marimo_operator.Delete.Outcome.{
  first_line, delete_notebook_folder, delete_named_declined, delete_cluster_failed,
}
use marimo_operator.Exec.{
  file, folder, find, FileTable, ran, said, removed, Outside, World, log, is_folder,
}
use marimo_operator.Kubectl.{
  delete_command, patch_command, apply_resource, delete_resource, patch_resource,
}
use marimo_operator.Kubectl.Replies.{ran_and_told, delete_argv, patch_argv, calls-succeeded}
use marimo_operator.Paths.{path, path_text}
use marimo_operator.Result.{ok, raise, exit, os_error}
use marimo_operator.Swap.{SwapMeta, swap_path_of, to_dict, read_swap_file, write_swap_file}
use marimo_operator.Swap.Tracking.{swap_at, read_swap_file-write_swap_file}
use marimo_operator.Sync.{compute_hash, may_overwrite, store_pulled, sync_notebook}
use marimo_operator.Sync.Local.{local_key, after_question, refreshed, store_pulled-clean}
use marimo_operator.Sync.Declined.{sync_notebook_declined}
use marimo_operator.Value.{empty, dict, pos}

abbrev pub demo : Text
demo = codes "demo.py"

abbrev pub deployed_text : Text
deployed_text = codes "import marimo"

abbrev pub meta : SwapMeta
meta = record {
  name = codes "demo";
  namespace = some (codes "team");
  applied_at = codes "2025-01-01T00:00:00Z";
  original_file = codes "/home/me/demo.py";
  file_hash = codes "sha256:old";
  local_mounts = none;
}

abbrev pub deployed : FileTable
deployed =
    (demo, file deployed_text)
    ∷ (codes ".demo.py.marimo", file (codes "{}"))
    ∷ (codes "pages", folder)
    ∷ []

-- kubectl answers with one code, the user declines, and the JSON library knows one text.
abbrev pub outside : ℕ → SwapMeta → Outside
outside code known = record {
  reply = λ t. some (record { returncode = code; stdout = []; stderr = codes "denied" });
  moves = λ t fs. fs;
  confirms = λ t. false;
  hexdigest = λ s. codes "0123456789abcdef0123" ++ s;
  yaml_load = λ s. none;
  yaml_dump = λ v. [];
  json_load = λ s. some (to_dict known);
  json_dump = λ v. codes "{}";
  now = λ t. codes "2025-01-01T00:00:00+00:00";
  resolved = λ s. codes "/home/me/" ++ s;
  resolved_name = λ s. codes "me";
  ssh_image = codes "ssh:latest";
  prompts = λ t. [];
  yaml_dump_in_order = λ v. [];
  home = codes "/home/me";
  expanded = λ s. s;
  starts = λ t. true;
  is_free = λ t. true;
  free_port = λ t. 40000;
  interrupted = λ t. true;
  message = λ e. [];
  elapsed = λ t s. some (pos 90000000);
  usage = λ s. codes "no such path";
  s3_keys = λ s. inl (codes "no section");
}

abbrev pub start : World
start = record { files = deployed; trace = [] }

-- The run itself: the claim is released, the notebook deleted and the swap file removed.
delete_notebook_run :
    (delete_notebook (outside 0 meta) demo none false true false start).1.trace
    ≡ said false (codes "Deleted team/demo")
      ∷ removed (codes ".demo.py.marimo")
      ∷ said false []
      ∷ ran (delete_command notebook_kind (codes "demo") (some (codes "team")) true) []
      ∷ said false []
      ∷ ran
          (patch_command
            (codes "pvc")
            (codes "demo-pvc")
            (some (codes "team"))
            (codes "{\"metadata\":{\"ownerReferences\":null}}"))
          []
      ∷ []
unfolding delete_notebook to_dict
delete_notebook_run = refl

delete_notebook_folder_example :
    delete_notebook (outside 0 meta) (codes "pages") none false false false start
    ≡ (raise os_error, start)
delete_notebook_folder_example =
    delete_notebook_folder (outside 0 meta) (codes "pages") none false false false start there
  where
    there : find (local_key (codes "pages")) deployed ≡ some folder
    there = unfold find path path_text in refl

pub demo_there : find (local_key demo) deployed ≡ some (file deployed_text)
unfolding find path path_text
demo_there = refl

demo_changed : same (compute_hash (outside 0 meta) deployed_text) (codes "sha256:old") ≡ false
unfolding compute_hash same
demo_changed = refl

delete_named_declined_example :
    delete_named
      (outside 0 meta)
      demo
      none
      false
      false
      false
      deployed_text
      (codes "demo")
      (some meta)
      start
    ≡ (
      ok tt,
      log
          (said false (cancelled_line (outside 0 meta)))
          (after_question demo (log (said false first_line) start)),
    )
delete_named_declined_example =
    delete_named_declined (outside 0 meta) demo deployed_text deployed_text (codes "demo") none
      false meta start demo_there demo_changed refl

delete_cluster_failed_example :
    ((delete_cluster (outside 1 meta) demo (codes "demo") none start).0 ≡ raise (exit 1))
    × ((delete_cluster (outside 1 meta) demo (codes "demo") none start).1.files ≡ deployed)
delete_cluster_failed_example =
    delete_cluster_failed (outside 1 meta) demo (codes "demo") none start refl

sync_notebook_declined_example : sync_notebook (outside 0 meta) demo none false start ≡ (
  ok tt,
  record start { trace = said false (codes "Sync cancelled") ∷ (after_question demo start).trace },
)
sync_notebook_declined_example =
    sync_notebook_declined (outside 0 meta) demo deployed_text none meta start demo_there swap_there
      refl refl demo_changed refl
  where
    swap_there : find (path_text (swap_at demo start)) deployed ≡ some (file (codes "{}"))
    swap_there = unfold find path path_text swap_path_of in refl

abbrev pulled_text : Text
pulled_text = codes "import marimo as mo"

abbrev fresh : SwapMeta
fresh = refreshed (outside 0 meta) meta pulled_text

demo_no_folder : is_folder (find (local_key demo) deployed) ≡ false
unfolding find path path_text
demo_no_folder = refl

pub swap_no_folder : is_folder (find (path_text (swap_at demo start)) deployed) ≡ false
unfolding find path path_text swap_path_of
swap_no_folder = refl

pub swap_other : same (path_text (swap_at demo start)) (local_key demo) ≡ false
unfolding find path path_text swap_path_of same
swap_other = refl

store_pulled-clean_example :
    let o = outside 0 fresh in
    let w' = (store_pulled o demo meta pulled_text start).1 in
    (find (local_key demo) w'.files ≡ some (file pulled_text))
    × (read_swap_file o demo w' ≡ (ok (some (refreshed o meta pulled_text)), w'))
    × (may_overwrite o demo false (refreshed o meta pulled_text) w' ≡ (ok true, w'))
unfolding compute_hash
store_pulled-clean_example =
    store_pulled-clean (outside 0 fresh) demo pulled_text meta start demo_no_folder swap_no_folder
      swap_other refl

read_swap_file-write_swap_file_example :
    let o = outside 0 meta in
    ((write_swap_file o demo meta start).0 ≡ ok tt)
    × (read_swap_file o demo (write_swap_file o demo meta start).1
        ≡ (ok (some meta), (write_swap_file o demo meta start).1))
read_swap_file-write_swap_file_example =
    read_swap_file-write_swap_file (outside 0 meta) meta demo start refl swap_no_folder

calls-succeeded_example :
    let o = outside 1 meta in
    (apply_resource o empty false start
      ≡ ran_and_told o
          (codes "kubectl" ∷ codes "apply" ∷ codes "-f" ∷ codes "-" ∷ [])
          (o.yaml_dump (dict empty))
          start)
    × (delete_resource o notebook_kind (codes "demo") (some (codes "team")) true start
        ≡ ran_and_told o
            (delete_argv notebook_kind (codes "demo") (some (codes "team")) true)
            []
            start)
    × (patch_resource o notebook_kind (codes "demo") (some (codes "team")) (codes "{}") start
        ≡ ran_and_told o
            (patch_argv notebook_kind (codes "demo") (some (codes "team")) (codes "{}"))
            []
            start)
calls-succeeded_example =
    calls-succeeded (outside 1 meta) start empty notebook_kind (codes "demo") (codes "{}")
      (some (codes "team")) true
