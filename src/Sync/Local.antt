-- ===== src/Sync/Local.antt =====
-- The local file and its swap file under `sync_notebook`.
use marimo_operator.Base.{
  Text, codes, same, same_refl, ◌≡◌, refl, sym, ap, ◌∙◌, true, false, not, ◌&&◌, Option, some, ◌∷◌,
  if◌then◌else◌,
}
use marimo_operator.Exec.{
  file, said, asked, Outside, World, next, ◌>>=◌, pure, is_folder, find, exists, read_text,
  write_text, echo,
}
use marimo_operator.Exec.Files.{find-store, folder-store, exists-file, read_text-file}
use marimo_operator.Paths.{path, path_text}
use marimo_operator.Result.{ok}
use marimo_operator.Swap.{SwapMeta, to_dict, write_swap_file, read_swap_file}
use marimo_operator.Swap.Tracking.{
  swap_at, after_write, write_text-eq, swap_at-after_write, write_swap_file-eq,
  read_swap_file-write_swap_file,
}
use marimo_operator.Sync.{
  compute_hash, ask_if_modified, may_overwrite, store_pulled, pull, sync_content, modified_warning,
  overwrite_question,
}

abbrev pub local_key : Text → Text
local_key f = path_text (path f)

-- The question, when the file is there.
pub may_overwrite-eq :
    (o : Outside) (f text : Text) (meta : SwapMeta) (w : World)
    → find (local_key f) w.files ≡ some (file text)
    → may_overwrite o f false meta w ≡ ask_if_modified o f meta.file_hash text w
may_overwrite-eq o f text meta w h =
    there (exists-file (path f) text w h) ∙ read (read_text-file (path f) text w h)
  where
    there :
        exists (path f) w ≡ (ok true, w)
        → may_overwrite o f false meta w
          ≡ next (read_text (path f) w) (ask_if_modified o f meta.file_hash)
    there e =
        unfold may_overwrite in
        ap
          (λ r. next r (λ b.
            if not false && b
            then (read_text (path f) >>= ask_if_modified o f meta.file_hash)
            else pure true))
          e

    read :
        read_text (path f) w ≡ (ok text, w)
        → next (read_text (path f) w) (ask_if_modified o f meta.file_hash)
          ≡ ask_if_modified o f meta.file_hash text w
    read e = ap (λ r. next r (ask_if_modified o f meta.file_hash)) e

pub ask_if_modified_same :
    (o : Outside) (f text : Text) (w : World)
    → ask_if_modified o f (compute_hash o text) text w ≡ (ok true, w)
unfolding ask_if_modified
ask_if_modified_same o f text w = rw same_refl refl

-- What the user sees, if the local file was changed.
abbrev pub after_question : Text → World → World
after_question f w = record w {
  trace = asked overwrite_question ∷ said false (modified_warning f) ∷ w.trace;
}

pub ask_if_modified_other :
    (o : Outside) (f hash text : Text) (w : World)
    → same (compute_hash o text) hash ≡ false
    → ask_if_modified o f hash text w
      ≡ (ok (o.confirms (after_question f w).trace), after_question f w)
unfolding ask_if_modified
ask_if_modified_other o f hash text w h = rw h refl

-- What follows the mounts, when the local file was changed and the user declines.
pub sync_content_declined :
    (o : Outside) (f text : Text) (namespace : Option Text) (meta : SwapMeta) (w : World)
    → find (local_key f) w.files ≡ some (file text)
    → same (compute_hash o text) meta.file_hash ≡ false
    → o.confirms (after_question f w).trace ≡ false
    → sync_content o f namespace false meta w ≡ (
      ok tt,
      record w { trace = said false (codes "Sync cancelled") ∷ (after_question f w).trace },
    )
unfolding echo
sync_content_declined o f text namespace meta w here changed declined = sync_content-of (
    may_overwrite-eq o f text meta w here
    ∙ ask_if_modified_other o f meta.file_hash text w changed
    ∙ ap (λ b. (ok b, after_question f w)) declined)
  where
    sync_content-of :
        may_overwrite o f false meta w ≡ (ok false, after_question f w)
        → sync_content o f namespace false meta w
          ≡ echo (codes "Sync cancelled") (after_question f w)
    sync_content-of e =
        unfold sync_content in
        ap
          (λ r.
            next r (λ go. if go then pull o f namespace meta else echo (codes "Sync cancelled")))
          e

abbrev pub refreshed : Outside → SwapMeta → Text → SwapMeta
refreshed o meta content = record meta { file_hash = compute_hash o content }

module _ (o : Outside) (f content : Text) (meta : SwapMeta) (w : World) where
  abbrev pub saved : SwapMeta
  saved = refreshed o meta content

  abbrev pub text_written : World
  text_written = after_write (path f) content w

  abbrev pub both_written : World
  both_written = after_write (swap_at f w) (o.json_dump (to_dict saved)) text_written

  module _ (no_folder : is_folder (find (local_key f) w.files) ≡ false)
      (no_swap_folder : is_folder (find (path_text (swap_at f w)) w.files) ≡ false)
      (differ : same (path_text (swap_at f w)) (local_key f) ≡ false) where
    no_swap_folder_later :
        is_folder (find (path_text (swap_at f text_written)) text_written.files) ≡ false
    no_swap_folder_later = rw (swap_at-after_write f (path f) content w no_folder) (
        folder-store (path_text (swap_at f w)) (local_key f) content w.files no_folder
        ∙ no_swap_folder)

    pub store_pulled-eq : store_pulled o f meta content w ≡ (ok tt, both_written)
    store_pulled-eq =
        first (write_text-eq (path f) content w no_folder)
        ∙ write_swap_file-eq o saved f text_written no_swap_folder_later
        ∙ ap (λ q. (ok tt, after_write q (o.json_dump (to_dict saved)) text_written))
            (swap_at-after_write f (path f) content w no_folder)
      where
        first :
            write_text (path f) content w ≡ (ok tt, text_written)
            → store_pulled o f meta content w ≡ write_swap_file o f saved text_written
        first e = unfold store_pulled in ap (λ r. next r (λ _. write_swap_file o f saved)) e

    content_kept : find (local_key f) both_written.files ≡ some (file content)
    content_kept =
        find-store (local_key f) (path_text (swap_at f w)) _ text_written.files
        ∙ rw differ
            (find-store (local_key f) (local_key f) (file content) w.files ∙ rw same_refl refl)

    -- After content was pulled into a file, the file holds the pod's content, the swap file names its
    -- hash, and the next sync does not ask about local changes. (The JSON library reads what it
    -- prints, the swap file is another file than the notebook, and a folder stands in neither's place.)
    pub store_pulled-clean :
        o.json_load (o.json_dump (to_dict saved)) ≡ some (to_dict saved)
        → let w' = (store_pulled o f meta content w).1 in
          (find (local_key f) w'.files ≡ some (file content))
          × (read_swap_file o f w' ≡ (ok (some saved), w'))
          × (may_overwrite o f false saved w' ≡ (ok true, w'))
    store_pulled-clean codec = rw store_pulled-eq (
      content_kept,
      ap (read_swap_file o f) (sym both)
          ∙ (read_swap_file-write_swap_file o saved f text_written codec no_swap_folder_later).1
          ∙ ap (λ v. (ok (some saved), v)) both,
      may_overwrite-eq o f content saved both_written content_kept
          ∙ ask_if_modified_same o f content both_written,
    )
      where
        both : (write_swap_file o f saved text_written).1 ≡ both_written
        both =
            ap (λ r. r.1) (write_swap_file-eq o saved f text_written no_swap_folder_later)
            ∙ ap (λ q. after_write q (o.json_dump (to_dict saved)) text_written)
                (swap_at-after_write f (path f) content w no_folder)
