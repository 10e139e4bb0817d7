-- ===== src/Deploy/Tracking.antt =====
-- A deployment that was tracked: what `sync` and the next `deploy` make of its swap file.
use marimo_operator.Base.{
  Text, codes, same, same_refl, replace, ◌≡◌, ◌≢◌, refl, ap, ◌∙◌, true, false, Option, some, [],
  ◌∷◌, ◌++◌,
}
use marimo_operator.Deploy.{hash_of, Source, mounts_data, track, ask_to_redeploy, may_deploy}
use marimo_operator.Exec.{
  file, Event, said, Outside, World, M, next, ◌>>=◌, log, find, is_folder, read_text,
}
use marimo_operator.Exec.Files.{find-store, read_text-file}
use marimo_operator.Notebook.{Notebook}
use marimo_operator.Paths.{FilePath, path, path_text}
use marimo_operator.Result.{ok}
use marimo_operator.Swap.{SwapMeta, to_dict, swap_file_path, write_swap_file, read_swap_file}
use marimo_operator.Swap.Tracking.{
  swap_at, after_write, find-store_self, write_swap_file-eq, swap_file_path-eq, swap_at-after_write,
  read_swap_file-found,
}
use marimo_operator.Sync.{compute_hash, may_overwrite, ask_if_modified}
use marimo_operator.Sync.Local.{
  local_key, may_overwrite-eq, ask_if_modified_same, ask_if_modified_other, after_question,
}

-- The metadata that a deployment writes.
abbrev pub tracked_meta : Outside → Text → Option Text → Source → Notebook → World → SwapMeta
tracked_meta o f namespace src nb w = record {
  name = src.name;
  namespace = namespace;
  applied_at = replace (codes "+00:00") (codes "Z") (o.now w.trace);
  original_file = o.resolved f;
  file_hash = hash_of o src.content;
  local_mounts = mounts_data nb;
}

hash_of-some : (o : Outside) (text : Text) → text ≢ [] → hash_of o (some text) ≡ compute_hash o text
unfolding hash_of
hash_of-some o [] h = absurd (h refl)
hash_of-some o (c ∷ s) h = refl

hash_of_empty : (o : Outside) → same (compute_hash o []) (hash_of o (some [])) ≡ false
unfolding hash_of compute_hash same
hash_of_empty o = refl

-- What is printed about the swap file.
abbrev tracking_line : FilePath → Event
tracking_line p = said false (codes "Tracking deployment in " ++ path_text p)

module _ (o : Outside) (f : Text) (namespace : Option Text) (src : Source) (nb : Notebook)
    (w : World) (no_folder : is_folder (find (path_text (swap_at f w)) w.files) ≡ false) where
  abbrev pub meta : SwapMeta
  meta = tracked_meta o f namespace src nb w

  abbrev saved : World
  saved = after_write (swap_at f w) (o.json_dump (to_dict meta)) w

  -- The world once the deployment is tracked.
  abbrev pub ended : World
  ended = log (tracking_line (swap_at f w)) saved

  track-eq : track o f namespace src nb w ≡ (ok tt, ended)
  track-eq =
      made
      ∙ ap (λ r. next r (λ _. (swap_file_path f >>= say))) (write_swap_file-eq o meta f w no_folder)
      ∙ ap (λ r. next r say) (swap_file_path-eq f saved)
      ∙ ap (λ p. (ok tt, log (tracking_line p) saved))
          (swap_at-after_write f (swap_at f w) (o.json_dump (to_dict meta)) w no_folder)
    where
      say : FilePath → M (Unit {0})
      say p v = (ok tt, log (tracking_line p) v)

      made :
          track o f namespace src nb w
          ≡ next
              (write_swap_file o f (tracked_meta o f namespace src nb w) w)
              (λ _. (swap_file_path f >>= say))
      made = unfold track in refl

  swap_there :
      find (path_text (swap_at f ended)) ended.files ≡ some (file (o.json_dump (to_dict meta)))
  swap_there =
      ap (λ q. find (path_text q) saved.files)
        (swap_at-after_write f (swap_at f w) (o.json_dump (to_dict meta)) w no_folder)
      ∙ find-store_self (path_text (swap_at f w)) (file (o.json_dump (to_dict meta))) w.files

  module _ (text : Text) (here : find (local_key f) w.files ≡ some (file text))
      (differ : same (path_text (swap_at f w)) (local_key f) ≡ false) where
    text_there : find (local_key f) ended.files ≡ some (file text)
    text_there = find-store (local_key f) (path_text (swap_at f w)) _ w.files ∙ rw differ here

    may_deploy-eq :
        may_deploy o f false (some meta) ended ≡ ask_to_redeploy o f meta.file_hash text ended
    may_deploy-eq = asked_of (read_text-file (path f) text ended text_there)
      where
        asked_of :
            read_text (path f) ended ≡ (ok text, ended)
            → may_deploy o f false (some (tracked_meta o f namespace src nb w)) ended
              ≡ ask_to_redeploy o f (hash_of o src.content) text ended
        asked_of e =
            unfold may_deploy in ap (λ r. next r (ask_to_redeploy o f (hash_of o src.content))) e

    ask_to_redeploy_same :
        (v : World) → ask_to_redeploy o f (compute_hash o text) text v ≡ (ok true, v)
    unfolding ask_to_redeploy
    ask_to_redeploy_same v = rw same_refl refl

    -- A notebook with a text that is deployed and not changed since: its swap file is read back, with
    -- the mounts, and neither the next `sync` nor the next `deploy` asks the user about changes. (The
    -- JSON library reads what it prints, the swap file is another file than the notebook, and no
    -- folder stands in its place.)
    pub track-clean :
        src.content ≡ some text
        → text ≢ []
        → o.json_load (o.json_dump (to_dict meta)) ≡ some (to_dict meta)
        → let w' = (track o f namespace src nb w).1 in
          (read_swap_file o f w' ≡ (ok (some meta), w'))
          × (may_overwrite o f false meta w' ≡ (ok true, w'))
          × (may_deploy o f false (some meta) w' ≡ (ok true, w'))
    track-clean content full codec = rw track-eq (
      read_swap_file-found o meta f ended swap_there codec,
      may_overwrite-eq o f text meta ended text_there
          ∙ ap (λ h. ask_if_modified o f h text ended) hashed
          ∙ ask_if_modified_same o f text ended,
      may_deploy-eq
          ∙ ap (λ h. ask_to_redeploy o f h text ended) hashed
          ∙ ask_to_redeploy_same ended,
    )
      where
        hashed : hash_of o src.content ≡ compute_hash o text
        hashed = ap (hash_of o) content ∙ hash_of-some o text full

  -- A notebook without any text that is deployed and not changed since: the next `sync` warns that it
  -- was modified and asks the user, since no hash was recorded.
  pub track_empty :
      find (local_key f) w.files ≡ some (file [])
      → same (path_text (swap_at f w)) (local_key f) ≡ false
      → src.content ≡ some []
      → let w' = (track o f namespace src nb w).1 in
        may_overwrite o f false meta w'
        ≡ (ok (o.confirms (after_question f w').trace), after_question f w')
  track_empty here differ content = rw track-eq (
      may_overwrite-eq o f [] meta ended (text_there [] here differ)
      ∙ ask_if_modified_other o f meta.file_hash [] ended
          (ap (λ c. same (compute_hash o []) (hash_of o c)) content ∙ hash_of_empty o))
