-- ===== src/Sync/Pull.antt =====
-- A sync that goes well: `sync_notebook` of a file.
use marimo_operator.Base.{
  Text, codes, same, ◌≡◌, refl, ap, ◌∙◌, ◌⊎◌, inl, inr, Bool, true, false, not, ◌&&◌, Option, none,
  some, List, [], ◌∷◌, ◌==◌, if◌then◌else◌, ◌++◌,
}
use marimo_operator.Content.{detect_content_type}
use marimo_operator.Exec.{
  file, ran, said, log, Event, Outside, Process, World, M, next, ◌>>=◌, pure, is_folder, find,
  read_text, is_dir, echo, run_command,
}
use marimo_operator.Exec.Files.{exists-file, read_text-file, is_dir-file}
use marimo_operator.Kubectl.{exec_command, exec_in_pod, output_of}
use marimo_operator.Paths.{path, path_text}
use marimo_operator.Result.{ok}
use marimo_operator.Swap.{SwapMeta, to_dict}
use marimo_operator.Swap.Tracking.{swap_at, read_swap_file-found}
use marimo_operator.Sync.{
  compute_hash, shown, cat_command, ask_if_modified, may_overwrite, local_text, pulled, pull,
  sync_content, sync_deployed, sync_found, sync_notebook, sync_optional_mounts, or_namespace,
  synced_line,
}
use marimo_operator.Sync.Local.{local_key, may_overwrite-eq, store_pulled-eq, both_written}

-- The trace with the command that reads the pod's file.
abbrev pub asked_pod : Text → World → Option Text → SwapMeta → List Event
asked_pod text w ns meta =
    ran (exec_command meta.name ns (cat_command (detect_content_type text))) [] ∷ w.trace

module _ (o : Outside) (f text : Text) (w : World)
    (here : find (local_key f) w.files ≡ some (file text)) where
  -- The user is not asked: by force, or since the local file is as it was deployed.
  may_overwrite_unasked :
      (force : Bool) (meta : SwapMeta)
      → (force ≡ true) ⊎ (same (compute_hash o text) meta.file_hash ≡ true)
      → may_overwrite o f force meta w ≡ (ok true, w)
  may_overwrite_unasked true meta c =
      unfold may_overwrite in
      ap
        (λ r. next r (λ b.
          if not true && b
          then (read_text (path f) >>= ask_if_modified o f meta.file_hash)
          else pure true))
        (exists-file (path f) text w here)
  may_overwrite_unasked false meta (inl e) = cc
  may_overwrite_unasked false meta (inr e) =
      may_overwrite-eq o f text meta w here ∙ (unfold ask_if_modified in rw e refl)

  local_text_lem : local_text o (path f) w ≡ (ok text, w)
  unfolding local_text
  local_text_lem =
      ap (λ r. next r (λ there. if there then read_text (path f) else pure []))
        (exists-file (path f) text w here)
      ∙ read_text-file (path f) text w here

  -- The pod's reply is what `pulled` goes on with.
  module _ (ns : Option Text) (meta : SwapMeta) (r : Bool × Text)
      (replied : output_of (o.reply (asked_pod text w ns meta)) ≡ r)
      (untouched : o.moves (asked_pod text w ns meta) w.files ≡ w.files) where
    exec_in_pod_lem :
        exec_in_pod o meta.name ns (cat_command (detect_content_type text)) w
        ≡ (ok r, record w { trace = asked_pod text w ns meta })
    unfolding exec_in_pod run_command
    exec_in_pod_lem =
        let t = asked_pod text w ns meta in
        ap (λ x. (ok x, record w { files = o.moves t w.files; trace = t })) replied
        ∙ ap (λ fs. (ok r, record w { files = fs; trace = t })) untouched

    pull_lem :
        pull o f ns meta w ≡ pulled o f ns meta r (record w { trace = asked_pod text w ns meta })
    unfolding pull
    pull_lem =
        ap
          (λ x. next x (λ s.
            exec_in_pod o meta.name ns (cat_command (detect_content_type s))
            >>= pulled o f ns meta))
          local_text_lem
        ∙ ap (λ x. next x (pulled o f ns meta)) exec_in_pod_lem

    sync_content_lem :
        (force : Bool)
        → (force ≡ true) ⊎ (same (compute_hash o text) meta.file_hash ≡ true)
        → sync_content o f ns force meta w
          ≡ pulled o f ns meta r (record w { trace = asked_pod text w ns meta })
    unfolding sync_content
    sync_content_lem force c =
        ap (λ x. next x (λ go. if go then pull o f ns meta else echo (codes "Sync cancelled")))
          (may_overwrite_unasked force meta c)
        ∙ pull_lem

  -- What follows the mounts, for a directory and for a file.
  abbrev after_mounts : Option Text → Bool → SwapMeta → Bool → M (Unit {0})
  after_mounts ns force meta folder =
      if folder
      then echo (codes "Synced mounts from " ++ (shown ns ++ (codes "/" ++ meta.name)))
      else sync_content o f ns force meta

  pub sync_deployed_lem :
      (namespace : Option Text) (force : Bool) (meta : SwapMeta)
      → meta.local_mounts ≡ none
      → sync_deployed o f namespace force meta w
        ≡ sync_content o f (or_namespace namespace meta.namespace) force meta w
  unfolding sync_deployed sync_optional_mounts
  sync_deployed_lem namespace force meta no_mounts =
      let ns = or_namespace namespace meta.namespace in
      ap
        (λ ms.
          next (sync_optional_mounts o meta.name ns ms w)
            (λ _. is_dir (path f) >>= after_mounts ns force meta))
        no_mounts
      ∙ ap (λ r. next r (after_mounts ns force meta)) (is_dir-file (path f) text w here)

module _ (o : Outside) (f text : Text) (namespace : Option Text) (force : Bool) (meta : SwapMeta)
    (w : World) where
  abbrev pub used_namespace : Option Text
  used_namespace = or_namespace namespace meta.namespace

  -- The trace once the pod was asked.
  abbrev pub asked_trace : List Event
  asked_trace = asked_pod text w used_namespace meta

  pub sync_notebook-pulled :
      (r : Bool × Text)
      → find (local_key f) w.files ≡ some (file text)
      → find (path_text (swap_at f w)) w.files ≡ some (file (o.json_dump (to_dict meta)))
      → o.json_load (o.json_dump (to_dict meta)) ≡ some (to_dict meta)
      → meta.local_mounts ≡ none
      → (force ≡ true) ⊎ (same (compute_hash o text) meta.file_hash ≡ true)
      → output_of (o.reply asked_trace) ≡ r
      → o.moves asked_trace w.files ≡ w.files
      → sync_notebook o f namespace force w
        ≡ pulled o f used_namespace meta r (record w { trace = asked_trace })
  unfolding sync_notebook sync_found
  sync_notebook-pulled r here tracked codec no_mounts clean replied untouched =
      ap (λ x. next x (sync_found o f namespace force))
        (read_swap_file-found o meta f w tracked codec)
      ∙ (sync_deployed_lem o f text w here namespace force meta no_mounts
          ∙ sync_content_lem o f text w here used_namespace meta r replied untouched force clean)

  module _ (p : Process) where
    -- The world of a sync that went well: the file and its swap file are written, and nothing else.
    abbrev pub pulled_world : World
    pulled_world =
        log (said false (synced_line f used_namespace meta))
          (both_written o f p.stdout meta (record w { trace = asked_trace }))

    -- A notebook that was deployed without mounts, whose local file is as it was deployed, or whose
    -- sync is forced, and whose pod answers: `sync` runs one command, writes what the pod answers to
    -- the local file and the metadata with its hash to the swap file, and leaves every other file.
    -- (The JSON library reads what it prints, the command leaves the local files alone, and the swap
    -- file is another file than the notebook.)
    pub sync_notebook-pulls :
        find (local_key f) w.files ≡ some (file text)
        → find (path_text (swap_at f w)) w.files ≡ some (file (o.json_dump (to_dict meta)))
        → o.json_load (o.json_dump (to_dict meta)) ≡ some (to_dict meta)
        → same (path_text (swap_at f w)) (local_key f) ≡ false
        → meta.local_mounts ≡ none
        → (force ≡ true) ⊎ (same (compute_hash o text) meta.file_hash ≡ true)
        → o.reply asked_trace ≡ some p
        → p.returncode == 0 ≡ true
        → o.moves asked_trace w.files ≡ w.files
        → sync_notebook o f namespace force w ≡ (ok tt, pulled_world)
    unfolding pulled echo
    sync_notebook-pulls here tracked codec differ no_mounts clean answered succeeded untouched =
        sync_notebook-pulled (true, p.stdout) here tracked codec no_mounts clean
          (ap output_of answered ∙ (unfold output_of in rw succeeded refl)) untouched
        ∙ ap (λ x. next x (λ _. echo (synced_line f used_namespace meta)))
            (store_pulled-eq o f p.stdout meta (record w { trace = asked_trace })
              (ap is_folder here) (ap is_folder tracked) differ)
