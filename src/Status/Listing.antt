-- ===== src/Status/Listing.antt =====
-- What `show_status` prints.
use marimo_operator.Base.{
  Text, rstrip_of, ◌==◌, ◌≡◌, ◌≢◌, refl, sym, ap, ◌∙◌, false, none, some, List, [], ◌∷◌, ◌++◌, All,
  if◌then◌else◌,
}
use mathlib.Core.List.{append-nil}
use marimo_operator.Exec.{file, FileTable, said, Outside, World, next, pure, lift, log, echo, find}
use marimo_operator.Exec.Files.{exists-file, read_text-file}
use marimo_operator.Paths.{FilePath, path, path_text, child}
use marimo_operator.Result.{ok, raise, type_error}
use marimo_operator.Status.{
  original_name, folder_prefix, swap_names, sorted, header_line, dashes, status_line, line_of,
  elapsed_text, format_elapsed, read_swap_file_direct, show_meta, show_each, show_found,
  show_status,
}
use marimo_operator.Swap.{SwapMeta, parsed_meta, load_meta, read_swap_at}

-- The swap file of a name can be read.
pub record Readable (o : Outside) (files : FileTable) (p : FilePath) (meta : SwapMeta)
    : Type 0 where
  pub text : Text
  pub there : find (path_text p) files ≡ some (file text)
  pub parsed : parsed_meta (o.json_load text) ≡ ok (some meta)

-- A deployment that was tracked with its namespace.
pub record Entry (o : Outside) (files : FileTable) (folder : FilePath) (n : Text) : Type 0 where
  pub meta : SwapMeta
  pub reads : Readable o files (child folder n) meta
  pub namespace : Text
  pub named : meta.namespace ≡ some namespace

module _ (o : Outside) (files : FileTable) (folder : FilePath) where
  -- The line of a deployment: its file, name and namespace, and the time since it was made.
  abbrev pub entry_line : (n : Text) → Entry o files folder n → World → Text
  entry_line n e w =
      status_line (original_name n) e.meta.name e.namespace
        (elapsed_text (o.elapsed w.trace (rstrip_of (λ c. c == b'Z') e.meta.applied_at)))

  -- The world after one line for each of the deployments, in order.
  abbrev pub listed : (ns : List Text) → All (Entry o files folder) ns → World → World
  listed [] es w = w
  listed (n ∷ ns) es w = listed ns es.1 (log (said false (entry_line n es.0 w)) w)

  read_swap_file_direct_lem :
      (p : FilePath) (meta : SwapMeta)
      → Readable o files p meta
      → (w : World) → w.files ≡ files
      → read_swap_file_direct o p w ≡ (ok (some meta), w)
  unfolding read_swap_file_direct read_swap_at load_meta
  read_swap_file_direct_lem p meta r w e =
      let here = ap (find (path_text p)) e ∙ r.there in
      ap (λ x. next x (λ there. if there then load_meta o p else pure none))
        (exists-file p r.text w here)
      ∙ (ap (λ x. next x (λ s. lift (parsed_meta (o.json_load s)))) (read_text-file p r.text w here)
          ∙ ap (λ x. (x, w)) r.parsed)

  show_meta_lem :
      (n : Text) (e : Entry o files folder n) (w : World)
      → show_meta o n (some e.meta) w ≡ (ok tt, log (said false (entry_line n e w)) w)
  unfolding show_meta format_elapsed
  show_meta_lem n e w =
      let time = elapsed_text (o.elapsed w.trace (rstrip_of (λ c. c == b'Z') e.meta.applied_at)) in
      ap (λ ns. next (lift (line_of n e.meta.name ns time) w) echo) e.named
      ∙ (unfold line_of echo in refl)

  -- The readable deployments in front are listed, whatever follows them.
  show_each-listed :
      (ns rest : List Text) (es : All (Entry o files folder) ns) (w : World)
      → w.files ≡ files
      → show_each o folder (ns ++ rest) w ≡ show_each o folder rest (listed ns es w)
  unfolding show_each
  show_each-listed [] rest es w f = refl
  show_each-listed (n ∷ ns) rest es w f =
      ap (λ r. next (next r (show_meta o n)) (λ _. show_each o folder (ns ++ rest)))
        (read_swap_file_direct_lem (child folder n) es.0.meta es.0.reads w f)
      ∙ (ap (λ r. next r (λ _. show_each o folder (ns ++ rest))) (show_meta_lem n es.0 w)
          ∙ show_each-listed ns rest es.1 (log (said false (entry_line n es.0 w)) w) f)

  -- A deployment that was tracked without a namespace ends the listing in an exception.
  show_each_unnamed :
      (n : Text) (rest : List Text) (meta : SwapMeta) (w : World)
      → w.files ≡ files
      → Readable o files (child folder n) meta
      → meta.namespace ≡ none
      → show_each o folder (n ∷ rest) w ≡ (raise type_error, w)
  show_each_unnamed n rest meta w f r e =
      unfold show_each show_meta format_elapsed in
      ap (λ x. next (next x (show_meta o n)) (λ _. show_each o folder rest))
        (read_swap_file_direct_lem (child folder n) meta r w f)
      ∙ ap
          (λ ns.
            next
              (next
                (lift
                  (line_of n meta.name ns
                    (elapsed_text (o.elapsed w.trace (rstrip_of (λ c. c == b'Z') meta.applied_at))))
                  w)
                echo)
              (λ _. show_each o folder rest))
          e
      ∙ (unfold line_of in refl)

nil-ne-append : (before : List Text) (n : Text) (rest : List Text) → [] ≡ before ++ (n ∷ rest) → ⊥
nil-ne-append [] n rest e = cc
nil-ne-append (b ∷ before) n rest e = cc

some_found :
    (ns before : List Text) (n : Text) (rest : List Text)
    → sorted ns ≡ before ++ (n ∷ rest)
    → ns ≢ []
unfolding sorted
some_found [] before n rest e = λ q. nil-ne-append before n rest e
some_found (m ∷ ns) before n rest e = λ q. cc

-- The world after the two header lines.
abbrev pub headed : World → World
headed w = log (said false (dashes 80)) (log (said false header_line) w)

module _ (o : Outside) (directory : Text) (w : World) where
  abbrev pub found_names : List Text
  found_names = swap_names (folder_prefix (path directory)) w.files

  show_status_lem :
      found_names ≢ []
      → show_status o directory w ≡ show_each o (path directory) (sorted found_names) (headed w)
  unfolding show_status
  show_status_lem h = by_names found_names h
    where
      by_names :
          (ns : List Text)
          → ns ≢ []
          → show_found o (path directory) ns w ≡ show_each o (path directory) (sorted ns) (headed w)
      by_names [] k = absurd (k refl)
      by_names (n ∷ ns) k = unfold show_found echo in refl

  -- Where every swap file of the directory can be read and names a namespace, `status` ends well and
  -- prints the header and one line for each of them, sorted by name, and does nothing else.
  pub show_status-listed :
      found_names ≢ []
      → (es : All (Entry o w.files (path directory)) (sorted found_names))
      → show_status o directory w
        ≡ (ok tt, listed o w.files (path directory) (sorted found_names) es (headed w))
  show_status-listed h es =
      show_status_lem h
      ∙ (ap (λ ns. show_each o (path directory) ns (headed w))
            (sym (append-nil (sorted found_names)))
          ∙ (show_each-listed o w.files (path directory) (sorted found_names) [] es (headed w) refl
              ∙ (unfold show_each in refl)))

  -- A swap file without a namespace, as a deployment without `--namespace` leaves it, ends `status`
  -- with a `TypeError`: the deployments in front of it are listed, and none behind it.
  pub show_status_unnamed :
      (before rest : List Text) (n : Text) (meta : SwapMeta)
      → sorted found_names ≡ before ++ (n ∷ rest)
      → (es : All (Entry o w.files (path directory)) before)
      → Readable o w.files (child (path directory) n) meta
      → meta.namespace ≡ none
      → show_status o directory w
        ≡ (raise type_error, listed o w.files (path directory) before es (headed w))
  show_status_unnamed before rest n meta e es r none_named =
      show_status_lem (some_found found_names before n rest e)
      ∙ (ap (λ ns. show_each o (path directory) ns (headed w)) e
          ∙ (show_each-listed o w.files (path directory) before (n ∷ rest) es (headed w) refl
              ∙ show_each_unnamed o w.files (path directory) n rest meta
                  (listed o w.files (path directory) before es (headed w))
                  (listed-files before es (headed w) refl) r none_named))
    where
      listed-files :
          (ns : List Text) (es : All (Entry o w.files (path directory)) ns) (v : World)
          → v.files ≡ w.files
          → (listed o w.files (path directory) ns es v).files ≡ w.files
      listed-files [] es v f = f
      listed-files (m ∷ ns) es v f = listed-files ns es.1 _ f
