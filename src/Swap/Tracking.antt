-- ===== src/Swap/Tracking.antt =====
-- Swap files that are written and read back.
use marimo_operator.Base.{
  Text, same_refl, ◌≡◌, refl, ap, ◌∙◌, true, false, none, some, ◌∷◌, if◌then◌else◌,
}
use marimo_operator.Exec.{
  Node, file, FileTable, wrote, Outside, World, next, pure, lift, is_folder, find, store, is_dir,
  exists, read_text, write_text,
}
use marimo_operator.Exec.Files.{exists-file, read_text-file, find-store, folder-store}
use marimo_operator.Paths.{FilePath, path, path_text}
use marimo_operator.Result.{ok}
use marimo_operator.Swap.{
  SwapMeta, to_dict, from_dict, swap_path_of, swap_file_path, parsed_meta, meta_of, write_swap_file,
  load_meta, read_swap_at, read_swap_file,
}
use marimo_operator.Value.{Value}
use marimo_operator.Swap.Json.{from_dict-to_dict}

-- The path of the swap file, in a world.
abbrev pub swap_at : Text → World → FilePath
swap_at f w = swap_path_of (path f) (is_folder (find (path_text (path f)) w.files))

-- The world after a file was written.
abbrev pub after_write : FilePath → Text → World → World
after_write p s w = record w {
  files = store (path_text p) (file s) w.files;
  trace = wrote (path_text p) s ∷ w.trace;
}

pub write_text-eq :
    (p : FilePath) (s : Text) (w : World)
    → is_folder (find (path_text p) w.files) ≡ false
    → write_text p s w ≡ (ok tt, after_write p s w)
unfolding write_text
write_text-eq p s w h = rw h refl

pub swap_file_path-eq : (f : Text) (w : World) → swap_file_path f w ≡ (ok (swap_at f w), w)
unfolding swap_file_path is_dir
swap_file_path-eq f w = refl

pub find-store_self : (k : Text) (n : Node) (fs : FileTable) → find k (store k n fs) ≡ some n
find-store_self k n fs = find-store k k n fs ∙ rw same_refl refl

pub swap_at-after_write :
    (f : Text) (p : FilePath) (s : Text) (w : World)
    → is_folder (find (path_text p) w.files) ≡ false
    → swap_at f (after_write p s w) ≡ swap_at f w
swap_at-after_write f p s w h =
    ap (swap_path_of (path f)) (folder-store (path_text (path f)) (path_text p) s w.files h)

pub parsed_meta-to_dict : (m : SwapMeta) → parsed_meta (some (to_dict m)) ≡ ok (some m)
parsed_meta-to_dict m =
    parsed_meta-some (to_dict m) ∙ ap meta_of (from_dict-to_dict m) ∙ (unfold meta_of in refl)
  where
    parsed_meta-some : (v : Value) → parsed_meta (some v) ≡ meta_of (from_dict v)
    parsed_meta-some v = unfold parsed_meta in refl

module _ (o : Outside) (m : SwapMeta) where
  pub write_swap_file-eq :
      (f : Text) (w : World)
      → is_folder (find (path_text (swap_at f w)) w.files) ≡ false
      → write_swap_file o f m w ≡ (ok tt, after_write (swap_at f w) (o.json_dump (to_dict m)) w)
  unfolding write_swap_file
  write_swap_file-eq f w h = write_text-eq (swap_at f w) (o.json_dump (to_dict m)) w h

  read_swap_at-found :
      (p : FilePath) (w : World)
      → find (path_text p) w.files ≡ some (file (o.json_dump (to_dict m)))
      → o.json_load (o.json_dump (to_dict m)) ≡ some (to_dict m)
      → read_swap_at o p w ≡ (ok (some m), w)
  read_swap_at-found p w there codec =
      let s = o.json_dump (to_dict m) in
      read_swap_at-there p w (exists-file p s w there)
      ∙ load_meta-of p s w (read_text-file p s w there)
      ∙ ap (λ r. (r, w)) (ap parsed_meta codec ∙ parsed_meta-to_dict m)
    where
      read_swap_at-there :
          (q : FilePath) (v : World)
          → exists q v ≡ (ok true, v)
          → read_swap_at o q v ≡ load_meta o q v
      read_swap_at-there q v e =
          unfold read_swap_at in
          ap (λ r. next r (λ there. if there then load_meta o q else pure none)) e

      load_meta-of :
          (q : FilePath) (t : Text) (v : World)
          → read_text q v ≡ (ok t, v)
          → load_meta o q v ≡ (parsed_meta (o.json_load t), v)
      load_meta-of q t v e =
          unfold load_meta in ap (λ r. next r (λ x. lift (parsed_meta (o.json_load x)))) e

  read_swap_file-at : (g : Text) (v : World) → read_swap_file o g v ≡ read_swap_at o (swap_at g v) v
  read_swap_file-at g v = unfold read_swap_file in refl

  -- A swap file that holds printed metadata is read as that metadata.
  pub read_swap_file-found :
      (f : Text) (w : World)
      → find (path_text (swap_at f w)) w.files ≡ some (file (o.json_dump (to_dict m)))
      → o.json_load (o.json_dump (to_dict m)) ≡ some (to_dict m)
      → read_swap_file o f w ≡ (ok (some m), w)
  read_swap_file-found f w there codec =
      read_swap_file-at f w ∙ read_swap_at-found (swap_at f w) w there codec

  -- What is written to the swap file of a notebook or a directory is read back, if the JSON library
  -- reads what it prints and no folder stands in the swap file's place.
  pub read_swap_file-write_swap_file :
      (f : Text) (w : World)
      → o.json_load (o.json_dump (to_dict m)) ≡ some (to_dict m)
      → is_folder (find (path_text (swap_at f w)) w.files) ≡ false
      → ((write_swap_file o f m w).0 ≡ ok tt)
        × (read_swap_file o f (write_swap_file o f m w).1
            ≡ (ok (some m), (write_swap_file o f m w).1))
  read_swap_file-write_swap_file f w codec h =
      let p = swap_at f w in
      let s = o.json_dump (to_dict m) in
      let w' = after_write p s w in
      rw (write_swap_file-eq f w h) (
        refl,
        read_swap_file-found f w'
            (ap (λ q. find (path_text q) w'.files) (swap_at-after_write f p s w h)
              ∙ find-store_self (path_text p) (file s) w.files)
            codec,
      )
