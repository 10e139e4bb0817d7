-- ===== src/Exec/Files.antt =====
-- Laws of the local files.
use marimo_operator.Base.{
  Text, same, same_iff, ◌≡◌, refl, ap, true, false, none, some, [], ◌∷◌, arith, if◌then◌else◌,
}
use marimo_operator.Exec.{
  Node, file, FileTable, World, find, store, erase, is_folder, is_there, file_text, exists, is_dir,
  read_text,
}
use marimo_operator.Paths.{FilePath, path_text}
use marimo_operator.Result.{ok}

-- Reading after writing, at every path.
pub find-store :
    (j k : Text) (n : Node) (fs : FileTable)
    → find j (store k n fs) ≡ (if same k j then some n else find j fs)
unfolding find store
find-store j k n [] = refl
find-store j k n ((i, old) ∷ fs) =
    ground (arith, same_iff k j, same_iff i k, same_iff i j, find-store j k n fs)

-- Reading after removing, at every path.
pub find-erase :
    (j k : Text) (fs : FileTable) → find j (erase k fs) ≡ (if same k j then none else find j fs)
unfolding find erase
find-erase j k [] = ground arith
find-erase j k ((i, old) ∷ fs) =
    ground (arith, same_iff k j, same_iff i k, same_iff i j, find-erase j k fs)

-- Writing a file where there is no folder makes and removes no folder.
pub folder-store :
    (j k s : Text) (fs : FileTable)
    → is_folder (find k fs) ≡ false
    → is_folder (find j (store k (file s) fs)) ≡ is_folder (find j fs)
folder-store j k s fs h = rw find-store (ground (arith, same_iff k j))

module _ (p : FilePath) (s : Text) (w : World)
    (here : find (path_text p) w.files ≡ some (file s)) where
  -- A file is there, is no folder, and can be read.
  pub exists-file : exists p w ≡ (ok true, w)
  unfolding exists
  exists-file = ap (λ o. (ok (is_there o), w)) here

  pub is_dir-file : is_dir p w ≡ (ok false, w)
  unfolding is_dir
  is_dir-file = ap (λ o. (ok (is_folder o), w)) here

  pub read_text-file : read_text p w ≡ (ok s, w)
  unfolding read_text
  read_text-file = ap (λ o. (file_text o, w)) here
