-- ===== src/Sync/Copies.antt =====
-- The clean-up of swap files that were copied back from a pod: `sync_local_mounts`.
use mathlib.Core.Path.{subst}
use marimo_operator.Base.{
  sym, Text, same, same_iff, ◌≡◌, refl, ap, ◌∙◌, Bool, true, false, ◌&&◌, ◌||◌, Option, none, some,
  List, [], ◌∷◌, All, arith, if◌then◌else◌, Bool-cases, inl, inr,
}
use marimo_operator.Exec.{
  Node, folder, removed, FileTable, World, next, pure, find, erase, unlink, is_file, is_folder,
  is_dir,
}
use marimo_operator.Exec.Files.{find-erase}
use marimo_operator.Paths.{FilePath, path_text}
use marimo_operator.Result.{Result, ok}
use marimo_operator.Swap.{extension}
use marimo_operator.Sync.{is_below, ends_in, swap_copies, unlink_all, clean_copies}

unfoldable pub listed : Text → List Text → Bool
unfolding same
listed k [] = false
listed k (x ∷ xs) = same k x || listed k xs

abbrev pub Distinct : List Text → Type 0
Distinct [] = Unit
Distinct (k ∷ ks) = (listed k ks ≡ false) × Distinct ks

abbrev pub AreFiles : FileTable → List Text → Type 0
AreFiles fs ks = All (λ k. is_file (find k fs) ≡ true) ks

lacks :
    (key k : Text) (ks : List Text)
    → listed key (k ∷ ks) ≡ false
    → (same key k ≡ false) × (listed key ks ≡ false)
unfolding listed
lacks key k ks n = (ground arith, ground arith)

same_comm : (a b : Text) → same a b ≡ same b a
same_comm a b = ground (arith, same_iff a b, same_iff b a)

-- The other files are still there when one is removed.
still_files :
    (key : Text) (ks : List Text) (fs : FileTable)
    → listed key ks ≡ false
    → AreFiles fs ks
    → AreFiles (erase key fs) ks
still_files key [] fs n h = tt
still_files key (k ∷ ks) fs n h = (
  ap is_file (find-erase k key fs ∙ (rw (unequal.0) refl)) ∙ h.0,
  still_files key ks fs unequal.1 h.1,
)
  where
    unequal : (same key k ≡ false) × (listed key ks ≡ false)
    unequal = lacks key k ks n

abbrev without : Text → World → World
without key w = record w { files = erase key w.files; trace = removed key ∷ w.trace }

unlink-file :
    (key : Text) (w : World)
    → is_file (find key w.files) ≡ true
    → unlink key w ≡ (ok tt, without key w)
unfolding unlink
unlink-file key w h = rw h refl

-- All of the files go, and no other.
Unlinked : List Text → World → Result (Unit {0}) × World → Type 0
Unlinked ks w out =
    (out.0 ≡ ok tt)
    × ((k : Text) → find k out.1.files ≡ (if listed k ks then none else find k w.files))

Unlinked-cons :
    (key : Text) (ks : List Text) (w : World) (out : Result (Unit {0}) × World)
    → Unlinked ks (without key w) out
    → Unlinked (key ∷ ks) w out
unfolding Unlinked listed
Unlinked-cons key ks w out u =
    (u.0, λ k. u.1 k ∙ ground (arith, find-erase k key w.files, same_comm key k))

unlink_all-Unlinked :
    (ks : List Text) (w : World)
    → AreFiles w.files ks
    → Distinct ks
    → Unlinked ks w (unlink_all ks w)
unlink_all-Unlinked [] w h d = unfold unlink_all listed Unlinked in (refl, λ k. refl)
unlink_all-Unlinked (key ∷ ks) w h d = Unlinked-cons key ks w (unlink_all (key ∷ ks) w) (
    subst (Unlinked ks (without key w)) (sym removed_first)
      (unlink_all-Unlinked ks (without key w) (still_files key ks w.files d.0 h.1) d.1))
  where
    removed_first : unlink_all (key ∷ ks) w ≡ unlink_all ks (without key w)
    removed_first =
        unfold unlink_all in ap (λ r. next r (λ _. unlink_all ks)) (unlink-file key w h.0)

-- A key is one of the copies if it lies below the directory and has the extension.
abbrev pub is_copy : FilePath → Text → Bool
is_copy p k = is_below p k && ends_in extension k

-- What a test says of equal keys.
test_equal : (q : Text → Bool) (k key : Text) → same k key ≡ true → q k ≡ q key
test_equal q k key e = ap q ((same_iff k key).0 e)

-- A key in front of others, if it counts.
front : Bool → Text → List Text → List Text
front b key rest = if b then key ∷ rest else rest

front_lacks :
    (b : Bool) (k key : Text) (rest : List Text)
    → listed k rest ≡ false
    → (same k key ≡ true → b ≡ false)
    → listed k (front b key rest) ≡ false
unfolding front listed
front_lacks false k key rest n h = n
front_lacks true k key rest n h = elim (Bool-cases (same k key)) [
  | inl e ↦ rw e (h e)
  | inr e ↦ rw (e, n) refl
]

front-listed :
    (b : Bool) (k key : Text) (rest : List Text)
    → listed k (front b key rest) ≡ false
    → (listed k rest ≡ false) × (b ≡ true → same k key ≡ false)
unfolding front listed
front-listed false k key rest n = (n, λ e. cc)
front-listed true k key rest n = (ground arith, λ e. ground arith)

not_copy-listed :
    (p : FilePath) (fs : FileTable) (k : Text)
    → is_copy p k ≡ false
    → listed k (swap_copies p fs) ≡ false
unfolding swap_copies front
not_copy-listed p [] k h = unfold listed in refl
not_copy-listed p ((key, node) ∷ fs) k h =
    front_lacks (is_copy p key) k key (swap_copies p fs) (not_copy-listed p fs k h)
      (λ e. sym (test_equal (is_copy p) k key e) ∙ h)

find_miss :
    (k key : Text) (node : Node) (fs : FileTable)
    → same k key ≡ false
    → find k ((key, node) ∷ fs) ≡ find k fs
unfolding find
find_miss k key node fs e = rw (same_comm key k ∙ e) refl

copy-listed :
    (p : FilePath) (fs : FileTable) (k : Text)
    → is_copy p k ≡ true
    → listed k (swap_copies p fs) ≡ false
    → find k fs ≡ none
unfolding swap_copies front
copy-listed p [] k h n = unfold find in refl
copy-listed p ((key, node) ∷ fs) k h n =
    let (rest, apart) = front-listed (is_copy p key) k key (swap_copies p fs) n in
    find_miss k key node fs (unequal apart) ∙ copy-listed p fs k h rest
  where
    unequal : (is_copy p key ≡ true → same k key ≡ false) → same k key ≡ false
    unequal apart = elim (Bool-cases (same k key)) [
      | inl e ↦ apart (sym (test_equal (is_copy p) k key e) ∙ h)
      | inr e ↦ e
    ]

swap_copies-listed :
    (p : FilePath) (fs : FileTable) (k : Text)
    → (if listed k (swap_copies p fs) then none else find k fs)
      ≡ (if is_copy p k then none else find k fs)
swap_copies-listed p fs k = elim (Bool-cases (is_copy p k)) [
  | inl e ↦ elim (Bool-cases (listed k (swap_copies p fs))) [
    | inl d ↦ rw (e, d) refl
    | inr d ↦ rw (e, d) (copy-listed p fs k e d)
  ]
  | inr e ↦ rw (e, not_copy-listed p fs k e) refl
]

-- Behind a directory whose swap files are files, each listed once, exactly the swap files below it are
-- removed, and the clean-up ends well.
pub clean_copies_lem :
    (p : FilePath) (w : World)
    → find (path_text p) w.files ≡ some folder
    → AreFiles w.files (swap_copies p w.files)
    → Distinct (swap_copies p w.files)
    → ((clean_copies p w).0 ≡ ok tt)
      × ((k : Text)
          → find k (clean_copies p w).1.files ≡ (if is_copy p k then none else find k w.files))
clean_copies_lem p w there files distinct =
    rw at_folder (unlinked.0, λ k. unlinked.1 k ∙ swap_copies-listed p w.files k)
  where
    at_folder : clean_copies p w ≡ unlink_all (swap_copies p w.files) w
    at_folder =
        unfold clean_copies is_dir in
        ap
          (λ (n : Option Node).
            next (ok (is_folder n), w)
              (λ b. if b then (λ v. unlink_all (swap_copies p v.files) v) else pure tt))
          there

    unlinked :
        ((unlink_all (swap_copies p w.files) w).0 ≡ ok tt)
        × ((k : Text)
            → find k (unlink_all (swap_copies p w.files) w).1.files
              ≡ (if listed k (swap_copies p w.files) then none else find k w.files))
    unlinked = unfold Unlinked in unlink_all-Unlinked (swap_copies p w.files) w files distinct
