-- ===== src/Examples/Syncs.antt =====
-- Syncs that go well, in the small world of the commands.
use marimo_operator.Access.{close_notebook}
use marimo_operator.Access.Failed.{after_failure, close_notebook_failed}
use marimo_operator.Kubectl.{output_of}
use marimo_operator.Base.{
  Text, codes, inl, ◌≡◌, refl, true, false, same, ◌⊎◌, ◌++◌, none, some, [], ◌∷◌,
}
use marimo_operator.Examples.Commands.{
  demo, deployed_text, meta, outside, start, demo_there, swap_other,
}
use marimo_operator.Exec.{file, folder, find, Process, World}
use marimo_operator.Paths.{path, path_text}
use marimo_operator.Result.{ok, raise, exit}
use marimo_operator.Swap.{swap_path_of}
use marimo_operator.Swap.Tracking.{swap_at}
use marimo_operator.Sync.{swap_copies, clean_copies, sync_notebook}
use marimo_operator.Sync.Copies.{AreFiles, Distinct, listed}
use marimo_operator.Sync.Below.{inside, clean_copies-removes}
use marimo_operator.Sync.Pull.{pulled_world, sync_notebook-pulls}

abbrev answer : Process
answer = record { returncode = 0; stdout = []; stderr = codes "denied" }

swap_there : find (path_text (swap_at demo start)) start.files ≡ some (file (codes "{}"))
unfolding find path path_text swap_path_of
swap_there = refl

sync_notebook-pulls_example :
    sync_notebook (outside 0 meta) demo none true start
    ≡ (ok tt, pulled_world (outside 0 meta) demo deployed_text none true meta start answer)
sync_notebook-pulls_example =
    sync_notebook-pulls (outside 0 meta) demo deployed_text none true meta start answer demo_there
      swap_there refl swap_other refl (inl refl) refl refl refl

close_notebook_failed_example : close_notebook (outside 1 meta) demo none [] start ≡ (
  raise (exit 1),
  after_failure (outside 1 meta) demo deployed_text none meta start (codes "denied"),
)
close_notebook_failed_example =
    close_notebook_failed (outside 1 meta) demo deployed_text none meta start (codes "denied")
      demo_there swap_there refl refl (unfold output_of in refl) refl

-- A directory that was deployed, with a swap file of its own and one that was copied.
abbrev copied_back : World
copied_back = record {
  files =
      (codes "pages", folder)
      ∷ (codes "pages/.directory.marimo", file (codes "{}"))
      ∷ (codes "pages/a.py", file (codes "x"))
      ∷ (codes "pages/.a.py.marimo", file (codes "{}"))
      ∷ (codes "pages2/.b.py.marimo", file (codes "{}"))
      ∷ [];
  trace = [];
}

clean_copies-removes_example :
    let out = clean_copies (path (codes "pages")) copied_back in
    (out.0 ≡ ok tt)
    × ((s : Text) → find (inside (path (codes "pages")) (s ++ codes ".marimo")) out.1.files ≡ none)
    × ((k : Text)
        → (find k out.1.files ≡ find k copied_back.files)
          ⊎ (((s : Text) × (k ≡ inside (path (codes "pages")) s))
              × ((t : Text) × (k ≡ t ++ codes ".marimo"))
              × (find k out.1.files ≡ none)))
clean_copies-removes_example =
    clean_copies-removes (path (codes "pages")) not_here not_root copied_back there files distinct
  where
    there : find (path_text (path (codes "pages"))) copied_back.files ≡ some folder
    there = unfold find path path_text in refl

    files : AreFiles copied_back.files (swap_copies (path (codes "pages")) copied_back.files)
    files = unfold find path swap_copies in (refl, (refl, tt))

    distinct : Distinct (swap_copies (path (codes "pages")) copied_back.files)
    distinct = unfold listed path swap_copies in (refl, (refl, tt))

    not_here : same (path_text (path (codes "pages"))) (codes ".") ≡ false
    not_here = unfold path path_text same in refl

    not_root : same (path_text (path (codes "pages"))) (codes "/") ≡ false
    not_root = unfold path path_text same in refl
