-- ===== src/Access/Cleanup.antt =====
-- The port-forwards are stopped at the end: `cleanup_sshfs_mount`, and the end of `open_notebook`.
use marimo_operator.Base.{
  ℕ, Text, codes, ◌≡◌, refl, Bool, true, false, Option, none, some, List, [], ◌∷◌, if◌then◌else◌,
}
use marimo_operator.Access.{cleanup_mounts, cleanup_sshfs, close_notebook}
use marimo_operator.Access.Keeps.{cleanup_mounts-Keeps, last_sync-Keeps}
use marimo_operator.Access.Rounds.{Installed}
use marimo_operator.Credentials.{run_found, found}
use marimo_operator.Exec.{
  Event, ran, stopped, said, log, Outside, World, M, next, pure, run_command, find, is_there,
}
use marimo_operator.Exec.Keeps.{next-keeps}
use marimo_operator.Exec.Triples.{raise-ne-ok}
use marimo_operator.Exec.Programs.{stop}
use marimo_operator.Paths.{path, path_text}
use marimo_operator.Result.{Result, ok, raise}
use marimo_operator.Sshfs.{
  stop_started, unmount, cleanup_sshfs_mount, local_path, fusermount_command, umount_command,
}
use marimo_operator.Sshfs.Keeps.{Serves}
use marimo_operator.Sshfs.Traces.{grown-Serves}

-- The event is one of the trace.
pub data Occurs (e : Event) : List Event → Type 0 where
  newest : {t : List Event} → Occurs e (e ∷ t)
  older : {f : Event} → {t : List Event} → Occurs e t → Occurs e (f ∷ t)

-- The mount is one of those that were set up, with a port-forward that runs.
pub data Serving (handle : ℕ) : List (Text × Option ℕ) → Type 0 where
  first :
      {local : Text} → {ps : List (Text × Option ℕ)} → Serving handle ((local, some handle) ∷ ps)
  later :
      {p : Text × Option ℕ}
      → {ps : List (Text × Option ℕ)} → Serving handle ps
      → Serving handle (p ∷ ps)

Occurs-Serves : (o : Outside) (e : Event) → Serves o (λ w. Occurs e w.trace)
Occurs-Serves o e = grown-Serves o (Occurs e) (λ f t calm h. older h)

-- No exception, from any world.
abbrev pub Returns : {A : Type 0} → M A → Type 0
Returns {A} m = (w : World) → (a : A) × ((m w).0 ≡ ok a)

pub next-Returns :
    {A B : Type 0} (r : Result A × World) (f : A → M B) {a : A}
    → r.0 ≡ ok a
    → ((a : A) → Returns (f a))
    → (b : B) × ((next r f).0 ≡ ok b)
next-Returns (ok x, w) f e k = k x w
next-Returns (raise x, w) f e k = absurd (raise-ne-ok x e)

next-Occurs :
    {A B : Type 0} {e : Event} (r : Result A × World) (f : A → M B) {a : A}
    → r.0 ≡ ok a
    → ((a : A) (w : World) → Occurs e (f a w).1.trace)
    → Occurs e (next r f).1.trace
next-Occurs (ok x, w) f h k = k x w
next-Occurs (raise x, w) f h k = absurd (raise-ne-ok x h)

module _ (o : Outside) (installed : Installed o) where
  pub run_found-Returns : (cmd : List Text) → Returns (run_found o cmd)
  unfolding run_found run_command found
  run_found-Returns cmd w = let (p, e) = installed.process (ran cmd [] ∷ w.trace) in (p, rw e refl)

  unmount-Returns : (local : Text) → Returns (unmount o local)
  unfolding unmount
  unmount-Returns local w =
      let (p, e) = run_found-Returns (fusermount_command local) w in
      next-Returns (run_found o (fusermount_command local) w) _ e (λ _ v.
        let (q, d) = run_found-Returns (umount_command local) v in
        next-Returns (run_found o (umount_command local) v) (λ _. pure tt) d (λ _ u. (tt, refl)))

  unmount_if-Returns :
      (there : Bool) (local : Text) → Returns (if there then unmount o local else pure tt)
  unmount_if-Returns true local w = unmount-Returns local w
  unmount_if-Returns false local w = (tt, refl)

  stop_started-Returns : (proc : Option ℕ) → Returns (stop_started proc)
  unfolding stop_started stop
  stop_started-Returns none w = (tt, refl)
  stop_started-Returns (some handle) w = (tt, refl)

  module _ (local : Text) where
    -- The first part of the clean-up, from the world where it starts.
    abbrev unmounted : World → Result (Unit {0}) × World
    unmounted w =
        (if is_there (find (path_text (path (local_path o local))) w.files)
            then unmount o (local_path o local)
            else pure tt)
          w

    unmounted-ok : (w : World) → (u : Unit {0}) × ((unmounted w).0 ≡ ok u)
    unmounted-ok w =
        unmount_if-Returns (is_there (find (path_text (path (local_path o local))) w.files))
          (local_path o local) w

    cleanup_sshfs_mount-Returns : (proc : Option ℕ) → Returns (cleanup_sshfs_mount o local proc)
    unfolding cleanup_sshfs_mount
    cleanup_sshfs_mount-Returns proc w =
        let (u, e) = unmounted-ok w in
        next-Returns (unmounted w) (λ _. stop_started proc) e (λ _. stop_started-Returns proc)

    cleanup_sshfs_mount-stops :
        (handle : ℕ) (w : World)
        → Occurs (stopped handle) (cleanup_sshfs_mount o local (some handle) w).1.trace
    unfolding cleanup_sshfs_mount
    cleanup_sshfs_mount-stops handle w =
        let (u, e) = unmounted-ok w in
        next-Occurs (unmounted w) (λ _. stop_started (some handle)) e
          (λ _ v. unfold stop_started stop in newest)

  cleanup_mounts-stops :
      (handle : ℕ) (procs : List (Text × Option ℕ))
      → Serving handle procs
      → (w : World) → Occurs (stopped handle) (cleanup_mounts o procs w).1.trace
  unfolding cleanup_mounts
  cleanup_mounts-stops handle [] s w = elim s [ ]
  cleanup_mounts-stops handle ((local, p) ∷ procs) first w =
      next-keeps (cleanup_sshfs_mount o local p w) (λ _. cleanup_mounts o procs)
        (cleanup_sshfs_mount-stops local handle w)
        (λ _. cleanup_mounts-Keeps o (Occurs-Serves o (stopped handle)) procs)
  cleanup_mounts-stops handle ((local, p) ∷ procs) (later s) w =
      let (u, e) = cleanup_sshfs_mount-Returns local p w in
      next-Occurs (cleanup_sshfs_mount o local p w) (λ _. cleanup_mounts o procs) e
        (λ _. cleanup_mounts-stops handle procs s)

  cleanup_sshfs-stops :
      (handle : ℕ) (procs : List (Text × Option ℕ))
      → Serving handle procs
      → (w : World) → Occurs (stopped handle) (cleanup_sshfs o procs w).1.trace
  unfolding cleanup_sshfs
  cleanup_sshfs-stops handle [] s w = elim s [ ]
  cleanup_sshfs-stops handle (p ∷ procs) s w =
      cleanup_mounts-stops handle (p ∷ procs) s
        (log (said false (codes "\nCleaning up sshfs mounts...")) w)

  -- After Ctrl+C each port-forward that serves a mount is terminated, if every program that is run is
  -- found: whatever unmounting returns, and however the last sync ends.
  pub close_notebook-stops :
      (f : Text) (ns : Option Text) (handle : ℕ) (procs : List (Text × Option ℕ))
      → Serving handle procs
      → (w : World) → Occurs (stopped handle) (close_notebook o f ns procs w).1.trace
  unfolding close_notebook
  close_notebook-stops f ns handle procs s w =
      next-keeps (cleanup_sshfs o procs w) _ (cleanup_sshfs-stops handle procs s w)
        (λ _. last_sync-Keeps o (Occurs-Serves o (stopped handle)) f ns)
