-- ===== src/Access/Setup.antt =====
-- The port-forwards of the mounts that `open_notebook` sets up are tended.
use mathlib.Core.Path.{subst}
use mathlib.Core.List.{append-nil}
use marimo_operator.Base.{
  ℕ, Text, codes, length, ◌≡◌, refl, ◌⊎◌, inl, inr, Bool, true, false, Option, none, some, List, [],
  ◌∷◌, ◌++◌, if◌then◌else◌, ◌==◌,
}
use marimo_operator.Access.{setup_mounts, setup_sshfs}
use marimo_operator.Access.Cleanup.{Occurs, newest, Serving, first, later}
use marimo_operator.Access.Tended.{Tended, Tended-Serves, Tended-mono, started-Tended}
use marimo_operator.Credentials.{run_found}
use marimo_operator.Credentials.Keeps.{run_found-Keeps}
use marimo_operator.Exec.{started, stopped, Outside, Process, World, M, ◌>>◌, pure, echo, echo_err}
use marimo_operator.Exec.Keeps.{Keeps}
use marimo_operator.Exec.Programs.{start, stop, sleep, make_dir}
use marimo_operator.Exec.Triples.{
  Triple, Triple-bind, Triple-then, Triple-pure, Triple-if, Triple-with, Triple-of_Keeps, Any,
  raise-ne-ok, ok-injective,
}
use marimo_operator.Kubectl.Harmless.{is_harmless}
use marimo_operator.Mounts.{SshfsMount}
use marimo_operator.Paths.{path, path_text}
use marimo_operator.Result.{Result, ok, raise, os_error}
use marimo_operator.Sshfs.{
  int_text, forward_command, which_command, sshfs_command, no_sshfs, ssh_hint, find_available_port,
  local_path, private_key, mount_ended, mount_sshfs, mount_if, setup_local_sshfs_mount,
}
use marimo_operator.Sshfs.Keeps.{mount_if-Keeps}
use marimo_operator.Value.{ℤ, pos}

-- A mount is served by the port-forward that was started for it, or that was terminated.
pub data Ended (handle : ℕ) : Option ℕ → World → Type 0 where
  serving : {w : World} → Ended handle (some handle) w
  given_up : {w : World} → Occurs (stopped handle) w.trace → Ended handle none w

module _ {A : Type 0} where
  any : (m : M A) → Keeps Any m
  any m = record { at = λ w h. tt }

module _ (o : Outside) (handle : ℕ) where
  kept_alive : Triple Any (pure (some handle)) (Ended handle)
  kept_alive = Triple-pure (some handle) (λ w h. serving)

  given_up_stop : Triple Any (stop handle >> pure none) (Ended handle)
  given_up_stop =
      Triple-bind {R = λ _ w. Occurs (stopped handle) w.trace} (stop handle) (λ _. pure none)
        (record { at = λ w h a e. unfold stop in newest })
        (λ _. Triple-pure {P = λ w. Occurs (stopped handle) w.trace} none (λ w s. given_up s))

  mount_ended-Ended :
      (remote local : Text) (p : Process)
      → Triple Any (mount_ended o remote local handle p) (Ended handle)
  unfolding mount_ended
  mount_ended-Ended remote local p =
      Triple-if (p.returncode == 0) _ _
        (Triple-then (echo (codes "Mounted pod:" ++ (remote ++ (codes " → " ++ local))))
          (pure (some handle)) (any _) kept_alive)
        (Triple-then (echo_err (codes "Warning: sshfs mount failed: " ++ p.stderr))
          (stop handle >> pure none) (any _) given_up_stop)

  mount_if-Ended :
      (there : Bool) (remote local : Text) (port : ℤ)
      → Triple Any (mount_if o there remote local port handle) (Ended handle)
  unfolding mount_if mount_sshfs
  mount_if-Ended false remote local port = Triple-then (echo_err no_sshfs) _ (any _) (
      Triple-then (echo_err ssh_hint) _ (any _) (
        Triple-then (echo_err (codes "  ssh -p " ++ (int_text port ++ codes " marimo@localhost")))
          (pure (some handle)) (any _) kept_alive))
  mount_if-Ended true remote local port = Triple-then (make_dir (path local)) _ (any _) (
      Triple-bind (private_key o) _ (Triple-of_Keeps (private_key o) (any _)) (λ key.
        Triple-bind (run_found o (sshfs_command remote local port (path_text key)))
          (mount_ended o remote local handle)
          (Triple-of_Keeps (run_found o (sshfs_command remote local port (path_text key))) (any _))
          (mount_ended-Ended remote local)))

-- What the end of a mount says of the mounts that are tended.
Ended-Tended :
    (local : Text) (acc : List (Text × Option ℕ)) (handle : ℕ) (proc : Option ℕ) (w : World)
    → Ended handle proc w
    → Tended ((local, some handle) ∷ acc) w.trace
    → Tended ((local, proc) ∷ acc) w.trace
Ended-Tended local acc handle proc w serving h = h
Ended-Tended local acc handle proc w (given_up s) h = Tended-mono (λ n r. by_place n r s) h
  where
    by_place :
        (n : ℕ)
        → Serving n ((local, some handle) ∷ acc)
        → Occurs (stopped handle) w.trace
        → Occurs (stopped n) w.trace ⊎ Serving n ((local, none) ∷ acc)
    by_place n first s' = inl s'
    by_place n (later r) s' = inr (later r)

-- How `start` ends.
abbrev start_end : List Text → World → Bool → Result ℕ × World
start_end cmd w b =
    if b
    then (ok (length w.trace), record w { trace = started cmd ∷ w.trace })
    else (raise os_error, w)

abbrev TendedIn : List (Text × Option ℕ) → World → Type 0
TendedIn procs w = Tended procs w.trace

module _ (o : Outside) (name : Text) (ns : Option Text) where
  start-Tended :
      (local : Text) (acc : List (Text × Option ℕ)) (cmd : List Text)
      → Triple (TendedIn acc) (start o cmd) (λ handle. TendedIn ((local, some handle) ∷ acc))
  unfolding start
  start-Tended local acc cmd = record {
    at = λ w h handle e. by_found w h (o.starts (started cmd ∷ w.trace)) handle e;
  }
    where
      by_found :
          (w : World)
          → Tended acc w.trace
          → (b : Bool) (handle : ℕ) → (start_end cmd w b).0 ≡ ok handle
          → Tended ((local, some handle) ∷ acc) (start_end cmd w b).1.trace
      by_found w h true handle e =
          subst (λ n. Tended ((local, some n) ∷ acc) (started cmd ∷ w.trace)) (ok-injective e)
            (started-Tended local acc cmd w.trace h)
      by_found w h false handle e = absurd (raise-ne-ok os_error e)

  setup_local-Tended :
      (remote local : Text) (port : ℤ) (acc : List (Text × Option ℕ))
      → Triple
          (TendedIn acc)
          (setup_local_sshfs_mount o name ns remote local port)
          (λ proc. TendedIn ((local, proc) ∷ acc))
  unfolding setup_local_sshfs_mount
  setup_local-Tended remote local port acc =
      Triple-bind (run_found o which_command) _
        (Triple-of_Keeps (run_found o which_command) (
          run_found-Keeps o (Tended-Serves o acc).acts.heard which_command
            (unfold is_harmless in refl)))
        (λ which.
          Triple-bind (find_available_port o port) _
            (Triple-of_Keeps (find_available_port o port) ((Tended-Serves o acc).ports port))
            (λ local_port.
              Triple-bind (start o (forward_command name ns local_port (pos 2222))) _
                (start-Tended local acc (forward_command name ns local_port (pos 2222)))
                (λ handle.
                  Triple-then (sleep 2) _ ((Tended-Serves o ((local, some handle) ∷ acc)).sleeps 2)
                    (Triple-with
                      (mount_if o (which.returncode == 0) remote (local_path o local) local_port
                        handle)
                      (mount_if-Keeps o (Tended-Serves o ((local, some handle) ∷ acc))
                        (which.returncode == 0) remote (local_path o local) local_port handle)
                      (mount_if-Ended o handle (which.returncode == 0) remote (local_path o local)
                        local_port)
                      (λ proc w h e. Ended-Tended local acc handle proc w e h)))))

-- A mount may stand anywhere in the list.
under :
    (n : ℕ) (p q : Text × Option ℕ) (l : List (Text × Option ℕ))
    → Serving n (p ∷ l)
    → Serving n (p ∷ q ∷ l)
under n (local, some handle) q l first = first
under n p q l (later r) = later (later r)

moved :
    (n : ℕ) (p : Text × Option ℕ) (qs acc : List (Text × Option ℕ))
    → Serving n (qs ++ (p ∷ acc))
    → Serving n (p ∷ (qs ++ acc))
moved n p [] acc s = s
moved n p ((local, some handle) ∷ qs) acc first = later first
moved n p (q ∷ qs) acc (later s) = under n p q (qs ++ acc) (moved n p qs acc s)

module _ (o : Outside) (name : Text) (ns : Option Text) where
  setup_mounts-Tended :
      (ms : List SshfsMount) (acc : List (Text × Option ℕ))
      → Triple (TendedIn acc) (setup_mounts o name ns ms) (λ procs. TendedIn (procs ++ acc))
  unfolding setup_mounts
  setup_mounts-Tended [] acc = Triple-pure [] (λ w h. h)
  setup_mounts-Tended (m ∷ ms) acc =
      Triple-bind (setup_local_sshfs_mount o name ns m.remote_path m.local_mount (pos 2222)) _
        (setup_local-Tended o name ns m.remote_path m.local_mount (pos 2222) acc)
        (λ proc.
          Triple-bind (setup_mounts o name ns ms) (λ procs. pure ((m.local_mount, proc) ∷ procs))
            (setup_mounts-Tended ms ((m.local_mount, proc) ∷ acc))
            (λ procs.
              Triple-pure ((m.local_mount, proc) ∷ procs)
                (λ w h. Tended-mono (λ n s. inr (moved n (m.local_mount, proc) procs acc s)) h)))

  -- No start is forgotten: each is the port-forward of a mount, or was terminated.
  pub setup_sshfs-Tended :
      (ms : List SshfsMount)
      → Triple (TendedIn []) (setup_sshfs o name ns ms) (λ procs. TendedIn procs)
  unfolding setup_sshfs
  setup_sshfs-Tended [] = Triple-pure [] (λ w h. h)
  setup_sshfs-Tended (m ∷ ms) =
      Triple-then (echo (codes "Setting up sshfs mounts...")) (setup_mounts o name ns (m ∷ ms))
        ((Tended-Serves o []).acts.heard.says (codes "Setting up sshfs mounts..."))
        (record {
          at = λ w h procs e.
              subst (λ ps. Tended ps (setup_mounts o name ns (m ∷ ms) w).1.trace) (append-nil procs)
                ((setup_mounts-Tended (m ∷ ms) []).at w h procs e);
        })
