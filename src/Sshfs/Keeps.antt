-- ===== src/Sshfs/Keeps.antt =====
-- What the local mounts' steps keep: whatever running programs, in the background too, keeps.
use marimo_operator.Base.{
  ℕ, Text, codes, same, ◌≡◌, refl, Bool, true, false, Option, none, some, List, ◌++◌, ◌==◌,
  if◌then◌else◌,
}
use marimo_operator.Credentials.{run_found, key_file}
use marimo_operator.Credentials.Keeps.{Hears, run_found-Keeps}
use marimo_operator.Exec.{Outside, Process, World, pure, echo, echo_err, exists}
use marimo_operator.Exec.Keeps.{Keeps, Keeps-bind, Keeps-then, Keeps-pure, Keeps-if, Keeps-exists}
use marimo_operator.Exec.Programs.{start, stop, sleep, visit, make_dir, run_blocking}
use marimo_operator.Kubectl.{kubectl}
use marimo_operator.Kubectl.Harmless.{is_harmless, verb_harmless, with_namespace_harmless}
use marimo_operator.Paths.{FilePath, path, path_text}
use marimo_operator.Sshfs.{
  int_text, forward_command, which_command, sshfs_command, no_sshfs, ssh_hint, no_private_key,
  fusermount_command, umount_command, stop_started, find_available_port, local_path, private_key,
  mount_ended, mount_sshfs, mount_if, setup_local_sshfs_mount, unmount, cleanup_sshfs_mount,
}
use marimo_operator.Sync.Keeps.{Acts}
use marimo_operator.Value.{ℤ, pos}

-- What stopping background programs, pauses, ports, the browser and new directories keep, too.
-- Starting a program is apart.
pub record Serves (o : Outside) (P : World → Type 0) : Type 0 where
  pub acts : Acts o P
  pub stops : (handle : ℕ) → Keeps P (stop handle)
  pub sleeps : (n : ℕ) → Keeps P (sleep n)
  pub visits : (url : Text) → Keeps P (visit url)
  pub ports : (port : ℤ) → Keeps P (find_available_port o port)
  pub makes : (p : FilePath) → Keeps P (make_dir p)
  pub blocks : (cmd : List Text) → is_harmless cmd ≡ true → Keeps P (run_blocking o cmd)

pub forward_harmless :
    (name : Text) (ns : Option Text) (a b : ℤ) → is_harmless (forward_command name ns a b) ≡ true
forward_harmless name ns a b =
    with_namespace_harmless 0 ns kubectl (codes "port-forward") _ (unfold same in refl)

module _ (o : Outside) {P : World → Type 0} (serves : Serves o P) where
  abbrev heard : Hears o P
  heard = serves.acts.heard

  private_key-Keeps : Keeps P (private_key o)
  unfolding private_key
  private_key-Keeps =
      Keeps-bind (exists (key_file o (codes "id_rsa"))) _
        (Keeps-exists (key_file o (codes "id_rsa")))
        (λ rsa.
          Keeps-if rsa (pure (key_file o (codes "id_rsa"))) _
            (Keeps-pure (key_file o (codes "id_rsa")))
            (Keeps-bind (exists (key_file o (codes "id_ed25519"))) _
              (Keeps-exists (key_file o (codes "id_ed25519")))
              (λ ed.
                Keeps-if ed (pure (key_file o (codes "id_ed25519"))) _
                  (Keeps-pure (key_file o (codes "id_ed25519")))
                  (Keeps-then (echo_err no_private_key) (pure (key_file o (codes "id_rsa")))
                    (heard.says_err no_private_key) (Keeps-pure (key_file o (codes "id_rsa")))))))

  mount_ended-Keeps :
      (remote local : Text) (handle : ℕ) (p : Process)
      → Keeps P (mount_ended o remote local handle p)
  unfolding mount_ended
  mount_ended-Keeps remote local handle p =
      Keeps-if (p.returncode == 0) _ _
        (Keeps-then (echo (codes "Mounted pod:" ++ (remote ++ (codes " → " ++ local))))
          (pure (some handle))
          (heard.says (codes "Mounted pod:" ++ (remote ++ (codes " → " ++ local))))
          (Keeps-pure (some handle)))
        (Keeps-then (echo_err (codes "Warning: sshfs mount failed: " ++ p.stderr)) _
          (heard.says_err (codes "Warning: sshfs mount failed: " ++ p.stderr))
          (Keeps-then (stop handle) (pure none) (serves.stops handle) (Keeps-pure none)))

  mount_sshfs-Keeps :
      (remote local : Text) (port : ℤ) (handle : ℕ)
      → Keeps P (mount_sshfs o remote local port handle)
  unfolding mount_sshfs
  mount_sshfs-Keeps remote local port handle =
      Keeps-then (make_dir (path local)) _ (serves.makes (path local)) (
        Keeps-bind (private_key o) _ private_key-Keeps (λ key.
          Keeps-bind (run_found o (sshfs_command remote local port (path_text key)))
            (mount_ended o remote local handle)
            (run_found-Keeps o heard (sshfs_command remote local port (path_text key)) (
              verb_harmless (codes "sshfs") (codes "marimo@localhost:" ++ remote) _
                (unfold same in refl)))
            (mount_ended-Keeps remote local handle)))

  pub mount_if-Keeps :
      (there : Bool) (remote local : Text) (port : ℤ) (handle : ℕ)
      → Keeps P (mount_if o there remote local port handle)
  unfolding mount_if
  mount_if-Keeps false remote local port handle =
      Keeps-then (echo_err no_sshfs) _ (heard.says_err no_sshfs) (
        Keeps-then (echo_err ssh_hint) _ (heard.says_err ssh_hint) (
          Keeps-then (echo_err (codes "  ssh -p " ++ (int_text port ++ codes " marimo@localhost")))
            _ (heard.says_err (codes "  ssh -p " ++ (int_text port ++ codes " marimo@localhost")))
            (Keeps-pure (some handle))))
  mount_if-Keeps true remote local port handle = mount_sshfs-Keeps remote local port handle

  pub setup_local_sshfs_mount-Keeps :
      ((cmd : List Text) → Keeps P (start o cmd))
      → (name : Text) (ns : Option Text) (remote local : Text) (ssh_port : ℤ)
      → Keeps P (setup_local_sshfs_mount o name ns remote local ssh_port)
  unfolding setup_local_sshfs_mount
  setup_local_sshfs_mount-Keeps starts name ns remote local ssh_port =
      Keeps-bind (run_found o which_command) _
        (run_found-Keeps o heard which_command (unfold is_harmless in refl))
        (λ which. Keeps-bind (find_available_port o ssh_port) _ (serves.ports ssh_port) (λ port.
          Keeps-bind (start o (forward_command name ns port (pos 2222))) _
            (starts (forward_command name ns port (pos 2222)))
            (λ handle.
              Keeps-then (sleep 2) _ (serves.sleeps 2)
                (mount_if-Keeps (which.returncode == 0) remote (local_path o local) port handle))))

  unmount-Keeps : (local : Text) → Keeps P (unmount o local)
  unfolding unmount
  unmount-Keeps local =
      Keeps-bind (run_found o (fusermount_command local)) _
        (run_found-Keeps o heard (fusermount_command local) (unfold is_harmless in refl))
        (λ _.
          Keeps-bind (run_found o (umount_command local)) (λ _. pure tt)
            (run_found-Keeps o heard (umount_command local) (unfold is_harmless in refl))
            (λ _. Keeps-pure tt))

  stop_started-Keeps : (proc : Option ℕ) → Keeps P (stop_started proc)
  unfolding stop_started
  stop_started-Keeps none = Keeps-pure tt
  stop_started-Keeps (some handle) = serves.stops handle

  pub cleanup_sshfs_mount-Keeps :
      (local : Text) (proc : Option ℕ) → Keeps P (cleanup_sshfs_mount o local proc)
  unfolding cleanup_sshfs_mount
  cleanup_sshfs_mount-Keeps local proc =
      Keeps-bind (exists (path (local_path o local))) _ (Keeps-exists (path (local_path o local)))
        (λ there.
          Keeps-then (if there then unmount o (local_path o local) else pure tt) (stop_started proc)
            (Keeps-if there (unmount o (local_path o local)) (pure tt)
              (unmount-Keeps (local_path o local)) (Keeps-pure tt))
            (stop_started-Keeps proc))
