-- ===== src/Sshfs.antt =====
-- Local ports and mounts of the pod's files: `find_available_port`, `setup_local_sshfs_mount` and
-- `cleanup_sshfs_mount` of plugin/kubectl_marimo/deploy.py.
pub mod Keeps
pub mod Traces
use marimo_operator.Base.{
  ℕ, ◌+◌, Text, codes, leb, decimal, Bool, true, false, not, Option, none, some, List, [], ◌∷◌,
  ◌++◌, ◌==◌, if◌then◌else◌,
}
use marimo_operator.Credentials.{run_found, key_file}
use marimo_operator.Exec.{
  Event, tried, Process, Outside, M, ◌>>=◌, ◌>>◌, pure, throw, echo, echo_err, exists,
}
use marimo_operator.Exec.Programs.{start, stop, sleep, make_dir}
use marimo_operator.Kubectl.{kubectl, with_namespace}
use marimo_operator.Paths.{FilePath, path, path_text}
use marimo_operator.Result.{ok, overflow_error}
use marimo_operator.Value.{ℤ, pos, negsuc}

-- str(n)
unfoldable pub int_text : ℤ → Text
unfolding decimal
int_text (pos n) = decimal n
int_text (negsuc n) = b'-' ∷ decimal (n + 1)

-- What the socket library takes for a port.
unfoldable pub is_port : ℤ → Bool
is_port (pos n) = leb n 65535
is_port (negsuc n) = false

-- kubectl port-forward svc/NAME LOCAL:REMOTE
abbrev pub forward_command : Text → Option Text → ℤ → ℤ → List Text
forward_command name namespace local_port port = with_namespace 2 namespace (
    kubectl
    ∷ codes "port-forward"
    ∷ (codes "svc/" ++ name)
    ∷ (int_text local_port ++ (codes ":" ++ int_text port))
    ∷ [])

abbrev pub which_command : List Text
which_command = codes "which" ∷ codes "sshfs" ∷ []

abbrev pub sshfs_command : Text → Text → ℤ → Text → List Text
sshfs_command remote_path local port key =
    codes "sshfs"
    ∷ (codes "marimo@localhost:" ++ remote_path)
    ∷ local
    ∷ codes "-p"
    ∷ int_text port
    ∷ codes "-o"
    ∷ (codes "IdentityFile=" ++ key)
    ∷ codes "-o"
    ∷ codes "StrictHostKeyChecking=no"
    ∷ codes "-o"
    ∷ codes "UserKnownHostsFile=/dev/null"
    ∷ []

abbrev pub no_sshfs : Text
no_sshfs = codes "sshfs not installed - skipping local mount."

abbrev pub ssh_hint : Text
ssh_hint = codes "You can SSH directly to access files:"

abbrev pub no_private_key : Text
no_private_key = codes "Warning: No SSH private key found, sshfs may fail"

abbrev pub fusermount_command : Text → List Text
fusermount_command local = codes "fusermount" ∷ codes "-u" ∷ local ∷ []

abbrev pub umount_command : Text → List Text
umount_command local = codes "umount" ∷ local ∷ []

-- `if pf_proc: pf_proc.terminate()`
unfoldable pub stop_started : Option ℕ → M (Unit {0})
unfolding stop
stop_started none = pure tt
stop_started (some handle) = stop handle

module _ (o : Outside) where
  -- A port that is not free is replaced by one that the system chooses.
  unfoldable pub find_available_port : ℤ → M ℤ
  unfolding is_port
  find_available_port preferred w =
      let t = tried preferred ∷ w.trace in
      let found = if o.is_free t then preferred else pos (o.free_port t) in
      if is_port preferred then (ok found, record w { trace = t }) else throw overflow_error w

  -- str(Path(local_mount).expanduser().resolve())
  abbrev pub local_path : Text → Text
  local_path local_mount = o.resolved (o.expanded local_mount)

  unfoldable pub private_key : M FilePath
  unfolding exists echo_err path
  private_key = exists (key_file o (codes "id_rsa")) >>= λ rsa.
      if rsa
      then pure (key_file o (codes "id_rsa"))
      else (exists (key_file o (codes "id_ed25519")) >>= λ ed.
          if ed
          then pure (key_file o (codes "id_ed25519"))
          else echo_err no_private_key >> pure (key_file o (codes "id_rsa")))

  -- The port-forward is kept if the mount succeeds.
  unfoldable pub mount_ended : Text → Text → ℕ → Process → M (Option ℕ)
  unfolding echo echo_err stop
  mount_ended remote_path local handle p =
      if p.returncode == 0
      then (echo (codes "Mounted pod:" ++ (remote_path ++ (codes " → " ++ local)))
          >> pure (some handle))
      else (echo_err (codes "Warning: sshfs mount failed: " ++ p.stderr)
          >> (stop handle >> pure none))

  unfoldable pub mount_sshfs : Text → Text → ℤ → ℕ → M (Option ℕ)
  unfolding make_dir private_key run_found int_text mount_ended path path_text
  mount_sshfs remote_path local port handle =
      make_dir (path local)
      >> (private_key >>= λ key.
          run_found o (sshfs_command remote_path local port (path_text key))
          >>= mount_ended remote_path local handle)

  unfoldable pub mount_if : Bool → Text → Text → ℤ → ℕ → M (Option ℕ)
  unfolding echo_err int_text mount_sshfs
  mount_if false remote_path local port handle =
      echo_err no_sshfs
      >> (echo_err ssh_hint
          >> (echo_err (codes "  ssh -p " ++ (int_text port ++ codes " marimo@localhost"))
              >> pure (some handle)))
  mount_if true remote_path local port handle = mount_sshfs remote_path local port handle

  -- The port-forward that was started, or `none` where the mount failed.
  unfoldable pub setup_local_sshfs_mount : Text → Option Text → Text → Text → ℤ → M (Option ℕ)
  unfolding run_found find_available_port start with_namespace int_text sleep mount_if
  setup_local_sshfs_mount name namespace remote_path local_mount ssh_port =
      run_found o which_command >>= λ which. find_available_port ssh_port >>= λ port.
      start o (forward_command name namespace port (pos 2222)) >>= λ handle.
      sleep 2 >> mount_if (which.returncode == 0) remote_path (local_path local_mount) port handle

  -- Both commands are tried, whatever they return.
  unfoldable pub unmount : Text → M (Unit {0})
  unfolding run_found
  unmount local = run_found o (fusermount_command local) >>= λ _.
      run_found o (umount_command local) >>= λ _. pure tt

  unfoldable pub cleanup_sshfs_mount : Text → Option ℕ → M (Unit {0})
  unfolding exists unmount stop_started path
  cleanup_sshfs_mount local_mount proc = exists (path (local_path local_mount)) >>= λ there.
      (if there then unmount (local_path local_mount) else pure tt) >> stop_started proc
