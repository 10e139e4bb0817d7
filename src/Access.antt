-- ===== src/Access.antt =====
-- Access to a notebook that was deployed: `print_access_info`, `get_access_token`, `open_notebook`
-- and the whole of `deploy_notebook` of plugin/kubectl_marimo/deploy.py.
pub mod Token
pub mod Rounds
pub mod Keeps
pub mod Cleanup
pub mod Missing
pub mod Tended
pub mod Setup
pub mod Waited
pub mod Closed
pub mod Failed
use marimo_operator.Base.{
  ℕ, zero, suc, Text, codes, same, starts_with, is_space, drop, Bool, true, false, ◌||◌, Option,
  none, some, List, [], ◌∷◌, ◌++◌, ◌==◌, if◌then◌else◌,
}
use marimo_operator.Credentials.{run_found}
use marimo_operator.Deploy.{Tracked, deploy_and_track, echo_lines}
use marimo_operator.Exec.{
  Process, Outside, World, M, ◌>>=◌, ◌>>◌, pure, throw, lift, echo, echo_err,
}
use marimo_operator.Exec.Programs.{run_blocking, sleep, visit}
use marimo_operator.Kubectl.{kubectl, with_namespace}
use marimo_operator.Mounts.{SshfsMount}
use marimo_operator.Notebook.{fields_of, to_int}
use marimo_operator.Result.{Exn, exit, Result, ok, raise}
use marimo_operator.Sshfs.{
  int_text, forward_command, find_available_port, setup_local_sshfs_mount, cleanup_sshfs_mount,
}
use marimo_operator.Sync.{sync_notebook}
use marimo_operator.Upload.{wait_for_ready}
use marimo_operator.Value.{ℤ, pos, Value, Fields, str, get, int_of}

-- The port of the frontmatter, or the default.
unfoldable pub port_setting_of : Option Value → Result ℤ
unfolding to_int int_of
port_setting_of none = ok (pos 2718)
port_setting_of (some v) = to_int v (int_of v)

unfoldable pub port_of : Option Fields → Result ℤ
unfolding port_setting_of get
port_of frontmatter = port_setting_of (get (codes "port") (fields_of frontmatter))

unfoldable pub namespace_flag : Option Text → Text
namespace_flag none = []
namespace_flag (some ns) = codes "-n " ++ (ns ++ codes " ")

unfoldable pub is_none_text : Option Value → Bool
unfolding same
is_none_text (some (str s)) = same s (codes "none")
is_none_text _ = false

-- What is said about the token.
unfoldable pub token_lines : Text → Option Text → Bool → List Text
unfolding namespace_flag
token_lines name namespace disabled =
    if disabled
    then codes "Note: Authentication is disabled (--no-token)" ∷ []
    else codes "Note: Token is auto-generated. Check pod logs:"
      ∷ (codes "  kubectl logs " ++ (namespace_flag namespace ++ (name ++ codes " | grep token")))
      ∷ []

unfoldable pub mode_lines : Text → List Text
unfolding same
mode_lines mode =
    if same mode (codes "run") then [] ∷ codes "Running in read-only app mode." ∷ [] else []

unfoldable pub mount_lines : List SshfsMount → List Text
mount_lines [] = []
mount_lines (m ∷ ms) =
    (codes "  mkdir -p " ++ m.local_mount)
    ∷ (codes "  sshfs marimo@localhost:"
        ++ (m.remote_path ++ (codes " " ++ (m.local_mount ++ codes " -p 2222"))))
    ∷ mount_lines ms

unfoldable pub sshfs_lines : Text → Option Text → List SshfsMount → List Text
unfolding mount_lines namespace_flag
sshfs_lines name namespace [] = []
sshfs_lines name namespace (m ∷ ms) =
    []
    ∷ codes "To mount pod filesystem locally:"
    ∷ (codes "  kubectl port-forward "
        ++ (namespace_flag namespace ++ (codes "svc/" ++ (name ++ codes " 2222:2222 &"))))
    ∷ mount_lines (m ∷ ms)

-- The lines of the access information, in order.
unfoldable pub access_lines : Text → Option Text → Text → Bool → List SshfsMount → ℤ → List Text
unfolding token_lines mode_lines sshfs_lines namespace_flag int_text
access_lines name namespace mode disabled sshfs_mounts port =
    []
    ∷ codes "To access your notebook:"
    ∷ (codes "  kubectl port-forward "
        ++ (namespace_flag namespace
            ++ (codes "svc/"
                ++ (name
                    ++ (codes " "
                        ++ (int_text port ++ (codes ":" ++ (int_text port ++ codes " &"))))))))
    ∷ (codes "  open http://localhost:" ++ int_text port)
    ∷ []
    ∷ (token_lines name namespace disabled
        ++ (mode_lines mode ++ sshfs_lines name namespace sshfs_mounts))

unfoldable pub print_access_info :
    Text → Option Text → Text → Option Fields → List SshfsMount → M (Unit {0})
unfolding port_of access_lines is_none_text get echo_lines
print_access_info name namespace mode frontmatter sshfs_mounts =
    lift (port_of frontmatter) >>= λ port. echo_lines (
      access_lines name namespace mode (is_none_text (get (codes "auth") (fields_of frontmatter)))
        sshfs_mounts port)

abbrev pub token_mark : Text
token_mark = codes "access_token="

-- [^\s&"]
unfoldable pub is_token_char : ℕ → Bool
unfolding is_space
is_token_char c = if is_space c || c == b'&' || c == b'"' then false else true

unfoldable pub token_span : Text → Text
unfolding is_token_char
token_span [] = []
token_span (c ∷ s) = let rest = token_span s in if is_token_char c then c ∷ rest else []

unfoldable pub or_found : Text → Option Text → Option Text
or_found [] rest = rest
or_found (c ∷ s) rest = some (c ∷ s)

-- The first match of `access_token=([^\s&"]+)`.
unfoldable pub search_token : Text → Option Text
unfolding starts_with token_span or_found
search_token [] = none
search_token (c ∷ s) =
    let rest = search_token s in
    if starts_with token_mark (c ∷ s) then or_found (token_span (drop 13 (c ∷ s))) rest else rest

abbrev pub token_command : Text → Option Text → List Text
token_command name namespace =
    with_namespace 2 namespace (kubectl ∷ codes "logs" ∷ name ∷ codes "-c" ∷ codes "marimo" ∷ [])

-- The address that is opened.
unfoldable pub url_of : ℤ → Option Text → Text
unfolding int_text
url_of port none = codes "http://localhost:" ++ int_text port
url_of port (some token) =
    codes "http://localhost:" ++ (int_text port ++ (codes "?access_token=" ++ token))

module _ (o : Outside) where
  unfoldable pub get_access_token : Text → Option Text → M (Option Text)
  unfolding run_found with_namespace search_token
  get_access_token name namespace =
      run_found o (token_command name namespace) >>= λ p. pure (search_token p.stdout)

  -- A token ends the loop; without one there is a pause before the next round.
  unfoldable pub or_again : M (Option Text) → Option Text → M (Option Text)
  unfolding sleep
  or_again again none = sleep 1 >> again
  or_again again (some token) = pure (some token)

  unfoldable pub wait_for_token : ℕ → Text → Option Text → M (Option Text)
  unfolding get_access_token or_again
  wait_for_token zero name namespace = pure none
  wait_for_token (suc n) name namespace =
      get_access_token name namespace >>= or_again (wait_for_token n name namespace)

  -- The local directory of each mount, with the port-forward that serves it.
  unfoldable pub setup_mounts : Text → Option Text → List SshfsMount → M (List (Text × Option ℕ))
  unfolding setup_local_sshfs_mount
  setup_mounts name namespace [] = pure []
  setup_mounts name namespace (m ∷ ms) =
      setup_local_sshfs_mount o name namespace m.remote_path m.local_mount (pos 2222) >>= λ proc.
      setup_mounts name namespace ms >>= λ procs. pure ((m.local_mount, proc) ∷ procs)

  -- `if sshfs_mounts:`
  unfoldable pub setup_sshfs : Text → Option Text → List SshfsMount → M (List (Text × Option ℕ))
  unfolding echo setup_mounts
  setup_sshfs name namespace [] = pure []
  setup_sshfs name namespace (m ∷ ms) =
      echo (codes "Setting up sshfs mounts...") >> setup_mounts name namespace (m ∷ ms)

  unfoldable pub cleanup_mounts : List (Text × Option ℕ) → M (Unit {0})
  unfolding cleanup_sshfs_mount
  cleanup_mounts [] = pure tt
  cleanup_mounts ((local_mount, proc) ∷ procs) =
      cleanup_sshfs_mount o local_mount proc >> cleanup_mounts procs

  -- `if sshfs_procs:`
  unfoldable pub cleanup_sshfs : List (Text × Option ℕ) → M (Unit {0})
  unfolding echo cleanup_mounts
  cleanup_sshfs [] = pure tt
  cleanup_sshfs (p ∷ procs) =
      echo (codes "\nCleaning up sshfs mounts...") >> cleanup_mounts (p ∷ procs)

  -- except Exception as e. `sys.exit` raises a `SystemExit`, which is none.
  unfoldable pub warn_sync : Exn → M (Unit {0})
  unfolding echo_err
  warn_sync (exit n) = throw (exit n)
  warn_sync e = echo_err (codes "Warning: Sync failed: " ++ o.message e)

  abbrev pub catch_sync : Result (Unit {0}) × World → Result (Unit {0}) × World
  catch_sync (ok u, w) = (ok u, w)
  catch_sync (raise e, w) = warn_sync e w

  unfoldable pub sync_at_exit : Text → Option Text → M (Unit {0})
  unfolding sync_notebook warn_sync
  sync_at_exit file_path namespace w = catch_sync (sync_notebook o file_path namespace true w)

  -- except KeyboardInterrupt
  unfoldable pub close_notebook : Text → Option Text → List (Text × Option ℕ) → M (Unit {0})
  unfolding cleanup_sshfs echo sync_at_exit
  close_notebook file_path namespace procs =
      cleanup_sshfs procs
      >> (echo (codes "\nSyncing changes...")
          >> (sync_at_exit file_path namespace >> echo (codes "Done")))

  -- The browser is opened, and the port forwarded until Ctrl+C, or until kubectl ends.
  unfoldable pub serve :
      Text → Option Text → ℤ → Text → List (Text × Option ℕ) → Option Text → M (Unit {0})
  unfolding find_available_port echo visit url_of run_blocking with_namespace int_text
      close_notebook
  serve name namespace port file_path procs token = find_available_port o port >>= λ local_port. do
    echo (codes "Opening " ++ url_of local_port token)
    echo (codes "Press Ctrl+C to stop port-forward and sync changes")
    echo []
    visit (url_of local_port token)
    (run_blocking o (forward_command name namespace local_port port) >>= λ interrupted.
        if interrupted then close_notebook file_path namespace procs else pure tt)

  unfoldable pub warn_not_ready : Bool → M (Unit {0})
  unfolding echo_err
  warn_not_ready ready =
      if ready
      then pure tt
      else echo_err (codes "Warning: Pod may not be ready, continuing anyway...")

  unfoldable pub open_notebook : Text → Option Text → ℤ → Text → List SshfsMount → M (Unit {0})
  unfolding echo wait_for_ready warn_not_ready setup_sshfs wait_for_token serve
  open_notebook name namespace port file_path sshfs_mounts =
      echo (codes "Waiting for " ++ (name ++ codes " to be ready..."))
      >> ((wait_for_ready o name namespace 120 >>= warn_not_ready)
          >> (setup_sshfs name namespace sshfs_mounts >>= λ procs.
              wait_for_token 5 name namespace >>= serve name namespace port file_path procs))

  -- How `deploy_notebook` ends.
  unfoldable pub access : Text → Text → Option Text → Bool → Option Tracked → M (Unit {0})
  unfolding port_of print_access_info open_notebook
  access file_path mode namespace headless none = pure tt
  access file_path mode namespace headless (some t) = lift (port_of t.frontmatter) >>= λ port.
      if headless
      then print_access_info t.name namespace mode t.frontmatter t.sshfs_mounts
      else open_notebook t.name namespace port file_path t.sshfs_mounts

  unfoldable pub deploy_notebook :
      Text → Text → Option Text → Option Text → Bool → Bool → Bool → M (Unit {0})
  unfolding deploy_and_track access
  deploy_notebook file_path mode namespace source dry_run headless force =
      deploy_and_track o file_path mode namespace source dry_run force
      >>= access file_path mode namespace headless
