-- ===== src/Credentials.antt =====
-- The secrets that a deployment needs: `ensure_cw_credentials` and `ensure_ssh_pubkey` of
-- plugin/kubectl_marimo/deploy.py.
pub mod Keeps
use marimo_operator.Base.{
  Text, codes, Bool, true, false, not, Option, none, some, List, [], ◌∷◌, ◌++◌, ◌==◌, ◌⊎◌, inl, inr,
  if◌then◌else◌,
}
use marimo_operator.Exec.{
  Process, Outside, M, ◌>>=◌, ◌>>◌, pure, throw, echo, echo_err, exists, Node, file, find, confirm,
  prompt, run_command,
}
use marimo_operator.Kubectl.{kubectl, with_namespace, extend_namespace}
use marimo_operator.Paths.{FilePath, path, path_text}
use marimo_operator.Result.{ok, os_error, process_error}
use marimo_operator.Sync.{shown}

-- A call that does not catch the `FileNotFoundError`.
unfoldable pub found : Option Process → M Process
found none = throw os_error
found (some p) = pure p

-- check=True
unfoldable pub checked : Process → M (Unit {0})
checked p = if p.returncode == 0 then pure tt else throw process_error

abbrev pub secret_command : Text → Option Text → List Text
secret_command name namespace =
    extend_namespace namespace (kubectl ∷ codes "get" ∷ codes "secret" ∷ name ∷ [])

unfoldable pub create_command : Option Text → Text → List Text → List Text
unfolding with_namespace
create_command namespace name literals =
    with_namespace 5 namespace
      (kubectl ∷ codes "create" ∷ codes "secret" ∷ codes "generic" ∷ name ∷ literals)

-- How the creation of a secret ends.
unfoldable pub created : Text → Option Text → Process → M Bool
unfolding echo echo_err shown
created name namespace p =
    if p.returncode == 0
    then (echo (codes "Created " ++ (name ++ (codes " secret in namespace " ++ shown namespace)))
        >> pure true)
    else (echo_err (codes "Warning: Failed to create " ++ (name ++ (codes " secret: " ++ p.stderr)))
        >> pure false)

abbrev pub cw_credentials : Text
cw_credentials = codes "cw-credentials"

abbrev pub no_config_warning : Text
no_config_warning =
    codes "Warning: ~/.s3cfg not found. Run 's3cmd --configure' to set up credentials."

abbrev pub key_question : Text
key_question = codes "Enter path to SSH public key (or press Enter to generate)"

abbrev pub no_key_line : Text
no_key_line = codes "No SSH key found at ~/.ssh/id_rsa.pub or ~/.ssh/id_ed25519.pub"

abbrev pub ssh_pubkey : Text
ssh_pubkey = codes "ssh-pubkey"

unfoldable pub readable : Option Node → Text
readable (some (file s)) = s
readable _ = []

module _ (o : Outside) where
  -- subprocess.run(cmd, capture_output=True)
  unfoldable pub run_found : List Text → M Process
  unfolding run_command found
  run_found cmd = run_command o cmd [] >>= found

  unfoldable pub secret_exists : Text → Option Text → M Bool
  unfolding run_found extend_namespace
  secret_exists name namespace =
      run_found (secret_command name namespace) >>= λ p. pure (p.returncode == 0)

  unfoldable pub create_secret : Text → Option Text → List Text → M Bool
  unfolding run_found create_command created
  create_secret name namespace literals =
      run_found (create_command namespace name literals) >>= created name namespace

  unfoldable pub with_keys : Option Text → Text ⊎ (Text × Text) → M Bool
  unfolding create_secret echo_err
  with_keys namespace (inl e) =
      echo_err (codes "Warning: Could not read credentials from ~/.s3cfg: " ++ e) >> pure false
  with_keys namespace (inr (access_key, secret_key)) = create_secret cw_credentials namespace (
      (codes "--from-literal=AWS_ACCESS_KEY_ID=" ++ access_key)
      ∷ (codes "--from-literal=AWS_SECRET_ACCESS_KEY=" ++ secret_key)
      ∷ [])

  abbrev pub s3cfg : FilePath
  s3cfg = path (o.home ++ codes "/.s3cfg")

  -- config.read(path), which takes what it cannot read for empty.
  unfoldable pub config_text : M Text
  unfolding find path path_text
  config_text w = (ok (readable (find (path_text s3cfg) w.files)), w)

  -- The secret is made of the configuration's keys, unless it is there.
  unfoldable pub cw_secret : Option Text → Bool → M Bool
  unfolding config_text with_keys
  cw_secret namespace there =
      if there then pure true else (config_text >>= λ s. with_keys namespace (o.s3_keys s))

  unfoldable pub ensure_cw_credentials : Option Text → M Bool
  unfolding exists echo_err secret_exists cw_secret path
  ensure_cw_credentials namespace = exists s3cfg >>= λ there.
      if there
      then (secret_exists cw_credentials namespace >>= cw_secret namespace)
      else (echo_err no_config_warning >> pure false)

  abbrev pub key_file : Text → FilePath
  key_file name = path (o.home ++ (codes "/.ssh/" ++ name))

  -- The first of the two default keys.
  unfoldable pub default_key : M (Option FilePath)
  unfolding exists path
  default_key = exists (key_file (codes "id_rsa.pub")) >>= λ rsa.
      if rsa
      then pure (some (key_file (codes "id_rsa.pub")))
      else (exists (key_file (codes "id_ed25519.pub")) >>= λ ed.
          pure (if ed then some (key_file (codes "id_ed25519.pub")) else none))

  unfoldable pub generate_key : M FilePath
  unfolding echo run_found checked path path_text
  generate_key =
      let new_key = path_text (key_file (codes "id_ed25519")) in
      echo (codes "Generating SSH key pair...")
      >> ((run_found (
              codes "ssh-keygen"
              ∷ codes "-t"
              ∷ codes "ed25519"
              ∷ codes "-f"
              ∷ new_key
              ∷ codes "-N"
              ∷ []
              ∷ [])
            >>= checked)
          >> pure (path (new_key ++ codes ".pub")))

  -- The path that the user enters, or a new key.
  unfoldable pub key_entered : Text → M FilePath
  unfolding generate_key path
  key_entered [] = generate_key
  key_entered (c ∷ s) = pure (path (o.expanded (c ∷ s)))

  unfoldable pub ask_for_key : M FilePath
  unfolding prompt key_entered
  ask_for_key = prompt o key_question >>= key_entered

  unfoldable pub choose_key : Option FilePath → M FilePath
  unfolding confirm echo ask_for_key path_text
  choose_key (some p) = confirm o (codes "Use SSH key at " ++ (path_text p ++ codes "?")) >>= λ yes.
      if yes then pure p else ask_for_key
  choose_key none = echo no_key_line >> ask_for_key

  unfoldable pub use_key : Option Text → Bool → FilePath → M Bool
  unfolding exists echo echo_err create_secret path_text
  use_key namespace dry_run p = exists p >>= λ there.
      if not there
      then echo_err (codes "Error: SSH key not found at " ++ path_text p) >> pure false
      else if dry_run
      then echo (codes "# Would create ssh-pubkey secret from " ++ path_text p) >> pure true
      else create_secret ssh_pubkey namespace
          ((codes "--from-file=authorized_keys=" ++ path_text p) ∷ [])

  unfoldable pub ensure_ssh_pubkey : Option Text → Bool → M Bool
  unfolding secret_exists default_key choose_key use_key
  ensure_ssh_pubkey namespace dry_run =
      (if dry_run then pure false else secret_exists ssh_pubkey namespace) >>= λ there.
      if there then pure true else (default_key >>= choose_key >>= use_key namespace dry_run)
