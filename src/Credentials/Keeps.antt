-- ===== src/Credentials/Keeps.antt =====
-- What the credentials' functions keep: whatever talking to the user and to programs keeps.
use marimo_operator.Base.{
  Text, codes, same, ◌≡◌, refl, Bool, true, false, not, Option, none, some, List, [], ◌∷◌, ◌++◌,
  if◌then◌else◌, ◌==◌, ◌⊎◌, inl, inr,
}
use marimo_operator.Credentials.{
  no_config_warning, key_question, no_key_line, key_file, ssh_pubkey, s3cfg, cw_credentials,
  secret_command, create_command, found, checked, created, run_found, secret_exists, create_secret,
  with_keys, config_text, cw_secret, ensure_cw_credentials, default_key, generate_key, key_entered,
  ask_for_key, choose_key, use_key, ensure_ssh_pubkey,
}
use marimo_operator.Exec.{
  Outside, Process, World, ◌>>=◌, ◌>>◌, pure, throw, echo, echo_err, exists, confirm, prompt,
  run_command,
}
use marimo_operator.Exec.Keeps.{
  Keeps, Keeps-bind, Keeps-then, Keeps-pure, Keeps-throw, Keeps-if, Keeps-exists, Keeps-reads,
}
use marimo_operator.Kubectl.{kubectl, extend_namespace}
use marimo_operator.Kubectl.Harmless.{is_harmless, with_namespace_harmless}
use marimo_operator.Result.{os_error, process_error}
use marimo_operator.Paths.{FilePath, path, path_text}

-- What talks to the user and to programs keeps, if the programs delete no resource.
pub record Hears (o : Outside) (P : World → Type 0) : Type 0 where
  pub says : (s : Text) → Keeps P (echo s)
  pub says_err : (s : Text) → Keeps P (echo_err s)
  pub confirms : (s : Text) → Keeps P (confirm o s)
  pub prompts : (s : Text) → Keeps P (prompt o s)
  pub runs :
      (cmd : List Text) (input : Text) → is_harmless cmd ≡ true → Keeps P (run_command o cmd input)

asks_harmless : (n : Text) (ns : Option Text) → is_harmless (secret_command n ns) ≡ true
unfolding is_harmless extend_namespace
asks_harmless n none = refl
asks_harmless n (some ns) = refl

create_harmless :
    (ns : Option Text) (n : Text) (ls : List Text) → is_harmless (create_command ns n ls) ≡ true
unfolding create_command
create_harmless ns n ls =
    with_namespace_harmless 3 ns kubectl (codes "create")
      (codes "secret" ∷ codes "generic" ∷ n ∷ ls) (unfold same in refl)

module _ (o : Outside) {P : World → Type 0} (heard : Hears o P) where
  found-Keeps : (r : Option Process) → Keeps P (found r)
  unfolding found
  found-Keeps none = Keeps-throw os_error
  found-Keeps (some p) = Keeps-pure p

  pub run_found-Keeps : (cmd : List Text) → is_harmless cmd ≡ true → Keeps P (run_found o cmd)
  unfolding run_found
  run_found-Keeps cmd h = Keeps-bind (run_command o cmd []) found (heard.runs cmd [] h) found-Keeps

  secret_exists-Keeps : (n : Text) (ns : Option Text) → Keeps P (secret_exists o n ns)
  unfolding secret_exists
  secret_exists-Keeps n ns =
      Keeps-bind (run_found o (secret_command n ns)) (λ p. pure (p.returncode == 0))
        (run_found-Keeps (secret_command n ns) (asks_harmless n ns))
        (λ p. Keeps-pure (p.returncode == 0))

  pub told : (b : Bool) (s : Text) → Keeps P (echo s >> pure b)
  told b s = Keeps-then (echo s) (pure b) (heard.says s) (Keeps-pure b)

  pub told_err : (b : Bool) (s : Text) → Keeps P (echo_err s >> pure b)
  told_err b s = Keeps-then (echo_err s) (pure b) (heard.says_err s) (Keeps-pure b)

  created-Keeps : (n : Text) (ns : Option Text) (p : Process) → Keeps P (created n ns p)
  unfolding created
  created-Keeps n ns p = Keeps-if (p.returncode == 0) _ _ (told true _) (told_err false _)

  create_secret-Keeps :
      (n : Text) (ns : Option Text) (ls : List Text) → Keeps P (create_secret o n ns ls)
  unfolding create_secret
  create_secret-Keeps n ns ls =
      Keeps-bind (run_found o (create_command ns n ls)) (created n ns)
        (run_found-Keeps (create_command ns n ls) (create_harmless ns n ls)) (created-Keeps n ns)

  with_keys-Keeps : (ns : Option Text) (k : Text ⊎ (Text × Text)) → Keeps P (with_keys o ns k)
  unfolding with_keys
  with_keys-Keeps ns (inl e) = told_err false _
  with_keys-Keeps ns (inr (a, s)) = create_secret-Keeps _ ns _

  config_text-Keeps : Keeps P (config_text o)
  unfolding config_text
  config_text-Keeps = Keeps-reads (config_text o) (λ w. refl)

  cw_secret-Keeps : (ns : Option Text) (there : Bool) → Keeps P (cw_secret o ns there)
  unfolding cw_secret
  cw_secret-Keeps ns there =
      Keeps-if there (pure true) (config_text o >>= λ s. with_keys o ns (o.s3_keys s))
        (Keeps-pure true)
        (Keeps-bind (config_text o) (λ s. with_keys o ns (o.s3_keys s)) config_text-Keeps
          (λ s. with_keys-Keeps ns (o.s3_keys s)))

  pub ensure_cw_credentials-Keeps : (ns : Option Text) → Keeps P (ensure_cw_credentials o ns)
  unfolding ensure_cw_credentials
  ensure_cw_credentials-Keeps ns =
      Keeps-bind (exists (s3cfg o)) _ (Keeps-exists (s3cfg o)) (λ there.
        Keeps-if there (secret_exists o cw_credentials ns >>= cw_secret o ns) _
          (Keeps-bind (secret_exists o cw_credentials ns) (cw_secret o ns)
            (secret_exists-Keeps cw_credentials ns) (cw_secret-Keeps ns))
          (told_err false no_config_warning))

  default_key-Keeps : Keeps P (default_key o)
  unfolding default_key
  default_key-Keeps =
      Keeps-bind (exists (key_file o (codes "id_rsa.pub"))) _
        (Keeps-exists (key_file o (codes "id_rsa.pub")))
        (λ rsa.
          Keeps-if rsa (pure (some (key_file o (codes "id_rsa.pub")))) _
            (Keeps-pure (some (key_file o (codes "id_rsa.pub"))))
            (Keeps-bind (exists (key_file o (codes "id_ed25519.pub")))
              (λ ed. pure (if ed then some (key_file o (codes "id_ed25519.pub")) else none))
              (Keeps-exists (key_file o (codes "id_ed25519.pub")))
              (λ ed. Keeps-pure (if ed then some (key_file o (codes "id_ed25519.pub")) else none))))

  checked-Keeps : (p : Process) → Keeps P (checked p)
  unfolding checked
  checked-Keeps p =
      Keeps-if (p.returncode == 0) (pure tt) (throw process_error) (Keeps-pure tt)
        (Keeps-throw process_error)

  generate_key-Keeps : Keeps P (generate_key o)
  unfolding generate_key
  generate_key-Keeps =
      let new_key = path_text (key_file o (codes "id_ed25519")) in
      let cmd =
        codes "ssh-keygen"
        ∷ codes "-t"
        ∷ codes "ed25519"
        ∷ codes "-f"
        ∷ new_key
        ∷ codes "-N"
        ∷ []
        ∷ [] in
      Keeps-then (echo (codes "Generating SSH key pair..."))
        ((run_found o cmd >>= checked) >> pure (path (new_key ++ codes ".pub")))
        (heard.says (codes "Generating SSH key pair..."))
        (Keeps-then (run_found o cmd >>= checked) (pure (path (new_key ++ codes ".pub")))
          (Keeps-bind (run_found o cmd) checked (run_found-Keeps cmd (unfold is_harmless in refl))
            checked-Keeps)
          (Keeps-pure (path (new_key ++ codes ".pub"))))

  key_entered-Keeps : (s : Text) → Keeps P (key_entered o s)
  unfolding key_entered
  key_entered-Keeps [] = generate_key-Keeps
  key_entered-Keeps (c ∷ s) = Keeps-pure (path (o.expanded (c ∷ s)))

  ask_for_key-Keeps : Keeps P (ask_for_key o)
  unfolding ask_for_key
  ask_for_key-Keeps =
      Keeps-bind (prompt o key_question) (key_entered o) (heard.prompts key_question)
        key_entered-Keeps

  choose_key-Keeps : (p : Option FilePath) → Keeps P (choose_key o p)
  unfolding choose_key
  choose_key-Keeps (some p) =
      Keeps-bind (confirm o (codes "Use SSH key at " ++ (path_text p ++ codes "?"))) _
        (heard.confirms (codes "Use SSH key at " ++ (path_text p ++ codes "?")))
        (λ yes. Keeps-if yes (pure p) (ask_for_key o) (Keeps-pure p) ask_for_key-Keeps)
  choose_key-Keeps none =
      Keeps-then (echo no_key_line) (ask_for_key o) (heard.says no_key_line) ask_for_key-Keeps

  use_key-Keeps :
      (ns : Option Text) (dry_run : Bool) (p : FilePath) → Keeps P (use_key o ns dry_run p)
  unfolding use_key
  use_key-Keeps ns dry_run p = Keeps-bind (exists p) _ (Keeps-exists p) (λ there.
      Keeps-if (not there) _ _
        (told_err false (codes "Error: SSH key not found at " ++ path_text p))
        (Keeps-if dry_run _ _
          (told true (codes "# Would create ssh-pubkey secret from " ++ path_text p))
          (create_secret-Keeps ssh_pubkey ns
            ((codes "--from-file=authorized_keys=" ++ path_text p) ∷ []))))

  pub ensure_ssh_pubkey-Keeps :
      (ns : Option Text) (dry_run : Bool) → Keeps P (ensure_ssh_pubkey o ns dry_run)
  unfolding ensure_ssh_pubkey
  ensure_ssh_pubkey-Keeps ns dry_run =
      Keeps-bind (if dry_run then pure false else secret_exists o ssh_pubkey ns) _
        (Keeps-if dry_run (pure false) (secret_exists o ssh_pubkey ns) (Keeps-pure false)
          (secret_exists-Keeps ssh_pubkey ns))
        (λ there.
          Keeps-if there (pure true) (default_key o >>= choose_key o >>= use_key o ns dry_run)
            (Keeps-pure true)
            (Keeps-bind (default_key o >>= choose_key o) (use_key o ns dry_run)
              (Keeps-bind (default_key o) (choose_key o) default_key-Keeps choose_key-Keeps)
              (use_key-Keeps ns dry_run)))
