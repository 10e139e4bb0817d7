-- ===== src/Deploy.antt =====
-- `deploy_notebook` of plugin/kubectl_marimo/deploy.py up to the point where the deployment is
-- tracked.
pub mod Tracking
pub mod Steps
pub mod Backed
pub mod Applied
pub mod Keeps
use marimo_operator.Base.{
  ℕ, Text, codes, same, decimal, Bool, true, false, not, ◌&&◌, Option, none, some, List, [], ◌∷◌,
  ◌++◌, map, ◌==◌, if◌then◌else◌,
}
use marimo_operator.Credentials.{run_found, ensure_cw_credentials, ensure_ssh_pubkey}
use marimo_operator.Delete.{resource_name, parse_file}
use marimo_operator.Exec.{
  Process, Outside, World, M, ◌>>=◌, ◌>>◌, pure, lift, sys_exit, echo, echo_err, is_dir, exists,
  read_text, confirm,
}
use marimo_operator.Kubectl.{kubectl, with_namespace, apply_resource}
use marimo_operator.Mounts.{RsyncMount, SshfsMount}
use marimo_operator.Notebook.{Notebook, build_marimo_notebook, has_cw_mounts, has_sshfs_sidecars}
use marimo_operator.Paths.{FilePath, path, path_text}
use marimo_operator.Result.{Result, ok, raise}
use marimo_operator.Upload.{wait_for_ready, sync_local_source}
use marimo_operator.Swap.{
  LocalMount, SwapMeta, create_swap_meta, read_swap_file, write_swap_file, swap_file_path,
}
use marimo_operator.Sync.{compute_hash}
use marimo_operator.Value.{Value, Fields, dict}

-- The mounts as the swap file holds them.
abbrev pub rsync_entry : RsyncMount → LocalMount
rsync_entry m = record { local = m.source; remote = m.mount; kind = none }

abbrev pub sshfs_entry : SshfsMount → LocalMount
sshfs_entry m = record {
  local = m.local_mount;
  remote = m.remote_path;
  kind = some (codes "sshfs");
}

unfoldable pub rsync_data : List RsyncMount → Option (List LocalMount)
rsync_data [] = none
rsync_data (m ∷ ms) = some (map rsync_entry (m ∷ ms))

unfoldable pub or_nil : Option (List LocalMount) → List LocalMount
or_nil none = []
or_nil (some ms) = ms

unfoldable pub with_sshfs : Option (List LocalMount) → List SshfsMount → Option (List LocalMount)
unfolding or_nil
with_sshfs entries [] = entries
with_sshfs entries (m ∷ ms) = some (or_nil entries ++ map sshfs_entry (m ∷ ms))

abbrev pub mounts_data : Notebook → Option (List LocalMount)
mounts_data nb = with_sshfs (rsync_data nb.rsync_mounts) nb.sshfs_mounts

-- What the last step, the access to the notebook, is given.
pub record Tracked : Type 0 where
  pub name : Text
  pub frontmatter : Option Fields
  pub sshfs_mounts : List SshfsMount

-- The content (none for a directory) and the frontmatter, with the name.
pub record Source : Type 0 where
  pub content : Option Text
  pub frontmatter : Option Fields
  pub name : Text

-- The notebook's texts in the arrow lines of a dry run.
abbrev pub rsync_line : RsyncMount → Text
rsync_line m = codes "#   " ++ (m.source ++ (codes " → " ++ m.mount))

abbrev pub sshfs_line : SshfsMount → Text
sshfs_line m = codes "#   pod:" ++ (m.remote_path ++ (codes " → " ++ m.local_mount))

unfoldable pub echo_lines : List Text → M (Unit {0})
unfolding echo
echo_lines [] = pure tt
echo_lines (line ∷ lines) = echo line >> echo_lines lines

-- A list of mounts with its title, if there are any.
unfoldable pub echo_titled : Text → List Text → M (Unit {0})
unfolding echo echo_lines
echo_titled title [] = pure tt
echo_titled title (line ∷ lines) = echo title >> echo_lines (line ∷ lines)

abbrev pub rsync_title : Text
rsync_title = codes "\n# Rsync mounts (handled by plugin via kubectl cp):"

abbrev pub sshfs_title : Text
sshfs_title = codes "\n# SSHFS mounts (plugin mounts pod filesystem locally):"

unfoldable pub to_yaml : Outside → Fields → Text
to_yaml o resource = o.yaml_dump_in_order (dict resource)

-- compute_hash(content) if content else ""
unfoldable pub hash_of : Outside → Option Text → Text
unfolding compute_hash
hash_of o none = []
hash_of o (some []) = []
hash_of o (some (c ∷ s)) = compute_hash o (c ∷ s)

module _ (o : Outside) where
  -- The question, if the file was changed since it was last deployed.
  unfoldable pub ask_to_redeploy : Text → Text → Text → M Bool
  unfolding echo confirm compute_hash same
  ask_to_redeploy file_path file_hash text =
      if same (compute_hash o text) file_hash
      then pure true
      else (echo
            (codes "Warning: Local file '" ++ (file_path ++ codes "' modified since last deploy."))
          >> confirm o (codes "Continue and overwrite tracking?"))

  -- `if existing and not force:`
  unfoldable pub may_deploy : Text → Bool → Option SwapMeta → M Bool
  unfolding read_text ask_to_redeploy path
  may_deploy file_path force none = pure true
  may_deploy file_path force (some existing) =
      if force
      then pure true
      else (read_text (path file_path) >>= ask_to_redeploy file_path existing.file_hash)

  -- `parse_file` always returns a content, so its check for `None` is not taken.
  unfoldable pub file_source : Text → Text × Option Fields → M Source
  unfolding resource_name
  file_source file_path (content, frontmatter) = resource_name o file_path frontmatter >>= λ n.
      pure (record { content = some content; frontmatter = frontmatter; name = n })

  unfoldable pub folder_source : Text → M Source
  unfolding resource_name
  folder_source file_path = resource_name o file_path none >>= λ n.
      pure (record { content = none; frontmatter = none; name = n })

  unfoldable pub dry_deploy : Option Text → Notebook → M (Option Tracked)
  unfolding to_yaml echo echo_titled has_sshfs_sidecars ensure_ssh_pubkey
  dry_deploy namespace nb = do
    echo (to_yaml o nb.resource)
    echo_titled rsync_title (map rsync_line nb.rsync_mounts)
    echo_titled sshfs_title (map sshfs_line nb.sshfs_mounts)
    (if has_sshfs_sidecars nb.resource
        then (ensure_ssh_pubkey o namespace true >>= λ _. pure none)
        else pure none)

  -- The secrets; without the key there are no sshfs mounts.
  unfoldable pub ensure_secrets : Option Text → Fields → M (Unit {0})
  unfolding has_cw_mounts has_sshfs_sidecars ensure_cw_credentials ensure_ssh_pubkey echo_err
  ensure_secrets namespace resource =
      (if has_cw_mounts resource
        then (ensure_cw_credentials o namespace >>= λ _. pure tt)
        else pure tt)
      >> (if has_sshfs_sidecars resource
          then (ensure_ssh_pubkey o namespace false >>= λ there.
              if there
              then pure tt
              else (echo_err (codes "Error: SSH pubkey required for sshfs mounts") >> sys_exit 1))
          else pure tt)

  unfoldable pub sync_sources : Text → Option Text → List RsyncMount → M (Unit {0})
  unfolding sync_local_source
  sync_sources name namespace [] = pure tt
  sync_sources name namespace (m ∷ ms) =
      sync_local_source o name namespace m.source m.mount >>= λ _. sync_sources name namespace ms

  -- `if rsync_mounts:`
  unfoldable pub sync_when_ready : Text → Option Text → List RsyncMount → M (Unit {0})
  unfolding echo echo_err wait_for_ready sync_sources
  sync_when_ready name namespace [] = pure tt
  sync_when_ready name namespace (m ∷ ms) =
      echo (codes "Waiting for " ++ (name ++ codes " to be ready for local sync..."))
      >> (wait_for_ready o name namespace 120 >>= λ ready.
          if ready
          then sync_sources name namespace (m ∷ ms)
          else echo_err (codes "Warning: Pod not ready, skipping local sync"))

  -- The swap file of the deployment.
  unfoldable pub track : Text → Option Text → Source → Notebook → M (Unit {0})
  unfolding create_swap_meta hash_of rsync_data with_sshfs write_swap_file swap_file_path echo
      path_text
  track file_path namespace src nb =
      (create_swap_meta o src.name namespace file_path (hash_of o src.content) (mounts_data nb)
        >>= write_swap_file o file_path)
      >> (swap_file_path file_path >>= λ p. echo (codes "Tracking deployment in " ++ path_text p))

  unfoldable pub after_apply : Text → Option Text → Source → Notebook → Bool → M (Option Tracked)
  unfolding sync_when_ready track
  after_apply file_path namespace src nb false = sys_exit 1
  after_apply file_path namespace src nb true =
      sync_when_ready src.name namespace nb.rsync_mounts
      >> (track file_path namespace src nb
          >> pure (
              some (record {
                name = src.name;
                frontmatter = src.frontmatter;
                sshfs_mounts = nb.sshfs_mounts;
              })))

  unfoldable pub deploy_built : Text → Option Text → Bool → Source → Notebook → M (Option Tracked)
  unfolding dry_deploy ensure_secrets apply_resource after_apply
  deploy_built file_path namespace dry_run src nb =
      if dry_run
      then dry_deploy namespace nb
      else (ensure_secrets namespace nb.resource
          >> (apply_resource o nb.resource false >>= after_apply file_path namespace src nb))

  unfoldable pub deploy_source :
      Text → Text → Option Text → Option Text → Bool → Source → M (Option Tracked)
  unfolding build_marimo_notebook deploy_built
  deploy_source file_path mode namespace source dry_run src =
      lift (
        build_marimo_notebook o.ssh_image src.name namespace src.content src.frontmatter mode
          source)
      >>= deploy_built file_path namespace dry_run src

  -- All of `deploy_notebook` but the access to the notebook. `none` is an early return.
  unfoldable pub deploy_and_track :
      Text → Text → Option Text → Option Text → Bool → Bool → M (Option Tracked)
  unfolding is_dir folder_source read_swap_file may_deploy parse_file file_source deploy_source echo
      path
  deploy_and_track file_path mode namespace source dry_run force =
      is_dir (path file_path) >>= λ folder.
      if folder
      then (folder_source file_path >>= deploy_source file_path mode namespace source dry_run)
      else (read_swap_file o file_path >>= may_deploy file_path force >>= λ go.
          if go
          then (parse_file o file_path
              >>= file_source file_path
              >>= deploy_source file_path mode namespace source dry_run)
          else (echo (codes "Deploy cancelled") >> pure none))
