-- ===== src/Deploy/Keeps.antt =====
-- What a deployment keeps, up to its tracking.
use marimo_operator.Base.{Text, codes, refl, Bool, true, false, Option, none, ◌++◌, [], ◌∷◌}
use marimo_operator.Credentials.Keeps.{Hears}
use marimo_operator.Delete.{resource_name, parse_file}
use marimo_operator.Delete.Patch.{report-Keeps}
use marimo_operator.Delete.Volume.{resource_name-Keeps, parse_file-Keeps}
use marimo_operator.Deploy.{
  Source, hash_of, mounts_data, may_deploy, file_source, folder_source, dry_deploy, ensure_secrets,
  sync_when_ready, track, after_apply, deploy_built, deploy_source, deploy_and_track,
}
use marimo_operator.Deploy.Steps.{
  ensure_secrets-Keeps, dry_deploy-Keeps, may_deploy-Keeps, sync_when_ready-Keeps,
}
use marimo_operator.Exec.{Outside, World, ◌>>=◌, pure, lift, echo, is_dir, run_command}
use marimo_operator.Exec.Keeps.{
  Keeps, Keeps-bind, Keeps-then, Keeps-pure, Keeps-throw, Keeps-lift, Keeps-if, Keeps-is_dir,
}
use marimo_operator.Kubectl.{kubectl, report, apply_resource}
use marimo_operator.Kubectl.Harmless.{is_harmless}
use marimo_operator.Notebook.{Notebook, build_marimo_notebook}
use marimo_operator.Paths.{path, path_text}
use marimo_operator.Result.{exit}
use marimo_operator.Swap.{create_swap_meta, read_swap_file, write_swap_file, swap_file_path}
use marimo_operator.Swap.Keeps.{read_swap_file-Keeps, swap_file_path-Keeps}
use marimo_operator.Sync.Keeps.{Acts, write_swap_file-Keeps}
use marimo_operator.Value.{Fields, dict}

module _ (o : Outside) {P : World → Type 0} (heard : Hears o P) (f : Text) (ns : Option Text)
    (mode : Text) (source : Option Text) (dry_run force : Bool)
    (built : (src : Source) (nb : Notebook) → Keeps P (deploy_built o f ns dry_run src nb)) where
  deploy_source-Keeps : (src : Source) → Keeps P (deploy_source o f mode ns source dry_run src)
  unfolding deploy_source
  deploy_source-Keeps src =
      let resource =
        build_marimo_notebook o.ssh_image src.name ns src.content src.frontmatter mode source in
      Keeps-bind (lift resource) (deploy_built o f ns dry_run src) (Keeps-lift resource) (built src)

  file_source-Keeps : (parsed : Text × Option Fields) → Keeps P (file_source o f parsed)
  unfolding file_source
  file_source-Keeps (content, frontmatter) =
      Keeps-bind (resource_name o f frontmatter) _ (resource_name-Keeps o f frontmatter)
        (λ n. Keeps-pure _)

  folder_source-Keeps : Keeps P (folder_source o f)
  unfolding folder_source
  folder_source-Keeps =
      Keeps-bind (resource_name o f none) _ (resource_name-Keeps o f none)
        (λ n. Keeps-pure (record { content = none; frontmatter = none; name = n }))

  from_file :
      Keeps P (parse_file o f >>= file_source o f >>= deploy_source o f mode ns source dry_run)
  from_file =
      Keeps-bind (parse_file o f >>= file_source o f) (deploy_source o f mode ns source dry_run)
        (Keeps-bind (parse_file o f) (file_source o f) (parse_file-Keeps o f) file_source-Keeps)
        deploy_source-Keeps

  pub deploy_and_track-Keeps : Keeps P (deploy_and_track o f mode ns source dry_run force)
  unfolding deploy_and_track
  deploy_and_track-Keeps = Keeps-bind (is_dir (path f)) _ (Keeps-is_dir (path f)) (λ folder.
      Keeps-if folder (folder_source o f >>= deploy_source o f mode ns source dry_run) _
        (Keeps-bind (folder_source o f) (deploy_source o f mode ns source dry_run)
          folder_source-Keeps deploy_source-Keeps)
        (Keeps-bind (read_swap_file o f >>= may_deploy o f force) _
          (Keeps-bind (read_swap_file o f) (may_deploy o f force) (read_swap_file-Keeps o f)
            (may_deploy-Keeps o heard f force))
          (λ go.
            Keeps-if go
              (parse_file o f >>= file_source o f >>= deploy_source o f mode ns source dry_run) _
              from_file
              (Keeps-then (echo (codes "Deploy cancelled")) (pure none)
                (heard.says (codes "Deploy cancelled")) (Keeps-pure none)))))

module _ (o : Outside) {P : World → Type 0} (acts : Acts o P) (f : Text) (ns : Option Text) where
  track-Keeps : (src : Source) (nb : Notebook) → Keeps P (track o f ns src nb)
  unfolding track create_swap_meta
  track-Keeps src nb =
      Keeps-then
        (create_swap_meta o src.name ns f (hash_of o src.content) (mounts_data nb)
          >>= write_swap_file o f)
        (swap_file_path f >>= λ p. echo (codes "Tracking deployment in " ++ path_text p))
        (Keeps-bind (create_swap_meta o src.name ns f (hash_of o src.content) (mounts_data nb))
          (write_swap_file o f) (record { at = λ w h. h }) (write_swap_file-Keeps o acts f))
        (Keeps-bind (swap_file_path f) _ (swap_file_path-Keeps f)
          (λ p. acts.heard.says (codes "Tracking deployment in " ++ path_text p)))

  after_apply-Keeps :
      (src : Source) (nb : Notebook) (applied : Bool) → Keeps P (after_apply o f ns src nb applied)
  unfolding after_apply
  after_apply-Keeps src nb false = Keeps-throw (exit 1)
  after_apply-Keeps src nb true =
      Keeps-then (sync_when_ready o src.name ns nb.rsync_mounts) _
        (sync_when_ready-Keeps o acts.heard src.name ns nb.rsync_mounts)
        (Keeps-then (track o f ns src nb) _ (track-Keeps src nb) (Keeps-pure _))

  apply_resource-Keeps : (res : Fields) → Keeps P (apply_resource o res false)
  unfolding apply_resource
  apply_resource-Keeps res =
      let apply = kubectl ∷ codes "apply" ∷ codes "-f" ∷ codes "-" ∷ [] in
      Keeps-bind (run_command o apply (o.yaml_dump (dict res))) report
        (acts.heard.runs apply (o.yaml_dump (dict res)) (unfold is_harmless in refl))
        (λ r. report-Keeps r acts.heard.says acts.heard.says_err)

  pub deploy_built-Keeps :
      (dry_run : Bool) (src : Source) (nb : Notebook) → Keeps P (deploy_built o f ns dry_run src nb)
  unfolding deploy_built
  deploy_built-Keeps dry_run src nb =
      Keeps-if dry_run (dry_deploy o ns nb) _ (dry_deploy-Keeps o acts.heard ns nb) (
        Keeps-then (ensure_secrets o ns nb.resource)
          (apply_resource o nb.resource false >>= after_apply o f ns src nb)
          (ensure_secrets-Keeps o acts.heard ns nb.resource)
          (Keeps-bind (apply_resource o nb.resource false) (after_apply o f ns src nb)
            (apply_resource-Keeps nb.resource) (after_apply-Keeps src nb)))
