-- ===== src/Deploy/Applied.antt =====
-- No file is written before the resource was applied.
use marimo_operator.Base.{
  Text, codes, ◌≡◌, refl, sym, ◌∙◌, Bool, true, false, Option, List, [], ◌∷◌,
}
use marimo_operator.Delete.Patch.{report-Keeps}
use marimo_operator.Deploy.{
  Source, dry_deploy, ensure_secrets, after_apply, deploy_built, deploy_and_track,
}
use marimo_operator.Deploy.Backed.{
  backed, IsBacked, HasApplied, IsApplied, hears-IsBacked, hears-IsApplied, after_apply-IsApplied,
}
use marimo_operator.Deploy.Keeps.{deploy_and_track-Keeps}
use marimo_operator.Deploy.Steps.{ensure_secrets-Keeps, dry_deploy-Keeps}
use marimo_operator.Exec.{Event, ran, Outside, Process, World, next, ◌>>=◌, run_command}
use marimo_operator.Exec.Keeps.{Keeps, Keeps-then, Keeps-if}
use marimo_operator.Kubectl.{kubectl, report, apply_resource}
use marimo_operator.Kubectl.Replies.{succeeded, report-succeeded}
use marimo_operator.Notebook.{Notebook}
use marimo_operator.Result.{Result, ok, raise}
use marimo_operator.Value.{Fields, dict}

module _ (o : Outside) where
  apply_command-HasApplied :
      (input : Text) (t : List Event)
      → backed o t ≡ true
      → succeeded (o.reply (ran (kubectl ∷ codes "apply" ∷ codes "-f" ∷ codes "-" ∷ []) input ∷ t))
        ≡ true
      → HasApplied o (ran (kubectl ∷ codes "apply" ∷ codes "-f" ∷ codes "-" ∷ []) input ∷ t)
  unfolding backed
  apply_command-HasApplied input t h s = record { trace_backed = h; has_applied = rw s refl }

  -- What an apply that is reported leaves behind.
  report-IsBacked :
      (r : Option Process) (w : World)
      → IsBacked o w
      → (succeeded r ≡ true → IsApplied o w)
      → IsBacked o (report r w).1 × ((report r w).0 ≡ ok true → IsApplied o (report r w).1)
  report-IsBacked r w h k = (
    (report-Keeps r (hears-IsBacked o).says (hears-IsBacked o).says_err).at w h,
    λ e.
        (report-Keeps r (hears-IsApplied o).says (hears-IsApplied o).says_err).at w
          (k (is_ok (sym (report-succeeded r w) ∙ e))),
  )
    where
      is_ok : {a b : Bool} → ok a ≡ ok b → a ≡ b
      is_ok e = cc

  apply_resource-IsBacked :
      (res : Fields) (w : World)
      → IsBacked o w
      → IsBacked o (apply_resource o res false w).1
        × ((apply_resource o res false w).0 ≡ ok true
            → IsApplied o (apply_resource o res false w).1)
  unfolding apply_resource run_command
  apply_resource-IsBacked res w h =
      let e =
        ran (kubectl ∷ codes "apply" ∷ codes "-f" ∷ codes "-" ∷ []) (o.yaml_dump (dict res)) in
      report-IsBacked (o.reply (e ∷ w.trace))
        (record w { files = o.moves (e ∷ w.trace) w.files; trace = e ∷ w.trace })
        (unfold backed in h) (apply_command-HasApplied (o.yaml_dump (dict res)) w.trace h)

  module _ (f : Text) (ns : Option Text) where
    after_apply-IsBacked :
        (src : Source) (nb : Notebook) (r : Result Bool × World)
        → IsBacked o r.1
        → (r.0 ≡ ok true → IsApplied o r.1)
        → IsBacked o (next r (after_apply o f ns src nb)).1
    after_apply-IsBacked src nb (raise e, w) h k = h
    after_apply-IsBacked src nb (ok false, w) h k = unfold after_apply in h
    after_apply-IsBacked src nb (ok true, w) h k =
        ((after_apply-IsApplied o f ns src nb).at w (k refl)).trace_backed

    deploy_built-IsBacked :
        (dry_run : Bool) (src : Source) (nb : Notebook)
        → Keeps (IsBacked o) (deploy_built o f ns dry_run src nb)
    unfolding deploy_built
    deploy_built-IsBacked dry_run src nb =
        Keeps-if dry_run (dry_deploy o ns nb) _ (dry_deploy-Keeps o (hears-IsBacked o) ns nb) (
          Keeps-then (ensure_secrets o ns nb.resource)
            (apply_resource o nb.resource false >>= after_apply o f ns src nb)
            (ensure_secrets-Keeps o (hears-IsBacked o) ns nb.resource)
            (record {
              at = λ w h.
                  let (b, k) = apply_resource-IsBacked nb.resource w h in
                  after_apply-IsBacked src nb (apply_resource o nb.resource false w) b k;
            }))

    module _ (mode : Text) (source : Option Text) (dry_run force : Bool) where
      -- `deploy`, up to the tracking, writes no local file, the swap file included, before a `kubectl
      -- apply` has succeeded. This holds on dry runs as well, whatever the answers of programs and of
      -- the user are, and however the command ends.
      pub deploy_and_track-IsBacked :
          (w : World)
          → IsBacked o w
          → IsBacked o (deploy_and_track o f mode ns source dry_run force w).1
      deploy_and_track-IsBacked =
          (deploy_and_track-Keeps o (hears-IsBacked o) f ns mode source dry_run force
            (deploy_built-IsBacked dry_run)).at
