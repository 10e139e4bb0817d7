-- ===== src/Delete/Volume.antt =====
-- `delete_notebook`: the volume claim is released before the notebook is deleted.
use marimo_operator.Base.{Text, refl, Option, none, some}
use marimo_operator.Delete.{
  title_of, title_slug, path_slug, resource_name_of, resource_name, parse_file,
}
use marimo_operator.Exec.{Outside, World, pure, read_text, is_dir}
use marimo_operator.Exec.Keeps.{
  Keeps, Keeps-bind, Keeps-pure, Keeps-lift, Keeps-read_text, Keeps-is_dir, Keeps-of,
}
use marimo_operator.Paths.{path}
use marimo_operator.Content.{parse_content}
use marimo_operator.Value.{Value, Fields}

module _ {P : World → Type 0} (o : Outside) (f : Text) where
  pub resource_name-Keeps : (fm : Option Fields) → Keeps P (resource_name o f fm)
  resource_name-Keeps fm = Keeps-of (by_title (title_of fm)) (unfold resource_name in refl)
    where
      by_title : (t : Option Value) → Keeps P (resource_name_of o f t)
      by_title (some title) =
          Keeps-of (Keeps-lift (title_slug title)) (unfold resource_name_of in refl)
      by_title none =
          Keeps-of
            (Keeps-bind (is_dir (path f)) (λ folder. pure (path_slug o f folder))
              (Keeps-is_dir (path f)) (λ folder. Keeps-pure (path_slug o f folder)))
            (unfold resource_name_of in refl)

  pub parse_file-Keeps : Keeps P (parse_file o f)
  parse_file-Keeps =
      Keeps-of
        (Keeps-bind (read_text (path f)) (λ s. pure (parse_content o.yaml_load (path f) s))
          (Keeps-read_text (path f)) (λ s. Keeps-pure (parse_content o.yaml_load (path f) s)))
        (unfold parse_file in refl)
