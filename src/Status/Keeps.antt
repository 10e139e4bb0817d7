-- ===== src/Status/Keeps.antt =====
-- What `status` keeps: whatever printing keeps.
use marimo_operator.Base.{Text, codes, refl, Option, none, some, List, [], ◌∷◌}
use marimo_operator.Exec.{Outside, World, ◌>>=◌, lift, echo}
use marimo_operator.Exec.Keeps.{Keeps, Keeps-bind, Keeps-then, Keeps-pure, Keeps-lift, Keeps-reads}
use marimo_operator.Paths.{FilePath, path, child}
use marimo_operator.Status.{
  folder_prefix, swap_names, sorted, header_line, dashes, line_of, format_elapsed,
  read_swap_file_direct, show_meta, show_each, show_found, show_status,
}
use marimo_operator.Swap.{SwapMeta}
use marimo_operator.Swap.Keeps.{read_swap_at-Keeps}

module _ (o : Outside) {P : World → Type 0} (says : (s : Text) → Keeps P (echo s)) where
  format_elapsed-Keeps : (timestamp : Text) → Keeps P (format_elapsed o timestamp)
  unfolding format_elapsed
  format_elapsed-Keeps timestamp = Keeps-reads (format_elapsed o timestamp) (λ w. refl)

  show_meta-Keeps : (n : Text) (meta : Option SwapMeta) → Keeps P (show_meta o n meta)
  unfolding show_meta
  show_meta-Keeps n none = Keeps-pure tt
  show_meta-Keeps n (some meta) =
      Keeps-bind
        (format_elapsed o meta.applied_at >>= λ time.
          lift (line_of n meta.name meta.namespace time))
        echo
        (Keeps-bind (format_elapsed o meta.applied_at)
          (λ time. lift (line_of n meta.name meta.namespace time))
          (format_elapsed-Keeps meta.applied_at)
          (λ time. Keeps-lift (line_of n meta.name meta.namespace time)))
        says

  show_each-Keeps : (folder : FilePath) (ns : List Text) → Keeps P (show_each o folder ns)
  unfolding show_each read_swap_file_direct
  show_each-Keeps folder [] = Keeps-pure tt
  show_each-Keeps folder (n ∷ ns) =
      Keeps-then (read_swap_file_direct o (child folder n) >>= show_meta o n)
        (show_each o folder ns)
        (Keeps-bind (read_swap_file_direct o (child folder n)) (show_meta o n)
          (read_swap_at-Keeps o (child folder n)) (show_meta-Keeps n))
        (show_each-Keeps folder ns)

  show_found-Keeps : (folder : FilePath) (ns : List Text) → Keeps P (show_found o folder ns)
  unfolding show_found
  show_found-Keeps folder [] = says (codes "No active notebook deployments found")
  show_found-Keeps folder (n ∷ ns) = Keeps-then (echo header_line) _ (says header_line) (
      Keeps-then (echo (dashes 80)) _ (says (dashes 80)) (show_each-Keeps folder (sorted (n ∷ ns))))

  pub show_status-Keeps : (directory : Text) → Keeps P (show_status o directory)
  unfolding show_status
  show_status-Keeps directory = record {
    at = λ w h.
        (show_found-Keeps (path directory) (swap_names (folder_prefix (path directory)) w.files)).at
          w h;
  }
