-- ===== src/Swap/Keeps.antt =====
-- What reading swap files keeps.
use marimo_operator.Base.{Text, none, if◌then◌else◌}
use marimo_operator.Exec.{Outside, World, pure, lift, is_dir, exists, read_text}
use marimo_operator.Exec.Keeps.{
  Keeps, Keeps-bind, Keeps-pure, Keeps-lift, Keeps-if, Keeps-read_text, Keeps-is_dir, Keeps-exists,
}
use marimo_operator.Paths.{FilePath, path}
use marimo_operator.Swap.{
  swap_file_path, swap_path_of, load_meta, read_swap_at, read_swap_file, parsed_meta,
}

module _ {P : World → Type 0} where
  pub swap_file_path-Keeps : (f : Text) → Keeps P (swap_file_path f)
  unfolding swap_file_path
  swap_file_path-Keeps f =
      Keeps-bind (is_dir (path f)) (λ folder. pure (swap_path_of (path f) folder))
        (Keeps-is_dir (path f)) (λ folder. Keeps-pure (swap_path_of (path f) folder))

  module _ (o : Outside) where
    load_meta-Keeps : (p : FilePath) → Keeps P (load_meta o p)
    unfolding load_meta
    load_meta-Keeps p =
        Keeps-bind (read_text p) (λ s. lift (parsed_meta (o.json_load s))) (Keeps-read_text p)
          (λ s. Keeps-lift (parsed_meta (o.json_load s)))

    pub read_swap_at-Keeps : (p : FilePath) → Keeps P (read_swap_at o p)
    unfolding read_swap_at
    read_swap_at-Keeps p =
        Keeps-bind (exists p) (λ there. if there then load_meta o p else pure none) (Keeps-exists p)
          (λ there.
            Keeps-if there (load_meta o p) (pure none) (load_meta-Keeps p) (Keeps-pure none))

    pub read_swap_file-Keeps : (f : Text) → Keeps P (read_swap_file o f)
    unfolding read_swap_file
    read_swap_file-Keeps f =
        Keeps-bind (swap_file_path f) (read_swap_at o) (swap_file_path-Keeps f) read_swap_at-Keeps
