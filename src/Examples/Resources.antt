-- ===== src/Examples/Resources.antt =====
-- Resources that are built, and swap files, at concrete inputs.
use marimo_operator.Base.{Text, codes, ◌≡◌, refl, not, none, some, [], ◌∷◌, ◌++◌}
use marimo_operator.Notebook.{
  Notebook, fields_of, source_mounts, frontmatter_mounts, build_marimo_notebook, resource_spec,
  has_cw_mounts, has_sshfs_sidecars,
}
use marimo_operator.Notebook.Built.{HasBasics, size, built, built-HasBasics}
use marimo_operator.Notebook.Secrets.{
  is_cw, any_text, is_empty_list, has_cw_mounts-built, has_sshfs_sidecars-built,
}
use marimo_operator.Result.{ok, raise}
use marimo_operator.Swap.{SwapMeta}
use marimo_operator.Value.{Fields, empty, field, nil, cons, str, list, get}

abbrev pub two_mounts : SwapMeta
two_mounts = record {
  name = codes "demo";
  namespace = none;
  applied_at = codes "2025-01-01T00:00:00Z";
  original_file = codes "/home/me/demo.py";
  file_hash = codes "sha256:0";
  local_mounts = some (
      record { local = codes "./data"; remote = codes "/opt/data"; kind = none }
      ∷ record { local = codes "./mnt"; remote = codes "/srv"; kind = some (codes "sshfs") }
      ∷ []);
}

abbrev settings_read : Fields
settings_read =
    field (codes "storage") (str (codes "5Gi"))
      (field (codes "mounts") (list (cons (str (codes "cw://bucket")) nil)) empty)

abbrev source : Text
source = codes "sshfs:///srv"

abbrev image : Text
image = codes "ssh:latest"

-- The notebook that is built from these settings.
abbrev demo : Notebook
unfolding build_marimo_notebook
demo =
    elim (built image (codes "demo") none (some (codes "import marimo")) (some settings_read)
      (codes "edit") (some source)) [
        | ok nb ↦ nb
        | raise e ↦ record { resource = empty; rsync_mounts = []; sshfs_mounts = [] }
      ]

demo-built :
    built image
      (codes "demo")
      none
      (some (codes "import marimo"))
      (some settings_read)
      (codes "edit")
      (some source)
    ≡ ok demo
unfolding build_marimo_notebook
demo-built = refl

listed :
    frontmatter_mounts (get (codes "mounts") (fields_of (some settings_read)))
    ≡ ok (codes "cw://bucket" ∷ [])
unfolding frontmatter_mounts get
listed = refl

built-HasBasics_example :
    HasBasics (resource_spec demo.resource) (codes "edit") (some (codes "import marimo")) (
      size image
        (codes "demo")
        none
        (some (codes "import marimo"))
        (some settings_read)
        (codes "edit")
        (some source))
built-HasBasics_example =
    built-HasBasics image (codes "demo") none (some (codes "import marimo")) (some settings_read)
      (codes "edit") (some source) demo-built

has_cw_mounts-built_example :
    has_cw_mounts demo.resource
    ≡ any_text is_cw (source_mounts (some source) ++ (codes "cw://bucket" ∷ []))
has_cw_mounts-built_example =
    has_cw_mounts-built image (codes "demo") none (some (codes "import marimo"))
      (some settings_read) (codes "edit") (some source) demo-built listed

has_sshfs_sidecars-built_example :
    has_sshfs_sidecars demo.resource ≡ not (is_empty_list demo.sshfs_mounts)
has_sshfs_sidecars-built_example =
    has_sshfs_sidecars-built image (codes "demo") none (some (codes "import marimo"))
      (some settings_read) (codes "edit") (some source) demo-built
