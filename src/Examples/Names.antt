-- ===== src/Examples/Names.antt =====
-- Mounts and names at concrete inputs.
use marimo_operator.Base.{
  ◌≤◌, ◌≡◌, ◌↔◌, refl, codes, has, starts_with, ends_with, length, true, false, some, List, [], ◌∷◌,
  ◌++◌, arith,
}
use marimo_operator.Base.{Text, decimal}
use marimo_operator.Mounts.{parse_mount_uri, filter_mounts}
use marimo_operator.Mounts.Local.{
  IsAbsolute, PodPathsAbsolute, Distinct, local_mounts, filter_mounts-PodPathsAbsolute,
  filter_mounts-Distinct, filter_mounts_rsync_to,
}
use marimo_operator.Mounts.Routes.{remote_uris, filter_mounts_cw}
use marimo_operator.Mounts.Uri.{IsMountUri, parse_mount_uri_iff}
use marimo_operator.Slug.{slugify, slug_whole}
use marimo_operator.Slug.Fixed.{IsLabel, slugify_fixed, slugify_cut}
use marimo_operator.Slug.Label.{separated, IsSlug, slugify-IsSlug}

abbrev uris : List Text
uris =
    codes "cw://bucket/data"
    ∷ codes "rsync://./data:/opt/data"
    ∷ codes "sshfs:///srv"
    ∷ codes "rsync://models"
    ∷ codes "notes"
    ∷ []

filter_mounts_run : filter_mounts uris ≡ record {
  cw_mounts = codes "cw://bucket/data" ∷ codes "notes" ∷ [];
  rsync_mounts =
      record { source = codes "./data"; mount = codes "/opt/data"; scheme = codes "rsync" }
      ∷ record {
        source = codes "models";
        mount = codes "/home/marimo/notebooks/mounts/local-3";
        scheme = codes "rsync";
      }
      ∷ [];
  sshfs_mounts = record { remote_path = codes "/srv"; local_mount = codes "./marimo-mount-2" } ∷ [];
}
unfolding filter_mounts decimal
filter_mounts_run = refl

slugify_run : slugify (codes "My Notebook (v2)!") ≡ codes "my-notebook-v2"
unfolding slugify
slugify_run = refl

parse_mount_uri_iff_example :
    (parse_mount_uri (codes "cw://bucket") ≡ some (codes "cw", codes "bucket"))
    ↔ IsMountUri (codes "cw://bucket") (codes "cw") (codes "bucket")
parse_mount_uri_iff_example =
    parse_mount_uri_iff (codes "cw://bucket") (codes "cw") (codes "bucket")

filter_mounts_cw_example : (filter_mounts uris).cw_mounts ≡ remote_uris uris
filter_mounts_cw_example = filter_mounts_cw uris

filter_mounts-PodPathsAbsolute_example : PodPathsAbsolute (filter_mounts uris)
filter_mounts-PodPathsAbsolute_example = filter_mounts-PodPathsAbsolute uris

filter_mounts-Distinct_example : Distinct (local_mounts (filter_mounts uris))
filter_mounts-Distinct_example = filter_mounts-Distinct uris

line_data : has b'\n' (codes "data" ++ (b':' ∷ codes "/opt")) ≡ false
unfolding has
line_data = refl

no_colon : has b':' (codes "/opt") ≡ false
unfolding has
no_colon = refl

opt-IsAbsolute : IsAbsolute (codes "/opt")
unfolding starts_with
opt-IsAbsolute = refl

filter_mounts_rsync_to_example :
    let r = filter_mounts uris in
    filter_mounts (uris ++ ((codes "rsync://" ++ (codes "data" ++ (b':' ∷ codes "/opt"))) ∷ []))
    ≡ record r {
      rsync_mounts =
          r.rsync_mounts
          ++ (record { source = codes "data"; mount = codes "/opt"; scheme = codes "rsync" } ∷ []);
    }
filter_mounts_rsync_to_example =
    filter_mounts_rsync_to uris (codes "data") (codes "/opt") line_data no_colon opt-IsAbsolute

slugify-IsSlug_example : IsSlug (slugify (codes "My Notebook"))
slugify-IsSlug_example = slugify-IsSlug (codes "My Notebook")

fits_notebook : length (slug_whole (codes "My Notebook")) ≤ 63
unfolding slug_whole
fits_notebook = omega arith

notebook-IsLabel : IsLabel (codes "my-notebook")
unfolding separated ends_with
notebook-IsLabel = record { spelled = refl; end = refl }

slugify_fixed_example : slugify (codes "my-notebook") ≡ codes "my-notebook"
slugify_fixed_example = slugify_fixed (codes "my-notebook") notebook-IsLabel (omega arith)

abbrev long_head : Text
long_head = codes "abcdefghijklmnopqrstuvwxyzabcdefghijklmnopqrstuvwxyzabcdefghij"

long-IsLabel : IsLabel (long_head ++ (b'-' ∷ codes "notebook"))
unfolding separated ends_with
long-IsLabel = record { spelled = refl; end = refl }

slugify_cut_example : ends_with b'-' (slugify (long_head ++ (b'-' ∷ codes "notebook"))) ≡ true
slugify_cut_example = slugify_cut long_head (codes "notebook") long-IsLabel refl
