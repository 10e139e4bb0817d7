-- ===== src/Notebook/Built.antt =====
-- The resource as a whole, and the mounts that go with it.
use marimo_operator.Base.{
  Text, codes, same, ◌≡◌, refl, ap, ◌∙◌, sym, false, Option, some, List, [], ◌∷◌, ◌++◌, map,
}
use marimo_operator.Env.{get_or}
use marimo_operator.Mounts.{SshfsMount, filter_mounts}
use marimo_operator.Result.{Result, ok, >>=-eq-ok, ◌>>=◌}
use marimo_operator.Value.{Value, Fields, str, list, items, get, put}
use marimo_operator.Value.Laws.{get-put}
use marimo_operator.Notebook.{
  settings, storage_value, text_or_empty, base_spec, source_mounts, frontmatter_mounts,
  mounts_setting, sidecars_from, sidecars_setting, metadata_value, Notebook, fields_of, resource_of,
  build_marimo_notebook, dict_of, resource_spec,
}
use marimo_operator.Notebook.Spec.{IsKept, get-settings}

pub mounts_setting-cons :
    (m : Text) (ms : List Text) (spec : Fields)
    → mounts_setting (m ∷ ms) spec ≡ put (codes "mounts") (list (items (map str (m ∷ ms)))) spec
unfolding mounts_setting
mounts_setting-cons m ms spec = refl

pub get-mounts_setting :
    (j : Text) (ms : List Text) (spec : Fields)
    → same (codes "mounts") j ≡ false
    → get j (mounts_setting ms spec) ≡ get j spec
get-mounts_setting j [] spec h = unfold mounts_setting in refl
get-mounts_setting j (m ∷ ms) spec h =
    ap (get j) (mounts_setting-cons m ms spec) ∙ get-put j (codes "mounts") _ spec ∙ rw h refl

module _ (ssh_image : Text) where
  pub sidecars_setting-cons :
      (m : SshfsMount) (ms : List SshfsMount) (spec : Fields)
      → sidecars_setting ssh_image (m ∷ ms) spec
        ≡ put (codes "sidecars") (list (items (sidecars_from ssh_image 0 (m ∷ ms)))) spec
  unfolding sidecars_setting
  sidecars_setting-cons m ms spec = refl

  pub get-sidecars_setting :
      (j : Text) (ms : List SshfsMount) (spec : Fields)
      → same (codes "sidecars") j ≡ false
      → get j (sidecars_setting ssh_image ms spec) ≡ get j spec
  get-sidecars_setting j [] spec h = unfold sidecars_setting in refl
  get-sidecars_setting j (m ∷ ms) spec h =
      ap (get j) (sidecars_setting-cons m ms spec) ∙ get-put j (codes "sidecars") _ spec ∙ rw h refl

resource_spec-resource_of : (m : Value) (spec : Fields) → resource_spec (resource_of m spec) ≡ spec
unfolding get dict_of
resource_spec-resource_of m spec = refl

IsKept-mode : IsKept (codes "mode")
unfolding same
IsKept-mode = record { image = refl; port = refl; auth = refl; env = refl; resources = refl }

IsKept-content : IsKept (codes "content")
unfolding same
IsKept-content = record { image = refl; port = refl; auth = refl; env = refl; resources = refl }

IsKept-storage : IsKept (codes "storage")
unfolding same
IsKept-storage = record { image = refl; port = refl; auth = refl; env = refl; resources = refl }

pub IsKept-mounts : IsKept (codes "mounts")
unfolding same
IsKept-mounts = record { image = refl; port = refl; auth = refl; env = refl; resources = refl }

pub IsKept-sidecars : IsKept (codes "sidecars")
unfolding same
IsKept-sidecars = record { image = refl; port = refl; auth = refl; env = refl; resources = refl }

-- The fields that a notebook always has.
pub record HasBasics (spec : Fields) (mode : Text) (content : Option Text) (size : Value)
    : Type 0 where
  pub mode_is : get (codes "mode") spec ≡ some (str mode)
  pub content_is : get (codes "content") spec ≡ some (str (text_or_empty content))
  pub storage_is : get (codes "storage") spec ≡ some (storage_value size)

module _ (ssh_image name : Text) (namespace content : Option Text) (frontmatter : Option Fields)
    (mode : Text) (source : Option Text) where
  abbrev pub built : Result Notebook
  built = build_marimo_notebook ssh_image name namespace content frontmatter mode source

  abbrev pub size : Value
  size = get_or (str (codes "1Gi")) (get (codes "storage") (fields_of frontmatter))

  abbrev pub finish : Fields → List Text → Notebook
  finish spec listed =
      let r = filter_mounts (source_mounts source ++ listed) in
      let full = sidecars_setting ssh_image r.sshfs_mounts (mounts_setting r.cw_mounts spec) in
      record {
        resource = resource_of (metadata_value name namespace) full;
        rsync_mounts = r.rsync_mounts;
        sshfs_mounts = r.sshfs_mounts;
      }

  -- What a build that succeeds has gone through.
  pub built-ok :
      {nb : Notebook}
      → built ≡ ok nb
      → (spec : Fields) × (listed : List Text) × (settings
            (fields_of frontmatter)
            (base_spec mode content size)
          ≡ ok spec)
        × (frontmatter_mounts (get (codes "mounts") (fields_of frontmatter)) ≡ ok listed)
        × (nb ≡ finish spec listed)
  built-ok h =
      let (spec, p, rest) =
        >>=-eq-ok (settings (fields_of frontmatter) (base_spec mode content size))
          (λ spec. frontmatter_mounts (get (codes "mounts") (fields_of frontmatter)) >>= λ listed.
            ok (finish spec listed))
          (sym built_lem ∙ h) in
      let (listed, q, e) =
        >>=-eq-ok (frontmatter_mounts (get (codes "mounts") (fields_of frontmatter)))
          (λ listed. ok (finish spec listed)) rest in
      (spec, listed, p, q, cc)
    where
      built_lem : built ≡ (
          settings (fields_of frontmatter) (base_spec mode content size) >>= λ spec.
          (frontmatter_mounts (get (codes "mounts") (fields_of frontmatter)) >>= λ listed.
          ok (finish spec listed)))
      built_lem = unfold build_marimo_notebook in refl

  pub spec-finish :
      (spec : Fields) (listed : List Text)
      → let r = filter_mounts (source_mounts source ++ listed) in
        resource_spec (finish spec listed).resource
        ≡ sidecars_setting ssh_image r.sshfs_mounts (mounts_setting r.cw_mounts spec)
  spec-finish spec listed = resource_spec-resource_of (metadata_value name namespace) _

  get-finish :
      (j : Text) (spec : Fields) (listed : List Text)
      → same (codes "mounts") j ≡ false
      → same (codes "sidecars") j ≡ false
      → get j (resource_spec (finish spec listed).resource) ≡ get j spec
  get-finish j spec listed m s =
      let r = filter_mounts (source_mounts source ++ listed) in
      ap (get j) (spec-finish spec listed)
      ∙ get-sidecars_setting ssh_image j r.sshfs_mounts (mounts_setting r.cw_mounts spec) s
      ∙ get-mounts_setting j r.cw_mounts spec m

  -- A resource that is built has the mode, the content (empty for a directory), and a volume of the
  -- size that the frontmatter states, or of 1Gi: nothing in the frontmatter can remove them.
  pub built-HasBasics :
      {nb : Notebook} → built ≡ ok nb → HasBasics (resource_spec nb.resource) mode content size
  built-HasBasics {nb} h =
      let (spec, listed, p, q, e) = built-ok h in
      record {
        mode_is =
            at (codes "mode") spec listed e IsKept-mode p (unfold same in refl)
              (unfold same in refl) (unfold base_spec get in refl);
        content_is =
            at (codes "content") spec listed e IsKept-content p (unfold same in refl)
              (unfold same in refl) (unfold base_spec get in refl);
        storage_is =
            at (codes "storage") spec listed e IsKept-storage p (unfold same in refl)
              (unfold same in refl) (unfold base_spec get in refl);
      }
    where
      at :
          (j : Text) {v : Option Value} (spec : Fields) (listed : List Text)
          → nb ≡ finish spec listed
          → IsKept j
          → settings (fields_of frontmatter) (base_spec mode content size) ≡ ok spec
          → same (codes "mounts") j ≡ false
          → same (codes "sidecars") j ≡ false
          → get j (base_spec mode content size) ≡ v
          → get j (resource_spec nb.resource) ≡ v
      at j spec listed e k p m s b =
          ap (λ (n : Notebook). get j (resource_spec n.resource)) e
          ∙ get-finish j spec listed m s
          ∙ get-settings j k (fields_of frontmatter) (base_spec mode content size) p
          ∙ b
