-- ===== src/Notebook/Secrets.antt =====
-- When the secrets for the mounts are needed: `has_cw_mounts` and `has_sshfs_sidecars`.
use marimo_operator.Base.{
  Text, codes, same, same_refl, starts_with, ◌≡◌, refl, ap, ◌∙◌, Bool, true, false, not, ◌||◌,
  Option, none, some, List, [], ◌∷◌, ◌++◌, map, arith, Bool-cases, inl, inr,
}
use marimo_operator.Mounts.{SshfsMount, filter_mounts}
use marimo_operator.Mounts.Routes.{remote_uris, filter_mounts_cw}
use marimo_operator.Result.{Result, ok}
use marimo_operator.Value.{Value, Fields, str, list, items, to_list, get}
use marimo_operator.Value.Laws.{get-put}
use marimo_operator.Notebook.{
  base_spec, source_mounts, frontmatter_mounts, mounts_setting, build_ssh_sidecar, sidecars_from,
  sidecars_setting, Notebook, fields_of, dict_of, list_of, text_of, any, resource_spec,
  has_cw_mounts, sidecar_name, has_sshfs_sidecars,
}
use marimo_operator.Notebook.Spec.{get-settings}
use marimo_operator.Mounts.Routes.{is_local}
use marimo_operator.Notebook.Built.{
  built, finish, built-ok, spec-finish, get-mounts_setting, mounts_setting-cons,
  get-sidecars_setting, sidecars_setting-cons, IsKept-mounts, IsKept-sidecars,
}

to_list-items : (vs : List Value) → to_list (items vs) ≡ vs
to_list-items [] = refl
to_list-items (v ∷ vs) = ap (◌∷◌ v) (to_list-items vs)

list_of-list : (vs : List Value) → list_of (some (list (items vs))) ≡ vs
unfolding list_of
list_of-list vs = to_list-items vs

sidecars_of :
    (ssh_image : Text) (ms : List SshfsMount) (spec : Fields)
    → get (codes "sidecars") spec ≡ none
    → list_of (get (codes "sidecars") (sidecars_setting ssh_image ms spec))
      ≡ sidecars_from ssh_image 0 ms
sidecars_of ssh_image [] spec h =
    unfold sidecars_setting sidecars_from in ap list_of h ∙ (unfold list_of in refl)
sidecars_of ssh_image (m ∷ ms) spec h =
    ap (λ d. list_of (get (codes "sidecars") d)) (sidecars_setting-cons ssh_image m ms spec)
    ∙ ap list_of (get-put (codes "sidecars") (codes "sidecars") _ spec ∙ rw same_refl refl)
    ∙ list_of-list (sidecars_from ssh_image 0 (m ∷ ms))

mounts_of :
    (ms : List Text) (spec : Fields)
    → get (codes "mounts") spec ≡ none
    → list_of (get (codes "mounts") (mounts_setting ms spec)) ≡ map str ms
mounts_of [] spec h = unfold mounts_setting in ap list_of h ∙ (unfold list_of in refl)
mounts_of (m ∷ ms) spec h =
    ap (λ d. list_of (get (codes "mounts") d)) (mounts_setting-cons m ms spec)
    ∙ ap list_of (get-put (codes "mounts") (codes "mounts") _ spec ∙ rw same_refl refl)
    ∙ list_of-list (map str (m ∷ ms))

abbrev pub is_cw : Text → Bool
is_cw = starts_with (codes "cw://")

abbrev pub any_text : (Text → Bool) → List Text → Bool
any_text test [] = false
any_text test (s ∷ ss) = test s || any_text test ss

abbrev pub is_empty_list {ℓ} : {A : Type ℓ} → List A → Bool
is_empty_list [] = true
is_empty_list (x ∷ xs) = false

cw_not_local : (u : Text) → is_cw u ≡ true → is_local u ≡ false
unfolding starts_with
cw_not_local [] h = ground arith
cw_not_local (c ∷ u) h = ground arith

any_text-remote_uris : (us : List Text) → any_text is_cw (remote_uris us) ≡ any_text is_cw us
unfolding remote_uris
any_text-remote_uris [] = refl
any_text-remote_uris (u ∷ us) = elim (Bool-cases (is_cw u)) [
  | inl cw ↦ rw (cw_not_local u cw, cw) refl
  | inr other ↦ elim (Bool-cases (is_local u)) [
    | inl here ↦ rw (here, other) (any_text-remote_uris us)
    | inr away ↦ rw (away, other) (any_text-remote_uris us)
  ]
]

any-map_str :
    (test : Text → Bool) (ss : List Text)
    → any (λ m. test (text_of (some m))) (map str ss) ≡ any_text test ss
unfolding text_of
any-map_str test [] = refl
any-map_str test (s ∷ ss) = ap (λ b. test s || b) (any-map_str test ss)

any-sidecars_from :
    (ssh_image : Text) (ms : List SshfsMount)
    → any (λ s. starts_with (codes "sshfs-") (sidecar_name s)) (sidecars_from ssh_image 0 ms)
      ≡ not (is_empty_list ms)
any-sidecars_from ssh_image [] = unfold sidecars_from in refl
any-sidecars_from ssh_image (m ∷ ms) =
    unfold sidecars_from build_ssh_sidecar get dict_of text_of starts_with in refl

has_sshfs_sidecars_lem :
    (resource : Fields)
    → has_sshfs_sidecars resource
      ≡ any
          (λ s. starts_with (codes "sshfs-") (sidecar_name s))
          (list_of (get (codes "sidecars") (resource_spec resource)))
unfolding has_sshfs_sidecars
has_sshfs_sidecars_lem resource = refl

has_cw_mounts_lem :
    (resource : Fields)
    → has_cw_mounts resource
      ≡ any
          (λ m. is_cw (text_of (some m)))
          (list_of (get (codes "mounts") (resource_spec resource)))
unfolding has_cw_mounts
has_cw_mounts_lem resource = refl

module _ (ssh_image name : Text) (namespace content : Option Text) (frontmatter : Option Fields)
    (mode : Text) (source : Option Text) where
  abbrev run : Result Notebook
  run = built ssh_image name namespace content frontmatter mode source

  abbrev done : Fields → List Text → Notebook
  done = finish ssh_image name namespace content frontmatter mode source

  sidecars-done :
      (spec : Fields) (listed : List Text)
      → get (codes "sidecars") spec ≡ none
      → has_sshfs_sidecars (done spec listed).resource
        ≡ not (is_empty_list (done spec listed).sshfs_mounts)
  sidecars-done spec listed h =
      let r = filter_mounts (source_mounts source ++ listed) in
      has_sshfs_sidecars_lem (done spec listed).resource
      ∙ ap
          (λ d.
            any (λ s. starts_with (codes "sshfs-") (sidecar_name s))
              (list_of (get (codes "sidecars") d)))
          (spec-finish ssh_image name namespace content frontmatter mode source spec listed)
      ∙ ap (any (λ s. starts_with (codes "sshfs-") (sidecar_name s))) (
          sidecars_of ssh_image r.sshfs_mounts (mounts_setting r.cw_mounts spec)
            (get-mounts_setting (codes "sidecars") r.cw_mounts spec (unfold same in refl) ∙ h))
      ∙ any-sidecars_from ssh_image r.sshfs_mounts

  mounts-done :
      (spec : Fields) (listed : List Text)
      → get (codes "mounts") spec ≡ none
      → has_cw_mounts (done spec listed).resource ≡ any_text is_cw (source_mounts source ++ listed)
  mounts-done spec listed h =
      let all = source_mounts source ++ listed in
      let r = filter_mounts all in
      has_cw_mounts_lem (done spec listed).resource
      ∙ ap (λ d. any (λ m. is_cw (text_of (some m))) (list_of (get (codes "mounts") d)))
          (spec-finish ssh_image name namespace content frontmatter mode source spec listed)
      ∙ ap (λ o. any (λ m. is_cw (text_of (some m))) (list_of o))
          (get-sidecars_setting ssh_image (codes "mounts") r.sshfs_mounts
            (mounts_setting r.cw_mounts spec) (unfold same in refl))
      ∙ ap (any (λ m. is_cw (text_of (some m)))) (mounts_of r.cw_mounts spec h)
      ∙ any-map_str is_cw r.cw_mounts
      ∙ ap (any_text is_cw) (filter_mounts_cw all)
      ∙ any_text-remote_uris all

  -- The key secret is wanted exactly when the plugin has a directory of the pod to mount.
  pub has_sshfs_sidecars-built :
      {nb : Notebook}
      → run ≡ ok nb
      → has_sshfs_sidecars nb.resource ≡ not (is_empty_list nb.sshfs_mounts)
  has_sshfs_sidecars-built {nb} h =
      let (spec, listed, p, q, e) =
        built-ok ssh_image name namespace content frontmatter mode source h in
      rw e (
        sidecars-done spec listed (
          get-settings (codes "sidecars") IsKept-sidecars (fields_of frontmatter) _ p
          ∙ (unfold base_spec get in refl)))

  -- The storage credentials are wanted exactly when one of the mounts, from the option or from the
  -- frontmatter, begins with `cw://`.
  pub has_cw_mounts-built :
      {nb : Notebook} {listed : List Text}
      → run ≡ ok nb
      → frontmatter_mounts (get (codes "mounts") (fields_of frontmatter)) ≡ ok listed
      → has_cw_mounts nb.resource ≡ any_text is_cw (source_mounts source ++ listed)
  has_cw_mounts-built {nb} {listed} h l =
      let (spec, listed', p, q, e) =
        built-ok ssh_image name namespace content frontmatter mode source h in
      rw e (
        mounts-done spec listed' (
          get-settings (codes "mounts") IsKept-mounts (fields_of frontmatter) _ p
          ∙ (unfold base_spec get in refl))
        ∙ ap (λ l'. any_text is_cw (source_mounts source ++ l')) (cc))
