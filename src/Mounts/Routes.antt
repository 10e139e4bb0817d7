-- ===== src/Mounts/Routes.antt =====
-- Where `filter_mounts` sends each URI.
use marimo_operator.Base.{prepend}
use marimo_operator.Base.{
  ℕ, ◌+◌, Text, codes, same, same_iff, starts_with, starts_with→append, starts_with-append, length,
  length-append, ◌≡◌, refl, ◌∙◌, Bool, true, false, ◌&&◌, ◌||◌, Bool-cases, Option, none, some,
  List, [], ◌∷◌, ◌++◌, arith, ◌==◌, if◌then◌else◌, inl, inr,
}
use mathlib.Core.List.{append-nil, append_assoc}
use marimo_operator.Mounts.Uri.{parse_mount_uri_iff}
use marimo_operator.Mounts.{
  to_line_end, with_scheme, parse_mount_uri, Filtered, rsync_mount, sshfs_mount, add_mount,
  filter_loop, filter_mounts,
}

-- The number of mounts in the three lists.
abbrev pub total : Filtered → ℕ
total r = length r.cw_mounts + length r.rsync_mounts + length r.sshfs_mounts

total-add_mount :
    (i : ℕ) (uri : Text) (p : Option (Text × Text)) (r : Filtered)
    → total (add_mount i uri p r) ≡ total r + 1
unfolding add_mount
total-add_mount i uri none r = omega (arith, length-append r.cw_mounts (uri ∷ []))
total-add_mount i uri (some (scheme, path)) r = ground (
  arith,
  length-append r.cw_mounts (uri ∷ []),
  length-append r.rsync_mounts (rsync_mount i scheme path ∷ []),
  length-append r.sshfs_mounts (sshfs_mount i path ∷ []),
)

total-filter_loop :
    (i : ℕ) (mounts : List Text) (r : Filtered)
    → total (filter_loop i mounts r) ≡ total r + length mounts
unfolding filter_loop
total-filter_loop i [] r = omega arith
total-filter_loop i (uri ∷ mounts) r = omega (
  arith,
  total-filter_loop (i + 1) mounts (add_mount i uri (parse_mount_uri uri) r),
  total-add_mount i uri (parse_mount_uri uri) r,
)

-- Every URI lands in exactly one of the three lists.
pub total-filter_mounts : (mounts : List Text) → total (filter_mounts mounts) ≡ length mounts
unfolding filter_mounts
total-filter_mounts mounts = omega (arith, total-filter_loop 0 mounts _)

-- A mount that the plugin serves itself: the text begins with one of the two schemes and has no
-- newline but perhaps one at its end.
abbrev pub one_line : Text → Bool
one_line s = elim (to_line_end s) [ none ↦ false | some _ ↦ true ]

abbrev pub is_local : Text → Bool
is_local uri =
    (starts_with (codes "rsync://") uri || starts_with (codes "sshfs://") uri) && one_line uri

-- The URIs that are not local, in order.
unfoldable pub remote_uris : List Text → List Text
remote_uris [] = []
remote_uris (uri ∷ mounts) =
    let rest = remote_uris mounts in if is_local uri then rest else uri ∷ rest

one_line-cons : (c : ℕ) (s : Text) → c == b'\n' ≡ false → one_line (c ∷ s) ≡ one_line s
unfolding to_line_end prepend
one_line-cons c [] h = ground arith
one_line-cons c (d ∷ s) h = ground arith

-- What the scheme says of a mount.
abbrev scheme_is_local : Option (Text × Text) → Bool
scheme_is_local none = false
scheme_is_local (some (scheme, path)) = same scheme (codes "rsync") || same scheme (codes "sshfs")

one_line-rsync : (s : Text) → one_line (codes "rsync://" ++ s) ≡ one_line s
one_line-rsync s = simp (one_line-cons)

one_line-sshfs : (s : Text) → one_line (codes "sshfs://" ++ s) ≡ one_line s
one_line-sshfs s = simp (one_line-cons)

parse_mount_uri-rsync :
    (s : Text)
    → parse_mount_uri (codes "rsync://" ++ s) ≡ with_scheme (codes "rsync") (to_line_end s)
unfolding parse_mount_uri
parse_mount_uri-rsync s = refl

parse_mount_uri-sshfs :
    (s : Text)
    → parse_mount_uri (codes "sshfs://" ++ s) ≡ with_scheme (codes "sshfs") (to_line_end s)
unfolding parse_mount_uri
parse_mount_uri-sshfs s = refl

starts_with-scheme :
    (u scheme path : Text)
    → parse_mount_uri u ≡ some (scheme, path)
    → starts_with (scheme ++ codes "://") u ≡ true
starts_with-scheme u scheme path h = elim ((parse_mount_uri_iff u scheme path).0 h).spelled [
  | inl e ↦
      rw (e, ← append_assoc scheme (codes "://") path)
        (starts_with-append (scheme ++ codes "://") _)
  | inr e ↦
      rw (e, ← append_assoc scheme (codes "://") (path ++ codes "\n"))
        (starts_with-append (scheme ++ codes "://") _)
]

is_local-rsync : (s : Text) → is_local (codes "rsync://" ++ s) ≡ one_line s
unfolding starts_with
is_local-rsync s = rw one_line-rsync

is_local-sshfs : (s : Text) → is_local (codes "sshfs://" ++ s) ≡ one_line s
unfolding starts_with
is_local-sshfs s = rw one_line-sshfs

scheme_is_local-with_scheme_rsync :
    (o : Option Text)
    → scheme_is_local (with_scheme (codes "rsync") o) ≡ elim o [ none ↦ false | some _ ↦ true ]
unfolding with_scheme same
scheme_is_local-with_scheme_rsync none = refl
scheme_is_local-with_scheme_rsync (some p) = refl

scheme_is_local-with_scheme_sshfs :
    (o : Option Text)
    → scheme_is_local (with_scheme (codes "sshfs") o) ≡ elim o [ none ↦ false | some _ ↦ true ]
unfolding with_scheme same
scheme_is_local-with_scheme_sshfs none = refl
scheme_is_local-with_scheme_sshfs (some p) = refl

same-eq-false :
    (u scheme path t : Text)
    → parse_mount_uri u ≡ some (scheme, path)
    → starts_with (t ++ codes "://") u ≡ false
    → same scheme t ≡ false
same-eq-false u scheme path t e h = elim (Bool-cases (same scheme t)) [
  | inl eq ↦ cc (rw ((same_iff scheme t).0 eq) at (starts_with-scheme u scheme path e))
  | inr ne ↦ ne
]

scheme_is_local-eq-false :
    (u : Text) (o : Option (Text × Text))
    → parse_mount_uri u ≡ o
    → starts_with (codes "rsync://") u ≡ false
    → starts_with (codes "sshfs://") u ≡ false
    → scheme_is_local o ≡ false
scheme_is_local-eq-false u none e r s = refl
scheme_is_local-eq-false u (some (scheme, path)) e r s = ground (
  arith,
  same-eq-false u scheme path (codes "rsync") e r,
  same-eq-false u scheme path (codes "sshfs") e s,
)

is_local-scheme : (u : Text) → is_local u ≡ scheme_is_local (parse_mount_uri u)
is_local-scheme u = elim (Bool-cases (starts_with (codes "rsync://") u)) [
  | inl r ↦
      rw (starts_with→append (codes "rsync://") u r)
        (rw (parse_mount_uri-rsync, scheme_is_local-with_scheme_rsync) (is_local-rsync _))
  | inr r ↦ elim (Bool-cases (starts_with (codes "sshfs://") u)) [
    | inl s ↦
        rw (starts_with→append (codes "sshfs://") u s)
          (rw (parse_mount_uri-sshfs, scheme_is_local-with_scheme_sshfs) (is_local-sshfs _))
    | inr s ↦ rw (scheme_is_local-eq-false u _ refl r s) (ground arith)
  ]
]

add_mount_cw :
    (i : ℕ) (uri : Text) (p : Option (Text × Text)) (r : Filtered)
    → (add_mount i uri p r).cw_mounts
      ≡ (if scheme_is_local p then r.cw_mounts else r.cw_mounts ++ (uri ∷ []))
unfolding add_mount
add_mount_cw i uri none r = refl
add_mount_cw i uri (some (scheme, path)) r = ground (
  arith,
  same_iff scheme (codes "cw"),
  same_iff scheme (codes "rsync"),
  same_iff scheme (codes "sshfs"),
)

filter_loop_cw :
    (i : ℕ) (mounts : List Text) (r : Filtered)
    → (filter_loop i mounts r).cw_mounts ≡ r.cw_mounts ++ remote_uris mounts
unfolding filter_loop remote_uris
filter_loop_cw i [] r = rw append-nil
filter_loop_cw i (uri ∷ mounts) r =
    filter_loop_cw (i + 1) mounts _
    ∙ rw (add_mount_cw i uri (parse_mount_uri uri) r, ← is_local-scheme uri)
        (elim (Bool-cases (is_local uri)) [
          | inl yes' ↦ rw yes'
          | inr other ↦ rw other (append_assoc r.cw_mounts (uri ∷ []) _)
        ])

-- The operator is handed the URIs that are not local, whole and in order: those that begin with
-- `rsync://` or `sshfs://` stay with the plugin, unless they hold a newline before their end, and
-- every other text is passed through, whether it is a URI or not.
pub filter_mounts_cw : (mounts : List Text) → (filter_mounts mounts).cw_mounts ≡ remote_uris mounts
unfolding filter_mounts
filter_mounts_cw mounts = filter_loop_cw 0 mounts _
