-- ===== src/Mounts/Local.antt =====
-- What `filter_mounts` makes of the mounts that the plugin serves itself.
use marimo_operator.Base.{
  ℕ, ◌+◌, ◌<◌, Text, codes, starts_with, has, decimal, value, value-decimal, All, All-append,
  length, drop, split_last, split_last-append, ◌≡◌, ◌≢◌, refl, sym, ap, ◌∙◌, Bool, true, false,
  Bool-cases, Option, none, some, List, [], ◌∷◌, ◌++◌, map, arith, if◌then◌else◌, inl, inr,
}
use mathlib.Core.List.{map-append}
use marimo_operator.Mounts.Uri.{to_line_end-line}
use marimo_operator.Mounts.{
  parse_mount_uri, Filtered, rsync_parts, rsync_mount, sshfs_mount, add_mount, filter_loop,
  filter_mounts,
}

abbrev pub IsAbsolute : Text → Type 0
IsAbsolute path = starts_with (codes "/") path ≡ true

-- The paths inside the pod are absolute.
pub record PodPathsAbsolute (r : Filtered) : Type 0 where
  pub rsync : All (λ m. IsAbsolute m.mount) r.rsync_mounts
  pub sshfs : All (λ m. IsAbsolute m.remote_path) r.sshfs_mounts

rsync_parts-IsAbsolute :
    (i : ℕ) (path : Text) (o : Option (Text × Text)) → IsAbsolute (rsync_parts i path o).1
unfolding rsync_parts
rsync_parts-IsAbsolute i path none = refl
rsync_parts-IsAbsolute i path (some (source, mount)) =
    elim (Bool-cases (starts_with (codes "/") mount)) [ inl h ↦ rw h h | inr h ↦ rw h refl ]

sshfs_mount-IsAbsolute : (i : ℕ) (path : Text) → IsAbsolute (sshfs_mount i path).remote_path
unfolding sshfs_mount
sshfs_mount-IsAbsolute i path = elim (Bool-cases (starts_with (codes "/") path)) [
  | inl h ↦ rw h h
  | inr h ↦ rw h refl
]

-- How one list grows at position `i`.
data Added (i : ℕ) (r : Filtered) : Filtered → Type 0 where
  to_cw : (uri : Text) → Added i r (record r { cw_mounts = r.cw_mounts ++ (uri ∷ []) })
  to_rsync :
      (scheme path : Text)
      → Added i r (record r { rsync_mounts = r.rsync_mounts ++ (rsync_mount i scheme path ∷ []) })
  to_sshfs :
      (path : Text)
      → Added i r (record r { sshfs_mounts = r.sshfs_mounts ++ (sshfs_mount i path ∷ []) })

Added-if :
    {i : ℕ} {r x y : Filtered} (b : Bool)
    → Added i r x
    → Added i r y
    → Added i r (if b then x else y)
Added-if true p q = p
Added-if false p q = q

add_mount-Added :
    (i : ℕ) (uri : Text) (p : Option (Text × Text)) (r : Filtered) → Added i r (add_mount i uri p r)
unfolding add_mount
add_mount-Added i uri none r = to_cw uri
add_mount-Added i uri (some (scheme, path)) r =
    Added-if _ (to_cw uri)
      (Added-if _ (to_rsync scheme path) (Added-if _ (to_sshfs path) (to_cw uri)))

Added-PodPathsAbsolute :
    {i : ℕ} {r s : Filtered} → Added i r s → PodPathsAbsolute r → PodPathsAbsolute s
Added-PodPathsAbsolute (to_cw uri) h = record { rsync = h.rsync; sshfs = h.sshfs }
Added-PodPathsAbsolute {i} {r} (to_rsync scheme path) h = record {
  rsync =
      All-append _ r.rsync_mounts _ h.rsync
        (unfold rsync_mount in (rsync_parts-IsAbsolute i path (split_last b':' path), tt));
  sshfs = h.sshfs;
}
Added-PodPathsAbsolute {i} {r} (to_sshfs path) h = record {
  rsync = h.rsync;
  sshfs = All-append _ r.sshfs_mounts _ h.sshfs (sshfs_mount-IsAbsolute i path, tt);
}

filter_loop-PodPathsAbsolute :
    (i : ℕ) (mounts : List Text) (r : Filtered)
    → PodPathsAbsolute r
    → PodPathsAbsolute (filter_loop i mounts r)
unfolding filter_loop
filter_loop-PodPathsAbsolute i [] r h = h
filter_loop-PodPathsAbsolute i (uri ∷ mounts) r h =
    filter_loop-PodPathsAbsolute (i + 1) mounts _
      (Added-PodPathsAbsolute (add_mount-Added i uri (parse_mount_uri uri) r) h)

-- Whatever the URIs say, every mount point and every remote path is an absolute path in the pod.
pub filter_mounts-PodPathsAbsolute : (mounts : List Text) → PodPathsAbsolute (filter_mounts mounts)
unfolding filter_mounts
filter_mounts-PodPathsAbsolute mounts =
    filter_loop-PodPathsAbsolute 0 mounts _ (record { rsync = tt; sshfs = tt })

-- No two of the texts are equal.
abbrev pub Distinct : List Text → Type 0
Distinct [] = Unit
Distinct (x ∷ xs) = All (λ y. x ≢ y) xs × Distinct xs

Distinct-concat :
    (xs : List Text) (y : Text) → Distinct xs → All (λ x. x ≢ y) xs → Distinct (xs ++ (y ∷ []))
Distinct-concat [] y d h = (tt, tt)
Distinct-concat (x ∷ xs) y d h =
    (All-append (λ z. x ≢ z) xs (y ∷ []) d.0 (h.0, tt), Distinct-concat xs y d.1 h.1)

mount_name : ℕ → Text
mount_name i = codes "./marimo-mount-" ++ decimal i

decimal-injective : (i j : ℕ) → decimal i ≡ decimal j → i ≡ j
decimal-injective i j e = sym (value-decimal i) ∙ ap value e ∙ value-decimal j

mount_name-injective : (i j : ℕ) → mount_name i ≡ mount_name j → i ≡ j
unfolding mount_name
mount_name-injective i j e = decimal-injective i j (ap (drop 15) e)

-- The directories are named after positions below `i`.
abbrev NamedBelow : ℕ → List Text → Type 0
NamedBelow i = All (λ name. (j : ℕ) × (j < i) × (name ≡ mount_name j))

NamedBelow-ne : (i : ℕ) (names : List Text) → NamedBelow i names → All (λ x. x ≢ mount_name i) names
NamedBelow-ne i [] h = tt
NamedBelow-ne i (name ∷ names) ((j, below, named), t) =
    (λ e. absurd (omega (arith, mount_name-injective j i (sym named ∙ e))), NamedBelow-ne i names t)

NamedBelow-suc : (i : ℕ) (names : List Text) → NamedBelow i names → NamedBelow (i + 1) names
NamedBelow-suc i [] h = tt
NamedBelow-suc i (name ∷ names) ((j, below, named), t) =
    ((j, omega arith, named), NamedBelow-suc i names t)

abbrev pub local_mounts : Filtered → List Text
local_mounts r = map (λ m. m.local_mount) r.sshfs_mounts

record NamesAt (i : ℕ) (r : Filtered) : Type 0 where
  distinct : Distinct (local_mounts r)
  below : NamedBelow i (local_mounts r)

Added-NamesAt : {i : ℕ} {r s : Filtered} → Added i r s → NamesAt i r → NamesAt (i + 1) s
Added-NamesAt {i} {r} (to_cw uri) h = record {
  distinct = h.distinct;
  below = NamedBelow-suc i _ h.below;
}
Added-NamesAt {i} {r} (to_rsync scheme path) h = record {
  distinct = h.distinct;
  below = NamedBelow-suc i _ h.below;
}
Added-NamesAt {i} {r} (to_sshfs path) h = record {
  distinct =
      rw map-append (
        Distinct-concat _ _ h.distinct
          (unfold sshfs_mount mount_name in NamedBelow-ne i _ h.below));
  below = rw map-append (
      All-append _ _ _ (NamedBelow-suc i _ h.below)
        ((i, omega arith, unfold sshfs_mount mount_name in refl), tt));
}

filter_loop-NamesAt :
    (i : ℕ) (mounts : List Text) (r : Filtered)
    → NamesAt i r
    → Distinct (local_mounts (filter_loop i mounts r))
unfolding filter_loop
filter_loop-NamesAt i [] r h = h.distinct
filter_loop-NamesAt i (uri ∷ mounts) r h =
    filter_loop-NamesAt (i + 1) mounts _
      (Added-NamesAt (add_mount-Added i uri (parse_mount_uri uri) r) h)

-- The directories on which the pod's files are mounted locally are pairwise different.
pub filter_mounts-Distinct : (mounts : List Text) → Distinct (local_mounts (filter_mounts mounts))
unfolding filter_mounts
filter_mounts-Distinct mounts =
    filter_loop-NamesAt 0 mounts _ (record { distinct = tt; below = tt })

filter_loop-append :
    (ms us : List Text) (i : ℕ) (r : Filtered)
    → filter_loop i (ms ++ us) r ≡ filter_loop (i + length ms) us (filter_loop i ms r)
unfolding filter_loop
filter_loop-append [] us i r = ap (λ (k : ℕ). filter_loop k us r) (omega arith)
filter_loop-append (uri ∷ ms) us i r =
    filter_loop-append ms us (i + 1) _
    ∙ ap (λ (k : ℕ). filter_loop k us (filter_loop i (uri ∷ ms) r)) (omega arith)

add_mount_rsync_to :
    (i : ℕ) (uri : Text) (r : Filtered) (source mount : Text)
    → has b':' mount ≡ false
    → IsAbsolute mount
    → add_mount i uri (some (codes "rsync", source ++ (b':' ∷ mount))) r ≡ record r {
      rsync_mounts =
          r.rsync_mounts
          ++ (record { source = source; mount = mount; scheme = codes "rsync" } ∷ []);
    }
unfolding add_mount rsync_mount rsync_parts
add_mount_rsync_to i uri r source mount colon absolute =
    rw (split_last-append b':' source mount colon) (rw absolute)

-- `rsync://source:mount` with an absolute mount point that holds no colon and no newline, behind
-- any other mounts: the last copy is from `source` to `mount`, and the other lists are unchanged.
pub filter_mounts_rsync_to :
    (mounts : List Text) (source mount : Text)
    → has b'\n' (source ++ (b':' ∷ mount)) ≡ false
    → has b':' mount ≡ false
    → IsAbsolute mount
    → let r = filter_mounts mounts in
      filter_mounts (mounts ++ ((codes "rsync://" ++ (source ++ (b':' ∷ mount))) ∷ [])) ≡ record r {
        rsync_mounts =
            r.rsync_mounts
            ++ (record { source = source; mount = mount; scheme = codes "rsync" } ∷ []);
      }
unfolding filter_mounts
filter_mounts_rsync_to mounts source mount line colon absolute =
    filter_loop-append mounts _ 0 _
    ∙ rw (to_line_end-line _ line) (
        add_mount_rsync_to _ (codes "rsync://" ++ (source ++ (b':' ∷ mount))) _ source mount colon
          absolute)
