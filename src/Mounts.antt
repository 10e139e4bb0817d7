-- ===== src/Mounts.antt =====
-- Mount URIs: `parse_mount_uri` and `filter_mounts` of plugin/kubectl_marimo/resources.py.
pub mod Uri
pub mod Routes
pub mod Local
use marimo_operator.Base.{
  ℕ, ◌+◌, Text, codes, same, starts_with, is_word, split_last, decimal, drop, prepend, Bool, true,
  false, Option, none, some, List, [], ◌∷◌, ◌++◌, ◌==◌, if◌then◌else◌,
}

-- The `(.*)$` of a pattern: the text up to its end, or up to a newline that ends it.
unfoldable pub to_line_end : Text → Option Text
unfolding prepend
to_line_end [] = some []
to_line_end (c ∷ []) = if c == b'\n' then some [] else some (c ∷ [])
to_line_end (c ∷ d ∷ s) =
    let rest = to_line_end (d ∷ s) in if c == b'\n' then none else prepend c rest

-- The `(\w+)` of a pattern, with what follows it.
unfoldable pub word_span : Text → Text × Text
unfolding is_word
word_span [] = ([], [])
word_span (c ∷ s) = let r = word_span s in if is_word c then (c ∷ r.0, r.1) else ([], c ∷ s)

-- The scheme stands in front of the path.
unfoldable pub with_scheme : Text → Option Text → Option (Text × Text)
with_scheme scheme none = none
with_scheme scheme (some path) = some (scheme, path)

unfoldable pub parse_after_scheme : Text → Text → Option (Text × Text)
unfolding to_line_end starts_with with_scheme
parse_after_scheme [] rest = none
parse_after_scheme (c ∷ s) rest =
    if starts_with (codes "://") rest then with_scheme (c ∷ s) (to_line_end (drop 3 rest)) else none

-- `none` is the `ValueError`.
unfoldable pub parse_mount_uri : Text → Option (Text × Text)
unfolding word_span parse_after_scheme
parse_mount_uri uri = parse_after_scheme (word_span uri).0 (word_span uri).1

-- (source_path, mount_point, scheme)
pub record RsyncMount : Type 0 where
  pub source : Text
  pub mount : Text
  pub scheme : Text

-- (remote_path, local_mount)
pub record SshfsMount : Type 0 where
  pub remote_path : Text
  pub local_mount : Text

pub record Filtered : Type 0 where
  pub cw_mounts : List Text
  pub rsync_mounts : List RsyncMount
  pub sshfs_mounts : List SshfsMount

abbrev pub local_dir : ℕ → Text
local_dir i = codes "/home/marimo/notebooks/mounts/local-" ++ decimal i

unfoldable pub rsync_parts : ℕ → Text → Option (Text × Text) → Text × Text
unfolding starts_with
rsync_parts i path none = (path, local_dir i)
rsync_parts i path (some (source, mount)) =
    if starts_with (codes "/") mount then (source, mount) else (path, local_dir i)

unfoldable pub rsync_mount : ℕ → Text → Text → RsyncMount
unfolding rsync_parts split_last
rsync_mount i scheme path =
    let parts = rsync_parts i path (split_last b':' path) in
    record { source = parts.0; mount = parts.1; scheme = scheme }

unfoldable pub sshfs_mount : ℕ → Text → SshfsMount
unfolding starts_with
sshfs_mount i path = record {
  remote_path = if starts_with (codes "/") path then path else b'/' ∷ path;
  local_mount = codes "./marimo-mount-" ++ decimal i;
}

-- The body of the loop, at position `i`.
unfoldable pub add_mount : ℕ → Text → Option (Text × Text) → Filtered → Filtered
unfolding rsync_mount sshfs_mount same
add_mount i uri none r = record r { cw_mounts = r.cw_mounts ++ (uri ∷ []) }
add_mount i uri (some (scheme, path)) r =
    if same scheme (codes "cw")
    then record r { cw_mounts = r.cw_mounts ++ (uri ∷ []) }
    else if same scheme (codes "rsync")
    then record r { rsync_mounts = r.rsync_mounts ++ (rsync_mount i scheme path ∷ []) }
    else if same scheme (codes "sshfs")
    then record r { sshfs_mounts = r.sshfs_mounts ++ (sshfs_mount i path ∷ []) }
    else record r { cw_mounts = r.cw_mounts ++ (uri ∷ []) }

unfoldable pub filter_loop : ℕ → List Text → Filtered → Filtered
unfolding add_mount parse_mount_uri
filter_loop i [] r = r
filter_loop i (uri ∷ mounts) r =
    filter_loop (i + 1) mounts (add_mount i uri (parse_mount_uri uri) r)

unfoldable pub filter_mounts : List Text → Filtered
unfolding filter_loop
filter_mounts mounts =
    filter_loop 0 mounts (record { cw_mounts = []; rsync_mounts = []; sshfs_mounts = [] })
