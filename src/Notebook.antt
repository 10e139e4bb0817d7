-- ===== src/Notebook.antt =====
-- `build_marimo_notebook` and `build_ssh_sidecar` of plugin/kubectl_marimo/resources.py, and the
-- tests `has_cw_mounts` and `has_sshfs_sidecars` of plugin/kubectl_marimo/deploy.py.
pub mod Spec
pub mod Built
pub mod Secrets
use marimo_operator.Base.{
  ℕ, zero, suc, ◌+◌, Text, codes, same, starts_with, decimal, Bool, true, false, ◌||◌, Option, none,
  some, List, [], ◌∷◌, ◌++◌, map, if◌then◌else◌,
}
use marimo_operator.Env.{parse_env, get_or}
use marimo_operator.Mounts.{Filtered, RsyncMount, SshfsMount, filter_mounts}
use marimo_operator.Result.{Result, ok, raise, value_error, type_error, attribute_error, ◌>>=◌}
use marimo_operator.Value.{
  Value, Items, Fields, empty, field, nil, cons, ℤ, pos, null, bool, str, int, list, dict, items,
  to_list, get, put, int_of, scalar,
}

abbrev pub pair : Text → Text → Value
pair name value = dict (field (codes "name") (str name) (field (codes "value") (str value) empty))

-- `int(v)`: a text that is no number is a `ValueError`, anything else a `TypeError`.
unfoldable pub int_error : Value → Result ℤ
int_error (str s) = raise value_error
int_error _ = raise type_error

unfoldable pub to_int : Value → Option ℤ → Result ℤ
unfolding int_error
to_int v none = int_error v
to_int v (some n) = ok n

-- The elements of a list of mounts. A text is iterated by characters, a dict by keys.
unfoldable pub texts_of : Items → Result (List Text)
texts_of nil = ok []
texts_of (cons (str s) vs) = texts_of vs >>= λ ss. ok (s ∷ ss)
texts_of (cons _ vs) = raise type_error

abbrev pub keys : Fields → List Text
keys empty = []
keys (field k v d) = k ∷ keys d

unfoldable pub iterate : Value → Result (List Text)
unfolding texts_of
iterate (list vs) = texts_of vs
iterate (str s) = ok (map (λ c. c ∷ []) s)
iterate (dict d) = ok (keys d)
iterate _ = raise type_error

-- frontmatter["env"].items()
unfoldable pub env_of : Value → Result (List Value)
unfolding parse_env
env_of (dict d) = ok (parse_env d)
env_of _ = raise attribute_error

unfoldable pub image_setting : Option Value → Fields → Fields
unfolding put
image_setting none spec = spec
image_setting (some v) spec = put (codes "image") v spec

unfoldable pub port_setting : Option Value → Fields → Result Fields
unfolding put to_int int_of
port_setting none spec = ok spec
port_setting (some v) spec = to_int v (int_of v) >>= λ n. ok (put (codes "port") (int n) spec)

-- An empty block switches the token off.
unfoldable pub auth_setting : Option Value → Fields → Fields
unfolding put same
auth_setting (some (str s)) spec =
    if same s (codes "none") then put (codes "auth") (dict empty) spec else spec
auth_setting _ spec = spec

unfoldable pub env_setting : Option Value → Fields → Result Fields
unfolding put env_of
env_setting none spec = ok spec
env_setting (some v) spec = env_of v >>= λ env. ok (put (codes "env") (list (items env)) spec)

unfoldable pub resources_setting : Option Value → Fields → Fields
unfolding put
resources_setting none spec = spec
resources_setting (some v) spec = put (codes "resources") v spec

-- The settings that `if frontmatter:` guards.
unfoldable pub settings : Fields → Fields → Result Fields
unfolding get image_setting port_setting auth_setting env_setting resources_setting
settings fm spec = do
  with_port ← port_setting (get (codes "port") fm) (image_setting (get (codes "image") fm) spec)
  with_env ← env_setting (get (codes "env") fm) (auth_setting (get (codes "auth") fm) with_port)
  ok (resources_setting (get (codes "resources") fm) with_env)

unfoldable pub text_or_empty : Option Text → Text
text_or_empty none = []
text_or_empty (some s) = s

abbrev pub storage_value : Value → Value
storage_value size = dict (field (codes "size") size empty)

-- The fields that every spec begins with.
unfoldable pub base_spec : Text → Option Text → Value → Fields
unfolding text_or_empty
base_spec mode content size = field (codes "mode") (str mode) (
    field (codes "content") (str (text_or_empty content))
      (field (codes "storage") (storage_value size) empty))

unfoldable pub source_mounts : Option Text → List Text
source_mounts none = []
source_mounts (some []) = []
source_mounts (some (c ∷ s)) = (c ∷ s) ∷ []

unfoldable pub frontmatter_mounts : Option Value → Result (List Text)
unfolding iterate
frontmatter_mounts none = ok []
frontmatter_mounts (some v) = iterate v

abbrev pub no_mounts : Filtered
no_mounts = record { cw_mounts = []; rsync_mounts = []; sshfs_mounts = [] }

unfoldable pub mounts_setting : List Text → Fields → Fields
unfolding put
mounts_setting [] spec = spec
mounts_setting (m ∷ ms) spec = put (codes "mounts") (list (items (map str (m ∷ ms)))) spec

unfoldable pub metadata_value : Text → Option Text → Value
metadata_value name none = dict (field (codes "name") (str name) empty)
metadata_value name (some ns) =
    dict (field (codes "name") (str name) (field (codes "namespace") (str ns) empty))

-- What is returned: the resource, and the mounts that the plugin serves.
pub record Notebook : Type 0 where
  pub resource : Fields
  pub rsync_mounts : List RsyncMount
  pub sshfs_mounts : List SshfsMount

-- No frontmatter and empty frontmatter set nothing.
abbrev pub fields_of : Option Fields → Fields
fields_of none = empty
fields_of (some fm) = fm

abbrev pub resource_of : Value → Fields → Fields
resource_of metadata spec = field (codes "apiVersion") (str (codes "marimo.io/v1alpha1")) (
    field (codes "kind") (str (codes "MarimoNotebook"))
      (field (codes "metadata") metadata (field (codes "spec") (dict spec) empty)))

-- `SSH_IMAGE`, from the environment.
module _ (ssh_image : Text) where
  unfoldable pub build_ssh_sidecar : ℕ → Value
  unfolding decimal
  build_ssh_sidecar index = dict (
      field (codes "name") (str (codes "sshfs-" ++ decimal index)) (
        field (codes "image") (str ssh_image) (
          field (codes "exposePort") (int (pos 2222)) (
            field (codes "env")
              (list (
                items (
                  pair (codes "PASSWORD_ACCESS") (codes "false")
                  ∷ pair (codes "USER_NAME") (codes "marimo")
                  ∷ pair (codes "PUID") (codes "1000")
                  ∷ pair (codes "PGID") (codes "1000")
                  ∷ pair (codes "PUBLIC_KEY_FILE") (codes "/config/ssh-pubkey/authorized_keys")
                  ∷ [])))
              empty))))

  -- One sidecar for each mount, from index `i` on.
  unfoldable pub sidecars_from : ℕ → List SshfsMount → List Value
  unfolding build_ssh_sidecar
  sidecars_from i [] = []
  sidecars_from i (m ∷ ms) = build_ssh_sidecar i ∷ sidecars_from (i + 1) ms

  unfoldable pub sidecars_setting : List SshfsMount → Fields → Fields
  unfolding put sidecars_from
  sidecars_setting [] spec = spec
  sidecars_setting (m ∷ ms) spec =
      put (codes "sidecars") (list (items (sidecars_from 0 (m ∷ ms)))) spec

  unfoldable pub build_marimo_notebook :
      Text → Option Text → Option Text → Option Fields → Text → Option Text → Result Notebook
  unfolding settings base_spec get get_or frontmatter_mounts source_mounts filter_mounts
      mounts_setting sidecars_setting metadata_value
  build_marimo_notebook name namespace content frontmatter mode source =
      let fm = fields_of frontmatter in
      let size = get_or (str (codes "1Gi")) (get (codes "storage") fm) in
      do
        spec ← settings fm (base_spec mode content size)
        listed ← frontmatter_mounts (get (codes "mounts") fm)
        let r = filter_mounts (source_mounts source ++ listed)
        let full = sidecars_setting r.sshfs_mounts (mounts_setting r.cw_mounts spec)
        ok (record {
          resource = resource_of (metadata_value name namespace) full;
          rsync_mounts = r.rsync_mounts;
          sshfs_mounts = r.sshfs_mounts;
        })

-- d.get(k, {}), for a dict of dicts.
unfoldable pub dict_of : Option Value → Fields
dict_of (some (dict d)) = d
dict_of _ = empty

-- d.get(k, []), for a dict of lists.
unfoldable pub list_of : Option Value → List Value
list_of (some (list vs)) = to_list vs
list_of _ = []

unfoldable pub text_of : Option Value → Text
text_of (some (str s)) = s
text_of _ = []

abbrev pub any : (Value → Bool) → List Value → Bool
any test [] = false
any test (v ∷ vs) = test v || any test vs

abbrev pub resource_spec : Fields → Fields
resource_spec resource = dict_of (get (codes "spec") resource)

unfoldable pub has_cw_mounts : Fields → Bool
unfolding get dict_of list_of text_of starts_with
has_cw_mounts resource =
    any (λ m. starts_with (codes "cw://") (text_of (some m)))
      (list_of (get (codes "mounts") (resource_spec resource)))

abbrev pub sidecar_name : Value → Text
sidecar_name sidecar = text_of (get (codes "name") (dict_of (some sidecar)))

unfoldable pub has_sshfs_sidecars : Fields → Bool
unfolding get dict_of list_of text_of starts_with
has_sshfs_sidecars resource =
    any (λ s. starts_with (codes "sshfs-") (sidecar_name s))
      (list_of (get (codes "sidecars") (resource_spec resource)))
