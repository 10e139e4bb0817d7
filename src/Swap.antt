-- ===== src/Swap.antt =====
-- Swap files, which track deployments: plugin/kubectl_marimo/swap.py.
pub mod Json
pub mod Tracking
pub mod Keeps
use marimo_operator.Base.{
  ℕ, Text, codes, replace, Bool, true, false, Option, none, some, List, [], ◌∷◌, ◌++◌, map,
  if◌then◌else◌,
}
use marimo_operator.Exec.{
  Outside, World, M, ◌>>=◌, ◌>>◌, pure, throw, lift, is_dir, exists, read_text, write_text, unlink,
}
use marimo_operator.Paths.{FilePath, path, name, parent, child, path_text}
use marimo_operator.Result.{Result, ok, raise, key_error, type_error, foreign_value}
use marimo_operator.Result
use marimo_operator.Value.{
  Value, Items, Fields, empty, field, nil, cons, null, str, list, dict, items, get,
}

-- {"local": ..., "remote": ...}, with a type where deploy gives one.
pub record LocalMount : Type 0 where
  pub local : Text
  pub remote : Text
  pub kind : Option Text

pub record SwapMeta : Type 0 where
  pub name : Text
  pub namespace : Option Text
  pub applied_at : Text
  pub original_file : Text
  pub file_hash : Text
  pub local_mounts : Option (List LocalMount)

unfoldable pub kind_field : Option Text → Fields
kind_field none = empty
kind_field (some k) = field (codes "type") (str k) empty

unfoldable pub mount_value : LocalMount → Value
unfolding kind_field
mount_value m = dict (
    field (codes "local") (str m.local) (field (codes "remote") (str m.remote) (kind_field m.kind)))

unfoldable pub namespace_value : Option Text → Value
namespace_value none = null
namespace_value (some ns) = str ns

unfoldable pub mounts_value : Option (List LocalMount) → Value
unfolding mount_value
mounts_value none = null
mounts_value (some ms) = list (items (map mount_value ms))

-- asdict(self)
unfoldable pub to_dict : SwapMeta → Value
unfolding namespace_value mounts_value
to_dict m = dict (
    field (codes "name") (str m.name) (
      field (codes "namespace") (namespace_value m.namespace) (
        field (codes "applied_at") (str m.applied_at) (
          field (codes "original_file") (str m.original_file) (
            field (codes "file_hash") (str m.file_hash)
              (field (codes "local_mounts") (mounts_value m.local_mounts) empty))))))

-- Python takes any value for any field. Here a value of a type that the plugin never writes is
-- marked as foreign.
unfoldable pub text_field : Option Value → Result Text
text_field none = raise key_error
text_field (some (str s)) = ok s
text_field (some _) = raise foreign_value

unfoldable pub namespace_field : Option Value → Result (Option Text)
namespace_field none = raise key_error
namespace_field (some null) = ok none
namespace_field (some (str ns)) = ok (some ns)
namespace_field (some _) = raise foreign_value

-- mount["local"], which is only looked up when the mount is synced.
unfoldable pub mount_text : Option Value → Result Text
mount_text (some (str s)) = ok s
mount_text _ = raise foreign_value

unfoldable pub kind_of : Option Value → Result (Option Text)
kind_of none = ok none
kind_of (some (str k)) = ok (some k)
kind_of (some _) = raise foreign_value

infixl 5 ◌then◌
abbrev ◌then◌ {ℓ κ} : {A : Type ℓ} {B : Type κ} → Result A → (A → Result B) → Result B
r then f = Result.◌>>=◌ r f

unfoldable pub mount_of : Value → Result LocalMount
unfolding get mount_text kind_of
mount_of (dict d) = mount_text (get (codes "local") d) then λ l.
    (mount_text (get (codes "remote") d) then λ r.
    (kind_of (get (codes "type") d) then λ k. ok (record { local = l; remote = r; kind = k })))
mount_of _ = raise foreign_value

unfoldable pub mounts_of : Items → Result (List LocalMount)
unfolding mount_of
mounts_of nil = ok []
mounts_of (cons v vs) = mount_of v then λ m. (mounts_of vs then λ ms. ok (m ∷ ms))

-- data.get("local_mounts")
unfoldable pub mounts_field : Option Value → Result (Option (List LocalMount))
unfolding mounts_of
mounts_field none = ok none
mounts_field (some null) = ok none
mounts_field (some (list vs)) = mounts_of vs then λ ms. ok (some ms)
mounts_field (some _) = raise foreign_value

unfoldable pub from_fields : Fields → Result SwapMeta
unfolding get text_field namespace_field mounts_field
from_fields d = text_field (get (codes "name") d) then λ n.
    (namespace_field (get (codes "namespace") d) then λ ns.
    (text_field (get (codes "applied_at") d) then λ at.
    (text_field (get (codes "original_file") d) then λ f.
    (text_field (get (codes "file_hash") d) then λ h.
    (mounts_field (get (codes "local_mounts") d) then λ ms. ok (record {
      name = n;
      namespace = ns;
      applied_at = at;
      original_file = f;
      file_hash = h;
      local_mounts = ms;
    }))))))

-- SwapMeta.from_dict(data)
unfoldable pub from_dict : Value → Result SwapMeta
unfolding from_fields
from_dict (dict d) = from_fields d
from_dict _ = raise type_error

abbrev pub extension : Text
extension = codes ".marimo"

-- f".{name}.marimo"
abbrev pub swap_name : Text → Text
swap_name n = b'.' ∷ (n ++ extension)

unfoldable pub swap_path_of : FilePath → Bool → FilePath
unfolding child parent name
swap_path_of p folder =
    if folder then child p (codes ".directory.marimo") else child (parent p) (swap_name (name p))

unfoldable pub swap_file_path : Text → M FilePath
unfolding path is_dir swap_path_of
swap_file_path file_path =
    is_dir (path file_path) >>= λ folder. pure (swap_path_of (path file_path) folder)

-- An invalid swap file counts as none.
unfoldable pub meta_of : Result SwapMeta → Result (Option SwapMeta)
meta_of (ok m) = ok (some m)
meta_of (raise key_error) = ok none
meta_of (raise e) = raise e

unfoldable pub parsed_meta : Option Value → Result (Option SwapMeta)
unfolding meta_of from_dict
parsed_meta none = ok none
parsed_meta (some v) = meta_of (from_dict v)

unfoldable pub delete_swap_at : FilePath → M Bool
unfolding exists unlink path_text
delete_swap_at p =
    exists p >>= λ there. if there then unlink (path_text p) >> pure true else pure false

unfoldable pub delete_swap_file : Text → M Bool
unfolding swap_file_path delete_swap_at
delete_swap_file file_path = swap_file_path file_path >>= delete_swap_at

module _ (o : Outside) where
  unfoldable pub write_swap_file : Text → SwapMeta → M (Unit {0})
  unfolding swap_file_path write_text to_dict
  write_swap_file file_path meta =
      swap_file_path file_path >>= λ p. write_text p (o.json_dump (to_dict meta))

  unfoldable pub load_meta : FilePath → M (Option SwapMeta)
  unfolding read_text parsed_meta
  load_meta p = read_text p >>= λ s. lift (parsed_meta (o.json_load s))

  unfoldable pub read_swap_at : FilePath → M (Option SwapMeta)
  unfolding exists load_meta
  read_swap_at p = exists p >>= λ there. if there then load_meta p else pure none

  unfoldable pub read_swap_file : Text → M (Option SwapMeta)
  unfolding swap_file_path read_swap_at
  read_swap_file file_path = swap_file_path file_path >>= read_swap_at

  unfoldable pub create_swap_meta :
      Text → Option Text → Text → Text → Option (List LocalMount) → M SwapMeta
  unfolding replace
  create_swap_meta n namespace original_file file_hash local_mounts w = (
    ok (record {
      name = n;
      namespace = namespace;
      applied_at = replace (codes "+00:00") (codes "Z") (o.now w.trace);
      original_file = o.resolved original_file;
      file_hash = file_hash;
      local_mounts = local_mounts;
    }),
    w,
  )
