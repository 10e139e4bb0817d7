-- ===== src/Swap/Json.antt =====
-- Deployment metadata survives its translation to a dict and back.
use marimo_operator.Base.{Text, codes, ◌≡◌, refl, Option, none, some, List, [], ◌∷◌, map}
use marimo_operator.Result.{ok}
use marimo_operator.Swap.{
  LocalMount, SwapMeta, kind_field, mount_value, namespace_value, mounts_value, to_dict,
  namespace_field, mount_of, mounts_of, mounts_field, from_dict,
}
use marimo_operator.Value.{Value, Items, cons, str, dict, field, items}

mount_of-kind :
    (l r : Text) (k : Option Text)
    → mount_of
        (dict (field (codes "local") (str l) (field (codes "remote") (str r) (kind_field k))))
      ≡ ok (record { local = l; remote = r; kind = k })
unfolding mount_of kind_field
mount_of-kind l r none = refl
mount_of-kind l r (some k) = refl

mount_of-mount_value : (m : LocalMount) → mount_of (mount_value m) ≡ ok m
unfolding mount_value
mount_of-mount_value m = mount_of-kind m.local m.remote m.kind

mounts_of-cons :
    (v : Value) (vs : Items) {m : LocalMount} {ms : List LocalMount}
    → mount_of v ≡ ok m
    → mounts_of vs ≡ ok ms
    → mounts_of (cons v vs) ≡ ok (m ∷ ms)
unfolding mounts_of
mounts_of-cons v vs p q = rw p (rw q refl)

mounts_of-map : (ms : List LocalMount) → mounts_of (items (map mount_value ms)) ≡ ok ms
mounts_of-map [] = unfold mounts_of in refl
mounts_of-map (m ∷ ms) = mounts_of-cons _ _ (mount_of-mount_value m) (mounts_of-map ms)

mounts_field-mounts_value :
    (o : Option (List LocalMount)) → mounts_field (some (mounts_value o)) ≡ ok o
mounts_field-mounts_value none = unfold mounts_field mounts_value in refl
mounts_field-mounts_value (some ms) = unfold mounts_field mounts_value in rw (mounts_of-map ms) refl

namespace_field-namespace_value :
    (o : Option Text) → namespace_field (some (namespace_value o)) ≡ ok o
unfolding namespace_field namespace_value
namespace_field-namespace_value none = refl
namespace_field-namespace_value (some ns) = refl

-- The metadata that is written as a dict is read back whole, also without a namespace, without
-- mounts, and with mounts of either kind.
pub from_dict-to_dict : (m : SwapMeta) → from_dict (to_dict m) ≡ ok m
unfolding from_dict to_dict
from_dict-to_dict m =
    rw (namespace_field-namespace_value m.namespace)
      (rw (mounts_field-mounts_value m.local_mounts) refl)
