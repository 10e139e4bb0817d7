-- ===== src/Env.antt =====
-- `parse_env` of plugin/kubectl_marimo/resources.py.
use marimo_operator.Base.{Text, codes, lower, Option, none, some, List, [], ◌∷◌}
use marimo_operator.Value.{Value, Fields, empty, field, str, dict, get}

unfoldable pub get_or : Value → Option Value → Value
get_or v none = v
get_or v (some w) = w

abbrev pub inline_value : Text → Text → Value
inline_value name value =
    dict (field (codes "name") (str name) (field (codes "value") (str value) empty))

-- {"name": name, "valueFrom": {"secretKeyRef": {"name": secret, "key": key}}}
abbrev pub secret_value : Text → Value → Value → Value
secret_value name secret key =
    let ref = dict (field (codes "name") secret (field (codes "key") key empty)) in
    let source = dict (field (codes "secretKeyRef") ref empty) in
    dict (field (codes "name") (str name) (field (codes "valueFrom") source empty))

-- The entry of a dict that holds a secret, where the secret's name is `some`.
unfoldable pub secret_entry : Text → Fields → Option Value → Option Value
unfolding get get_or lower
secret_entry name d none = none
secret_entry name d (some secret) =
    some (secret_value name secret (get_or (str (lower name)) (get (codes "key") d)))

-- What one variable adds to the result.
unfoldable pub env_entry : Text → Value → Option Value
unfolding secret_entry get
env_entry name (str value) = some (inline_value name value)
env_entry name (dict d) = secret_entry name d (get (codes "secret") d)
env_entry name _ = none

unfoldable pub add_entry : Option Value → List Value → List Value
add_entry none vs = vs
add_entry (some v) vs = v ∷ vs

unfoldable pub parse_env : Fields → List Value
unfolding env_entry add_entry
parse_env empty = []
parse_env (field name value d) = add_entry (env_entry name value) (parse_env d)
