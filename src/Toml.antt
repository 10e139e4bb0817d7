-- ===== src/Toml.antt =====
-- `_parse_toml_value` of plugin/kubectl_marimo/formats/python.py.
pub mod RoundTrip
use marimo_operator.Base.{
  ℕ, Text, codes, same, starts_with, ends_with, lower, strip, split_on, inner, is_digit, value, map,
  Bool, true, false, ◌&&◌, List, [], ◌∷◌, if◌then◌else◌,
}
use marimo_operator.Value.{Value, str, int, pos, bool, list, items}

-- value.startswith(q) and value.endswith(q)
unfoldable pub quoted : ℕ → Text → Bool
unfolding starts_with ends_with
quoted q s = starts_with (q ∷ []) s && ends_with q s

-- The two tests for quotes, in `_parse_toml_value` and in its loop over a list.
unfoldable pub unquote : Text → Text
unfolding quoted inner
unquote s = if quoted b'"' s then inner s else if quoted b'\'' s then inner s else s

abbrev pub item_value : Text → Value
item_value item = str (unquote (strip item))

-- What stands between the brackets, stripped.
unfoldable pub list_value : Text → Value
unfolding split_on unquote strip
list_value [] = list (items [])
list_value (c ∷ s) = list (items (map item_value (split_on b',' (c ∷ s))))

abbrev pub all_digits : Text → Bool
all_digits [] = true
all_digits (c ∷ s) = is_digit c && all_digits s

-- s.isdigit()
unfoldable pub isdigit : Text → Bool
unfolding is_digit
isdigit [] = false
isdigit (c ∷ s) = all_digits (c ∷ s)

-- The tests that follow the strings and the lists.
unfoldable pub plain_value : Text → Value
unfolding isdigit lower same
plain_value s =
    if isdigit s
    then int (pos (value s))
    else if same (lower s) (codes "true")
    then bool true
    else if same (lower s) (codes "false")
    then bool false
    else str s

-- The tests after `strip`.
unfoldable pub stripped_value : Text → Value
unfolding quoted list_value plain_value strip inner
stripped_value s =
    if quoted b'"' s
    then str (inner s)
    else if quoted b'\'' s
    then str (inner s)
    else if starts_with (codes "[") s && ends_with b']' s
    then list_value (strip (inner s))
    else plain_value s

unfoldable pub parse_toml_value : Text → Value
unfolding stripped_value strip
parse_toml_value s = stripped_value (strip s)
