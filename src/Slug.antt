-- ===== src/Slug.antt =====
-- `slugify` of plugin/kubectl_marimo/resources.py.
pub mod Label
pub mod Fixed
use marimo_operator.Base.{
  ℕ, Text, lower, strip_of, take, Bool, true, false, not, ◌&&◌, ◌||◌, List, [], ◌∷◌, ◌==◌, within,
  if◌then◌else◌,
}

-- [a-z0-9]
unfoldable pub is_slug_char : ℕ → Bool
is_slug_char c = within b'a' b'z' c || within b'0' b'9' c

abbrev pub is_dash : ℕ → Bool
is_dash c = c == b'-'

-- re.sub(r"[^a-z0-9]+", "-", s). The flag is set inside a run of other characters.
unfoldable pub dash_runs : Bool → Text → Text
unfolding is_slug_char
dash_runs inside [] = []
dash_runs inside (c ∷ s) =
    let plain = is_slug_char c in
    let rest = dash_runs (not plain) s in
    if plain then c ∷ rest else if inside then rest else b'-' ∷ rest

-- The name before it is cut off.
unfoldable pub slug_whole : Text → Text
unfolding dash_runs strip_of lower
slug_whole name = strip_of is_dash (dash_runs false (lower name))

unfoldable pub slugify : Text → Text
unfolding slug_whole
slugify name = take 63 (slug_whole name)
