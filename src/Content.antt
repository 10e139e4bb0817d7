-- ===== src/Content.antt =====
-- What a notebook's text says of its format: `detect_content_type` of
-- plugin/kubectl_marimo/resources.py, and `extract_frontmatter`, `parse_markdown`,
-- `is_marimo_markdown` and `parse_file` of plugin/kubectl_marimo/formats.
pub mod Front
use marimo_operator.Base.{
  ℕ, Text, codes, same, starts_with, contains, lstrip_of, strip, is_space, split_on, join, drop,
  Bool, true, false, ◌&&◌, ◌||◌, Option, none, some, List, [], ◌∷◌, if◌then◌else◌,
}
use marimo_operator.Paths.{FilePath, suffix}
use marimo_operator.Pep723.{parse_python}
use marimo_operator.Value.{Value, Fields, dict}

pub data ContentType : Type 0 where
  markdown python : ContentType

unfoldable pub starts_with_space : Text → Bool
unfolding is_space
starts_with_space [] = false
starts_with_space (c ∷ s) = is_space c

-- `python\s*\{\.marimo\}|\{python\s+marimo\}`, at the text's beginning.
unfoldable pub marimo_info : Text → Bool
unfolding starts_with starts_with_space lstrip_of is_space
marimo_info s =
    (starts_with (codes "python") s
      && starts_with (codes "{.marimo}") (lstrip_of is_space (drop 6 s)))
    || (starts_with (codes "{python") s
        && starts_with_space (drop 7 s)
        && starts_with (codes "marimo}") (lstrip_of is_space (drop 7 s)))

-- The pattern for a marimo code block, anywhere in the text.
unfoldable pub has_marimo_block : Text → Bool
unfolding marimo_info starts_with
has_marimo_block [] = false
has_marimo_block (c ∷ s) =
    (starts_with (codes "```") (c ∷ s) && marimo_info (drop 3 (c ∷ s))) || has_marimo_block s

unfoldable pub detect_content_type : Text → ContentType
unfolding has_marimo_block starts_with strip
detect_content_type content =
    if starts_with (codes "---") (strip content)
    then markdown
    else if has_marimo_block content
    then markdown
    else python

unfoldable pub is_marimo_markdown : Text → Bool
unfolding has_marimo_block starts_with strip
is_marimo_markdown content = starts_with (codes "---") (strip content) || has_marimo_block content

abbrev pub is_mark : Text → Bool
is_mark line = same (strip line) (codes "---")

unfoldable pub cons_line : Text → Option (List Text) → Option (List Text)
cons_line line none = none
cons_line line (some lines) = some (line ∷ lines)

-- The lines before the first closing mark.
unfoldable pub before_mark : List Text → Option (List Text)
unfolding same strip cons_line
before_mark [] = none
before_mark (line ∷ lines) =
    let rest = cons_line line (before_mark lines) in if is_mark line then some [] else rest

-- The text between the marks.
unfoldable pub frontmatter_lines : List Text → Option (List Text)
unfolding before_mark
frontmatter_lines [] = none
frontmatter_lines (line ∷ lines) =
    let rest = before_mark lines in if is_mark line then rest else none

unfoldable pub only_dict : Option Value → Option Fields
only_dict (some (dict d)) = some d
only_dict _ = none

-- `yaml.safe_load`; `none` is a `YAMLError`.
module _ (safe_load : Text → Option Value) where
  unfoldable pub load_lines : Option (List Text) → Option Fields
  unfolding only_dict join
  load_lines none = none
  load_lines (some lines) = only_dict (safe_load (join (codes "\n") lines))

  unfoldable pub extract_frontmatter : Text → Option Fields
  unfolding load_lines frontmatter_lines split_on
  extract_frontmatter content = load_lines (frontmatter_lines (split_on b'\n' content))

  unfoldable pub parse_markdown : Text → Text × Option Fields
  unfolding extract_frontmatter
  parse_markdown content = (content, extract_frontmatter content)

  -- `parse_file` after the file was read.
  unfoldable pub parse_content : FilePath → Text → Text × Option Fields
  unfolding parse_markdown parse_python suffix same strip contains starts_with
  parse_content p content =
      if same (suffix p) (codes ".md")
      then parse_markdown content
      else if same (suffix p) (codes ".py")
      then parse_python content
      else if same (suffix p) (codes ".yaml") || same (suffix p) (codes ".yml")
      then (content, none)
      else if starts_with (codes "---") (strip content)
      then parse_markdown content
      else if contains (codes "import marimo") content || contains (codes "@app.cell") content
      then parse_python content
      else (content, none)
