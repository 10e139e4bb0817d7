-- ===== src/Pep723.antt =====
-- `extract_pep723_metadata`, `parse_python` and `is_marimo_python` of
-- plugin/kubectl_marimo/formats/python.py.
pub mod Written
pub mod Lines
pub mod Settings
pub mod Documents
pub mod Config
pub mod Sections
pub mod Notebooks
use marimo_operator.Base.{
  ℕ, Text, codes, starts_with, has, contains, lstrip_of, strip, split_on, partition, inner,
  find_after, length, drop, prepend, Bool, true, false, not, ◌&&◌, ◌||◌, Option, none, some, List,
  [], ◌∷◌, ◌==◌, if◌then◌else◌,
}
use marimo_operator.Toml.{unquote, parse_toml_value}
use marimo_operator.Value.{Value, Fields, empty, str, dict, put, is_empty}

abbrev pub script_header : Text
script_header = codes "# /// script\n"

abbrev pub script_end : Text
script_end = codes "# ///"

abbrev pub k8s_header : Text
k8s_header = codes "# [tool.marimo.k8s]\n"

abbrev pub env_header : Text
env_header = codes "# [tool.marimo.k8s.env]\n"

-- `((?:# .*\n)*?)# ///`, matched at the text's beginning: the group. The flag is set inside a line.
unfoldable pub lazy_block : Bool → Text → Option Text
unfolding starts_with prepend
lazy_block inside [] = none
lazy_block true (c ∷ s) = prepend c (lazy_block (not (c == b'\n')) s)
lazy_block false (c ∷ s) =
    let rest = lazy_block true s in
    if starts_with script_end (c ∷ s)
    then some []
    else if starts_with (codes "# ") (c ∷ s)
    then prepend c rest
    else none

-- `((?:# .*\n)*)`, matched at the text's beginning.
unfoldable pub line_block : Bool → Text → Text
unfolding starts_with has
line_block inside [] = []
line_block true (c ∷ s) = c ∷ line_block (not (c == b'\n')) s
line_block false (c ∷ s) =
    let rest = line_block true s in
    if starts_with (codes "# ") (c ∷ s) && has b'\n' s then c ∷ rest else []

unfoldable pub or_else : Option Text → Option Text → Option Text
or_else none o = o
or_else (some s) o = some s

-- What `re.search` makes of one start of the match.
abbrev script_here : Text → Option Text
script_here s =
    if starts_with script_header s then lazy_block false (drop (length script_header) s) else none

-- The group of the first match of `# /// script\n((?:# .*\n)*?)# ///`.
unfoldable pub script_block : Text → Option Text
unfolding lazy_block starts_with or_else
script_block [] = none
script_block (c ∷ s) = or_else (script_here (c ∷ s)) (script_block s)

unfoldable pub block_behind : Option Text → Option Text
unfolding line_block
block_behind none = none
block_behind (some s) = some (line_block false s)

-- The group of the first match of a header and the comment lines behind it.
unfoldable pub section_block : Text → Text → Option Text
unfolding find_after block_behind
section_block header content = block_behind (find_after header content)

abbrev is_comment_char : ℕ → Bool
is_comment_char c = c == b'#' || c == b' '

-- line.lstrip("# ").strip()
unfoldable pub uncomment : Text → Text
unfolding lstrip_of strip
uncomment line = strip (lstrip_of is_comment_char line)

-- What stands before and after the equals sign is stripped and entered in the dict.
unfoldable pub assign_parts : (Text → Value) → Fields → Option (Text × Text) → Fields
unfolding strip put
assign_parts read d none = d
assign_parts read d (some (key, value)) = put (strip key) (read (strip value)) d

-- A line without an equals sign changes nothing.
unfoldable pub assign : (Text → Value) → Text → Fields → Fields
unfolding partition assign_parts
assign read line d = assign_parts read d (partition b'=' line)

-- The value in the first loop: always a text.
abbrev simple_value : Text → Value
simple_value s = str (unquote s)

-- The first loop, over all lines of the script block.
unfoldable pub script_fields : List Text → Fields → Fields
unfolding assign unquote uncomment
script_fields [] d = d
script_fields (line ∷ lines) d = script_fields lines (assign simple_value (uncomment line) d)

-- The loops over the lines of a section, up to the next section.
unfoldable pub section_fields : List Text → Fields → Fields
unfolding assign parse_toml_value uncomment starts_with
section_fields [] d = d
section_fields (line ∷ lines) d =
    let rest = section_fields lines (assign parse_toml_value (uncomment line) d) in
    if starts_with (codes "[") (uncomment line) then d else rest

unfoldable pub with_section : Option Text → Fields → Fields
unfolding section_fields split_on
with_section none d = d
with_section (some block) d = section_fields (split_on b'\n' block) d

unfoldable pub add_env : Fields → Fields → Fields
unfolding put
add_env empty d = d
add_env env d = put (codes "env") (dict env) d

-- All that is read once there is a script block.
unfoldable pub metadata : Text → Text → Fields
unfolding script_fields with_section section_block add_env split_on
metadata content block =
    let script = script_fields (split_on b'\n' block) empty in
    let k8s = with_section (section_block k8s_header content) script in
    add_env (with_section (section_block env_header content) empty) k8s

unfoldable pub unless_empty : Fields → Option Fields
unless_empty d = if is_empty d then none else some d

unfoldable pub metadata_of : Text → Option Text → Option Fields
unfolding metadata unless_empty
metadata_of content none = none
metadata_of content (some block) = unless_empty (metadata content block)

unfoldable pub extract_pep723_metadata : Text → Option Fields
unfolding script_block metadata_of
extract_pep723_metadata content = metadata_of content (script_block content)

unfoldable pub parse_python : Text → Text × Option Fields
unfolding extract_pep723_metadata
parse_python content = (content, extract_pep723_metadata content)

unfoldable pub is_marimo_python : Text → Bool
unfolding contains
is_marimo_python content =
    contains (codes "import marimo") content
    || contains (codes "from marimo import") content
    || contains (codes "@app.cell") content
    || contains (codes "@app.function") content
    || contains (codes "marimo.App(") content
