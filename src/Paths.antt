-- ===== src/Paths.antt =====
-- `pathlib.Path` on POSIX, as far as the plugin uses it: a root and the names behind it.
pub mod Names
use marimo_operator.Base.{
  ℕ, Text, codes, same, starts_with, split_on, split_last, join, Bool, true, false, ◌||◌, Option,
  none, some, List, [], ◌∷◌, ◌++◌, ◌==◌, if◌then◌else◌,
}

pub record FilePath : Type 0 where
  pub absolute : Bool
  pub names : List Text

-- Empty names and `.` are dropped.
unfoldable pub path_names : List Text → List Text
unfolding same
path_names [] = []
path_names (name ∷ names) =
    let rest = path_names names in
    if same name [] || same name (codes ".") then rest else name ∷ rest

-- Path(s)
unfoldable pub path : Text → FilePath
unfolding path_names split_on starts_with
path s = record { absolute = starts_with (codes "/") s; names = path_names (split_on b'/' s) }

unfoldable pub last_name : List Text → Text
last_name [] = []
last_name (name ∷ []) = name
last_name (name ∷ other ∷ names) = last_name (other ∷ names)

-- p.name
unfoldable pub name : FilePath → Text
unfolding last_name
name p = last_name p.names

unfoldable pub without_last : List Text → List Text
without_last [] = []
without_last (name ∷ []) = []
without_last (name ∷ other ∷ names) = name ∷ without_last (other ∷ names)

-- p.parent
unfoldable pub parent : FilePath → FilePath
unfolding without_last
parent p = record p { names = without_last p.names }

-- p / name, for one relative name.
unfoldable pub child : FilePath → Text → FilePath
child p n = record p { names = p.names ++ (n ∷ []) }

-- str(p)
unfoldable pub path_text : FilePath → Text
unfolding join same
path_text p =
    let joined = join (codes "/") p.names in
    if p.absolute then b'/' ∷ joined else if same joined [] then codes "." else joined

-- A dot that is neither the first nor the last character parts the stem from the suffix.
unfoldable pub stem_suffix : Text → Option (Text × Text) → Text × Text
stem_suffix n none = (n, [])
stem_suffix n (some ([], after)) = (n, [])
stem_suffix n (some (c ∷ before, [])) = (n, [])
stem_suffix n (some (c ∷ before, d ∷ after)) = (c ∷ before, b'.' ∷ d ∷ after)

-- p.stem
unfoldable pub stem : FilePath → Text
unfolding stem_suffix split_last name
stem p = (stem_suffix (name p) (split_last b'.' (name p))).0

-- p.suffix
unfoldable pub suffix : FilePath → Text
unfolding stem_suffix split_last name
suffix p = (stem_suffix (name p) (split_last b'.' (name p))).1
