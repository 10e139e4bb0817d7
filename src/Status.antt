-- ===== src/Status.antt =====
-- `show_status`, `read_swap_file_direct` and `format_elapsed` of plugin/kubectl_marimo/status.py.
pub mod Names
pub mod Elapsed
pub mod Keeps
pub mod Listing
pub mod Order
use marimo_operator.Base.{
  ℕ, zero, suc, ◌*◌, ◌/◌, ◌-◌, Text, codes, same, starts_with, has, rstrip_of, decimal, drop,
  length, ltb, Bool, true, false, not, ◌&&◌, ◌||◌, Option, none, some, List, [], ◌∷◌, ◌++◌, ◌==◌,
  if◌then◌else◌,
}
use marimo_operator.Exec.{Node, FileTable, Outside, World, M, ◌>>=◌, ◌>>◌, pure, lift, echo}
use marimo_operator.Paths.{FilePath, path, path_text, child}
use marimo_operator.Result.{Result, ok, raise, type_error}
use marimo_operator.Swap.{SwapMeta, extension, read_swap_at}
use marimo_operator.Sync.{ends_in}
use marimo_operator.Value.{ℤ, pos, negsuc}

-- What stands before and after the last p: s.rsplit(p, 1).
unfoldable pub split_last_text : Text → Text → Option (Text × Text)
unfolding starts_with
split_last_text p [] = none
split_last_text p (c ∷ s) = elim (split_last_text p s) [
  | some (a, b) ↦ some (c ∷ a, b)
  | none ↦ if starts_with p (c ∷ s) then some ([], drop (length p) (c ∷ s)) else none
]

unfoldable pub first_or : Text → Option (Text × Text) → Text
first_or s none = s
first_or s (some (a, b)) = a

-- swap_file.name[1:].rsplit(".marimo", 1)[0]
unfoldable pub original_name : Text → Text
unfolding split_last_text first_or
original_name n = first_or (drop 1 n) (split_last_text extension (drop 1 n))

-- A name that fits `.*.marimo`.
unfoldable pub is_swap_name : Text → Bool
unfolding ends_in
is_swap_name [] = false
is_swap_name (c ∷ s) = c == b'.' && ends_in extension s

-- What a path's text begins with, if the path lies in the directory.
unfoldable pub folder_prefix : FilePath → Text
unfolding path_text same
folder_prefix p =
    if same (path_text p) (codes ".")
    then []
    else if same (path_text p) (codes "/")
    then codes "/"
    else path_text p ++ codes "/"

-- The name of the swap file that a key stands for, if it lies directly in the directory.
unfoldable pub swap_name_in : Text → Text → Option Text
unfolding starts_with has is_swap_name
swap_name_in before key =
    let n = drop (length before) key in
    if starts_with before key && not (has b'/' n) && is_swap_name n then some n else none

unfoldable pub add_name : Option Text → List Text → List Text
add_name none names = names
add_name (some n) names = n ∷ names

-- dir_path.glob(".*.marimo"), by name.
unfoldable pub swap_names : Text → FileTable → List Text
unfolding swap_name_in add_name
swap_names before [] = []
swap_names before ((key, node) ∷ files) =
    add_name (swap_name_in before key) (swap_names before files)

-- s < t, as code points.
unfoldable pub text_lt : Text → Text → Bool
text_lt s [] = false
text_lt [] (y ∷ t) = true
text_lt (x ∷ s) (y ∷ t) = ltb x y || (x == y && text_lt s t)

unfoldable pub insert_name : Text → List Text → List Text
unfolding text_lt
insert_name n [] = n ∷ []
insert_name n (m ∷ ms) = let rest = insert_name n ms in if text_lt m n then m ∷ rest else n ∷ m ∷ ms

-- sorted(swap_files)
unfoldable pub sorted : List Text → List Text
unfolding insert_name
sorted [] = []
sorted (n ∷ ns) = insert_name n (sorted ns)

unfoldable pub spaces : ℕ → Text
spaces zero = []
spaces (suc n) = b' ' ∷ spaces n

-- f"{s:<n}"
unfoldable pub padded : ℕ → Text → Text
unfolding spaces
padded n s = s ++ spaces (n - length s)

abbrev pub second : ℕ
second = 1000000

-- The phrase for a positive time in microseconds.
unfoldable pub ago : ℕ → Text
unfolding decimal
ago micros =
    if ltb micros (60 * second)
    then codes "just now"
    else if ltb micros (3600 * second)
    then decimal (micros / (60 * second)) ++ codes "m ago"
    else if ltb micros (86400 * second)
    then decimal (micros / (3600 * second)) ++ codes "h ago"
    else decimal (micros / (86400 * second)) ++ codes "d ago"

unfoldable pub elapsed_text : Option ℤ → Text
unfolding ago
elapsed_text none = codes "unknown"
elapsed_text (some (negsuc n)) = codes "just now"
elapsed_text (some (pos n)) = ago n

abbrev pub header_line : Text
header_line = codes "FILE                           NAME                 NAMESPACE       DEPLOYED"

unfoldable pub dashes : ℕ → Text
dashes zero = []
dashes (suc n) = b'-' ∷ dashes n

-- The line of one deployment.
unfoldable pub status_line : Text → Text → Text → Text → Text
unfolding padded
status_line file name namespace time =
    padded 30 file ++ (b' ' ∷ (padded 20 name ++ (b' ' ∷ (padded 15 namespace ++ (b' ' ∷ time)))))

-- The line, or the `TypeError` of a deployment without a namespace: `None` has no format with a
-- width.
unfoldable pub line_of : Text → Text → Option Text → Text → Result Text
unfolding status_line original_name
line_of n name none time = raise type_error
line_of n name (some ns) time = ok (status_line (original_name n) name ns time)

module _ (o : Outside) where
  unfoldable pub format_elapsed : Text → M Text
  unfolding elapsed_text rstrip_of
  format_elapsed timestamp w =
      (ok (elapsed_text (o.elapsed w.trace (rstrip_of (λ c. c == b'Z') timestamp))), w)

  unfoldable pub read_swap_file_direct : FilePath → M (Option SwapMeta)
  unfolding read_swap_at
  read_swap_file_direct p = read_swap_at o p

  unfoldable pub show_meta : Text → Option SwapMeta → M (Unit {0})
  unfolding format_elapsed line_of echo
  show_meta n none = pure tt
  show_meta n (some meta) = format_elapsed meta.applied_at >>= λ time.
      lift (line_of n meta.name meta.namespace time) >>= echo

  unfoldable pub show_each : FilePath → List Text → M (Unit {0})
  unfolding read_swap_file_direct child show_meta
  show_each folder [] = pure tt
  show_each folder (n ∷ ns) =
      (read_swap_file_direct (child folder n) >>= show_meta n) >> show_each folder ns

  unfoldable pub show_found : FilePath → List Text → M (Unit {0})
  unfolding echo dashes show_each sorted
  show_found folder [] = echo (codes "No active notebook deployments found")
  show_found folder (n ∷ ns) = do
    echo header_line
    echo (dashes 80)
    show_each folder (sorted (n ∷ ns))

  unfoldable pub show_status : Text → M (Unit {0})
  unfolding path folder_prefix swap_names show_found
  show_status directory w =
      show_found (path directory) (swap_names (folder_prefix (path directory)) w.files) w
