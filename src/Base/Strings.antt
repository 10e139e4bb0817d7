-- ===== src/Base/Strings.antt =====
-- Python's `str` as a list of code points, and the methods of it that the plugin calls.
-- Character classes follow Python on ASCII; `is_space` is Python's whole list of white space.
use Prim.Native.Nat.{ℕ, zero, suc, ◌+◌, ◌-◌}
use Prim.Native.Char.{code}
use Prim.Native.String.{String}
use mathlib.Core.Bool.{Bool, true, false, ◌&&◌, ◌||◌}
use mathlib.Core.Option.{Option, none, some}
use mathlib.Core.List.{List, [], ◌∷◌, ◌++◌}
use marimo_operator.Base.Bools.{◌==◌, if◌then◌else◌, within}
use marimo_operator.Base.Lists.{length, drop}

abbrev pub Text : Type 0
Text = List ℕ

-- A literal.
abbrev pub codes : String → Text
codes String.[] = []
codes (String.◌∷◌ c s) = code c ∷ codes s

-- a == b
unfoldable pub same : Text → Text → Bool
same [] [] = true
same (x ∷ xs) (y ∷ ys) = x == y && same xs ys
same _ _ = false

-- s.startswith(p), with the prefix first.
unfoldable pub starts_with : Text → Text → Bool
starts_with [] s = true
starts_with (x ∷ p) [] = false
starts_with (x ∷ p) (y ∷ s) = x == y && starts_with p s

-- s.endswith(c), for one character.
unfoldable pub ends_with : ℕ → Text → Bool
ends_with c [] = false
ends_with c (x ∷ []) = x == c
ends_with c (x ∷ y ∷ s) = ends_with c (y ∷ s)

-- c in s, for one character.
unfoldable pub has : ℕ → Text → Bool
has c [] = false
has c (x ∷ s) = x == c || has c s

-- p in s
unfoldable pub contains : Text → Text → Bool
unfolding starts_with
contains p [] = starts_with p []
contains p (x ∷ s) = starts_with p (x ∷ s) || contains p s

-- One character of `s.lower()`. Outside ASCII only the two letters whose lower case has an ASCII
-- letter are changed: the Kelvin sign, and the dotted capital I, which becomes two characters.
unfoldable pub lower_char : ℕ → Text
lower_char c =
    if within b'A' b'Z' c
    then (c + 32) ∷ []
    else if c == 0x212A
    then b'k' ∷ []
    else if c == 0x130
    then b'i' ∷ 0x307 ∷ []
    else c ∷ []

unfoldable pub lower : Text → Text
unfolding lower_char
lower [] = []
lower (c ∷ s) = lower_char c ++ lower s

unfoldable pub is_space : ℕ → Bool
is_space c =
    within 9 13 c
    || within 28 32 c
    || c == 0x85
    || c == 0xA0
    || c == 0x1680
    || within 0x2000 0x200A c
    || within 0x2028 0x2029 c
    || c == 0x202F
    || c == 0x205F
    || c == 0x3000

unfoldable pub is_digit : ℕ → Bool
is_digit c = within b'0' b'9' c

-- \w
unfoldable pub is_word : ℕ → Bool
is_word c = within b'a' b'z' c || within b'A' b'Z' c || within b'0' b'9' c || c == b'_'

-- s.lstrip(...), for a class of characters.
unfoldable pub lstrip_of : (ℕ → Bool) → Text → Text
lstrip_of p [] = []
lstrip_of p (c ∷ s) = let rest = lstrip_of p s in if p c then rest else c ∷ s

-- What is left of `c ∷ s` at the right end, from what is left of `s`.
unfoldable pub rstrip_cons : Bool → ℕ → Text → Text
rstrip_cons true c [] = []
rstrip_cons _ c s = c ∷ s

unfoldable pub rstrip_of : (ℕ → Bool) → Text → Text
unfolding rstrip_cons
rstrip_of p [] = []
rstrip_of p (c ∷ s) = rstrip_cons (p c) c (rstrip_of p s)

unfoldable pub strip_of : (ℕ → Bool) → Text → Text
unfolding lstrip_of rstrip_of
strip_of p s = rstrip_of p (lstrip_of p s)

-- s.strip()
unfoldable pub strip : Text → Text
unfolding strip_of is_space
strip = strip_of is_space

-- The first piece grows by one character.
abbrev pub grow_first : ℕ → List Text → List Text
grow_first c [] = (c ∷ []) ∷ []
grow_first c (p ∷ ps) = (c ∷ p) ∷ ps

-- s.split(c), for one character.
unfoldable pub split_on : ℕ → Text → List Text
split_on c [] = [] ∷ []
split_on c (x ∷ s) = let rest = split_on c s in if x == c then [] ∷ rest else grow_first x rest

-- sep.join(parts)
unfoldable pub join : Text → List Text → Text
join sep [] = []
join sep (p ∷ []) = p
join sep (p ∷ q ∷ ps) = p ++ (sep ++ join sep (q ∷ ps))

-- What `partition` makes of `x ∷ s`, from its result at `s`.
unfoldable pub partition_step : Bool → ℕ → Text → Option (Text × Text) → Option (Text × Text)
partition_step true x s r = some ([], s)
partition_step false x s none = none
partition_step false x s (some (a, b)) = some (x ∷ a, b)

-- What stands before and after the first `c`, as `s.partition(c)` gives them; `none` without one.
unfoldable pub partition : ℕ → Text → Option (Text × Text)
unfolding partition_step
partition c [] = none
partition c (x ∷ s) = partition_step (x == c) x s (partition c s)

-- What `split_last` makes of `x ∷ s`, from its result at `s`.
unfoldable pub split_last_step : Bool → ℕ → Text → Option (Text × Text) → Option (Text × Text)
split_last_step hit x s (some (a, b)) = some (x ∷ a, b)
split_last_step true x s none = some ([], s)
split_last_step false x s none = none

-- What stands before and after the last `c`, as `s.rsplit(c, 1)` gives them; `none` without one.
unfoldable pub split_last : ℕ → Text → Option (Text × Text)
unfolding split_last_step
split_last c [] = none
split_last c (x ∷ s) = split_last_step (x == c) x s (split_last c s)

-- One more character in front of a match.
unfoldable pub prepend : ℕ → Option Text → Option Text
prepend c none = none
prepend c (some s) = some (c ∷ s)

-- s[:-1]
unfoldable pub drop_last : Text → Text
drop_last [] = []
drop_last (x ∷ []) = []
drop_last (x ∷ y ∷ s) = x ∷ drop_last (y ∷ s)

-- s[1:-1]
unfoldable pub inner : Text → Text
unfolding drop_last
inner s = drop 1 (drop_last s)

-- What follows the first `p`.
unfoldable pub find_after : Text → Text → Option Text
unfolding starts_with
find_after p [] = if starts_with p [] then some [] else none
find_after p (x ∷ s) =
    let rest = find_after p s in
    if starts_with p (x ∷ s) then some (drop (length p) (x ∷ s)) else rest

-- The replacement, with the characters of a match that are still to be skipped.
replace_from : Text → Text → ℕ → Text → Text
replace_from p r k [] = []
replace_from p r (suc k) (c ∷ s) = replace_from p r k s
replace_from p r zero (c ∷ s) =
    let hit = starts_with p (c ∷ s) in
    let rest = replace_from p r (if hit then length p - 1 else 0) s in
    if hit then r ++ rest else c ∷ rest

-- s.replace(p, r), for a `p` that is not empty.
unfoldable pub replace : Text → Text → Text → Text
unfolding replace_from starts_with
replace p r s = replace_from p r 0 s
