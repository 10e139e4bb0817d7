-- ===== src/Value.antt =====
-- Python values as YAML, TOML and JSON give them, with dicts in insertion order.
pub mod Laws
use marimo_operator.Base.{
  ℕ, zero, suc, ◌+◌, ◌-◌, ◌*◌, Text, same, strip, is_digit, Bool, true, false, not, ◌&&◌, ◌||◌,
  Option, none, some, List, [], ◌∷◌, ◌==◌, if◌then◌else◌,
}

-- `negsuc n` is -(n + 1).
pub data ℤ : Type 0 where
  pos : ℕ → ℤ
  negsuc : ℕ → ℤ

-- Any other scalar (a float, a timestamp): what `bool` and `int` give for it.
pub record Scalar : Type 0 where
  pub truth : Bool
  pub whole : Option ℤ

mutual
  pub data Value : Type 0 where
    null : Value
    bool : Bool → Value
    int : ℤ → Value
    str : Text → Value
    list : Items → Value
    dict : Fields → Value
    scalar : Scalar → Value

  pub data Items : Type 0 where
    nil : Items
    cons : Value → Items → Items

  pub data Fields : Type 0 where
    empty : Fields
    field : Text → Value → Fields → Fields

abbrev pub items : List Value → Items
items [] = nil
items (v ∷ vs) = cons v (items vs)

abbrev pub to_list : Items → List Value
to_list nil = []
to_list (cons v vs) = v ∷ to_list vs

-- d.get(k)
unfoldable pub get : Text → Fields → Option Value
unfolding same
get k empty = none
get k (field j v d) = if same j k then some v else get k d

-- d[k] = v
unfoldable pub put : Text → Value → Fields → Fields
unfolding same
put k v empty = field k v empty
put k v (field j w d) = if same j k then field j v d else field j w (put k v d)

-- k in d
abbrev pub has_key : Text → Fields → Bool
has_key k d = elim (get k d) [ none ↦ false | some _ ↦ true ]

abbrev pub is_empty : Fields → Bool
is_empty empty = true
is_empty (field k v d) = false

-- bool(v)
unfoldable pub truthy : Value → Bool
truthy null = false
truthy (bool b) = b
truthy (int (pos n)) = not (n == 0)
truthy (int (negsuc n)) = true
truthy (str []) = false
truthy (str (c ∷ s)) = true
truthy (list nil) = false
truthy (list (cons v vs)) = true
truthy (dict d) = not (is_empty d)
truthy (scalar s) = s.truth

-- The digits of `int(s)`, where single underscores may stand between digits.
unfoldable pub digits_value : Bool → ℕ → Text → Option ℕ
unfolding is_digit
digits_value after n [] = if after then some n else none
digits_value after n (c ∷ s) =
    let digit = is_digit c in
    let rest = digits_value digit (if digit then n * 10 + (c - 48) else n) s in
    if digit || (c == b'_' && after) then rest else none

unfoldable pub negated : Option ℕ → Option ℤ
negated none = none
negated (some zero) = some (pos 0)
negated (some (suc n)) = some (negsuc n)

unfoldable pub positive : Option ℕ → Option ℤ
positive none = none
positive (some n) = some (pos n)

unfoldable pub signed_value : Text → Option ℤ
unfolding digits_value negated positive
signed_value [] = none
signed_value (c ∷ s) =
    if c == b'-'
    then negated (digits_value false 0 s)
    else if c == b'+'
    then positive (digits_value false 0 s)
    else positive (digits_value false 0 (c ∷ s))

-- int(v). `none` is a `ValueError` or a `TypeError`.
unfoldable pub int_of : Value → Option ℤ
unfolding signed_value strip
int_of null = none
int_of (bool b) = some (pos (if b then 1 else 0))
int_of (int n) = some n
int_of (str s) = signed_value (strip s)
int_of (list vs) = none
int_of (dict d) = none
int_of (scalar s) = s.whole
