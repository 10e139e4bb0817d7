-- ===== src/Base.antt =====
-- Names that the other modules share: the libraries', passed on, and those of the children.
mod Bools
mod Lists
mod Decimal
mod TextLaws
mod Strings
unfoldable pub use Decimal.{decimal, value, value_onto}
pub use Decimal.{value-decimal, decimal-digits, decimal-ne-nil}
pub use TextLaws.*
pub use Bools.*
pub use Lists.*
unfoldable pub use Strings.{
  Text, codes, same, starts_with, ends_with, has, contains, lower, lower_char, is_space, is_digit,
  is_word, lstrip_of, rstrip_of, rstrip_cons, strip_of, strip, split_on, join, partition,
  split_last, inner, find_after, prepend, replace,
}
pub use Prim.Native.Nat.{ℕ, zero, suc, ◌+◌, ◌-◌, ◌*◌, ◌/◌, ◌%◌, ◌≤◌, ◌<◌}
pub use mathlib.Core.Path.{◌≡◌, refl, sym, ap, ◌∙◌, fun_ext}
pub use mathlib.Core.Logic.{◌≢◌, ◌↔◌, ◌⊎◌, inl, inr}
pub use mathlib.Core.Bool.{Bool, true, false, not, ◌&&◌, ◌||◌}
pub use mathlib.Core.Option.{Option, none, some}
pub use mathlib.Core.List.{List, [], ◌∷◌, ◌++◌, map}
pub use native.Mathlib.Omega.{arith}
