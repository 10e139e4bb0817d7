-- ===== src/Base/Decimal.antt =====
-- Python's `str(n)` and `int(s)` on digits.
use Prim.Native.Nat.{ℕ, zero, suc, ◌+◌, ◌-◌, ◌*◌, ◌/◌, ◌%◌, ◌<◌}
use mathlib.Core.Path.{◌≡◌, ◌∙◌, ap}
use mathlib.Core.Logic.{inl, inr, ◌≢◌}
use mathlib.Core.Bool.{true}
use mathlib.Core.List.{[], ◌∷◌}
use native.Mathlib.Omega.{arith}
use marimo_operator.Base.Bools.{◌==◌, if◌then◌else◌, Bool-cases}
use marimo_operator.Base.Lists.{All}
use marimo_operator.Base.Strings.{Text, is_digit}

-- The digits of `n` in front of `out`.
decimal_onto : ℕ → ℕ → Text → Text
decimal_onto zero n out = out
decimal_onto (suc f) n out =
    let more = decimal_onto f (n / 10) ((48 + n % 10) ∷ out) in
    if n / 10 == 0 then (48 + n % 10) ∷ out else more

-- str(n)
unfoldable pub decimal : ℕ → Text
unfolding decimal_onto
decimal n = decimal_onto (suc n) n []

-- int(s) for a text of digits, on top of the digits read before.
unfoldable pub value_onto : ℕ → Text → ℕ
value_onto n [] = n
value_onto n (c ∷ s) = value_onto (n * 10 + (c - 48)) s

unfoldable pub value : Text → ℕ
unfolding value_onto
value = value_onto 0

value-decimal_onto :
    (f n : ℕ) (out : Text) → n < f → value (decimal_onto f n out) ≡ value_onto n out
unfolding value decimal_onto
value-decimal_onto zero n out h = elim h [ ]
value-decimal_onto (suc f) n out h = elim (Bool-cases (n / 10 == 0)) [
  | inl done ↦ rw done (ap (λ (k : ℕ). value_onto k out) (ground arith))
  | inr more ↦ rw more (
      value-decimal_onto f (n / 10) ((48 + n % 10) ∷ out) (ground arith)
      ∙ ap (λ (k : ℕ). value_onto k out) (omega arith))
]

-- Reading a printed number gives it back, so different numbers print differently.
pub value-decimal : (n : ℕ) → value (decimal n) ≡ n
unfolding decimal value_onto
value-decimal n = value-decimal_onto (suc n) n [] (omega arith)

decimal_onto-digits :
    (f n : ℕ) (out : Text)
    → All (λ c. is_digit c ≡ true) out
    → All (λ c. is_digit c ≡ true) (decimal_onto f n out)
unfolding decimal_onto
decimal_onto-digits zero n out h = h
decimal_onto-digits (suc f) n out h = elim (Bool-cases (n / 10 == 0)) [
  | inl done ↦ rw done (last_digit n, h)
  | inr more ↦ rw more (decimal_onto-digits f (n / 10) _ (last_digit n, h))
]
  where
    last_digit : (m : ℕ) → is_digit (48 + m % 10) ≡ true
    last_digit m = unfold is_digit in ground arith

pub decimal-digits : (n : ℕ) → All (λ c. is_digit c ≡ true) (decimal n)
unfolding decimal
decimal-digits n = decimal_onto-digits (suc n) n [] tt

decimal_onto-ne-nil : (f n : ℕ) (out : Text) → out ≢ [] → decimal_onto f n out ≢ []
unfolding decimal_onto
decimal_onto-ne-nil zero n out h = h
decimal_onto-ne-nil (suc f) n out h = elim (Bool-cases (n / 10 == 0)) [
  | inl done ↦ rw done (λ e. cc)
  | inr more ↦ rw more (decimal_onto-ne-nil f (n / 10) _ (λ e. cc))
]

pub decimal-ne-nil : (n : ℕ) → decimal n ≢ []
unfolding decimal decimal_onto
decimal-ne-nil n = elim (Bool-cases (n / 10 == 0)) [
  | inl done ↦ rw done (λ e. cc)
  | inr more ↦ rw more (decimal_onto-ne-nil n (n / 10) _ (λ e. cc))
]
