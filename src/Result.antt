-- ===== src/Result.antt =====
-- Results of code that may raise, and the exceptions that the plugin meets.
use marimo_operator.Base.{ℕ, ◌≡◌, refl, arith}

pub data Exn : Type 0 where
  value_error type_error attribute_error key_error os_error process_error overflow_error yaml_error
        foreign_value :
      Exn
  exit : ℕ → Exn

pub data Result {ℓ} (A : Type ℓ) : Type ℓ where
  raise : Exn → Result A
  ok : A → Result A

infixl 5 ◌>>=◌
-- What follows runs only after success.
abbrev pub ◌>>=◌ {ℓ κ} : {A : Type ℓ} → {B : Type κ} → Result A → (A → Result B) → Result B
raise x >>= k = raise x
ok a >>= k = k a

module _ {ℓ κ} {A : Type ℓ} {B : Type κ} where
  -- A chain that succeeds has a first part that does.
  pub >>=-eq-ok :
      (r : Result A) (k : A → Result B) {y : B}
      → (r >>= k) ≡ ok y
      → (x : A) × (r ≡ ok x) × (k x ≡ ok y)
  >>=-eq-ok (raise x) k e = ground arith
  >>=-eq-ok (ok x) k e = (x, refl, e)
