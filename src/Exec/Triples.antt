-- ===== src/Exec/Triples.antt =====
-- What holds of a command's answer and of the world behind it, if it ends without an exception.
use mathlib.Core.Path.{subst}
use marimo_operator.Base.{◌≡◌, refl, ap, Bool, true, false, if◌then◌else◌}
use marimo_operator.Exec.{World, M, next, ◌>>=◌, ◌>>◌, pure}
use marimo_operator.Exec.Keeps.{Keeps}
use marimo_operator.Result.{Exn, Result, ok, raise}

pub record Triple {A : Type 0} (P : World → Type 0) (m : M A) (Q : A → World → Type 0)
    : Type 0 where
  pub at : (w : World) → P w → (a : A) → (m w).0 ≡ ok a → Q a (m w).1

abbrev pub Any : World → Type 0
Any w = Unit

pub raise-ne-ok : {A : Type 0} (x : Exn) {a : A} → raise x ≡ ok a → ⊥
raise-ne-ok x e = cc

pub ok-injective : {A : Type 0} {a b : A} → ok a ≡ ok b → a ≡ b
ok-injective e = cc

-- What follows a part that ends well.
pub next-at :
    {A B : Type 0} (r : Result A × World) (f : A → M B) (a : A) → r.0 ≡ ok a → next r f ≡ f a r.1
next-at (ok x, w) f a e = ap (λ y. f y w) (ok-injective e)
next-at (raise x, w) f a e = absurd (raise-ne-ok x e)

next-triple :
    {A B : Type 0} {R : A → World → Type 0} {Q : B → World → Type 0} (r : Result A × World)
    (f : A → M B)
    → ((a : A) → r.0 ≡ ok a → R a r.1)
    → ((a : A) → Triple (R a) (f a) Q)
    → (b : B) → (next r f).0 ≡ ok b
    → Q b (next r f).1
next-triple (ok x, w) f h k b e = (k x).at w (h x refl) b e
next-triple (raise x, w) f h k b e = absurd (raise-ne-ok x e)

module _ {P : World → Type 0} where
  pub Triple-of_Keeps : {A : Type 0} (m : M A) → Keeps P m → Triple P m (λ a. P)
  Triple-of_Keeps m k = record { at = λ w h a e. k.at w h }

  pub Triple-bind :
      {A B : Type 0} {R : A → World → Type 0} {Q : B → World → Type 0} (m : M A) (f : A → M B)
      → Triple P m R
      → ((a : A) → Triple (R a) (f a) Q)
      → Triple P (m >>= f) Q
  Triple-bind m f t k = record { at = λ w h. next-triple (m w) f (t.at w h) k }

  pub Triple-then :
      {B : Type 0} {Q : B → World → Type 0} (m : M (Unit {0})) (n : M B)
      → Keeps P m
      → Triple P n Q
      → Triple P (m >> n) Q
  Triple-then m n k t = Triple-bind m (λ _. n) (Triple-of_Keeps m k) (λ _. t)

  pub Triple-pure :
      {A : Type 0} {Q : A → World → Type 0} (a : A)
      → ((w : World) → P w → Q a w)
      → Triple P (pure a) Q
  Triple-pure {Q} a h = record { at = λ w p b e. subst (λ x. Q x w) (ok-injective e) (h w p) }

  pub Triple-if :
      {A : Type 0} {Q : A → World → Type 0} (b : Bool) (m n : M A)
      → Triple P m Q
      → Triple P n Q
      → Triple P (if b then m else n) Q
  Triple-if true m n s t = s
  Triple-if false m n s t = t

  -- What is kept, and what holds from any world.
  pub Triple-with :
      {A : Type 0} {E Q : A → World → Type 0} (m : M A)
      → Keeps P m
      → Triple Any m E
      → ((a : A) (w : World) → P w → E a w → Q a w)
      → Triple P m Q
  Triple-with m k t f = record { at = λ w h a e. f a (m w).1 (k.at w h) (t.at w tt a e) }
