-- ===== src/Exec/Keeps.antt =====
-- Invariants of the world that a command keeps, however it ends.
use mathlib.Core.Path.{subst}
use marimo_operator.Base.{◌≡◌, sym, Bool, true, false, if◌then◌else◌}
use marimo_operator.Paths.{FilePath}
use marimo_operator.Result.{Exn, Result, ok, raise}
use marimo_operator.Exec.{World, M, next, ◌>>=◌, ◌>>◌, pure, throw, lift, read_text, is_dir, exists}

pub record Keeps {A : Type 0} (P : World → Type 0) (m : M A) : Type 0 where
  pub at : (w : World) → P w → P (m w).1

module _ {P : World → Type 0} where
  pub next-keeps :
      {A B : Type 0} (r : Result A × World) (f : A → M B)
      → P r.1
      → ((a : A) → Keeps P (f a))
      → P (next r f).1
  next-keeps (ok a, w) f h k = (k a).at w h
  next-keeps (raise e, w) f h k = h

  pub Keeps-bind :
      {A B : Type 0} (m : M A) (f : A → M B)
      → Keeps P m
      → ((a : A) → Keeps P (f a))
      → Keeps P (m >>= f)
  Keeps-bind m f k l = record { at = λ w h. next-keeps (m w) f (k.at w h) l }

  pub Keeps-then :
      {B : Type 0} (m : M (Unit {0})) (n : M B) → Keeps P m → Keeps P n → Keeps P (m >> n)
  Keeps-then m n k l = Keeps-bind m (λ _. n) k (λ _. l)

  pub Keeps-lift : {A : Type 0} (r : Result A) → Keeps P (lift r)
  Keeps-lift r = record { at = λ w h. h }

  pub Keeps-pure : {A : Type 0} (a : A) → Keeps P (pure a)
  Keeps-pure a = record { at = λ w h. h }

  pub Keeps-throw : {A : Type 0} (e : Exn) → Keeps P (throw {A = A} e)
  Keeps-throw e = record { at = λ w h. h }

  pub Keeps-if :
      {A : Type 0} (b : Bool) (m n : M A) → Keeps P m → Keeps P n → Keeps P (if b then m else n)
  Keeps-if true m n k l = k
  Keeps-if false m n k l = l

  pub Keeps-read_text : (p : FilePath) → Keeps P (read_text p)
  Keeps-read_text p = record { at = λ w h. unfold read_text in h }

  pub Keeps-is_dir : (p : FilePath) → Keeps P (is_dir p)
  Keeps-is_dir p = record { at = λ w h. unfold is_dir in h }

  pub Keeps-exists : (p : FilePath) → Keeps P (exists p)
  Keeps-exists p = record { at = λ w h. unfold exists in h }

  -- What only reads keeps everything.
  pub Keeps-reads : {A : Type 0} (m : M A) → ((w : World) → (m w).1 ≡ w) → Keeps P m
  Keeps-reads m e = record { at = λ w h. subst P (sym (e w)) h }

  -- A command is kept by what it is made of.
  pub Keeps-of : {A : Type 0} {m n : M A} → Keeps P n → m ≡ n → Keeps P m
  Keeps-of k e = subst (Keeps P) (sym e) k
