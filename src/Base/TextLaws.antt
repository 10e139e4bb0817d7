-- ===== src/Base/TextLaws.antt =====
-- Laws of the string methods.
use Prim.Native.Nat.{ℕ}
use mathlib.Core.Path.{◌≡◌, refl, ap}
use mathlib.Core.Logic.{◌↔◌, ◌≢◌}
use mathlib.Core.Bool.{Bool, true, false, ◌||◌}
use mathlib.Core.Option.{none, some}
use mathlib.Core.List.{List, [], ◌∷◌, ◌++◌}
use native.Mathlib.Omega.{arith}
use marimo_operator.Base.Bools.{◌==◌}
use marimo_operator.Base.Lists.{All, drop, length}
use marimo_operator.Base.Strings.{
  Text, same, starts_with, ends_with, has, rstrip_of, rstrip_cons, partition, split_last, split_on,
  join, grow_first, inner, drop_last, strip_of, lstrip_of,
}

pub same_iff : (a b : Text) → (same a b ≡ true) ↔ (a ≡ b)
unfolding same
same_iff (x ∷ a) (y ∷ b) = ground (arith, same_iff a b)
same_iff _ _ = ground arith

pub same_refl : (a : Text) → same a a ≡ true
same_refl a = (same_iff a a).1 refl

pub starts_with-append : (p s : Text) → starts_with p (p ++ s) ≡ true
unfolding starts_with
starts_with-append [] s = refl
starts_with-append (x ∷ p) s = ground (arith, starts_with-append p s)

pub starts_with→append : (p s : Text) → starts_with p s ≡ true → s ≡ p ++ drop (length p) s
unfolding starts_with
starts_with→append [] s h = refl
starts_with→append (x ∷ p) [] h = cc
starts_with→append (x ∷ p) (y ∷ s) h = ground (arith, starts_with→append p s)

pub drop-append : (p s : Text) → drop (length p) (p ++ s) ≡ s
drop-append [] s = refl
drop-append (x ∷ p) s = drop-append p s

-- What `rstrip` leaves does not end in a stripped character.
pub ends_with-rstrip_of : (c : ℕ) (s : Text) → ends_with c (rstrip_of (λ x. x == c) s) ≡ false
unfolding ends_with rstrip_of rstrip_cons
ends_with-rstrip_of c [] = refl
ends_with-rstrip_of c (x ∷ s) = ground (arith, ends_with-rstrip_of c s)

-- `partition` finds the first separator.
pub partition-append :
    (c : ℕ) (a b : Text) → has c a ≡ false → partition c (a ++ (c ∷ b)) ≡ some (a, b)
unfolding partition has
partition-append c [] b h = ground (arith)
partition-append c (x ∷ a) b h = ground (arith, partition-append c a b)

split_last-eq-none : (c : ℕ) (s : Text) → has c s ≡ false → split_last c s ≡ none
unfolding split_last has
split_last-eq-none c [] h = refl
split_last-eq-none c (x ∷ s) h = ground (arith, split_last-eq-none c s)

-- `rsplit` finds the last separator.
pub split_last-append :
    (c : ℕ) (a b : Text) → has c b ≡ false → split_last c (a ++ (c ∷ b)) ≡ some (a, b)
unfolding split_last
split_last-append c [] b h = ground (arith, split_last-eq-none c b h)
split_last-append c (x ∷ a) b h = ground (arith, split_last-append c a b h)

join-grow_first :
    (sep : Text) (x : ℕ) (ps : List Text) → ps ≢ [] → join sep (grow_first x ps) ≡ x ∷ join sep ps
unfolding join
join-grow_first sep x [] h = absurd (h refl)
join-grow_first sep x (p ∷ []) h = refl
join-grow_first sep x (p ∷ q ∷ ps) h = refl

split_on-ne-nil : (c : ℕ) (s : Text) → split_on c s ≢ []
unfolding split_on
split_on-ne-nil c [] h = cc
split_on-ne-nil c (x ∷ s) h = ground arith

-- `split` at a separator, and without one.
pub split_on-append :
    (c : ℕ) (a b : Text) → has c a ≡ false → split_on c (a ++ (c ∷ b)) ≡ a ∷ split_on c b
unfolding split_on has
split_on-append c [] b h = ground arith
split_on-append c (x ∷ a) b h = ground (arith, split_on-append c a b)

pub split_on-eq-one : (c : ℕ) (a : Text) → has c a ≡ false → split_on c a ≡ a ∷ []
unfolding split_on has
split_on-eq-one c [] h = refl
split_on-eq-one c (x ∷ a) h = ground (arith, split_on-eq-one c a)

pub has-append : (c : ℕ) (a b : Text) → has c (a ++ b) ≡ (has c a || has c b)
unfolding has
has-append c [] b = refl
has-append c (x ∷ a) b = ground (arith, has-append c a b)

pub ends_with-concat : (c d : ℕ) (s : Text) → ends_with c (s ++ (d ∷ [])) ≡ d == c
unfolding ends_with
ends_with-concat c d [] = refl
ends_with-concat c d (x ∷ []) = refl
ends_with-concat c d (x ∷ y ∷ s) = ends_with-concat c d (y ∷ s)

drop_last-concat : (c : ℕ) (s : Text) → drop_last (s ++ (c ∷ [])) ≡ s
unfolding drop_last
drop_last-concat c [] = refl
drop_last-concat c (x ∷ []) = refl
drop_last-concat c (x ∷ y ∷ s) = ap (◌∷◌ x) (drop_last-concat c (y ∷ s))

pub inner-quotes : (c d : ℕ) (s : Text) → inner (c ∷ (s ++ (d ∷ []))) ≡ s
unfolding inner
inner-quotes c d s = ap (drop 1) (drop_last-concat d (c ∷ s))

module _ (p : ℕ → Bool) where
  rstrip_cons-cons : (b : Bool) (c d : ℕ) (s : Text) → rstrip_cons b c (d ∷ s) ≡ c ∷ d ∷ s
  unfolding rstrip_cons
  rstrip_cons-cons true c d s = refl
  rstrip_cons-cons false c d s = refl

  rstrip_of-concat : (d : ℕ) (s : Text) → p d ≡ false → rstrip_of p (s ++ (d ∷ [])) ≡ s ++ (d ∷ [])
  unfolding rstrip_of
  rstrip_of-concat d [] h = rw h (unfold rstrip_cons in refl)
  rstrip_of-concat d (c ∷ []) h = rw (rstrip_of-concat d [] h) (rstrip_cons-cons (p c) c d [])
  rstrip_of-concat d (c ∷ x ∷ s) h =
      rw (rstrip_of-concat d (x ∷ s) h) (rstrip_cons-cons (p c) c x (s ++ (d ∷ [])))

  -- A text whose ends are not stripped is left alone, also behind stripped characters.
  pub strip_of_ends :
      (c d : ℕ) (s : Text)
      → p c ≡ false
      → p d ≡ false
      → strip_of p (c ∷ (s ++ (d ∷ []))) ≡ c ∷ (s ++ (d ∷ []))
  unfolding strip_of lstrip_of
  strip_of_ends c d s h k = rw h (rstrip_of-concat d (c ∷ s) k)

  pub strip_of-cons : (c : ℕ) (s : Text) → p c ≡ true → strip_of p (c ∷ s) ≡ strip_of p s
  unfolding strip_of lstrip_of
  strip_of-cons c s h = rw h

  pub rstrip_of-eq_of_lacks : (s : Text) → All (λ c. p c ≡ false) s → rstrip_of p s ≡ s
  unfolding rstrip_of rstrip_cons
  rstrip_of-eq_of_lacks [] h = refl
  rstrip_of-eq_of_lacks (c ∷ s) h = rw (h.0, rstrip_of-eq_of_lacks s h.1) refl

  pub strip_of-eq_of_lacks : (s : Text) → All (λ c. p c ≡ false) s → strip_of p s ≡ s
  unfolding strip_of lstrip_of
  strip_of-eq_of_lacks [] h = rstrip_of-eq_of_lacks [] tt
  strip_of-eq_of_lacks (c ∷ s) h = rw h.0 (rstrip_of-eq_of_lacks (c ∷ s) h)

  rstrip_of-lacks_one :
      (s : Text) (x : ℕ) → All (λ c. p c ≡ false) s → p x ≡ true → rstrip_of p (s ++ (x ∷ [])) ≡ s
  unfolding rstrip_of rstrip_cons
  rstrip_of-lacks_one [] x h k = rw k refl
  rstrip_of-lacks_one (c ∷ s) x h k = rw (h.0, rstrip_of-lacks_one s x h.1 k) refl

  -- One stripped character behind the text.
  pub strip_of-concat :
      (s : Text) (x : ℕ) → All (λ c. p c ≡ false) s → p x ≡ true → strip_of p (s ++ (x ∷ [])) ≡ s
  unfolding strip_of lstrip_of
  strip_of-concat [] x h k = rw k (rstrip_of-eq_of_lacks [] tt)
  strip_of-concat (c ∷ s) x h k = rw h.0 (rstrip_of-lacks_one (c ∷ s) x h k)
