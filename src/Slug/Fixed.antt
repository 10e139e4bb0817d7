-- ===== src/Slug/Fixed.antt =====
-- `slugify` on names that are labels already.
use marimo_operator.Base.{
  ℕ, zero, suc, ◌≤◌, Text, ends_with, lower, lower_char, lstrip_of, rstrip_of, rstrip_cons,
  strip_of, take, length, Bool, true, false, not, ◌≡◌, refl, ap, ◌∙◌, [], ◌∷◌, ◌++◌, arith,
}
use marimo_operator.Slug.{is_slug_char, is_dash, dash_runs, slug_whole, slugify}
use marimo_operator.Slug.Label.{separated, take-eq_of_le}

-- Letters, digits and single dashes, with a dash at neither end. A label may be of any length.
pub record IsLabel (s : Text) : Type 0 where
  pub spelled : separated true s ≡ true
  pub end : ends_with b'-' s ≡ false

lower_fixed : (dashed : Bool) (s : Text) → separated dashed s ≡ true → lower s ≡ s
unfolding lower lower_char separated
lower_fixed dashed [] h = refl
lower_fixed dashed (c ∷ s) h = ground (arith, lower_fixed (not (is_slug_char c)) s)

dash_runs_fixed : (d : Bool) (s : Text) → separated d s ≡ true → dash_runs d s ≡ s
unfolding dash_runs separated
dash_runs_fixed d [] h = refl
dash_runs_fixed d (c ∷ s) h = ground (arith, dash_runs_fixed (not (is_slug_char c)) s)

separated_weak : (s : Text) → separated true s ≡ true → separated false s ≡ true
unfolding separated
separated_weak [] h = refl
separated_weak (c ∷ s) h = ground arith

lstrip_of_fixed : (s : Text) → separated true s ≡ true → lstrip_of is_dash s ≡ s
unfolding lstrip_of separated
lstrip_of_fixed [] h = refl
lstrip_of_fixed (c ∷ s) h = ground arith

rstrip_cons-cons : (b : Bool) (c d : ℕ) (s : Text) → rstrip_cons b c (d ∷ s) ≡ c ∷ d ∷ s
unfolding rstrip_cons
rstrip_cons-cons true c d s = refl
rstrip_cons-cons false c d s = refl

rstrip_of_fixed : (s : Text) → ends_with b'-' s ≡ false → rstrip_of is_dash s ≡ s
unfolding rstrip_of rstrip_cons ends_with
rstrip_of_fixed [] h = refl
rstrip_of_fixed (c ∷ []) h = ground arith
rstrip_of_fixed (c ∷ d ∷ s) h =
    ap (rstrip_cons (is_dash c) c) (rstrip_of_fixed (d ∷ s) h) ∙ rstrip_cons-cons (is_dash c) c d s

slug_whole_fixed : (s : Text) → IsLabel s → slug_whole s ≡ s
unfolding slug_whole strip_of
slug_whole_fixed s h = rw (lower_fixed true s h.spelled) (
    rw (dash_runs_fixed false s (separated_weak s h.spelled))
      (rw (lstrip_of_fixed s h.spelled) (rstrip_of_fixed s h.end)))

-- A label of at most 63 characters is its own slug.
pub slugify_fixed : (s : Text) → IsLabel s → length s ≤ 63 → slugify s ≡ s
unfolding slugify
slugify_fixed s h fits = rw (slug_whole_fixed s h) (take-eq_of_le 63 s fits)

take_dash : (p q : Text) (n : ℕ) → length p ≡ n → take (suc n) (p ++ (b'-' ∷ q)) ≡ p ++ (b'-' ∷ [])
take_dash [] q zero e = refl
take_dash [] q (suc n) e = absurd (omega arith)
take_dash (c ∷ p) q zero e = absurd (omega arith)
take_dash (c ∷ p) q (suc n) e = ap (◌∷◌ c) (take_dash p q n (omega arith))

ends_with-dash : (p : Text) → ends_with b'-' (p ++ (b'-' ∷ [])) ≡ true
unfolding ends_with
ends_with-dash [] = refl
ends_with-dash (c ∷ []) = refl
ends_with-dash (c ∷ d ∷ p) = ends_with-dash (d ∷ p)

-- A label whose 63rd character is a dash is cut to a name that ends in a dash, which Kubernetes
-- refuses.
pub slugify_cut :
    (p q : Text)
    → IsLabel (p ++ (b'-' ∷ q))
    → length p ≡ 62
    → ends_with b'-' (slugify (p ++ (b'-' ∷ q))) ≡ true
unfolding slugify
slugify_cut p q h e = rw (slug_whole_fixed _ h, take_dash p q 62 e) (ends_with-dash p)
