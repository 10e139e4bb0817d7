-- ===== src/Slug/Label.antt =====
-- The shape of a slug.
use marimo_operator.Base.{
  ℕ, zero, suc, ◌≤◌, Text, ends_with, lower, lstrip_of, rstrip_of, rstrip_cons, strip_of,
  ends_with-rstrip_of, take, length, length-take, Bool, true, false, not, ◌&&◌, ◌||◌, ◌≡◌, refl, ap,
  List, [], ◌∷◌, arith,
}
use marimo_operator.Slug.{is_slug_char, is_dash, dash_runs, slug_whole, slugify}

-- Letters, digits and single dashes. The flag says that a dash, or the beginning, comes before.
unfoldable pub separated : Bool → Text → Bool
unfolding is_slug_char
separated dashed [] = true
separated dashed (c ∷ s) =
    let plain = is_slug_char c in
    let rest = separated (not plain) s in (plain || (is_dash c && not dashed)) && rest

separated-dash_runs : (inside : Bool) (s : Text) → separated inside (dash_runs inside s) ≡ true
unfolding dash_runs separated
separated-dash_runs inside [] = refl
separated-dash_runs inside (c ∷ s) = ground (arith, separated-dash_runs (not (is_slug_char c)) s)

separated-lstrip_of :
    (dashed : Bool) (s : Text)
    → separated dashed s ≡ true
    → separated true (lstrip_of is_dash s) ≡ true
unfolding separated lstrip_of
separated-lstrip_of dashed [] h = refl
separated-lstrip_of dashed (c ∷ s) h = ground (arith, separated-lstrip_of (not (is_slug_char c)) s)

separated-rstrip_cons :
    (dashed drop : Bool) (c : ℕ) (s : Text)
    → separated dashed (c ∷ s) ≡ true
    → separated dashed (rstrip_cons drop c s) ≡ true
unfolding rstrip_cons
separated-rstrip_cons dashed true c [] h = unfold separated in refl
separated-rstrip_cons dashed true c (d ∷ s) h = h
separated-rstrip_cons dashed false c s h = h

separated-rstrip_of :
    (dashed : Bool) (s : Text)
    → separated dashed s ≡ true
    → separated dashed (rstrip_of is_dash s) ≡ true
unfolding separated rstrip_of rstrip_cons
separated-rstrip_of dashed [] h = refl
separated-rstrip_of dashed (c ∷ s) h =
    separated-rstrip_cons dashed (is_dash c) c (rstrip_of is_dash s)
      (ground (arith, separated-rstrip_of (not (is_slug_char c)) s))

separated-take :
    (n : ℕ) (dashed : Bool) (s : Text)
    → separated dashed s ≡ true
    → separated dashed (take n s) ≡ true
unfolding separated
separated-take zero dashed s h = refl
separated-take (suc n) dashed [] h = refl
separated-take (suc n) dashed (c ∷ s) h = ground (arith, separated-take n (not (is_slug_char c)) s)

-- What Kubernetes asks of a label, but for its last character.
pub record IsSlug (s : Text) : Type 0 where
  pub fits : length s ≤ 63
  pub spelled : separated true s ≡ true

slug_whole-separated : (name : Text) → separated true (slug_whole name) ≡ true
unfolding slug_whole strip_of
slug_whole-separated name = separated-rstrip_of true _ (
    separated-lstrip_of false (dash_runs false (lower name))
      (separated-dash_runs false (lower name)))

-- A slug has at most 63 characters, which are lower-case letters, digits and dashes; it does not
-- begin with a dash, and no two dashes are neighbours.
pub slugify-IsSlug : (name : Text) → IsSlug (slugify name)
unfolding slugify
slugify-IsSlug name = record {
  fits = length-take 63 (slug_whole name);
  spelled = separated-take 63 true (slug_whole name) (slug_whole-separated name);
}

pub take-eq_of_le {ℓ} : {A : Type ℓ} (n : ℕ) (xs : List A) → length xs ≤ n → take n xs ≡ xs
take-eq_of_le zero [] h = refl
take-eq_of_le zero (x ∷ xs) h = absurd (omega arith)
take-eq_of_le (suc n) [] h = refl
take-eq_of_le (suc n) (x ∷ xs) h = ap (◌∷◌ x) (take-eq_of_le n xs (omega arith))

-- A slug that was not cut off does not end in a dash, so it is a valid label or empty.
pub slugify_end :
    (name : Text) → length (slug_whole name) ≤ 63 → ends_with b'-' (slugify name) ≡ false
unfolding slugify
slugify_end name h = rw (take-eq_of_le 63 (slug_whole name) h) (
    unfold slug_whole strip_of in
    ends_with-rstrip_of b'-' (lstrip_of is_dash (dash_runs false (lower name))))
