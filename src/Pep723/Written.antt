-- ===== src/Pep723/Written.antt =====
-- Values as a script block writes them, and what the two readers make of them.
use marimo_operator.Base.{
  ℕ, Text, codes, has, has-append, strip, strip_of_ends, strip_of-eq_of_lacks, is_space, is_digit,
  join, decimal, decimal-digits, decimal-ne-nil, All, map, ◌≡◌, ◌≢◌, refl, ap, true, false, List,
  [], ◌∷◌, ◌++◌, arith, inl,
}
use marimo_operator.Toml.{quoted, unquote, parse_toml_value}
use marimo_operator.Toml.RoundTrip.{
  quote, quoted_list, unquote-quote, digit-not-space, parse_toml_value-quote,
  parse_toml_value-decimal, parse_toml_value-quoted_list,
}
use marimo_operator.Value.{Value, str, int, pos, list, items}

-- A quoted text, a number, or a list of quoted texts.
pub data Written : Type 0 where
  text : Text → Written
  number : ℕ → Written
  texts : List Text → Written

abbrev pub printed : Written → Text
printed (text s) = quote b'"' s
printed (number n) = decimal n
printed (texts xs) = quoted_list xs

-- What is meant.
abbrev pub meaning : Written → Value
meaning (text s) = str s
meaning (number n) = int (pos n)
meaning (texts xs) = list (items (map str xs))

-- The text that is left if only quotes around it are taken off.
abbrev pub plain : Written → Value
plain (text s) = str s
plain (number n) = str (decimal n)
plain (texts xs) = str (quoted_list xs)

-- No newline, and no comma inside the items of a list.
abbrev pub IsWritten : Written → Type 0
IsWritten (text s) = has b'\n' s ≡ false
IsWritten (number n) = Unit
IsWritten (texts xs) = All (λ s. (has b'\n' s ≡ false) × (has b',' s ≡ false)) xs

-- A text of at least one character, whose first and last are no space.
pub record IsTight (s : Text) : Type 0 where
  pub stripped : strip s ≡ s
  pub front : Text
  pub final : ℕ
  pub parts : s ≡ front ++ (final ∷ [])
  pub final_not_space : is_space final ≡ false

brackets-IsTight :
    (c d : ℕ) (s : Text) → is_space c ≡ false → is_space d ≡ false → IsTight (c ∷ (s ++ (d ∷ [])))
brackets-IsTight c d s h k = record {
  stripped = unfold strip in strip_of_ends is_space c d s h k;
  front = c ∷ s;
  final = d;
  parts = refl;
  final_not_space = k;
}

abbrev EndsWell : Text → Type 0
EndsWell s = (m : Text) × (d : ℕ) × (s ≡ m ++ (d ∷ [])) × (is_space d ≡ false)

all_tight : (c : ℕ) (s : Text) → All (λ x. is_space x ≡ false) (c ∷ s) → EndsWell (c ∷ s)
all_tight c [] h = ([], c, refl, h.0)
all_tight c (x ∷ s) h = let (m, d, e, k) = all_tight x s h.1 in (c ∷ m, d, ap (λ t. c ∷ t) e, k)

digits-IsTight : (s : Text) → s ≢ [] → All (λ c. is_digit c ≡ true) s → IsTight s
digits-IsTight [] ne h = absurd (ne refl)
digits-IsTight (c ∷ s) ne h =
    let (m, d, e, k) = all_tight c s (digit-not-space (c ∷ s) h) in
    record {
      stripped = unfold strip in strip_of-eq_of_lacks is_space (c ∷ s) (digit-not-space (c ∷ s) h);
      front = m;
      final = d;
      parts = e;
      final_not_space = k;
    }

pub printed-IsTight : (v : Written) → IsTight (printed v)
printed-IsTight (text s) =
    brackets-IsTight b'"' b'"' s (unfold is_space in refl) (unfold is_space in refl)
printed-IsTight (number n) = digits-IsTight (decimal n) (decimal-ne-nil n) (decimal-digits n)
printed-IsTight (texts xs) =
    brackets-IsTight b'[' b']' (join (codes ", ") (map (quote b'"') xs)) (unfold is_space in refl)
      (unfold is_space in refl)

digits-has : (s : Text) → All (λ c. is_digit c ≡ true) s → has b'\n' s ≡ false
unfolding has is_digit
digits-has [] h = refl
digits-has (c ∷ s) h = ground (arith, digits-has s h.1)

quote-has : (s : Text) → has b'\n' s ≡ false → has b'\n' (quote b'"' s) ≡ false
quote-has s h = unfold has in rw (has-append b'\n' s (codes "\"")) (unfold has in rw h refl)

join-has :
    (xs : List Text)
    → All (λ s. (has b'\n' s ≡ false) × (has b',' s ≡ false)) xs
    → has b'\n' (join (codes ", ") (map (quote b'"') xs)) ≡ false
join-has [] h = unfold join has in refl
join-has (x ∷ []) h = unfold join in quote-has x h.0.0
join-has (x ∷ y ∷ ys) h = joined (join-has (y ∷ ys) h.1)
  where
    joined :
        has b'\n' (join (codes ", ") (map (quote b'"') (y ∷ ys))) ≡ false
        → has b'\n' (join (codes ", ") (map (quote b'"') (x ∷ y ∷ ys))) ≡ false
    joined e =
        unfold join in rw (has-append b'\n' (quote b'"' x), quote-has x h.0.0) (unfold has in e)

pub printed-has : (v : Written) → IsWritten v → has b'\n' (printed v) ≡ false
printed-has (text s) h = quote-has s h
printed-has (number n) h = digits-has (decimal n) (decimal-digits n)
printed-has (texts xs) h =
    unfold has in
    rw (has-append b'\n' (join (codes ", ") (map (quote b'"') xs)) (codes "]"), join-has xs h)
      (unfold has in refl)

no_commas :
    (xs : List Text)
    → All (λ s. (has b'\n' s ≡ false) × (has b',' s ≡ false)) xs
    → All (λ s. has b',' s ≡ false) xs
no_commas [] h = tt
no_commas (x ∷ xs) h = (h.0.1, no_commas xs h.1)

-- The reader of a section understands what is written.
pub parse_toml_value-printed :
    (v : Written) → IsWritten v → parse_toml_value (printed v) ≡ meaning v
parse_toml_value-printed (text s) h = parse_toml_value-quote b'"' s (inl refl)
parse_toml_value-printed (number n) h = parse_toml_value-decimal n
parse_toml_value-printed (texts xs) h = parse_toml_value-quoted_list xs (no_commas xs h)

unquote-digits : (s : Text) → All (λ c. is_digit c ≡ true) s → unquote s ≡ s
unfolding unquote quoted is_digit
unquote-digits [] h = refl
unquote-digits (c ∷ s) h = ground arith

unquote-bracket : (s : Text) → unquote (b'[' ∷ s) ≡ b'[' ∷ s
unfolding unquote quoted
unquote-bracket s = refl

-- The reader of the first loop only takes quotes off.
pub unquote-printed : (v : Written) → str (unquote (printed v)) ≡ plain v
unquote-printed (text s) = ap str (unquote-quote s)
unquote-printed (number n) = ap str (unquote-digits (decimal n) (decimal-digits n))
unquote-printed (texts xs) = ap str (unquote-bracket _)
