-- ===== src/Toml/RoundTrip.antt =====
-- Values that are written out and read back.
use mathlib.Core.Path.{ap₂}
use mathlib.Core.List.{append_assoc}
use marimo_operator.Base.{
  ℕ, Text, codes, has, inner-quotes, ends_with-concat, strip, strip_of_ends, strip_of-cons,
  strip_of-eq_of_lacks, is_space, is_digit, join, split_on, split_on-append, split_on-eq-one,
  has-append, value, decimal, value-decimal, decimal-digits, decimal-ne-nil, All, map, true, false,
  ◌≡◌, ◌≢◌, refl, sym, ap, ◌∙◌, ◌⊎◌, inl, inr, List, [], ◌∷◌, ◌++◌, arith, ◌==◌,
}
use marimo_operator.Value.{str, int, pos, list, items}
use marimo_operator.Toml.{
  quoted, unquote, item_value, list_value, all_digits, plain_value, stripped_value,
  parse_toml_value,
}

abbrev pub quote : ℕ → Text → Text
quote q s = q ∷ (s ++ (q ∷ []))

abbrev pub IsQuote : ℕ → Type 0
IsQuote q = (q ≡ b'"') ⊎ (q ≡ b'\'')

pub strip-quote : (q : ℕ) (s : Text) → IsQuote q → strip (quote q s) ≡ quote q s
unfolding strip is_space
strip-quote q s (inl e) = rw e (strip_of_ends is_space b'"' b'"' s refl refl)
strip-quote q s (inr e) = rw e (strip_of_ends is_space b'\'' b'\'' s refl refl)

quoted-quote : (q r : ℕ) (s : Text) → quoted q (quote r s) ≡ r == q
unfolding quoted
quoted-quote q r s = rw (ends_with-concat q r (r ∷ s)) (ground arith)

-- A text in quotes of either kind is read as that text, whatever it holds.
pub parse_toml_value-quote : (q : ℕ) (s : Text) → IsQuote q → parse_toml_value (quote q s) ≡ str s
unfolding parse_toml_value stripped_value
parse_toml_value-quote q s k =
    rw (strip-quote q s k, quoted-quote b'"' q s, quoted-quote b'\'' q s, inner-quotes q q s)
      (ground arith)

pub digit-not-space : (s : Text) → All (λ c. is_digit c ≡ true) s → All (λ c. is_space c ≡ false) s
digit-not-space [] h = tt
digit-not-space (c ∷ s) h = (digit_char c h.0, digit-not-space s h.1)
  where
    digit_char : (d : ℕ) → is_digit d ≡ true → is_space d ≡ false
    digit_char d k = unfold is_digit is_space in ground arith

all_digits-All : (s : Text) → All (λ c. is_digit c ≡ true) s → all_digits s ≡ true
all_digits-All [] h = refl
all_digits-All (c ∷ s) h = ground (arith, all_digits-All s h.1)

digit-ne : (c q : ℕ) → is_digit c ≡ true → is_digit q ≡ false → q == c ≡ false
unfolding is_digit
digit-ne c q h k = ground arith

stripped_value-digits :
    (s : Text) → s ≢ [] → All (λ c. is_digit c ≡ true) s → stripped_value s ≡ int (pos (value s))
unfolding stripped_value plain_value
stripped_value-digits [] ne h = absurd (ne refl)
stripped_value-digits (c ∷ s) ne h =
    rw (digit-ne c b'"' h.0 refl, digit-ne c b'\'' h.0 refl, digit-ne c b'[' h.0 refl)
      (rw (all_digits-All (c ∷ s) h) refl)

-- A printed number is read as that number.
pub parse_toml_value-decimal : (n : ℕ) → parse_toml_value (decimal n) ≡ int (pos n)
unfolding parse_toml_value strip
parse_toml_value-decimal n =
    rw (strip_of-eq_of_lacks is_space (decimal n) (digit-not-space (decimal n) (decimal-digits n)))
      (stripped_value-digits (decimal n) (decimal-ne-nil n) (decimal-digits n) ∙ rw value-decimal)

-- A list of quoted items, one space behind each comma.
abbrev pub quoted_list : List Text → Text
quoted_list xs = b'[' ∷ (join (codes ", ") (map (quote b'"') xs) ++ codes "]")

pub unquote-quote : (s : Text) → unquote (quote b'"' s) ≡ s
unfolding unquote
unquote-quote s = rw (quoted-quote b'"' b'"' s, inner-quotes b'"' b'"' s)

item_value-quote : (s : Text) → item_value (quote b'"' s) ≡ str s
item_value-quote s = rw (strip-quote b'"' s (inl refl), unquote-quote)

item_value-space : (s : Text) → item_value (b' ' ∷ quote b'"' s) ≡ str s
item_value-space s = ap (λ t. str (unquote t)) (strip-space (quote b'"' s)) ∙ item_value-quote s
  where
    strip-space : (t : Text) → strip (b' ' ∷ t) ≡ strip t
    strip-space t = unfold strip is_space in strip_of-cons is_space b' ' t refl

has-quote : (s : Text) → has b',' s ≡ false → has b',' (quote b'"' s) ≡ false
unfolding has
has-quote s h = rw (has-append b',' s (codes "\"")) (ground arith)

-- The pieces between the commas, from the second on.
split_items :
    (x : Text) (xs : List Text)
    → All (λ s. has b',' s ≡ false) (x ∷ xs)
    → map item_value (split_on b',' (b' ' ∷ join (codes ", ") (map (quote b'"') (x ∷ xs))))
      ≡ map str (x ∷ xs)
unfolding join
split_items x [] h =
    rw (split_on-eq-one b',' (b' ' ∷ quote b'"' x) (unfold has in has-quote x h.0))
      (ap (λ v. v ∷ []) (item_value-space x))
split_items x (y ∷ ys) h =
    rw (split_on-append b',' (b' ' ∷ quote b'"' x) _ (unfold has in has-quote x h.0))
      (ap₂ ◌∷◌ (item_value-space x) (split_items y ys h.1))

split_list :
    (x : Text) (xs : List Text)
    → All (λ s. has b',' s ≡ false) (x ∷ xs)
    → map item_value (split_on b',' (join (codes ", ") (map (quote b'"') (x ∷ xs))))
      ≡ map str (x ∷ xs)
unfolding join
split_list x [] h =
    rw (split_on-eq-one b',' (quote b'"' x) (has-quote x h.0))
      (ap (λ v. v ∷ []) (item_value-quote x))
split_list x (y ∷ ys) h =
    rw (split_on-append b',' (quote b'"' x) _ (has-quote x h.0))
      (ap₂ ◌∷◌ (item_value-quote x) (split_items y ys h.1))

join-quotes :
    (x : Text) (xs : List Text)
    → (m : Text) × (join (codes ", ") (map (quote b'"') (x ∷ xs)) ≡ quote b'"' m)
unfolding join
join-quotes x [] = (x, refl)
join-quotes x (y ∷ ys) =
    let (m, e) = join-quotes y ys in
    (
      (x ++ codes "\"") ++ (codes ", " ++ (b'"' ∷ m)),
      rw e (
          ap (◌∷◌ b'"')
            (sym (append_assoc (x ++ codes "\"") (codes ", " ++ (b'"' ∷ m)) (codes "\"")))),
    )

list_value-quote :
    (m : Text)
    → list_value (quote b'"' m) ≡ list (items (map item_value (split_on b',' (quote b'"' m))))
unfolding list_value
list_value-quote m = refl

stripped_value-list : (s : Text) → stripped_value (b'[' ∷ (s ++ codes "]")) ≡ list_value (strip s)
unfolding stripped_value quoted
stripped_value-list s =
    rw (ends_with-concat b']' b']' (b'[' ∷ s), inner-quotes b'[' b']' s) (ground arith)

list_value-join :
    (x : Text) (xs : List Text)
    → let joined = join (codes ", ") (map (quote b'"') (x ∷ xs)) in
      list_value (strip joined) ≡ list (items (map item_value (split_on b',' joined)))
list_value-join x xs =
    let (m, e) = join-quotes x xs in rw e (rw (strip-quote b'"' m (inl refl)) (list_value-quote m))

-- A list of texts, quoted and separated by commas, is read as that list, if no text holds a comma.
pub parse_toml_value-quoted_list :
    (xs : List Text)
    → All (λ s. has b',' s ≡ false) xs
    → parse_toml_value (quoted_list xs) ≡ list (items (map str xs))
unfolding parse_toml_value
parse_toml_value-quoted_list [] h = unfold stripped_value list_value join in refl
parse_toml_value-quoted_list (x ∷ xs) h =
    let joined = join (codes ", ") (map (quote b'"') (x ∷ xs)) in
    ap stripped_value (strip_brackets joined)
    ∙ stripped_value-list joined
    ∙ list_value-join x xs
    ∙ ap (λ vs. list (items vs)) (split_list x xs h)
  where
    strip_brackets : (s : Text) → strip (b'[' ∷ (s ++ codes "]")) ≡ b'[' ∷ (s ++ codes "]")
    strip_brackets s = unfold strip is_space in strip_of_ends is_space b'[' b']' s refl refl
