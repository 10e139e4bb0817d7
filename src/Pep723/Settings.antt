-- ===== src/Pep723/Settings.antt =====
-- A setting that is written as a comment line is read back.
use mathlib.Core.List.{append_assoc}
use marimo_operator.Base.{
  ℕ, Text, codes, starts_with, has, has-append, strip, strip_of-concat, strip_of-cons,
  strip_of_ends, is_space, partition-append, All, map, Bool, ◌≡◌, ◌≢◌, refl, sym, ap, ◌∙◌, true,
  false, List, [], ◌∷◌, ◌++◌, arith,
}
use marimo_operator.Toml.{parse_toml_value}
use marimo_operator.Pep723.Written.{
  Written, printed, meaning, plain, IsTight, printed-IsTight, printed-has, parse_toml_value-printed,
  unquote-printed,
}
use marimo_operator.Value.{Value, Fields, put}
use marimo_operator.Pep723.{
  is_comment_char, uncomment, assign, assign_parts, simple_value, script_fields, section_fields,
}
use marimo_operator.Pep723.Lines.{comment, Setting, IsSetting, setting_line, key_char, IsLine}

key_lacks :
    (p : ℕ → Bool) (s : Text)
    → ((c : ℕ) → key_char c ≡ true → p c ≡ false)
    → All (λ c. key_char c ≡ true) s
    → All (λ c. p c ≡ false) s
key_lacks p [] f h = tt
key_lacks p (c ∷ s) f h = (f c h.0, key_lacks p s f h.1)

key_has : (d : ℕ) (s : Text) → key_char d ≡ false → All (λ c. key_char c ≡ true) s → has d s ≡ false
unfolding has
key_has d [] f h = refl
key_has d (c ∷ s) f h = ground (arith, key_has d s f h.1)

key-not-space : (c : ℕ) → key_char c ≡ true → is_space c ≡ false
unfolding is_space
key-not-space c h = ground arith

setting_line-has : (s : Setting) → IsSetting s → has b'\n' (setting_line s) ≡ false
setting_line-has s h =
    rw
      (
        has-append b'\n' s.key (codes " = " ++ printed s.written),
        key_has b'\n' s.key refl h.key_chars,
      )
      (unfold has in printed-has s.written h.is_written)

pub setting_line-IsLine : (s : Setting) → IsSetting s → IsLine (setting_line s)
setting_line-IsLine s h = (setting_line-has s h, not_end s.key h.key_ne_nil h.key_chars)
  where
    not_end :
        (k : Text)
        → k ≢ []
        → All (λ c. key_char c ≡ true) k
        → starts_with (codes "///") (k ++ (codes " = " ++ printed s.written)) ≡ false
    not_end [] ne a = absurd (ne refl)
    not_end (c ∷ k) ne a = unfold starts_with in ground arith

pub uncomment_ends :
    (c d : ℕ) (m : Text)
    → is_comment_char c ≡ false
    → is_space c ≡ false
    → is_space d ≡ false
    → uncomment (comment (c ∷ (m ++ (d ∷ [])))) ≡ c ∷ (m ++ (d ∷ []))
unfolding uncomment
uncomment_ends c d m h k l = rw h (strip_of_ends is_space c d m k l)

key-not-comment : (c : ℕ) → key_char c ≡ true → is_comment_char c ≡ false
key-not-comment c h = ground arith

-- A line whose first character belongs to a key and whose last is no space.
ended :
    (c : ℕ) (k v : Text)
    → All (λ x. key_char x ≡ true) (c ∷ k)
    → IsTight v
    → uncomment (comment ((c ∷ k) ++ (codes " = " ++ v))) ≡ (c ∷ k) ++ (codes " = " ++ v)
ended c k v a t =
    ap (λ x. uncomment (comment (c ∷ x))) same_line
    ∙ uncomment_ends c t.final (k ++ (codes " = " ++ t.front)) (key-not-comment c a.0)
        (key-not-space c a.0) t.final_not_space
    ∙ ap (λ x. c ∷ x) (sym same_line)
  where
    same_line : k ++ (codes " = " ++ v) ≡ (k ++ (codes " = " ++ t.front)) ++ (t.final ∷ [])
    same_line = rw (t.parts) (sym (append_assoc k (codes " = " ++ t.front) (t.final ∷ [])))

uncomment-setting_line :
    (s : Setting) → IsSetting s → uncomment (comment (setting_line s)) ≡ setting_line s
uncomment-setting_line s h = go s.key h.key_ne_nil h.key_chars
  where
    go :
        (k : Text)
        → k ≢ []
        → All (λ c. key_char c ≡ true) k
        → uncomment (comment (k ++ (codes " = " ++ printed s.written)))
          ≡ k ++ (codes " = " ++ printed s.written)
    go [] ne a = absurd (ne refl)
    go (c ∷ k) ne a = ended c k (printed s.written) a (printed-IsTight s.written)

-- A setting is entered under its key, as any reader reads it.
assign-setting_line :
    (read : Text → Value) (s : Setting) (v : Value) (d : Fields)
    → IsSetting s
    → read (printed s.written) ≡ v
    → assign read (setting_line s) d ≡ put s.key v d
unfolding assign
assign-setting_line read s v d h e =
    ap (λ l. assign read l d)
      (sym (append_assoc s.key (codes " ") (b'=' ∷ (b' ' ∷ printed s.written))))
    ∙ ap (assign_parts read d)
        (partition-append b'=' (s.key ++ codes " ") (b' ' ∷ printed s.written) no_equals)
    ∙ put_parts (s.key ++ codes " ") (b' ' ∷ printed s.written) strip_key strip_text
  where
    no_equals : has b'=' (s.key ++ codes " ") ≡ false
    no_equals =
        rw (has-append b'=' s.key (codes " "), key_has b'=' s.key refl h.key_chars)
          (unfold has in refl)

    strip_key : strip (s.key ++ codes " ") ≡ s.key
    strip_key =
        unfold strip in
        strip_of-concat is_space s.key b' ' (key_lacks is_space s.key key-not-space h.key_chars)
          (unfold is_space in refl)

    strip_text : strip (b' ' ∷ printed s.written) ≡ printed s.written
    strip_text =
        unfold strip is_space in
        strip_of-cons is_space b' ' (printed s.written) refl ∙ (printed-IsTight s.written).stripped

    put_parts :
        (k t : Text)
        → strip k ≡ s.key
        → strip t ≡ printed s.written
        → put (strip k) (read (strip t)) d ≡ put s.key v d
    put_parts k t p q = rw (p, q, e) refl

abbrev pub setting_lines : List Setting → List Text
setting_lines = map setting_line

-- The settings entered in turn.
abbrev pub put_all : (Written → Value) → List Setting → Fields → Fields
put_all val [] d = d
put_all val (s ∷ ss) d = put_all val ss (put s.key (val s.written) d)

pub script_fields-cons :
    (line : Text) (lines : List Text) (d : Fields)
    → script_fields (line ∷ lines) d ≡ script_fields lines (assign simple_value (uncomment line) d)
unfolding script_fields
script_fields-cons line lines d = refl

pub script_fields-settings :
    (ss : List Setting) (rest : List Text) (d : Fields)
    → All IsSetting ss
    → script_fields (map comment (setting_lines ss) ++ rest) d
      ≡ script_fields rest (put_all plain ss d)
script_fields-settings [] rest d h = refl
script_fields-settings (s ∷ ss) rest d h =
    rw
      (
        script_fields-cons,
        uncomment-setting_line s h.0,
        assign-setting_line simple_value s (plain s.written) d h.0 (unquote-printed s.written),
      )
      (script_fields-settings ss rest (put s.key (plain s.written) d) h.1)

not_bracket : (s : Setting) → IsSetting s → starts_with (codes "[") (setting_line s) ≡ false
not_bracket s h = go s.key h.key_ne_nil h.key_chars
  where
    go :
        (k : Text)
        → k ≢ []
        → All (λ c. key_char c ≡ true) k
        → starts_with (codes "[") (k ++ (codes " = " ++ printed s.written)) ≡ false
    go [] ne a = absurd (ne refl)
    go (c ∷ k) ne a = unfold starts_with in ground arith

pub section_fields-settings :
    (ss : List Setting) (rest : List Text) (d : Fields)
    → All IsSetting ss
    → section_fields (map comment (setting_lines ss) ++ rest) d
      ≡ section_fields rest (put_all meaning ss d)
unfolding section_fields
section_fields-settings [] rest d h = refl
section_fields-settings (s ∷ ss) rest d h =
    rw
      (
        uncomment-setting_line s h.0,
        not_bracket s h.0,
        assign-setting_line parse_toml_value s (meaning s.written) d h.0
            (parse_toml_value-printed s.written h.0.is_written),
      )
      (section_fields-settings ss rest (put s.key (meaning s.written) d) h.1)

pub setting_lines-IsLine : (ss : List Setting) → All IsSetting ss → All IsLine (setting_lines ss)
setting_lines-IsLine [] h = tt
setting_lines-IsLine (s ∷ ss) h = (setting_line-IsLine s h.0, setting_lines-IsLine ss h.1)
