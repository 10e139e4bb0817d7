-- ===== src/Pep723/Lines.antt =====
-- Comment lines: what the patterns, `split` and the loops make of them.
use mathlib.Core.List.{append_assoc}
use marimo_operator.Base.{
  ℕ, Text, codes, starts_with, has, has-append, split_on, split_on-append, All, map, Bool, ◌≡◌, ◌≢◌,
  refl, sym, ap, true, false, ◌||◌, none, some, List, [], ◌∷◌, ◌++◌, ◌==◌, arith, within,
}
use marimo_operator.Pep723.Written.{Written, printed, IsWritten}
use marimo_operator.Pep723.{script_end, lazy_block, line_block}

-- A comment line, with its newline.
abbrev pub comment : Text → Text
comment line = codes "# " ++ line

abbrev pub block_of : List Text → Text
block_of [] = []
block_of (line ∷ lines) = comment line ++ (b'\n' ∷ block_of lines)

-- No newline, and no end mark.
abbrev pub IsLine : Text → Type 0
IsLine line = (has b'\n' line ≡ false) × (starts_with (codes "///") line ≡ false)

lazy_block_inside :
    (line rest : Text)
    → has b'\n' line ≡ false
    → lazy_block true (line ++ (b'\n' ∷ rest))
      ≡ elim (lazy_block false rest) [ none ↦ none | some b ↦ some (line ++ (b'\n' ∷ b)) ]
unfolding lazy_block has
lazy_block_inside [] rest h = ground arith
lazy_block_inside (c ∷ line) rest h = ground (arith, lazy_block_inside line rest)

starts_with-cons :
    (p line rest : Text)
    → has b'\n' p ≡ false
    → starts_with p line ≡ false
    → starts_with p (line ++ (b'\n' ∷ rest)) ≡ false
unfolding starts_with has
starts_with-cons [] line rest n h = cc
starts_with-cons (x ∷ p) [] rest n h = ground arith
starts_with-cons (x ∷ p) (c ∷ line) rest n h = ground (arith, starts_with-cons p line rest)

-- The script block ends at the first end mark.
pub lazy_block-block_of :
    (lines : List Text) (rest : Text)
    → All IsLine lines
    → lazy_block false (block_of lines ++ (script_end ++ rest)) ≡ some (block_of lines)
unfolding lazy_block has
lazy_block-block_of [] rest h = refl
lazy_block-block_of (line ∷ lines) rest h =
    rw (append_assoc line (b'\n' ∷ block_of lines) (script_end ++ rest)) (
      rw (starts_with-cons (codes "///") line (block_of lines ++ (script_end ++ rest)) refl h.0.1) (
        rw (lazy_block_inside line (block_of lines ++ (script_end ++ rest)) h.0.0)
          (rw (lazy_block-block_of lines rest h.1) refl)))

line_block_inside :
    (line rest : Text)
    → has b'\n' line ≡ false
    → line_block true (line ++ (b'\n' ∷ rest)) ≡ line ++ (b'\n' ∷ line_block false rest)
unfolding line_block has
line_block_inside [] rest h = ground arith
line_block_inside (c ∷ line) rest h = ground (arith, line_block_inside line rest)

has_newline : (line rest : Text) → has b'\n' (line ++ (b'\n' ∷ rest)) ≡ true
has_newline line rest = rw (has-append b'\n' line (b'\n' ∷ rest)) (unfold has in ground arith)

-- A section's block takes all comment lines.
pub line_block-block_of :
    (lines : List Text) (rest : Text)
    → All (λ line. has b'\n' line ≡ false) lines
    → line_block false (block_of lines ++ rest) ≡ block_of lines ++ line_block false rest
unfolding line_block
line_block-block_of [] rest h = refl
line_block-block_of (line ∷ lines) rest h = rw (append_assoc line (b'\n' ∷ block_of lines) rest) (
    rw (has_newline line (block_of lines ++ rest)) (
      rw (line_block_inside line (block_of lines ++ rest) h.0) (
        rw (line_block-block_of lines rest h.1) (
          ap (λ t. b'#' ∷ b' ' ∷ t)
            (sym (append_assoc line (b'\n' ∷ block_of lines) (line_block false rest)))))))

-- The lines of a block are its lines.
pub split_on-block_of :
    (lines : List Text) (rest : Text)
    → All (λ line. has b'\n' line ≡ false) lines
    → split_on b'\n' (block_of lines ++ rest) ≡ map comment lines ++ split_on b'\n' rest
split_on-block_of [] rest h = refl
split_on-block_of (line ∷ lines) rest h =
    rw (append_assoc (comment line) (b'\n' ∷ block_of lines) rest) (
      rw (split_on-append b'\n' (comment line) (block_of lines ++ rest) (unfold has in h.0))
        (ap (◌∷◌ (comment line)) (split_on-block_of lines rest h.1)))

-- Letters, digits, `_` and `-`.
abbrev pub key_char : ℕ → Bool
key_char c =
    within b'a' b'z' c || within b'A' b'Z' c || within b'0' b'9' c || c == b'_' || c == b'-'

-- A setting: a key and what is written behind it.
pub record Setting : Type 0 where
  pub key : Text
  pub written : Written

pub record IsSetting (s : Setting) : Type 0 where
  pub key_ne_nil : s.key ≢ []
  pub key_chars : All (λ c. key_char c ≡ true) s.key
  pub is_written : IsWritten s.written

-- key = value
abbrev pub setting_line : Setting → Text
setting_line s = s.key ++ (codes " = " ++ printed s.written)
