-- ===== src/Pep723/Documents.antt =====
-- Whole notebooks with a script block of one section.
use mathlib.Core.List.{append-nil}
use marimo_operator.Base.{
  Text, codes, same, starts_with, has, contains, split_on, find_after, All, map, ◌≡◌, refl, sym, ap,
  ◌∙◌, false, Option, none, some, List, [], ◌∷◌, ◌++◌, if◌then◌else◌, arith,
}
use marimo_operator.Value.{Value, Fields, empty, get, put, is_empty}
use marimo_operator.Value.Laws.{get-put, is_empty-put}
use marimo_operator.Pep723.{
  script_header, script_end, env_header, lazy_block, line_block, or_else, script_block,
  block_behind, section_block, uncomment, assign, simple_value, script_fields, section_fields,
}
use marimo_operator.Pep723.Lines.{
  comment, block_of, Setting, IsSetting, IsLine, lazy_block-block_of, line_block-block_of,
  split_on-block_of,
}
use marimo_operator.Pep723.Written.{Written, meaning, plain}
use marimo_operator.Pep723.Settings.{
  setting_lines, setting_lines-IsLine, put_all, script_fields-settings, script_fields-cons,
  section_fields-settings,
}

-- A script block that holds one section with the settings, and the notebook behind it.
abbrev pub section_text : List Setting → Text → Text
section_text ss rest = block_of (setting_lines ss) ++ (script_end ++ (b'\n' ∷ rest))

abbrev pub document : Text → List Setting → Text → Text
document title ss rest =
    script_header ++ (block_of (title ∷ setting_lines ss) ++ (script_end ++ (b'\n' ∷ rest)))

find_after-eq-none : (p s : Text) → contains p s ≡ false → find_after p s ≡ none
unfolding find_after contains
find_after-eq-none p [] h = ground arith
find_after-eq-none p (c ∷ s) h = ground (arith, find_after-eq-none p s)

-- The last value that the settings give a key, by what counts as the value.
abbrev pub last_setting : (Written → Value) → Text → List Setting → Option Value
last_setting val j [] = none
last_setting val j (s ∷ ss) = elim (last_setting val j ss) [
  | some v ↦ some v
  | none ↦ if same s.key j then some (val s.written) else none
]

abbrev pub or_value : Option Value → Option Value → Option Value
or_value none o = o
or_value (some v) o = some v

pub get-put_all :
    (val : Written → Value) (ss : List Setting) (d : Fields) (j : Text)
    → get j (put_all val ss d) ≡ or_value (last_setting val j ss) (get j d)
get-put_all val [] d j = refl
get-put_all val (s ∷ ss) d j =
    get-put_all val ss (put s.key (val s.written) d) j ∙ rw get-put (ground arith)

pub is_empty-put_all :
    (val : Written → Value) (ss : List Setting) (d : Fields)
    → is_empty d ≡ false
    → is_empty (put_all val ss d) ≡ false
is_empty-put_all val [] d h = h
is_empty-put_all val (s ∷ ss) d h = is_empty-put_all val ss _ (is_empty-put s.key (val s.written) d)

lines_of :
    (ss : List Setting)
    → All IsLine (setting_lines ss)
    → All (λ l. has b'\n' l ≡ false) (setting_lines ss)
lines_of [] h = tt
lines_of (s ∷ ss) h = (h.0.0, lines_of ss h.1)

line_block-eq-nil : (s : Text) → starts_with (codes "# ") s ≡ false → line_block false s ≡ []
unfolding line_block
line_block-eq-nil [] h = refl
line_block-eq-nil (c ∷ s) h = ground arith

pub line_block-script_end :
    (rest : Text)
    → starts_with (codes "# ") rest ≡ false
    → line_block false (script_end ++ (b'\n' ∷ rest)) ≡ script_end ++ codes "\n"
line_block-script_end rest h =
    end_line rest ∙ ap (λ t. script_end ++ (b'\n' ∷ t)) (line_block-eq-nil rest h)
  where
    end_line :
        (t : Text)
        → line_block false (script_end ++ (b'\n' ∷ t)) ≡ script_end ++ (b'\n' ∷ line_block false t)
    end_line t = unfold line_block in refl

pub script_fields-last : (d : Fields) → script_fields (split_on b'\n' []) d ≡ d
unfolding script_fields split_on
script_fields-last d = refl

pub section_fields-last :
    (d : Fields) → section_fields (split_on b'\n' (script_end ++ codes "\n")) d ≡ d
unfolding section_fields split_on
section_fields-last d = refl

pub script_block-header :
    (t : Text) {b : Text} → lazy_block false t ≡ some b → script_block (script_header ++ t) ≡ some b
unfolding script_block
script_block-header t e = ap (λ o. or_else o (script_block t)) e

module _ (ss : List Setting) (rest : Text) (good : All IsSetting ss) where
  -- What the first loop reads.
  pub script_fields_of :
      (title : Text)
      → assign simple_value (uncomment (comment title)) empty ≡ empty
      → IsLine title
      → script_fields (split_on b'\n' (block_of (title ∷ setting_lines ss))) empty
        ≡ put_all plain ss empty
  script_fields_of title e line =
      let lines = title ∷ setting_lines ss in
      ap (λ t. script_fields (split_on b'\n' t) empty) (sym (append-nil (block_of lines)))
      ∙ ap (λ l. script_fields l empty)
          (split_on-block_of lines [] (line.0, lines_of ss (setting_lines-IsLine ss good)))
      ∙ script_fields-cons (comment title) _ empty
      ∙ ap (script_fields (map comment (setting_lines ss) ++ split_on b'\n' [])) e
      ∙ script_fields-settings ss (split_on b'\n' []) empty good
      ∙ script_fields-last (put_all plain ss empty)

  -- What the loop over the section reads, on top of `d`.
  pub section_fields_of :
      (d : Fields)
      → starts_with (codes "# ") rest ≡ false
      → section_fields (split_on b'\n' (line_block false (section_text ss rest))) d
        ≡ put_all meaning ss d
  section_fields_of d h =
      let lines = lines_of ss (setting_lines-IsLine ss good) in
      ap (λ t. section_fields (split_on b'\n' t) d)
        (line_block-block_of (setting_lines ss) (script_end ++ (b'\n' ∷ rest)) lines
          ∙ ap (◌++◌ (block_of (setting_lines ss))) (line_block-script_end rest h))
      ∙ ap (λ l. section_fields l d)
          (split_on-block_of (setting_lines ss) (script_end ++ codes "\n") lines)
      ∙ section_fields-settings ss _ d good
      ∙ section_fields-last (put_all meaning ss d)

  -- The script block is found at the beginning, and ends behind the settings.
  pub script_block_of :
      (title : Text)
      → IsLine title
      → script_block (document title ss rest) ≡ some (block_of (title ∷ setting_lines ss))
  script_block_of title line = script_block-header _ (
      lazy_block-block_of (title ∷ setting_lines ss) (b'\n' ∷ rest)
        (line, setting_lines-IsLine ss good))

abbrev pub k8s_title : Text
k8s_title = codes "[tool.marimo.k8s]"

abbrev pub env_title : Text
env_title = codes "[tool.marimo.k8s.env]"

pub section_block_env :
    (ss : List Setting) (rest : Text)
    → section_block env_header (document env_title ss rest)
      ≡ some (line_block false (section_text ss rest))
unfolding section_block
section_block_env ss rest = refl

pub section_block-eq-none :
    (header content : Text) → contains header content ≡ false → section_block header content ≡ none
unfolding section_block
section_block-eq-none header content h = ap block_behind (find_after-eq-none header content h)
