-- ===== src/Pep723/Sections.antt =====
-- The lines of the sections of a script block, and what the two loops read from them.
use mathlib.Core.List.{append_assoc}
use marimo_operator.Base.{
  ℕ, Text, codes, true, false, has, has-append, starts_with, split_on, All, map, ◌≡◌, refl, sym, ap,
  ◌∙◌, none, List, [], ◌∷◌, ◌++◌, arith, partition, is_space,
}
use marimo_operator.Value.{Fields, put}
use marimo_operator.Pep723.{
  script_end, uncomment, assign, assign_parts, simple_value, script_fields, section_fields,
}
use marimo_operator.Pep723.Written.{plain}
use marimo_operator.Pep723.Lines.{comment, Setting, IsSetting, IsLine}
use marimo_operator.Pep723.Settings.{
  setting_lines, setting_lines-IsLine, put_all, script_fields-settings, script_fields-cons,
  uncomment_ends,
}
use marimo_operator.Pep723.Documents.{section_fields-last}

-- Another section: what stands between its brackets, and its settings.
pub record Section : Type 0 where
  pub name : Text
  pub settings : List Setting

abbrev pub title_of : Section → Text
title_of t = b'[' ∷ (t.name ++ codes "]")

pub record IsSection (t : Section) : Type 0 where
  pub name_is_line : has b'\n' t.name ≡ false
  pub no_equals : has b'=' t.name ≡ false
  pub are_settings : All IsSetting t.settings

abbrev pub section_lines : List Section → List Text
section_lines [] = []
section_lines (t ∷ ts) = title_of t ∷ (setting_lines t.settings ++ section_lines ts)

-- All settings of the sections, in order.
abbrev pub settings_of : List Section → List Setting
settings_of [] = []
settings_of (t ∷ ts) = t.settings ++ settings_of ts

uncomment-title : (t : Section) → uncomment (comment (title_of t)) ≡ title_of t
uncomment-title t =
    uncomment_ends b'[' b']' t.name refl (unfold is_space in refl) (unfold is_space in refl)

partition-eq-none : (c : ℕ) (s : Text) → has c s ≡ false → partition c s ≡ none
unfolding partition has
partition-eq-none c [] h = refl
partition-eq-none c (x ∷ s) h = ground (arith, partition-eq-none c s)

assign-title : (t : Section) (d : Fields) → IsSection t → assign simple_value (title_of t) d ≡ d
assign-title t d h =
    unfold assign in
    ap (assign_parts simple_value d) (partition-eq-none b'=' (title_of t) no_equals_title)
    ∙ (unfold assign_parts in refl)
  where
    no_equals_title : has b'=' (title_of t) ≡ false
    no_equals_title =
        unfold has in rw (has-append b'=' t.name (codes "]"), h.no_equals) (unfold has in refl)

put_all-append :
    (a b : List Setting) (d : Fields)
    → put_all plain (a ++ b) d ≡ put_all plain b (put_all plain a d)
put_all-append [] b d = refl
put_all-append (s ∷ a) b d = put_all-append a b (put s.key (plain s.written) d)

pub map-append : (a b : List Text) → map comment (a ++ b) ≡ map comment a ++ map comment b
map-append [] b = refl
map-append (x ∷ a) b = ap (◌∷◌ (comment x)) (map-append a b)

-- The first loop reads all sections alike.
pub script_fields-sections :
    (ts : List Section) (rest : List Text) (d : Fields)
    → All IsSection ts
    → script_fields (map comment (section_lines ts) ++ rest) d
      ≡ script_fields rest (put_all plain (settings_of ts) d)
script_fields-sections [] rest d h = refl
script_fields-sections (t ∷ ts) rest d h =
    rw (script_fields-cons, uncomment-title t, assign-title t d h.0)
      (ap (λ l. script_fields l d)
          (ap (λ l. l ++ rest) (map-append (setting_lines t.settings) (section_lines ts))
            ∙ append_assoc (map comment (setting_lines t.settings)) _ rest)
        ∙ script_fields-settings t.settings (map comment (section_lines ts) ++ rest) d
            h.0.are_settings
        ∙ script_fields-sections ts rest (put_all plain t.settings d) h.1
        ∙ ap (script_fields rest) (sym (put_all-append t.settings (settings_of ts) d)))

section_fields_end :
    (line : Text) (lines : List Text) (d : Fields)
    → starts_with (codes "[") (uncomment line) ≡ true
    → section_fields (line ∷ lines) d ≡ d
unfolding section_fields
section_fields_end line lines d h = rw h refl

-- The loop over the plugin's section ends at the next section, or at the end mark.
pub section_fields-sections :
    (ts : List Section) (d : Fields)
    → section_fields (map comment (section_lines ts) ++ split_on b'\n' (script_end ++ codes "\n")) d
      ≡ d
section_fields-sections [] d = section_fields-last d
section_fields-sections (t ∷ ts) d =
    section_fields_end (comment (title_of t)) _ d
      (ap (starts_with (codes "[")) (uncomment-title t) ∙ (unfold starts_with in refl))

title_of-IsLine : (t : Section) → IsSection t → IsLine (title_of t)
title_of-IsLine t h = (
  unfold has in rw (has-append b'\n' t.name (codes "]"), h.name_is_line) (unfold has in refl),
  unfold starts_with in refl,
)

pub All-append : (a b : List Text) → All IsLine a → All IsLine b → All IsLine (a ++ b)
All-append [] b h k = k
All-append (x ∷ a) b h k = (h.0, All-append a b h.1 k)

pub section_lines-IsLine : (ts : List Section) → All IsSection ts → All IsLine (section_lines ts)
section_lines-IsLine [] h = tt
section_lines-IsLine (t ∷ ts) h = (
  title_of-IsLine t h.0,
  All-append (setting_lines t.settings) (section_lines ts)
      (setting_lines-IsLine t.settings h.0.are_settings) (section_lines-IsLine ts h.1),
)

pub lines_plain : (ls : List Text) → All IsLine ls → All (λ l. has b'\n' l ≡ false) ls
lines_plain [] h = tt
lines_plain (l ∷ ls) h = (h.0.0, lines_plain ls h.1)
