-- ===== src/Pep723/Notebooks.antt =====
-- The frontmatter of a notebook whose script block holds a section of settings for the plugin, and
-- other sections behind it.
use mathlib.Core.List.{append-nil, append_assoc}
use marimo_operator.Base.{
  Text, codes, false, starts_with, contains, split_on, All, map, ◌≡◌, refl, sym, ap, ◌∙◌, Option,
  none, some, List, [], ◌∷◌, ◌++◌,
}
use marimo_operator.Value.{Value, Fields, empty, get, put}
use marimo_operator.Value.Laws.{is_empty-put}
use marimo_operator.Pep723.{
  script_header, script_end, k8s_header, env_header, line_block, script_block, section_block,
  script_fields, section_fields, extract_pep723_metadata, unless_empty,
}
use marimo_operator.Pep723.Written.{meaning, plain}
use marimo_operator.Pep723.Lines.{
  comment, block_of, Setting, IsSetting, IsLine, lazy_block-block_of, line_block-block_of,
  split_on-block_of,
}
use marimo_operator.Pep723.Settings.{
  setting_lines, setting_lines-IsLine, put_all, script_fields-settings, script_fields-cons,
  section_fields-settings,
}
use marimo_operator.Pep723.Documents.{
  last_setting, or_value, get-put_all, is_empty-put_all, script_block-header, line_block-script_end,
  script_fields-last, section_block-eq-none, k8s_title,
}
use marimo_operator.Pep723.Sections.{
  Section, IsSection, section_lines, settings_of, section_lines-IsLine, lines_plain, All-append,
  map-append, script_fields-sections, section_fields-sections,
}
use marimo_operator.Pep723.Config.{
  extract_of, add_env-empty, with_section-some, with_section-none, metadata_parts, title-IsLine_k8s,
  title_assign_k8s, unless_empty_full, get-put_all_empty, last_setting-both,
}

-- A script block with a section of the plugin's settings, other sections behind it, and the notebook.
abbrev pub sections_document : List Setting → List Section → Text → Text
sections_document ss ts rest =
    script_header
    ++ (block_of (k8s_title ∷ (setting_lines ss ++ section_lines ts))
        ++ (script_end ++ (b'\n' ∷ rest)))

module _ (ss : List Setting) (ts : List Section) (rest : Text) (good : All IsSetting ss)
    (well : All IsSection ts) where
  abbrev behind_title : List Text
  behind_title = setting_lines ss ++ section_lines ts

  behind-IsLine : All IsLine behind_title
  behind-IsLine =
      All-append (setting_lines ss) (section_lines ts) (setting_lines-IsLine ss good)
        (section_lines-IsLine ts well)

  split_behind :
      (tail : List Text)
      → map comment behind_title ++ tail
        ≡ map comment (setting_lines ss) ++ (map comment (section_lines ts) ++ tail)
  split_behind tail =
      ap (λ l. l ++ tail) (map-append (setting_lines ss) (section_lines ts))
      ∙ append_assoc (map comment (setting_lines ss)) _ tail

  -- The first loop reads every setting as a text.
  abbrev first_read : Fields
  first_read = put_all plain (settings_of ts) (put_all plain ss empty)

  script_fields_sections :
      script_fields (split_on b'\n' (block_of (k8s_title ∷ behind_title))) empty ≡ first_read
  script_fields_sections =
      let lines = k8s_title ∷ behind_title in
      ap (λ t. script_fields (split_on b'\n' t) empty) (sym (append-nil (block_of lines)))
      ∙ ap (λ l. script_fields l empty)
          (split_on-block_of lines [] (title-IsLine_k8s.0, lines_plain behind_title behind-IsLine))
      ∙ script_fields-cons (comment k8s_title) _ empty
      ∙ ap (script_fields (map comment behind_title ++ split_on b'\n' [])) title_assign_k8s
      ∙ ap (λ l. script_fields l empty) (split_behind (split_on b'\n' []))
      ∙ script_fields-settings ss _ empty good
      ∙ script_fields-sections ts (split_on b'\n' []) (put_all plain ss empty) well
      ∙ script_fields-last first_read

  -- The second loop reads the settings of the plugin's section, on top of `d`.
  section_fields_sections :
      (d : Fields)
      → starts_with (codes "# ") rest ≡ false
      → section_fields
          (split_on b'\n'
            (line_block false (block_of behind_title ++ (script_end ++ (b'\n' ∷ rest)))))
          d
        ≡ put_all meaning ss d
  section_fields_sections d h =
      let tail = split_on b'\n' (script_end ++ codes "\n") in
      ap (λ t. section_fields (split_on b'\n' t) d)
        (line_block-block_of behind_title (script_end ++ (b'\n' ∷ rest))
            (lines_plain behind_title behind-IsLine)
          ∙ ap (◌++◌ (block_of behind_title)) (line_block-script_end rest h))
      ∙ ap (λ l. section_fields l d)
          (split_on-block_of behind_title (script_end ++ codes "\n")
              (lines_plain behind_title behind-IsLine)
            ∙ split_behind tail)
      ∙ section_fields-settings ss (map comment (section_lines ts) ++ tail) d good
      ∙ section_fields-sections ts (put_all meaning ss d)

  script_block_sections :
      script_block (sections_document ss ts rest) ≡ some (block_of (k8s_title ∷ behind_title))
  script_block_sections = script_block-header _ (
      lazy_block-block_of (k8s_title ∷ behind_title) (b'\n' ∷ rest)
        (title-IsLine_k8s, behind-IsLine))

  section_block_sections :
      section_block k8s_header (sections_document ss ts rest)
      ≡ some (line_block false (block_of behind_title ++ (script_end ++ (b'\n' ∷ rest))))
  unfolding section_block
  section_block_sections = refl

  extract_eq :
      starts_with (codes "# ") rest ≡ false
      → contains env_header (sections_document ss ts rest) ≡ false
      → extract_pep723_metadata (sections_document ss ts rest)
        ≡ unless_empty (put_all meaning ss first_read)
  extract_eq no_comment no_env =
      extract_of _ _ script_block_sections
      ∙ ap unless_empty (
          metadata_parts _ _ script_fields_sections section_block_sections
            (section_block-eq-none env_header _ no_env)
            (with_section-some _ _ ∙ section_fields_sections first_read no_comment)
            (with_section-none empty)
          ∙ add_env-empty _)

  -- A key of the plugin's section hides what the other sections give it.
  get-read :
      (j : Text)
      → get j (put_all meaning ss first_read)
        ≡ or_value (last_setting meaning j ss) (last_setting plain j (settings_of ts))
  get-read j =
      get-put_all meaning ss first_read j
      ∙ ap (or_value (last_setting meaning j ss)) (
          get-put_all plain (settings_of ts) (put_all plain ss empty) j
          ∙ ap (or_value (last_setting plain j (settings_of ts))) (get-put_all_empty plain ss j))
      ∙ hidden (last_setting meaning j ss) (last_setting plain j (settings_of ts))
          (last_setting plain j ss) (last_setting-both ss j)
    where
      hidden : (m o p : Option Value) → or_value m p ≡ m → or_value m (or_value o p) ≡ or_value m o
      hidden (some v) o p e = refl
      hidden none none p e = e
      hidden none (some u) p e = refl

module _ (s : Setting) (ss : List Setting) (ts : List Section) (rest : Text)
    (good : All IsSetting (s ∷ ss)) (well : All IsSection ts) where
  -- A script block whose first section holds settings of the plugin, each a quoted text, a number or
  -- a list of quoted texts, with any sections of such settings behind it: each key of the plugin's
  -- section has the value that is meant, the last one where the key is repeated; a key of the other
  -- sections only is read as well, as a text; and there are no other keys. (No section for the
  -- environment stands in the notebook, and no comment line follows the block.)
  pub extract_k8s :
      starts_with (codes "# ") rest ≡ false
      → contains env_header (sections_document (s ∷ ss) ts rest) ≡ false
      → (d : Fields) × (extract_pep723_metadata (sections_document (s ∷ ss) ts rest) ≡ some d)
        × ((j : Text)
            → get j d
              ≡ or_value (last_setting meaning j (s ∷ ss)) (last_setting plain j (settings_of ts)))
  extract_k8s no_comment no_env =
      let first = put_all plain (settings_of ts) (put_all plain (s ∷ ss) empty) in
      (
        put_all meaning (s ∷ ss) first,
        extract_eq (s ∷ ss) ts rest good well no_comment no_env
            ∙ unless_empty_full (put_all meaning (s ∷ ss) first) (
                is_empty-put_all meaning ss (put s.key (meaning s.written) first)
                  (is_empty-put s.key (meaning s.written) first)),
        get-read (s ∷ ss) ts rest good well,
      )
