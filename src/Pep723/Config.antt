-- ===== src/Pep723/Config.antt =====
-- How the frontmatter is put together, and a notebook whose script block holds the section of the
-- environment only.
use marimo_operator.Base.{
  Text, codes, same, Bool, true, [], if◌then◌else◌, starts_with, has, contains, split_on, All, ◌≡◌,
  refl, ap, ◌∙◌, false, Option, none, some, List, ◌∷◌,
}
use marimo_operator.Value.{Value, Fields, empty, field, get, dict, put, is_empty}
use marimo_operator.Value.Laws.{get-put, is_empty-put}
use marimo_operator.Pep723.{
  k8s_header, env_header, script_block, section_block, metadata_of, uncomment, assign, simple_value,
  script_fields, section_fields, with_section, add_env, metadata, unless_empty,
  extract_pep723_metadata,
}
use marimo_operator.Pep723.Lines.{comment, block_of, Setting, IsSetting, IsLine}
use marimo_operator.Pep723.Written.{Written, meaning, plain}
use marimo_operator.Pep723.Settings.{setting_lines, put_all}
use marimo_operator.Pep723.Documents.{
  document, last_setting, or_value, get-put_all, is_empty-put_all, script_fields_of,
  section_fields_of, script_block_of, k8s_title, env_title, section_block_env,
  section_block-eq-none,
}

get-empty : (j : Text) → get j empty ≡ none
unfolding get
get-empty j = refl

pub get-put_all_empty :
    (val : Written → Value) (ss : List Setting) (j : Text)
    → get j (put_all val ss empty) ≡ last_setting val j ss
get-put_all_empty val ss j =
    get-put_all val ss empty j ∙ rw get-empty (or_value-none (last_setting val j ss))
  where
    or_value-none : (o : Option Value) → or_value o none ≡ o
    or_value-none none = refl
    or_value-none (some v) = refl

-- The value that a setting gives, if none behind it does.
or_own : Bool → Value → Option Value → Option Value
or_own b v (some u) = some u
or_own b v none = if b then some v else none

or_own-both :
    (b : Bool) (u v : Value) (m p : Option Value)
    → or_value m p ≡ m
    → or_value (or_own b u m) (or_own b v p) ≡ or_own b u m
unfolding or_own
or_own-both b u v (some x) p e = refl
or_own-both b u v none (some y) e = cc
or_own-both true u v none none e = refl
or_own-both false u v none none e = refl

last_setting-cons :
    (val : Written → Value) (s : Setting) (ss : List Setting) (j : Text)
    → last_setting val j (s ∷ ss) ≡ or_own (same s.key j) (val s.written) (last_setting val j ss)
last_setting-cons val s ss j = by_last (last_setting val j ss)
  where
    by_last :
        (m : Option Value)
        → elim m [ some v ↦ some v | none ↦ if same s.key j then some (val s.written) else none ]
          ≡ or_own (same s.key j) (val s.written) m
    by_last (some v) = unfold or_own in refl
    by_last none = unfold or_own in refl

-- A key that the settings give one kind of value, they give the other kind.
pub last_setting-both :
    (ss : List Setting) (j : Text)
    → or_value (last_setting meaning j ss) (last_setting plain j ss) ≡ last_setting meaning j ss
last_setting-both [] j = refl
last_setting-both (s ∷ ss) j =
    rw (last_setting-cons meaning s ss j, last_setting-cons plain s ss j)
      (or_own-both (same s.key j) (meaning s.written) (plain s.written) _ _
        (last_setting-both ss j))

pub extract_of :
    (content block : Text)
    → script_block content ≡ some block
    → extract_pep723_metadata content ≡ unless_empty (metadata content block)
unfolding extract_pep723_metadata
extract_of content block e = ap (metadata_of content) e

pub add_env-empty : (d : Fields) → add_env empty d ≡ d
unfolding add_env
add_env-empty d = refl

pub with_section-some :
    (b : Text) (d : Fields) → with_section (some b) d ≡ section_fields (split_on b'\n' b) d
unfolding with_section
with_section-some b d = refl

pub with_section-none : (d : Fields) → with_section none d ≡ d
unfolding with_section
with_section-none d = refl

-- The frontmatter from what each of the three passes reads.
pub metadata_parts :
    (content block : Text) {script k8s env : Fields} {kb eb : Option Text}
    → script_fields (split_on b'\n' block) empty ≡ script
    → section_block k8s_header content ≡ kb
    → section_block env_header content ≡ eb
    → with_section kb script ≡ k8s
    → with_section eb empty ≡ env
    → metadata content block ≡ add_env env k8s
metadata_parts content block a b c d e = metadata_lem content block ∙ cc
  where
    metadata_lem :
        (x y : Text)
        → metadata x y
          ≡ add_env
              (with_section (section_block env_header x) empty)
              (with_section (section_block k8s_header x) (script_fields (split_on b'\n' y) empty))
    metadata_lem x y = unfold metadata in refl

pub title-IsLine_k8s : IsLine k8s_title
unfolding has starts_with
title-IsLine_k8s = (refl, refl)

pub title_assign_k8s : assign simple_value (uncomment (comment k8s_title)) empty ≡ empty
unfolding assign uncomment
title_assign_k8s = refl

title-IsLine_env : IsLine env_title
unfolding has starts_with
title-IsLine_env = (refl, refl)

title_assign_env : assign simple_value (uncomment (comment env_title)) empty ≡ empty
unfolding assign uncomment
title_assign_env = refl

pub unless_empty_full : (d : Fields) → is_empty d ≡ false → unless_empty d ≡ some d
unfolding unless_empty
unless_empty_full d h = rw h refl

add_env_full :
    (env d : Fields) → is_empty env ≡ false → add_env env d ≡ put (codes "env") (dict env) d
unfolding add_env
add_env_full empty d h = cc
add_env_full (field k v env) d h = refl

module _ (s : Setting) (ss : List Setting) (rest : Text) (good : All IsSetting (s ∷ ss)) where
  extract-document :
      (title : Text) (d : Fields)
      → IsLine title
      → metadata (document title (s ∷ ss) rest) (block_of (title ∷ setting_lines (s ∷ ss))) ≡ d
      → extract_pep723_metadata (document title (s ∷ ss) rest) ≡ unless_empty d
  extract-document title d line e =
      extract_of _ _ (script_block_of (s ∷ ss) rest good title line) ∙ ap unless_empty e

  extract_env_eq :
      starts_with (codes "# ") rest ≡ false
      → contains k8s_header (document env_title (s ∷ ss) rest) ≡ false
      → extract_pep723_metadata (document env_title (s ∷ ss) rest)
        ≡ some (
            put
              (codes "env")
              (dict (put_all meaning (s ∷ ss) empty))
              (put_all plain (s ∷ ss) empty))
  extract_env_eq no_comment no_k8s =
      extract-document env_title _ title-IsLine_env (
        metadata_parts _ _
          (script_fields_of (s ∷ ss) rest good env_title title_assign_env title-IsLine_env)
          (section_block-eq-none k8s_header _ no_k8s) (section_block_env (s ∷ ss) rest)
          (with_section-none _)
          (with_section-some _ _ ∙ section_fields_of (s ∷ ss) rest good _ no_comment))
      ∙ ap unless_empty (
          add_env_full (put_all meaning (s ∷ ss) empty) (put_all plain (s ∷ ss) empty)
            (is_empty-put_all meaning ss _ (is_empty-put s.key (meaning s.written) empty)))
      ∙ unless_empty_full _ (
          is_empty-put (codes "env") (dict (put_all meaning (s ∷ ss) empty))
            (put_all plain (s ∷ ss) empty))

  -- A script block whose only section is the environment: the settings are entered under `env`, each
  -- with the value that is meant, and at the top level as well, each as a text, so an environment
  -- variable named `image`, `storage` or `title` also configures the notebook. (No section for the
  -- plugin's settings stands in the notebook, and no comment line follows the block.)
  pub extract_env :
      starts_with (codes "# ") rest ≡ false
      → contains k8s_header (document env_title (s ∷ ss) rest) ≡ false
      → (d env : Fields) × (extract_pep723_metadata (document env_title (s ∷ ss) rest) ≡ some d)
        × ((j : Text) → get j env ≡ last_setting meaning j (s ∷ ss))
        × ((j : Text)
            → get j d
              ≡ (if same (codes "env") j then some (dict env) else last_setting plain j (s ∷ ss)))
  extract_env no_comment no_k8s =
      let env = put_all meaning (s ∷ ss) empty in
      let top = put_all plain (s ∷ ss) empty in
      (
        put (codes "env") (dict env) top,
        env,
        extract_env_eq no_comment no_k8s,
        get-put_all_empty meaning (s ∷ ss),
        λ j.
            get-put j (codes "env") (dict env) top
            ∙ ap (λ v. if same (codes "env") j then some (dict env) else v)
                (get-put_all_empty plain (s ∷ ss) j),
      )
