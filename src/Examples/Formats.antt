-- ===== src/Examples/Formats.antt =====
-- Notebooks and their metadata at concrete inputs.
use marimo_operator.Base.{
  Text, codes, same, has, starts_with, contains, strip, join, decimal, map, All, ◌≡◌, refl, false,
  Option, some, List, [], ◌∷◌, if◌then◌else◌,
}
use marimo_operator.Content.{markdown, detect_content_type, only_dict, extract_frontmatter}
use marimo_operator.Content.Front.{
  IsFrontLine, IsMarkLine, front_document, extract_frontmatter-document,
}
use marimo_operator.Pep723.{k8s_header, env_header, extract_pep723_metadata}
use marimo_operator.Pep723.Config.{extract_env}
use marimo_operator.Pep723.Notebooks.{sections_document, extract_k8s}
use marimo_operator.Pep723.Sections.{Section, IsSection, settings_of}
use marimo_operator.Pep723.Documents.{document, last_setting, or_value, env_title}
use marimo_operator.Pep723.Lines.{Setting, IsSetting}
use marimo_operator.Pep723.Written.{text, number, texts, meaning, plain}
use marimo_operator.Toml.{parse_toml_value}
use marimo_operator.Toml.RoundTrip.{quoted_list, parse_toml_value-quoted_list}
use marimo_operator.Value.{Value, Fields, empty, field, get, str, list, dict, items}

abbrev two_mounts : List Text
two_mounts = codes "cw://bucket" ∷ codes "rsync://./data" ∷ []

no_commas : All (λ s. has b',' s ≡ false) two_mounts
unfolding has
no_commas = (refl, (refl, tt))

parse_toml_value-quoted_list_example :
    parse_toml_value (quoted_list two_mounts) ≡ list (items (map str two_mounts))
parse_toml_value-quoted_list_example = parse_toml_value-quoted_list two_mounts no_commas

-- A comma inside a quoted item splits it.
quoted_comma :
    parse_toml_value (codes "[\"a,b\"]") ≡ list (items (str (codes "\"a") ∷ str (codes "b\"") ∷ []))
unfolding parse_toml_value
quoted_comma = refl

abbrev image : Setting
image = record { key = codes "image"; written = text (codes "marimo:1.0") }

abbrev storage : Setting
storage = record { key = codes "storage"; written = text (codes "5Gi") }

abbrev port : Setting
port = record { key = codes "port"; written = number 2718 }

abbrev mounts : Setting
mounts = record { key = codes "mounts"; written = texts (codes "cw://bucket" ∷ []) }

abbrev settings : List Setting
settings = port ∷ mounts ∷ []

abbrev rest : Text
rest = codes "\nimport marimo\n"

image-IsSetting : IsSetting image
unfolding has
image-IsSetting = record {
  key_ne_nil = λ e. cc;
  key_chars = (refl, (refl, (refl, (refl, (refl, tt)))));
  is_written = refl;
}

storage-IsSetting : IsSetting storage
unfolding has
storage-IsSetting = record {
  key_ne_nil = λ e. cc;
  key_chars = (refl, (refl, (refl, (refl, (refl, (refl, (refl, tt)))))));
  is_written = refl;
}

port-IsSetting : IsSetting port
port-IsSetting = record {
  key_ne_nil = λ e. cc;
  key_chars = (refl, (refl, (refl, (refl, tt))));
  is_written = tt;
}

mounts-IsSetting : IsSetting mounts
unfolding has
mounts-IsSetting = record {
  key_ne_nil = λ e. cc;
  key_chars = (refl, (refl, (refl, (refl, (refl, (refl, tt))))));
  is_written = ((refl, refl), tt);
}

examples-IsSetting : All IsSetting (image ∷ storage ∷ settings)
examples-IsSetting =
    (image-IsSetting, (storage-IsSetting, (port-IsSetting, (mounts-IsSetting, tt))))

rest_plain : starts_with (codes "# ") rest ≡ false
unfolding starts_with
rest_plain = refl

abbrev index : Setting
index = record { key = codes "index"; written = texts [] }

index-IsSetting : IsSetting index
index-IsSetting = record {
  key_ne_nil = λ e. cc;
  key_chars = (refl, (refl, (refl, (refl, (refl, tt)))));
  is_written = tt;
}

-- Another section, with one key of its own and one of the plugin's.
abbrev other : List Section
other =
    record {
      name = codes "tool.uv";
      settings = record { key = codes "image"; written = number 1 } ∷ index ∷ [];
    }
    ∷ []

other-IsSection : All IsSection other
unfolding has
other-IsSection = (
  record {
    name_is_line = refl;
    no_equals = refl;
    are_settings = (
      record {
        key_ne_nil = λ e. cc;
        key_chars = (refl, (refl, (refl, (refl, (refl, tt)))));
        is_written = tt;
      },
      (index-IsSetting, tt),
    );
  },
  tt,
)

no_env : contains env_header (sections_document (image ∷ storage ∷ settings) other rest) ≡ false
unfolding contains decimal join
no_env = refl

no_k8s : contains k8s_header (document env_title (image ∷ storage ∷ settings) rest) ≡ false
unfolding contains decimal join
no_k8s = refl

extract_k8s_example :
    (d : Fields) × (extract_pep723_metadata
        (sections_document (image ∷ storage ∷ settings) other rest)
      ≡ some d)
    × ((j : Text)
        → get j d
          ≡ or_value
              (last_setting meaning j (image ∷ storage ∷ settings))
              (last_setting plain j (settings_of other)))
extract_k8s_example =
    extract_k8s image (storage ∷ settings) other rest examples-IsSetting other-IsSection rest_plain
      no_env

extract_env_example :
    (d env : Fields) × (extract_pep723_metadata
        (document env_title (image ∷ storage ∷ settings) rest)
      ≡ some d)
    × ((j : Text) → get j env ≡ last_setting meaning j (image ∷ storage ∷ settings))
    × ((j : Text)
        → get j d ≡ (
            if same (codes "env") j
            then some (dict env)
            else last_setting plain j (image ∷ storage ∷ settings)))
extract_env_example =
    extract_env image (storage ∷ settings) rest examples-IsSetting rest_plain no_k8s

abbrev one_field : Text → Option Value
one_field s = some (dict (field (codes "title") (str s) empty))

dashes-IsMarkLine : IsMarkLine (codes "---")
unfolding has same strip
dashes-IsMarkLine = (refl, refl)

title-IsFrontLine : All IsFrontLine (codes "title: Demo" ∷ [])
unfolding has same strip
title-IsFrontLine = ((refl, refl), tt)

extract_frontmatter-document_example :
    extract_frontmatter one_field
      (front_document (codes "---") (codes "title: Demo" ∷ []) (codes "---") (codes "# Text"))
    ≡ only_dict (one_field (join (codes "\n") (codes "title: Demo" ∷ [])))
extract_frontmatter-document_example =
    extract_frontmatter-document one_field (codes "---") (codes "---") (codes "# Text")
      (codes "title: Demo" ∷ []) dashes-IsMarkLine title-IsFrontLine dashes-IsMarkLine

detect_content_type_run : detect_content_type (codes "```{python marimo}\n1\n```") ≡ markdown
unfolding detect_content_type
detect_content_type_run = refl
