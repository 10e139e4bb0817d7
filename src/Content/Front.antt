-- ===== src/Content/Front.antt =====
-- The frontmatter of a markdown notebook.
use marimo_operator.Base.{
  Text, codes, has, split_on, split_on-append, join, ◌≡◌, refl, ap, ◌∙◌, true, false, Option, some,
  List, [], ◌∷◌, ◌++◌, All, arith, if◌then◌else◌,
}
use marimo_operator.Content.{
  markdown, python, detect_content_type, is_marimo_markdown, is_mark, cons_line, before_mark,
  frontmatter_lines, only_dict, load_lines, extract_frontmatter,
}
use marimo_operator.Value.{Value}

-- A line of frontmatter: it has no newline and is no mark.
abbrev pub IsFrontLine : Text → Type 0
IsFrontLine line = (has b'\n' line ≡ false) × (is_mark line ≡ false)

abbrev pub IsMarkLine : Text → Type 0
IsMarkLine line = (has b'\n' line ≡ false) × (is_mark line ≡ true)

-- The lines, each with its newline, and the text behind them.
abbrev pub lines_onto : List Text → Text → Text
lines_onto [] rest = rest
lines_onto (line ∷ lines) rest = line ++ (b'\n' ∷ lines_onto lines rest)

abbrev pub front_document : Text → List Text → Text → Text → Text
front_document opening lines closing rest =
    opening ++ (b'\n' ∷ lines_onto lines (closing ++ (b'\n' ∷ rest)))

before_mark-lines_onto :
    (lines : List Text) (closing rest : Text)
    → All IsFrontLine lines
    → IsMarkLine closing
    → before_mark (split_on b'\n' (lines_onto lines (closing ++ (b'\n' ∷ rest)))) ≡ some lines
before_mark-lines_onto [] closing rest h k =
    rw (split_on-append b'\n' closing rest k.0) (mark closing (split_on b'\n' rest) k.1)
  where
    mark : (c : Text) (ls : List Text) → is_mark c ≡ true → before_mark (c ∷ ls) ≡ some []
    mark c ls e = unfold before_mark in rw e refl
before_mark-lines_onto (line ∷ lines) closing rest h k =
    rw (split_on-append b'\n' line (lines_onto lines (closing ++ (b'\n' ∷ rest))) h.0.0) (
      further line _ h.0.1
      ∙ ap (cons_line line) (before_mark-lines_onto lines closing rest h.1 k)
      ∙ unfold cons_line in refl)
  where
    further :
        (c : Text) (ls : List Text)
        → is_mark c ≡ false
        → before_mark (c ∷ ls) ≡ cons_line c (before_mark ls)
    further c ls e = unfold before_mark in rw e refl

-- The frontmatter is what the YAML library makes of the lines between the first line and the next
-- mark, if that is a mapping. The lines between hold no newline and are no marks; what follows the
-- closing mark does not count.
pub extract_frontmatter-document :
    (safe_load : Text → Option Value) (opening closing rest : Text) (lines : List Text)
    → IsMarkLine opening
    → All IsFrontLine lines
    → IsMarkLine closing
    → extract_frontmatter safe_load (front_document opening lines closing rest)
      ≡ only_dict (safe_load (join (codes "\n") lines))
extract_frontmatter-document safe_load opening closing rest lines h hs k =
    split (front_document opening lines closing rest)
    ∙ ap (load_lines safe_load) (
        ap frontmatter_lines
          (split_on-append b'\n' opening (lines_onto lines (closing ++ (b'\n' ∷ rest))) h.0)
        ∙ opened opening (split_on b'\n' (lines_onto lines (closing ++ (b'\n' ∷ rest)))) h.1
        ∙ before_mark-lines_onto lines closing rest hs k)
    ∙ loaded
  where
    opened :
        (c : Text) (ls : List Text) → is_mark c ≡ true → frontmatter_lines (c ∷ ls) ≡ before_mark ls
    opened c ls e = unfold frontmatter_lines in rw e refl

    split :
        (c : Text)
        → extract_frontmatter safe_load c
          ≡ load_lines safe_load (frontmatter_lines (split_on b'\n' c))
    split c = unfold extract_frontmatter in refl

    loaded : load_lines safe_load (some lines) ≡ only_dict (safe_load (join (codes "\n") lines))
    loaded = unfold load_lines in refl

-- `detect_content_type` says markdown exactly where `is_marimo_markdown` holds, and python elsewhere.
pub detect_content_type-is_marimo_markdown :
    (content : Text)
    → detect_content_type content ≡ (if is_marimo_markdown content then markdown else python)
unfolding detect_content_type is_marimo_markdown
detect_content_type-is_marimo_markdown content = ground arith
