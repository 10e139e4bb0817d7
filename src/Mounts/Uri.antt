-- ===== src/Mounts/Uri.antt =====
-- `parse_mount_uri` accepts exactly the texts `scheme://path`.
use marimo_operator.Base.{prepend}
use marimo_operator.Base.{
  Text, codes, is_word, has, drop, starts_with, starts_with→append, All, ◌≡◌, ◌≢◌, ◌↔◌, ◌⊎◌, inl,
  inr, refl, sym, ap, ◌∙◌, Bool, true, false, Bool-cases, Option, none, some, [], ◌∷◌, ◌++◌, arith,
}
use marimo_operator.Mounts.{
  to_line_end, word_span, with_scheme, parse_after_scheme, parse_mount_uri,
}

-- A scheme of word characters, a path with no newline, and perhaps a newline behind it.
pub record IsMountUri (uri scheme path : Text) : Type 0 where
  pub scheme_ne_nil : scheme ≢ []
  pub scheme_is_word : All (λ c. is_word c ≡ true) scheme
  pub path_is_line : has b'\n' path ≡ false
  pub spelled :
      (uri ≡ scheme ++ (codes "://" ++ path))
      ⊎ (uri ≡ scheme ++ (codes "://" ++ (path ++ codes "\n")))

word_span-append :
    (s rest : Text)
    → All (λ c. is_word c ≡ true) s
    → word_span (s ++ (b':' ∷ rest)) ≡ (s, b':' ∷ rest)
unfolding word_span is_word
word_span-append [] rest h = refl
word_span-append (c ∷ s) rest h = ground (arith, word_span-append s rest h.1)

word_span_sound :
    (u : Text)
    → ((word_span u).0 ++ (word_span u).1 ≡ u) × All (λ c. is_word c ≡ true) (word_span u).0
unfolding word_span
word_span_sound [] = (refl, tt)
word_span_sound (c ∷ u) = elim (Bool-cases (is_word c)) [
  | inl word ↦ rw word (ap (◌∷◌ c) (word_span_sound u).0, (word, (word_span_sound u).1))
  | inr other ↦ rw other (refl, tt)
]

pub to_line_end-line : (p : Text) → has b'\n' p ≡ false → to_line_end p ≡ some p
unfolding to_line_end prepend has
to_line_end-line [] h = refl
to_line_end-line (c ∷ []) h = ground arith
to_line_end-line (c ∷ d ∷ p) h = ground (arith, to_line_end-line (d ∷ p))

to_line_end-newline : (p : Text) → has b'\n' p ≡ false → to_line_end (p ++ codes "\n") ≡ some p
unfolding to_line_end prepend has
to_line_end-newline [] h = refl
to_line_end-newline (c ∷ []) h = ground arith
to_line_end-newline (c ∷ d ∷ p) h = ground (arith, to_line_end-newline (d ∷ p))

to_line_end_sound :
    (s : Text) {p : Text}
    → to_line_end s ≡ some p
    → (has b'\n' p ≡ false) × ((s ≡ p) ⊎ (s ≡ p ++ codes "\n"))
unfolding to_line_end prepend has
to_line_end_sound [] h = ground arith
to_line_end_sound (c ∷ []) h = ground arith
to_line_end_sound (c ∷ d ∷ s) {p} h =
    go (to_line_end (d ∷ s)) (λ q e. to_line_end_sound (d ∷ s) e) refl
  where
    go :
        (r : Option Text)
        → ((q : Text)
            → to_line_end (d ∷ s) ≡ some q
            → (has b'\n' q ≡ false) × ((d ∷ s ≡ q) ⊎ (d ∷ s ≡ q ++ codes "\n")))
        → to_line_end (d ∷ s) ≡ r
        → (has b'\n' p ≡ false) × ((c ∷ d ∷ s ≡ p) ⊎ (c ∷ d ∷ s ≡ p ++ codes "\n"))
    go none later e = ground arith
    go (some q) later e = ground (arith, later q e)

parse_after_scheme_sound :
    (t rest : Text) {scheme path : Text}
    → parse_after_scheme t rest ≡ some (scheme, path)
    → (scheme ≡ t)
      × (t ≢ [])
      × (has b'\n' path ≡ false)
      × ((rest ≡ codes "://" ++ path) ⊎ (rest ≡ codes "://" ++ (path ++ codes "\n")))
unfolding parse_after_scheme with_scheme
parse_after_scheme_sound [] rest h = cc
parse_after_scheme_sound (c ∷ t) rest {scheme} {path} h =
    go (starts_with (codes "://") rest) (to_line_end (drop 3 rest)) refl refl
  where
    go :
        (b : Bool) (r : Option Text)
        → starts_with (codes "://") rest ≡ b
        → to_line_end (drop 3 rest) ≡ r
        → (scheme ≡ c ∷ t)
          × (c ∷ t ≢ [])
          × (has b'\n' path ≡ false)
          × ((rest ≡ codes "://" ++ path) ⊎ (rest ≡ codes "://" ++ (path ++ codes "\n")))
    go false r e f = ground arith
    go true none e f = ground arith
    go true (some q) e f =
        ground (arith, to_line_end_sound (drop 3 rest) f, starts_with→append (codes "://") rest e)

parse_mount_uri_complete :
    (u scheme path : Text) → IsMountUri u scheme path → parse_mount_uri u ≡ some (scheme, path)
unfolding parse_mount_uri parse_after_scheme with_scheme
parse_mount_uri_complete u [] path v = absurd (v.scheme_ne_nil refl)
parse_mount_uri_complete u (c ∷ s) path v = elim v.spelled [
  | inl e ↦
      rw (e, word_span-append (c ∷ s) _ v.scheme_is_word)
        (rw (to_line_end-line path v.path_is_line))
  | inr e ↦
      rw (e, word_span-append (c ∷ s) _ v.scheme_is_word)
        (rw (to_line_end-newline path v.path_is_line))
]

parse_mount_uri_sound :
    (u : Text) {scheme path : Text}
    → parse_mount_uri u ≡ some (scheme, path)
    → IsMountUri u scheme path
unfolding parse_mount_uri
parse_mount_uri_sound u {scheme} {path} h =
    let (same_scheme, ne, line, spelling) =
      parse_after_scheme_sound (word_span u).0 (word_span u).1 h in
    let (whole, words) = word_span_sound u in
    record {
      scheme_ne_nil = rw same_scheme ne;
      scheme_is_word = rw same_scheme words;
      path_is_line = line;
      spelled = rw same_scheme (elim spelling [
        | inl e ↦ inl (sym whole ∙ ap (◌++◌ (word_span u).0) e)
        | inr e ↦ inr (sym whole ∙ ap (◌++◌ (word_span u).0) e)
      ]);
    }

-- A text is read as a scheme and a path exactly when it is the scheme, `://` and the path, where
-- the scheme is one or more word characters and the path has no newline; a single newline at the
-- end is dropped.
pub parse_mount_uri_iff :
    (uri scheme path : Text)
    → (parse_mount_uri uri ≡ some (scheme, path)) ↔ IsMountUri uri scheme path
parse_mount_uri_iff uri scheme path =
    (parse_mount_uri_sound uri, parse_mount_uri_complete uri scheme path)
