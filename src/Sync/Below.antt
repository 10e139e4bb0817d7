-- ===== src/Sync/Below.antt =====
-- Which files the clean-up of `sync_local_mounts` removes, by their paths.
use marimo_operator.Base.{
  Text, codes, same, same_iff, starts_with, starts_with-append, starts_with→append, length, drop,
  ◌≡◌, refl, sym, ap, ◌∙◌, Bool, true, false, ◌||◌, none, some, [], ◌∷◌, ◌++◌, arith, if◌then◌else◌,
  Bool-cases, inl, inr, ◌⊎◌,
}
use marimo_operator.Exec.{folder, World, find}
use marimo_operator.Paths.{FilePath, path_text}
use marimo_operator.Result.{ok}
use marimo_operator.Status.Names.{ends_in-append}
use marimo_operator.Swap.{extension}
use marimo_operator.Sync.{is_below, ends_in, swap_copies, clean_copies}
use marimo_operator.Sync.Copies.{AreFiles, Distinct, is_copy, clean_copies_lem}

++-assoc : (a b c : Text) → (a ++ b) ++ c ≡ a ++ (b ++ c)
++-assoc [] b c = refl
++-assoc (x ∷ a) b c = ap (λ s. x ∷ s) (++-assoc a b c)

ends_in→append : (p s : Text) → ends_in p s ≡ true → (t : Text) × (s ≡ t ++ p)
ends_in→append p [] h = ([], sym ((same_iff p []).0 (unfold ends_in in h)))
ends_in→append p (c ∷ s) h = elim (Bool-cases (same p (c ∷ s))) [
  | inl e ↦ ([], sym ((same_iff p (c ∷ s)).0 e))
  | inr e ↦ longer (ends_in→append p s (shorter e h))
]
  where
    shorter : same p (c ∷ s) ≡ false → ends_in p (c ∷ s) ≡ true → ends_in p s ≡ true
    shorter e k = test e (unfold ends_in in k)
      where
        test : {x y : Bool} → x ≡ false → (x || y) ≡ true → y ≡ true
        test d m = ground arith

    longer : (t : Text) × (s ≡ t ++ p) → (t : Text) × (c ∷ s ≡ t ++ p)
    longer (t, e) = (c ∷ t, ap (λ x. c ∷ x) e)

-- The path of a file below the directory.
abbrev pub inside : FilePath → Text → Text
inside p s = path_text p ++ (codes "/" ++ s)

module _ (p : FilePath) (not_here : same (path_text p) (codes ".") ≡ false)
    (not_root : same (path_text p) (codes "/") ≡ false) where
  is_below_lem : (k : Text) → is_below p k ≡ starts_with (path_text p ++ codes "/") k
  is_below_lem k = unfold is_below in rw (not_here, not_root) refl

  inside-is_copy : (s : Text) → is_copy p (inside p (s ++ codes ".marimo")) ≡ true
  inside-is_copy s = rw (below, ending) refl
    where
      key : Text
      key = inside p (s ++ codes ".marimo")

      below : is_below p key ≡ true
      below =
          is_below_lem key
          ∙ ap (starts_with (path_text p ++ codes "/"))
              (sym (++-assoc (path_text p) (codes "/") (s ++ codes ".marimo")))
          ∙ starts_with-append (path_text p ++ codes "/") (s ++ codes ".marimo")

      ending : ends_in extension key ≡ true
      ending =
          ap (ends_in extension) (sym (++-assoc (path_text p) (codes "/" ++ s) (codes ".marimo")))
          ∙ ends_in-append extension (path_text p ++ (codes "/" ++ s))

  is_copy→inside :
      (k : Text)
      → is_copy p k ≡ true
      → ((s : Text) × (k ≡ inside p s)) × ((t : Text) × (k ≡ t ++ codes ".marimo"))
  is_copy→inside k c = (
    (
      drop (length (path_text p ++ codes "/")) k,
      starts_with→append (path_text p ++ codes "/") k (sym (is_below_lem k) ∙ both.0)
          ∙ ++-assoc (path_text p) (codes "/") _,
    ),
    ends_in→append extension k both.1,
  )
    where
      both : (is_below p k ≡ true) × (ends_in extension k ≡ true)
      both = (ground arith, ground arith)

  -- In a directory other than the current one and the root, where all that `DIR/....marimo` names are
  -- files, each listed once: the clean-up ends well, each file `DIR/....marimo` is gone, and each
  -- other path names what it named before. (A path that changed starts with `DIR/`, ends with
  -- `.marimo`, and is gone.)
  pub clean_copies-removes :
      (w : World)
      → find (path_text p) w.files ≡ some folder
      → AreFiles w.files (swap_copies p w.files)
      → Distinct (swap_copies p w.files)
      → let out = clean_copies p w in
        (out.0 ≡ ok tt)
        × ((s : Text) → find (inside p (s ++ codes ".marimo")) out.1.files ≡ none)
        × ((k : Text)
            → (find k out.1.files ≡ find k w.files)
              ⊎ (((s : Text) × (k ≡ inside p s))
                  × ((t : Text) × (k ≡ t ++ codes ".marimo"))
                  × (find k out.1.files ≡ none)))
  clean_copies-removes w there files distinct = (
    cleaned.0,
    λ s. cleaned.1 (inside p (s ++ codes ".marimo")) ∙ rw (inside-is_copy s) refl,
    λ k. elim (Bool-cases (is_copy p k)) [
      | inl e ↦ inr ((is_copy→inside k e).0, (is_copy→inside k e).1, cleaned.1 k ∙ rw e refl)
      | inr e ↦ inl (cleaned.1 k ∙ rw e refl)
    ],
  )
    where
      cleaned :
          ((clean_copies p w).0 ≡ ok tt)
          × ((k : Text)
              → find k (clean_copies p w).1.files ≡ (if is_copy p k then none else find k w.files))
      cleaned = clean_copies_lem p w there files distinct
