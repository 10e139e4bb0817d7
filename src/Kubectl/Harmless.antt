-- ===== src/Kubectl/Harmless.antt =====
-- The programs that the plugin runs, but for the deletions.
use marimo_operator.Base.{
  ℕ, suc, Text, codes, same, ◌≡◌, refl, Bool, true, false, not, Option, none, some, List, [], ◌∷◌,
}
use marimo_operator.Kubectl.{with_namespace}

-- Not a command with the verb `delete`, the word behind the program's name, on some resource.
unfoldable pub is_harmless : List Text → Bool
unfolding same
is_harmless (k ∷ verb ∷ kind ∷ n ∷ rest) = not (same verb (codes "delete"))
is_harmless _ = true

pub verb_harmless :
    (k verb : Text) (rest : List Text)
    → same verb (codes "delete") ≡ false
    → is_harmless (k ∷ verb ∷ rest) ≡ true
unfolding is_harmless
verb_harmless k verb [] e = refl
verb_harmless k verb (a ∷ []) e = refl
verb_harmless k verb (a ∷ b ∷ rest) e = rw e refl

pub with_namespace_harmless :
    (i : ℕ) (ns : Option Text) (k verb : Text) (rest : List Text)
    → same verb (codes "delete") ≡ false
    → is_harmless (with_namespace (suc (suc i)) ns (k ∷ verb ∷ rest)) ≡ true
unfolding with_namespace
with_namespace_harmless i none k verb rest e = verb_harmless k verb rest e
with_namespace_harmless i (some ns) k verb rest e = verb_harmless k verb _ e
