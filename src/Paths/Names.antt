-- ===== src/Paths/Names.antt =====
-- The parts of a file name.
use marimo_operator.Base.{List, Text, ◌≡◌, refl, [], ◌∷◌, ◌++◌}
use marimo_operator.Paths.{FilePath, name, last_name, child}

-- The name of `p / n` is `n`.
pub name-child : (p : FilePath) (n : Text) → name (child p n) ≡ n
unfolding name child
name-child p n = go p.names
  where
    go : (ns : List Text) → last_name (ns ++ (n ∷ [])) ≡ n
    go [] = refl
    go (m ∷ []) = refl
    go (m ∷ o ∷ ns) = go (o ∷ ns)
