-- ===== src/Status/Order.antt =====
-- The order in which `show_status` lists deployments, by Python's order of texts.
use mathlib.Core.List.{Perm}
use mathlib.Core.List.Perm
use marimo_operator.Base.{Text, ◌≡◌, false, List, [], ◌∷◌}
use marimo_operator.Status.{text_lt}

-- No name is behind a larger one.
abbrev pub IsSorted : List Text → Type 0
IsSorted [] = Unit
IsSorted (n ∷ []) = Unit
IsSorted (n ∷ m ∷ ms) = (text_lt m n ≡ false) × IsSorted (m ∷ ms)
