-- ===== src/Status/Names.antt =====
-- The names of swap files, as `status` reads them back.
use marimo_operator.Base.{ℕ, Text, same, same_refl, ◌≡◌, refl, true, some, [], ◌∷◌, ◌++◌, arith}
use marimo_operator.Status.{split_last_text, original_name, is_swap_name}
use marimo_operator.Swap.{extension, swap_name}
use marimo_operator.Sync.{ends_in}

split_last_text-extension : (n : Text) → split_last_text extension (n ++ extension) ≡ some (n, [])
split_last_text-extension [] = unfold split_last_text in refl
split_last_text-extension (c ∷ n) = further c (n ++ extension) (split_last_text-extension n)
  where
    further :
        (c : ℕ) (s : Text)
        → split_last_text extension s ≡ some (n, [])
        → split_last_text extension (c ∷ s) ≡ some (c ∷ n, [])
    further c s e = unfold split_last_text in rw e refl

pub ends_in-append : (p n : Text) → ends_in p (n ++ p) ≡ true
unfolding ends_in
ends_in-append [] [] = unfold same in refl
ends_in-append (c ∷ p) [] = rw same_refl refl
ends_in-append p (c ∷ n) = rw (ends_in-append p n) (ground arith)

-- The file of a swap file's name is the file that it was made for, whatever the file's name holds,
-- and `status` takes that name for a swap file's.
pub original_name-swap_name :
    (n : Text) → (original_name (swap_name n) ≡ n) × (is_swap_name (swap_name n) ≡ true)
original_name-swap_name n =
    (named (split_last_text-extension n), unfold is_swap_name in ends_in-append extension n)
  where
    named :
        split_last_text extension (n ++ extension) ≡ some (n, []) → original_name (swap_name n) ≡ n
    named e = unfold original_name in rw e refl
