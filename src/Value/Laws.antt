-- ===== src/Value/Laws.antt =====
-- Laws of dicts.
use marimo_operator.Base.{Text, same, same_iff, ◌≡◌, false, refl, some, arith, if◌then◌else◌}
use marimo_operator.Value.{Value, Fields, empty, field, get, put, is_empty}

-- Reading after writing, at every key.
pub get-put :
    (j k : Text) (v : Value) (d : Fields)
    → get j (put k v d) ≡ (if same k j then some v else get j d)
unfolding get put
get-put j k v empty = refl
get-put j k v (field i w d) =
    ground (arith, same_iff k j, same_iff i k, same_iff i j, get-put j k v d)

pub is_empty-put : (k : Text) (v : Value) (d : Fields) → is_empty (put k v d) ≡ false
unfolding put
is_empty-put k v empty = refl
is_empty-put k v (field j w d) = ground arith
