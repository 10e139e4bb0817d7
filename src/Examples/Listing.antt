-- ===== src/Examples/Listing.antt =====
-- `status` in a small directory.
use mathlib.Core.Path.{subst}
use marimo_operator.Base.{
  ℕ, ◌+◌, ◌*◌, ◌<◌, ◌⊎◌, sym, Text, codes, All, ◌≡◌, ◌≢◌, refl, true, none, List, [], ◌∷◌,
}
use marimo_operator.Examples.Commands.{meta, outside, start}
use marimo_operator.Exec.{find}
use marimo_operator.Paths.{path, path_text, child}
use marimo_operator.Result.{ok, raise, type_error}
use marimo_operator.Status.{
  original_name, is_swap_name, folder_prefix, swap_names, ago, second, sorted, show_status,
}
use marimo_operator.Status.Elapsed.{ago-Counts, Counts}
use marimo_operator.Status.Listing.{
  Entry, Readable, listed, headed, found_names, show_status-listed, show_status_unnamed,
}
use marimo_operator.Status.Names.{original_name-swap_name}
use marimo_operator.Swap.{SwapMeta, swap_name}
use marimo_operator.Swap.Tracking.{parsed_meta-to_dict}

original_name-swap_name_example :
    (original_name (swap_name (codes "a.marimo.py")) ≡ codes "a.marimo.py")
    × (is_swap_name (swap_name (codes "a.marimo.py")) ≡ true)
original_name-swap_name_example = original_name-swap_name (codes "a.marimo.py")

abbrev here : Text
here = codes "."

abbrev swap_text : Text
swap_text = codes ".demo.py.marimo"

demo_found : sorted (found_names (outside 0 meta) here start) ≡ swap_text ∷ []
unfolding swap_names folder_prefix path sorted
demo_found = refl

some_found : found_names (outside 0 meta) here start ≢ []
unfolding swap_names folder_prefix path
some_found e = cc

swap-Readable : (m : SwapMeta) → Readable (outside 0 m) start.files (child (path here) swap_text) m
swap-Readable m = record {
  text = codes "{}";
  there = unfold find path child path_text in refl;
  parsed = parsed_meta-to_dict m;
}

entry : Entry (outside 0 meta) start.files (path here) swap_text
entry = record { meta = meta; reads = swap-Readable meta; namespace = codes "team"; named = refl }

entries :
    All
      (Entry (outside 0 meta) start.files (path here))
      (sorted (found_names (outside 0 meta) here start))
entries = subst (All (Entry (outside 0 meta) start.files (path here))) (sym demo_found) (entry, tt)

show_status-listed_example : show_status (outside 0 meta) here start ≡ (
  ok tt,
  listed
      (outside 0 meta)
      start.files
      (path here)
      (sorted (found_names (outside 0 meta) here start))
      entries
      (headed start),
)
show_status-listed_example = show_status-listed (outside 0 meta) here start some_found entries

-- The same deployment without a namespace.
abbrev unnamed : SwapMeta
unnamed = record meta { namespace = none }

show_status_unnamed_example :
    show_status (outside 0 unnamed) here start ≡ (raise type_error, headed start)
show_status_unnamed_example =
    show_status_unnamed (outside 0 unnamed) here start [] [] swap_text unnamed demo_found tt
      (swap-Readable unnamed) refl

abbrev a_day : ℕ
a_day = 90000000000

ago-Counts_example :
    ((a_day < 60 * second) × (ago a_day ≡ codes "just now"))
    ⊎ (Counts a_day (60 * second) 60 (codes "m ago") (ago a_day)
        ⊎ (Counts a_day (3600 * second) 24 (codes "h ago") (ago a_day)
            ⊎ Counts a_day (86400 * second) (a_day + 1) (codes "d ago") (ago a_day)))
ago-Counts_example = ago-Counts a_day
