-- ===== src/Deploy/Backed.antt =====
-- Traces in which no file is written before an apply that succeeded, and what keeps them so.
use marimo_operator.Base.{
  Text, codes, same, ◌≡◌, refl, Bool, true, false, ◌&&◌, ◌||◌, Option, List, [], ◌∷◌, ◌++◌, arith,
  if◌then◌else◌,
}
use marimo_operator.Credentials.Keeps.{Hears}
use marimo_operator.Swap.Keeps.{swap_file_path-Keeps}
use marimo_operator.Deploy.{Source, hash_of, mounts_data, sync_when_ready, track, after_apply}
use marimo_operator.Deploy.Steps.{sync_when_ready-Keeps}
use marimo_operator.Exec.{
  Event, ran, asked, said, wrote, Outside, World, ◌>>=◌, echo, echo_err, confirm, prompt,
  run_command, write_text, is_folder, find, store, file, is_folder, find, store, file,
}
use marimo_operator.Exec.Keeps.{Keeps, Keeps-bind, Keeps-then, Keeps-pure}
use marimo_operator.Kubectl.Replies.{succeeded}
use marimo_operator.Notebook.{Notebook}
use marimo_operator.Paths.{FilePath, path_text}
use marimo_operator.Result.{Result, ok, raise, os_error}
use marimo_operator.Swap.{to_dict, create_swap_meta, swap_file_path, write_swap_file}

-- kubectl apply ...
unfoldable pub is_apply : Event → Bool
unfolding same
is_apply (ran (k ∷ verb ∷ rest) input) = same verb (codes "apply")
is_apply e = false

-- One of the applies was answered with success.
unfoldable pub applied : Outside → List Event → Bool
unfolding is_apply
applied o [] = false
applied o (e ∷ t) = (is_apply e && succeeded (o.reply (e ∷ t))) || applied o t

-- A file is written after an apply that succeeded.
unfoldable pub is_backed : Outside → Event → List Event → Bool
unfolding applied
is_backed o (wrote p s) t = applied o t
is_backed o e t = true

unfoldable pub backed : Outside → List Event → Bool
unfolding is_backed
backed o [] = true
backed o (e ∷ t) = is_backed o e t && backed o t

abbrev pub IsBacked : Outside → World → Type 0
IsBacked o w = backed o w.trace ≡ true

-- Backed, and with an apply that succeeded.
pub record HasApplied (o : Outside) (t : List Event) : Type 0 where
  pub trace_backed : backed o t ≡ true
  pub has_applied : applied o t ≡ true

abbrev pub IsApplied : Outside → World → Type 0
IsApplied o w = HasApplied o w.trace

or_true : (a : Bool) {b : Bool} → b ≡ true → (a || b) ≡ true
or_true a h = ground arith

after_event :
    (o : Outside) (e : Event) (t : List Event)
    → is_backed o e t ≡ true
    → HasApplied o t
    → HasApplied o (e ∷ t)
after_event o e t b h = record {
  trace_backed = unfold backed in rw b h.trace_backed;
  has_applied = unfold applied in or_true (is_apply e && succeeded (o.reply (e ∷ t))) h.has_applied;
}

-- How `write_text` ends, by whether a folder is in the way.
abbrev write_end : FilePath → Text → World → Bool → Result (Unit {0}) × World
write_end p s w b =
    let done = record w {
      files = store (path_text p) (file s) w.files;
      trace = wrote (path_text p) s ∷ w.trace;
    } in
    if b then (raise os_error, w) else (ok tt, done)

module _ (o : Outside) where
  pub hears-IsBacked : Hears o (IsBacked o)
  unfolding backed echo echo_err confirm prompt run_command
  hears-IsBacked = record {
    says = λ s. record { at = λ w h. h };
    says_err = λ s. record { at = λ w h. h };
    confirms = λ s. record { at = λ w h. h };
    prompts = λ s. record { at = λ w h. h };
    runs = λ cmd input k. record { at = λ w h. h };
  }

  pub hears-IsApplied : Hears o (IsApplied o)
  unfolding is_backed echo echo_err confirm prompt run_command
  hears-IsApplied = record {
    says = λ s. record { at = λ w h. after_event o (said false s) w.trace refl h };
    says_err = λ s. record { at = λ w h. after_event o (said true s) w.trace refl h };
    confirms = λ s. record { at = λ w h. after_event o (asked s) w.trace refl h };
    prompts = λ s. record { at = λ w h. after_event o (asked s) w.trace refl h };
    runs = λ cmd input k. record { at = λ w h. after_event o (ran cmd input) w.trace refl h };
  }

  write_text-IsApplied : (p : FilePath) (s : Text) → Keeps (IsApplied o) (write_text p s)
  unfolding write_text
  write_text-IsApplied p s = record {
    at = λ w h. written w h (is_folder (find (path_text p) w.files));
  }
    where
      written : (w : World) → IsApplied o w → (b : Bool) → IsApplied o (write_end p s w b).1
      written w h true = h
      written w h false =
          after_event o (wrote (path_text p) s) w.trace (unfold is_backed in h.has_applied) h

  track-IsApplied :
      (f : Text) (ns : Option Text) (src : Source) (nb : Notebook)
      → Keeps (IsApplied o) (track o f ns src nb)
  unfolding track write_swap_file create_swap_meta
  track-IsApplied f ns src nb =
      Keeps-then
        (create_swap_meta o src.name ns f (hash_of o src.content) (mounts_data nb)
          >>= write_swap_file o f)
        (swap_file_path f >>= λ p. echo (codes "Tracking deployment in " ++ path_text p))
        (Keeps-bind (create_swap_meta o src.name ns f (hash_of o src.content) (mounts_data nb))
          (write_swap_file o f) (record { at = λ w h. h })
          (λ m.
            Keeps-bind (swap_file_path f) (λ p. write_text p (o.json_dump (to_dict m)))
              (swap_file_path-Keeps f) (λ p. write_text-IsApplied p (o.json_dump (to_dict m)))))
        (Keeps-bind (swap_file_path f) (λ p. echo (codes "Tracking deployment in " ++ path_text p))
          (swap_file_path-Keeps f)
          (λ p. (hears-IsApplied).says (codes "Tracking deployment in " ++ path_text p)))

  pub after_apply-IsApplied :
      (f : Text) (ns : Option Text) (src : Source) (nb : Notebook)
      → Keeps (IsApplied o) (after_apply o f ns src nb true)
  unfolding after_apply
  after_apply-IsApplied f ns src nb =
      Keeps-then (sync_when_ready o src.name ns nb.rsync_mounts) _
        (sync_when_ready-Keeps o hears-IsApplied src.name ns nb.rsync_mounts)
        (Keeps-then (track o f ns src nb) _ (track-IsApplied f ns src nb) (Keeps-pure _))
