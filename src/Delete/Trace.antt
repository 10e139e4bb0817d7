-- ===== src/Delete/Trace.antt =====
-- Traces in which a notebook is deleted only behind the release of its volume claim, and the steps
-- that keep a trace so.
use marimo_operator.Base.{
  Text, codes, same, ◌≡◌, refl, Bool, true, false, not, ◌&&◌, ◌||◌, Option, none, some, List, [],
  ◌∷◌, ◌++◌, if◌then◌else◌, arith,
}
use marimo_operator.Exec.{
  Event, ran, asked, said, Outside, World, echo, echo_err, confirm, run_command, write_text, unlink,
}
use marimo_operator.Exec.Keeps.{Keeps}
use marimo_operator.Kubectl.Harmless.{is_harmless}
use marimo_operator.Kubectl.Replies.{succeeded}
use marimo_operator.Sshfs.Traces.{is_calm}
use marimo_operator.Paths.{FilePath}

-- The command that removes the owner references of the volume claim of a notebook in a namespace.
abbrev pub release_argv : Text → Option Text → List Text
release_argv n none =
    codes "kubectl"
    ∷ codes "patch"
    ∷ codes "pvc"
    ∷ (n ++ codes "-pvc")
    ∷ codes "--type=merge"
    ∷ codes "-p"
    ∷ codes "{\"metadata\":{\"ownerReferences\":null}}"
    ∷ []
release_argv n (some ns) =
    codes "kubectl"
    ∷ codes "patch"
    ∷ codes "pvc"
    ∷ (n ++ codes "-pvc")
    ∷ codes "-n"
    ∷ ns
    ∷ codes "--type=merge"
    ∷ codes "-p"
    ∷ codes "{\"metadata\":{\"ownerReferences\":null}}"
    ∷ []

unfoldable pub same_all : List Text → List Text → Bool
unfolding same
same_all [] [] = true
same_all (x ∷ xs) (y ∷ ys) = same x y && same_all xs ys
same_all _ _ = false

unfoldable pub is_release : Text → Option Text → Event → Bool
unfolding same_all
is_release n ns (ran argv input) = same_all argv (release_argv n ns)
is_release n ns _ = false

-- An apply or a deletion, after which a release counts no more.
unfoldable pub is_reset : Event → Bool
unfolding same
is_reset (ran (k ∷ verb ∷ rest) input) = same verb (codes "apply") || same verb (codes "delete")
is_reset _ = false

-- The user is told that the volume may go.
unfoldable pub is_warning : Event → Bool
unfolding same
is_warning (said true line) = same line (
    codes "Warning: Could not patch PVC to remove owner references. "
    ++ codes "PVC may be deleted with the notebook.")
is_warning _ = false

-- Since the last apply or deletion the claim was patched, and the patch succeeded or the user was
-- warned after it. The flag is set if a warning is known to follow the trace.
unfoldable pub released : Outside → Text → Option Text → Bool → List Event → Bool
unfolding is_release is_reset is_warning
released o n ns warned [] = false
released o n ns warned (e ∷ t) =
    (is_release n ns e && (succeeded (o.reply (e ∷ t)) || warned))
    || (not (is_reset e) && released o n ns (warned || is_warning e) t)

-- The namespace of a deletion, from what stands behind the name.
unfoldable pub namespace_of : List Text → Option Text
unfolding same
namespace_of (flag ∷ ns ∷ rest) = if same flag (codes "-n") then some ns else none
namespace_of _ = none

-- kubectl delete KIND NAME ... comes after the release of the volume claim of NAME in the same
-- namespace, with no apply and no deletion in between.
unfoldable pub is_allowed : Outside → Event → List Event → Bool
unfolding released namespace_of same
is_allowed o (ran (k ∷ verb ∷ kind ∷ n ∷ rest) input) t =
    not (same verb (codes "delete")) || released o n (namespace_of rest) false t
is_allowed o _ t = true

unfoldable pub guarded : Outside → List Event → Bool
unfolding is_allowed
guarded o [] = true
guarded o (e ∷ t) = is_allowed o e t && guarded o t

abbrev pub IsGuarded : Outside → World → Type 0
IsGuarded o w = guarded o w.trace ≡ true

module _ (o : Outside) where
  pub guarded-cons :
      (e : Event) (t : List Event)
      → is_allowed o e t ≡ true
      → guarded o t ≡ true
      → guarded o (e ∷ t) ≡ true
  unfolding guarded
  guarded-cons e t h k = rw h k

  pub calm-allowed : (e : Event) (t : List Event) → is_calm e ≡ true → is_allowed o e t ≡ true
  unfolding is_calm is_allowed is_harmless
  calm-allowed (ran (k ∷ verb ∷ kind ∷ n ∷ rest) input) t h = rw h refl
  calm-allowed _ t h = refl

  pub echo-IsGuarded : (s : Text) → Keeps (IsGuarded o) (echo s)
  unfolding echo
  echo-IsGuarded s = record {
    at = λ w h. guarded-cons (said false s) w.trace (unfold is_allowed in refl) h;
  }

  pub echo_err-IsGuarded : (s : Text) → Keeps (IsGuarded o) (echo_err s)
  unfolding echo_err
  echo_err-IsGuarded s = record {
    at = λ w h. guarded-cons (said true s) w.trace (unfold is_allowed in refl) h;
  }

  pub confirm-IsGuarded : (s : Text) → Keeps (IsGuarded o) (confirm o s)
  unfolding confirm
  confirm-IsGuarded s = record {
    at = λ w h. guarded-cons (asked s) w.trace (unfold is_allowed in refl) h;
  }

  pub run_command-IsGuarded :
      (cmd : List Text) (input : Text)
      → ((t : List Event) → is_allowed o (ran cmd input) t ≡ true)
      → Keeps (IsGuarded o) (run_command o cmd input)
  unfolding run_command
  run_command-IsGuarded cmd input a = record {
    at = λ w h. guarded-cons (ran cmd input) w.trace (a w.trace) h;
  }

  pub write_text-IsGuarded : (p : FilePath) (s : Text) → Keeps (IsGuarded o) (write_text p s)
  unfolding write_text guarded
  write_text-IsGuarded p s = record { at = λ w h. ground arith }

  pub unlink-IsGuarded : (key : Text) → Keeps (IsGuarded o) (unlink key)
  unfolding unlink guarded
  unlink-IsGuarded key = record { at = λ w h. ground arith }
