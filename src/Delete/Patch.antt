-- ===== src/Delete/Patch.antt =====
-- Releasing the volume claim of a notebook: `keep_volume`.
use mathlib.Core.Path.{subst}
use marimo_operator.Base.{
  Text, codes, same_refl, ◌≡◌, refl, Bool, true, false, Option, none, some, List, [], ◌∷◌, ◌++◌,
  ◌==◌, sym, not, ◌&&◌, ◌||◌, Bool-cases, inl, inr, arith, if◌then◌else◌,
}
use marimo_operator.Delete.{pvc_name, patch_json, volume_warning, keep_volume}
use marimo_operator.Delete.Trace.{
  same_all, release_argv, is_warning, is_release, is_reset, released, is_allowed, guarded,
  IsGuarded, run_command-IsGuarded,
}
use marimo_operator.Exec.{
  log, ran, said, Event, Outside, Process, World, ◌>>◌, pure, echo, echo_err, run_command,
}
use marimo_operator.Exec.Keeps.{Keeps, Keeps-then, Keeps-pure, Keeps-if, Keeps-of}
use marimo_operator.Kubectl.{not_found, report, patch_command, patch_resource}
use marimo_operator.Kubectl.Replies.{succeeded, report-succeeded}
use marimo_operator.Exec.Triples.{next-at}

-- A report keeps what printing keeps.
pub report-Keeps :
    {P : World → Type 0} (r : Option Process)
    → ((s : Text) → Keeps P (echo s))
    → ((s : Text) → Keeps P (echo_err s))
    → Keeps P (report r)
report-Keeps none e f =
    Keeps-of
      (Keeps-then (echo_err (codes "Error: " ++ not_found)) (pure false) (f _) (Keeps-pure false))
      (unfold report in refl)
report-Keeps (some p) e f =
    Keeps-of
      (Keeps-if (p.returncode == 0) (echo p.stdout >> pure true)
        (echo_err (codes "Error: " ++ p.stderr) >> pure false)
        (Keeps-then (echo p.stdout) (pure true) (e _) (Keeps-pure true))
        (Keeps-then (echo_err (codes "Error: " ++ p.stderr)) (pure false) (f _) (Keeps-pure false)))
      (unfold report in refl)

-- Guarded, and the volume claim of `n` was released, if a warning follows when the flag is set.
pub record IsReleased (o : Outside) (n : Text) (ns : Option Text) (warned : Bool) (w : World)
    : Type 0 where
  pub trace_guarded : guarded o w.trace ≡ true
  pub claim_released : released o n ns warned w.trace ≡ true

same_all_refl : (xs : List Text) → same_all xs xs ≡ true
unfolding same_all
same_all_refl [] = refl
same_all_refl (x ∷ xs) = rw (same_refl, same_all_refl xs) refl

patched-is_release :
    (n : Text) (ns : Option Text) (input : Text)
    → is_release n ns (ran (patch_command (codes "pvc") (pvc_name n) ns patch_json) input) ≡ true
unfolding is_release patch_command
patched-is_release n none input = same_all_refl (release_argv n none)
patched-is_release n (some s) input = same_all_refl (release_argv n (some s))

patched_allowed :
    (o : Outside) (n : Text) (ns : Option Text) (t : List Event)
    → is_allowed o (ran (patch_command (codes "pvc") (pvc_name n) ns patch_json) []) t ≡ true
unfolding is_allowed patch_command
patched_allowed o n none t = refl
patched_allowed o n (some s) t = refl

module _ (o : Outside) (n : Text) (ns : Option Text) where
  released-or :
      (r s n' x y : Bool)
      → (x ≡ true → y ≡ true)
      → ((r && (s || false)) || (n' && x)) ≡ true
      → ((r && (s || true)) || (n' && y)) ≡ true
  released-or r s n' x y older h = ground (arith, older)

  released-warned :
      (b : Bool) (t : List Event) → released o n ns b t ≡ true → released o n ns true t ≡ true
  unfolding released
  released-warned true t h = h
  released-warned false [] h = h
  released-warned false (e ∷ t) h =
      released-or (is_release n ns e) (succeeded (o.reply (e ∷ t))) (not (is_reset e))
        (released o n ns (is_warning e) t) (released o n ns true t)
        (released-warned (is_warning e) t) h

  module _ (b : Bool) where
    said-IsReleased :
        (err : Bool) (s : Text) (w : World)
        → IsReleased o n ns b w
        → IsReleased o n ns b (log (said err s) w)
    said-IsReleased err s w h = record {
      trace_guarded = unfold guarded is_allowed in h.trace_guarded;
      claim_released =
          unfold released is_release is_reset in
          flagged b (is_warning (said err s)) h.claim_released;
    }
      where
        flagged :
            (b x : Bool)
            → released o n ns b w.trace ≡ true
            → released o n ns (b || x) w.trace ≡ true
        flagged true x k = k
        flagged false true k = released-warned false w.trace k
        flagged false false k = k

    echo-IsReleased : (s : Text) → Keeps (IsReleased o n ns b) (echo s)
    unfolding echo
    echo-IsReleased s = record { at = said-IsReleased false s }

    echo_err-IsReleased : (s : Text) → Keeps (IsReleased o n ns b) (echo_err s)
    unfolding echo_err
    echo_err-IsReleased s = record { at = said-IsReleased true s }

  -- The warning.
  volume_warning-IsReleased :
      (w : World)
      → IsReleased o n ns true w
      → IsReleased o n ns false (log (said true volume_warning) w)
  volume_warning-IsReleased w h = record {
    trace_guarded = unfold guarded is_allowed in h.trace_guarded;
    claim_released =
        unfold released is_release is_reset is_warning in rw (same_refl) h.claim_released;
  }

  abbrev patch : List Text
  patch = patch_command (codes "pvc") (pvc_name n) ns patch_json

  patch-is_release : (input : Text) → is_release n ns (ran patch input) ≡ true
  patch-is_release input = patched-is_release n ns input

  allowed_patch : (t : List Event) → is_allowed o (ran patch []) t ≡ true
  allowed_patch t = patched_allowed o n ns t

  -- A patch that succeeds, or after which a warning follows, releases the claim.
  released-patch :
      (b : Bool) (t : List Event)
      → (succeeded (o.reply (ran patch [] ∷ t)) || b) ≡ true
      → released o n ns b (ran patch [] ∷ t) ≡ true
  released-patch b t h = unfold released in rw (patch-is_release [], h) refl

  module _ (w : World) (h : IsGuarded o w) where
    abbrev r : Option Process
    r = o.reply (ran patch [] ∷ w.trace)

    abbrev patched : World
    patched = (run_command o patch [] w).1

    patched-IsReleased :
        (b : Bool)
        → (succeeded (o.reply (ran patch [] ∷ w.trace)) || b) ≡ true
        → IsReleased o n ns b (report (o.reply (ran patch [] ∷ w.trace)) patched).1
    patched-IsReleased b s =
        (report-Keeps (o.reply (ran patch [] ∷ w.trace)) (echo-IsReleased b)
            (echo_err-IsReleased b)).at
          patched
          (record {
            trace_guarded = (run_command-IsGuarded o patch [] allowed_patch).at w h;
            claim_released = unfold run_command in released-patch b w.trace s;
          })

    -- The patch succeeds, or the user is warned.
    pub keep_volume-IsReleased : IsReleased o n ns false (keep_volume o n ns w).1
    keep_volume-IsReleased =
        subst (λ r. IsReleased o n ns false r.1) (sym at_answer)
          (elim (Bool-cases (succeeded r)) [
            | inl e ↦ rw e (patched-IsReleased false (rw e refl))
            | inr e ↦ rw e (
                unfold echo_err in
                volume_warning-IsReleased (report r patched).1
                  (patched-IsReleased true (rw e refl)))
          ])
      where
        at_answer :
            keep_volume o n ns w
            ≡ (if succeeded r then pure tt else echo_err volume_warning) (report r patched).1
        at_answer =
            unfold keep_volume patch_resource run_command in
            next-at (report r patched) (λ b. if b then pure tt else echo_err volume_warning)
              (succeeded r) (report-succeeded r patched)
