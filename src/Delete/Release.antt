-- ===== src/Delete/Release.antt =====
-- Releasing the volume claim, then deleting the notebook: `remove`.
use marimo_operator.Base.{
  Text, codes, ◌≡◌, refl, true, false, Option, none, some, List, [], ◌∷◌, ◌++◌,
}
use marimo_operator.Delete.{notebook_kind, keep_volume, forget, delete_cluster, remove}
use marimo_operator.Delete.Patch.{IsReleased, keep_volume-IsReleased, report-Keeps}
use marimo_operator.Delete.Trace.{
  released, is_allowed, namespace_of, guarded-cons, IsGuarded, echo-IsGuarded, echo_err-IsGuarded,
  unlink-IsGuarded,
}
use marimo_operator.Exec.{
  ran, Event, Outside, World, M, ◌>>◌, next, pure, sys_exit, echo, exists, unlink,
}
use marimo_operator.Exec.Keeps.{
  next-keeps, Keeps, Keeps-bind, Keeps-then, Keeps-pure, Keeps-throw, Keeps-if, Keeps-exists,
  Keeps-of,
}
use marimo_operator.Kubectl.{delete_command, delete_resource}
use marimo_operator.Paths.{FilePath, path_text}
use marimo_operator.Result.{Result, ok, raise, exit}
use marimo_operator.Swap.{swap_file_path, delete_swap_at, delete_swap_file}
use marimo_operator.Swap.Keeps.{swap_file_path-Keeps}
use marimo_operator.Sync.{shown}

-- The second part of a command starts where the first ended.
next-then :
    {A B : Type 0} {P Q : World → Type 0} (r : Result A × World) (f : A → M B)
    → P r.1
    → ((w : World) → P w → Q w)
    → ((a : A) (w : World) → P w → Q (f a w).1)
    → Q (next r f).1
next-then (ok a, w) f h k l = l a w h
next-then (raise e, w) f h k l = k w h

module _ (o : Outside) (n : Text) (ns : Option Text) where
  allowed_delete :
      (t : List Event)
      → released o n ns false t ≡ true
      → is_allowed o (ran (delete_command notebook_kind n ns true) []) t ≡ true
  allowed_delete t h = go ns h
    where
      go :
          (ns' : Option Text)
          → released o n ns' false t ≡ true
          → is_allowed o (ran (delete_command notebook_kind n ns' true) []) t ≡ true
      go none k = unfold is_allowed delete_command namespace_of in rw k refl
      go (some s) k = unfold is_allowed delete_command namespace_of in rw k refl

  delete_resource-IsGuarded :
      (w : World)
      → IsReleased o n ns false w
      → IsGuarded o (delete_resource o notebook_kind n ns true w).1
  delete_resource-IsGuarded w h =
      let cmd = delete_command notebook_kind n ns true in
      unfold delete_resource in
      (report-Keeps (o.reply (ran cmd [] ∷ w.trace)) (echo-IsGuarded o) (echo_err-IsGuarded o)).at _
        (guarded-cons o (ran cmd []) w.trace (allowed_delete w.trace h.claim_released)
          h.trace_guarded)

delete_swap_file-IsGuarded : (o : Outside) (f : Text) → Keeps (IsGuarded o) (delete_swap_file f)
delete_swap_file-IsGuarded o f =
    Keeps-of
      (Keeps-bind (swap_file_path f) delete_swap_at (swap_file_path-Keeps f)
        delete_swap_at-IsGuarded)
      (unfold delete_swap_file in refl)
  where
    delete_swap_at-IsGuarded : (p : FilePath) → Keeps (IsGuarded o) (delete_swap_at p)
    delete_swap_at-IsGuarded p =
        Keeps-of
          (Keeps-bind (exists p) _ (Keeps-exists p) (λ there.
            Keeps-if there (unlink (path_text p) >> pure true) (pure false)
              (Keeps-then (unlink (path_text p)) (pure true) (unlink-IsGuarded o _)
                (Keeps-pure true))
              (Keeps-pure false)))
          (unfold delete_swap_at in refl)

module _ (o : Outside) (f : Text) where
  forget-IsGuarded : (n : Text) (ns : Option Text) → Keeps (IsGuarded o) (forget o f n ns)
  forget-IsGuarded n ns =
      Keeps-of
        (Keeps-bind (delete_swap_file f)
          (λ _. echo (codes "Deleted " ++ (shown ns ++ (codes "/" ++ n))))
          (delete_swap_file-IsGuarded o f) (λ _. echo-IsGuarded o _))
        (unfold forget in refl)

  delete_cluster-IsGuarded :
      (n : Text) (ns : Option Text) (w : World)
      → IsReleased o n ns false w
      → IsGuarded o (delete_cluster o f n ns w).1
  delete_cluster-IsGuarded n ns w h =
      unfold delete_cluster in
      next-keeps (delete_resource o notebook_kind n ns true w) _
        (delete_resource-IsGuarded o n ns w h)
        (λ deleted.
          Keeps-if deleted (forget o f n ns) (sys_exit 1) (forget-IsGuarded n ns)
            (Keeps-throw (exit 1)))

  pub remove-IsGuarded : (n : Text) (ns : Option Text) → Keeps (IsGuarded o) (remove o f n ns false)
  remove-IsGuarded n ns = record {
    at = λ w h.
        unfold remove in
        next-then (keep_volume o n ns w) (λ _. delete_cluster o f n ns)
          (keep_volume-IsReleased o n ns w h) (λ v r. r.trace_guarded)
          (λ _ v r. delete_cluster-IsGuarded n ns v r);
  }
