-- ===== src/Delete/Steps.antt =====
-- The steps of `delete_notebook` before the removal keep a trace guarded.
use marimo_operator.Base.{
  Text, codes, ◌≡◌, refl, Bool, true, false, Option, none, some, ◌++◌, if◌then◌else◌, List,
}
use marimo_operator.Content.{detect_content_type}
use marimo_operator.Delete.{
  may_sync, store_content, cancelled_line, pull_all, sync_first, before_delete,
}
use marimo_operator.Delete.Trace.{
  IsGuarded, is_allowed, guarded, guarded-cons, calm-allowed, echo-IsGuarded, echo_err-IsGuarded,
  write_text-IsGuarded,
}
use marimo_operator.Exec.{
  started, Outside, ◌>>=◌, ◌>>◌, pure, echo, echo_err, write_text, read_text,
}
use marimo_operator.Sshfs.Keeps.{Serves}
use marimo_operator.Sshfs.Traces.{grown-Serves, start-grows}
use marimo_operator.Exec.Programs.{start}
use marimo_operator.Sync.Keeps.{
  Acts, ask_if_modified-Keeps, exec_in_pod-Keeps, sync_optional_mounts-Keeps,
}
use marimo_operator.Exec.Keeps.{
  Keeps, Keeps-bind, Keeps-then, Keeps-pure, Keeps-if, Keeps-read_text, Keeps-of,
}
use marimo_operator.Kubectl.{exec_in_pod}
use marimo_operator.Paths.{path}
use marimo_operator.Swap.{SwapMeta}
use marimo_operator.Sync.{ask_if_modified, sync_optional_mounts, cat_command}

pub IsGuarded-Serves : (o : Outside) → Serves o (IsGuarded o)
IsGuarded-Serves o =
    grown-Serves o (λ t. guarded o t ≡ true)
      (λ e t calm h. guarded-cons o e t (calm-allowed o e t calm) h)

pub start-IsGuarded : (o : Outside) (cmd : List Text) → Keeps (IsGuarded o) (start o cmd)
start-IsGuarded o =
    start-grows o (λ t. guarded o t ≡ true)
      (λ e t calm h. guarded-cons o e t (calm-allowed o e t calm) h)
      (λ cmd t h. guarded-cons o (started cmd) t (unfold is_allowed in refl) h)

acts : (o : Outside) → Acts o (IsGuarded o)
acts o = (IsGuarded-Serves o).acts

may_sync-IsGuarded :
    (o : Outside) (f : Text) (force : Bool) (meta : SwapMeta)
    → Keeps (IsGuarded o) (may_sync o f force meta)
may_sync-IsGuarded o f force meta =
    Keeps-of
      (Keeps-if force (pure true) (read_text (path f) >>= ask_if_modified o f meta.file_hash)
        (Keeps-pure true)
        (Keeps-bind (read_text (path f)) (ask_if_modified o f meta.file_hash)
          (Keeps-read_text (path f)) (ask_if_modified-Keeps o (acts o) f meta.file_hash)))
      (unfold may_sync in refl)

store_content-IsGuarded :
    (o : Outside) (f : Text) (r : Bool × Text) → Keeps (IsGuarded o) (store_content o f r)
store_content-IsGuarded o f (false, message) =
    Keeps-of
      (Keeps-then (echo_err (codes "Warning: Could not sync from pod: " ++ message))
        (echo (codes "Continuing with delete...")) (echo_err-IsGuarded o _) (echo-IsGuarded o _))
      (unfold store_content in refl)
store_content-IsGuarded o f (true, content) =
    Keeps-of
      (Keeps-then (write_text (path f) content) (echo (codes "Synced content to " ++ f))
        (write_text-IsGuarded o (path f) content) (echo-IsGuarded o _))
      (unfold store_content in refl)

pull_all-IsGuarded :
    (o : Outside) (f : Text) (ns : Option Text) (content : Text) (meta : SwapMeta)
    → Keeps (IsGuarded o) (pull_all o f ns content meta)
pull_all-IsGuarded o f ns content meta =
    let cat = cat_command (detect_content_type content) in
    Keeps-of
      (Keeps-then (exec_in_pod o meta.name ns cat >>= store_content o f)
        (sync_optional_mounts o meta.name ns meta.local_mounts >> pure true)
        (Keeps-bind (exec_in_pod o meta.name ns cat) (store_content o f)
          (exec_in_pod-Keeps o (acts o) meta.name ns cat) (store_content-IsGuarded o f))
        (Keeps-then (sync_optional_mounts o meta.name ns meta.local_mounts) (pure true)
          (sync_optional_mounts-Keeps o (acts o) meta.name ns meta.local_mounts) (Keeps-pure true)))
      (unfold pull_all in refl)

abbrev first_line : Text
first_line = codes "Syncing changes from pod before delete..."

sync_first-IsGuarded :
    (o : Outside) (f : Text) (ns : Option Text) (force : Bool) (content : Text) (meta : SwapMeta)
    → Keeps (IsGuarded o) (sync_first o f ns force content meta)
sync_first-IsGuarded o f ns force content meta =
    Keeps-of
      (Keeps-then (echo first_line) _ (echo-IsGuarded o first_line) (
        Keeps-bind (may_sync o f force meta)
          (λ go. if go then pull_all o f ns content meta else echo (cancelled_line o) >> pure false)
          (may_sync-IsGuarded o f force meta)
          (λ go.
            Keeps-if go (pull_all o f ns content meta) (echo (cancelled_line o) >> pure false)
              (pull_all-IsGuarded o f ns content meta)
              (Keeps-then (echo (cancelled_line o)) (pure false) (echo-IsGuarded o _)
                (Keeps-pure false)))))
      (unfold sync_first in refl)

pub before_delete-IsGuarded :
    (o : Outside) (f : Text) (ns : Option Text) (force no_sync : Bool) (content : Text)
    (meta : Option SwapMeta)
    → Keeps (IsGuarded o) (before_delete o f ns force no_sync content meta)
before_delete-IsGuarded o f ns force no_sync content none =
    Keeps-of (Keeps-pure true) (unfold before_delete in refl)
before_delete-IsGuarded o f ns force no_sync content (some meta) =
    Keeps-of
      (Keeps-if no_sync (pure true) (sync_first o f ns force content meta) (Keeps-pure true)
        (sync_first-IsGuarded o f ns force content meta))
      (unfold before_delete in refl)
