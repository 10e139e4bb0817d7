-- ===== src/Main.antt =====
-- The command line: plugin/kubectl_marimo/main.py.
pub mod Session
use marimo_operator.Base.{
  Text, codes, Bool, true, false, Option, none, some, List, [], ◌∷◌, if◌then◌else◌,
}
use marimo_operator.Access.{deploy_notebook}
use marimo_operator.Delete.{delete_notebook}
use marimo_operator.Exec.{Outside, World, M, ◌>>=◌, ◌>>◌, pure, sys_exit, echo_err, exists}
use marimo_operator.Paths.{path}
use marimo_operator.Status.{show_status}
use marimo_operator.Sync.{sync_notebook}

-- The commands with their options, as click hands them over.
pub data Command : Type 0 where
  -- file, namespace, source, dry_run, headless, force
  edit run : Text → Option Text → Option Text → Bool → Bool → Bool → Command
  -- file, namespace, force
  sync : Text → Option Text → Bool → Command
  -- file, namespace, delete_pvc, no_sync
  delete : Text → Option Text → Bool → Bool → Command
  -- directory
  status : Text → Command

-- The argument, which must be an existing path.
unfoldable pub argument : Command → Text
argument (edit file ns source dry_run headless force) = file
argument (run file ns source dry_run headless force) = file
argument (sync file ns force) = file
argument (delete file ns delete_pvc no_sync) = file
argument (status directory) = directory

module _ (o : Outside) where
  -- The body of each command.
  unfoldable pub perform : Command → M (Unit {0})
  unfolding deploy_notebook sync_notebook delete_notebook show_status
  perform (edit file ns source dry_run headless force) =
      deploy_notebook o file (codes "edit") ns source dry_run headless force
  perform (run file ns source dry_run headless force) =
      deploy_notebook o file (codes "run") ns source dry_run headless force
  perform (sync file ns force) = sync_notebook o file ns force
  perform (delete file ns delete_pvc no_sync) = delete_notebook o file ns false no_sync delete_pvc
  perform (status directory) = show_status o directory

  -- click checks the path first, and ends with status 2 where there is none.
  unfoldable pub cli : Command → M (Unit {0})
  unfolding argument exists perform echo_err path
  cli c = exists (path (argument c)) >>= λ there.
      if there then perform c else echo_err (o.usage (argument c)) >> sys_exit 2
