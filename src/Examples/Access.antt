-- ===== src/Examples/Access.antt =====
-- The access to a notebook, in the small world of the commands.
use marimo_operator.Access.{
  token_mark, is_token_char, search_token, wait_for_token, close_notebook, setup_sshfs,
  open_notebook, warn_not_ready,
}
use marimo_operator.Access.Closed.{AllStopped, open_notebook-AllStopped}
use marimo_operator.Access.Waited.{waited}
use marimo_operator.Mounts.{SshfsMount}
use marimo_operator.Access.Missing.{after_attempt, titled, close_notebook_missing}
use marimo_operator.Access.Rounds.{Installed, Polled, wait_for_token-Polled}
use marimo_operator.Access.Token.{at_char, search_token_first}
use marimo_operator.Base.{
  List, Text, codes, contains, All, ◌≡◌, refl, true, false, none, some, [], ◌∷◌, ◌++◌,
}
use marimo_operator.Examples.Commands.{demo, meta, outside, start}
use marimo_operator.Exec.{folder, find, Outside, World}
use marimo_operator.Main.{delete, cli}
use marimo_operator.Paths.{path, path_text}
use marimo_operator.Result.{ok, raise, os_error}
use marimo_operator.Sshfs.{local_path, is_port}
use marimo_operator.Upload.{wait_for_ready}
use marimo_operator.Value.{pos}

abbrev token : Text
token = codes "s3cret"

search_token_first_example :
    search_token (codes "URL: http://h/?" ++ (token_mark ++ (token ++ codes " access_token=x")))
    ≡ some token
search_token_first_example =
    search_token_first (codes "URL: http://h/?") token (codes " access_token=x") no_mark (λ e. cc)
      chars (at_char no_char)
  where
    no_char : is_token_char b' ' ≡ false
    no_char = unfold is_token_char in refl

    no_mark : contains token_mark (codes "URL: http://h/?" ++ codes "access_token") ≡ false
    no_mark = unfold contains in refl

    chars : All (λ c. is_token_char c ≡ true) token
    chars = unfold is_token_char in (refl, (refl, (refl, (refl, (refl, (refl, tt))))))

installed : Installed (outside 0 meta)
installed = record {
  process = λ t. (record { returncode = 0; stdout = []; stderr = codes "denied" }, refl);
}

wait_for_token-Polled_example :
    Polled (outside 0 meta) 5 start (wait_for_token (outside 0 meta) 5 (codes "demo") none start)
wait_for_token-Polled_example =
    wait_for_token-Polled (outside 0 meta) installed (codes "demo") none 5 start

-- No program is found, and a directory stands where the mount was.
abbrev bare : Outside
bare = record (outside 0 meta) { reply = λ t. none; resolved = λ s. s }

close_notebook_missing_example :
    close_notebook bare demo none ((codes "pages", some 7) ∷ []) start
    ≡ (raise os_error, after_attempt bare (codes "pages") (titled bare (codes "pages") start))
close_notebook_missing_example =
    close_notebook_missing bare (codes "pages") demo none (some 7) [] folder start there refl
  where
    there : find (path_text (path (local_path bare (codes "pages")))) start.files ≡ some folder
    there = unfold find path path_text in refl

abbrev o : Outside
o = outside 0 meta

abbrev after_delete : World
after_delete = (cli o (delete demo none false true) start).1

abbrev mounts : List SshfsMount
mounts = record { remote_path = codes "/srv"; local_mount = codes "mnt" } ∷ []

set_up_run :
    (setup_sshfs o (codes "demo") none mounts (waited o (codes "demo") none start).1).0
    ≡ ok ((codes "mnt", some 5) ∷ [])
unfolding setup_sshfs wait_for_ready warn_not_ready
set_up_run = refl

open_notebook-AllStopped_example :
    AllStopped (open_notebook o (codes "demo") none (pos 2718) demo mounts start).1.trace
open_notebook-AllStopped_example =
    open_notebook-AllStopped o (codes "demo") none (pos 2718) demo mounts
      ((codes "mnt", some 5) ∷ []) start installed (λ t. refl) valid nothing_runs set_up_run
  where
    valid : is_port (pos 2718) ≡ true
    valid = unfold is_port in refl

    nothing_runs : AllStopped start.trace
    nothing_runs = record { stops = λ handle s. elim s [ ] }
