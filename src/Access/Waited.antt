-- ===== src/Access/Waited.antt =====
-- The wait for the pod with which `open_notebook` begins.
use marimo_operator.Base.{Text, codes, ◌≡◌, refl, Bool, true, false, Option, [], ◌++◌, ◌==◌}
use marimo_operator.Access.{warn_not_ready}
use marimo_operator.Access.Cleanup.{Returns, next-Returns, run_found-Returns}
use marimo_operator.Access.Keeps.{warn_not_ready-Keeps}
use marimo_operator.Access.Rounds.{Installed}
use marimo_operator.Access.Tended.{Tended, Tended-Serves}
use marimo_operator.Credentials.{run_found}
use marimo_operator.Deploy.Steps.{wait_for_ready-Keeps}
use marimo_operator.Exec.{said, log, Outside, World, ◌>>=◌, pure, echo, echo_err}
use marimo_operator.Exec.Keeps.{Keeps-bind}
use marimo_operator.Result.{Result, ok}
use marimo_operator.Upload.{wait_command, wait_for_ready}

-- The world in which the mounts are set up: the pod was waited for.
abbrev pub waited : Outside → Text → Option Text → World → Result (Unit {0}) × World
waited o name ns w =
    (wait_for_ready o name ns 120 >>= warn_not_ready o)
      (log (said false (codes "Waiting for " ++ (name ++ codes " to be ready..."))) w)

wait_for_ready-Returns :
    (o : Outside)
    → Installed o
    → (name : Text) (ns : Option Text) → Returns (wait_for_ready o name ns 120)
unfolding wait_for_ready
wait_for_ready-Returns o installed name ns w =
    let (p, e) = run_found-Returns o installed (wait_command name ns 120) w in
    next-Returns (run_found o (wait_command name ns 120) w) (λ q. pure (q.returncode == 0)) e
      (λ q v. (q.returncode == 0, refl))

warn_not_ready-Returns : (o : Outside) (ready : Bool) → Returns (warn_not_ready o ready)
unfolding warn_not_ready echo_err
warn_not_ready-Returns o true w = (tt, refl)
warn_not_ready-Returns o false w = (tt, refl)

module _ (o : Outside) (name : Text) (ns : Option Text) (w : World) where
  abbrev begin : World
  begin = log (said false (codes "Waiting for " ++ (name ++ codes " to be ready..."))) w

  pub waited-ok : Installed o → (u : Unit {0}) × ((waited o name ns w).0 ≡ ok u)
  waited-ok installed =
      let (b, e) = wait_for_ready-Returns o installed name ns begin in
      next-Returns (wait_for_ready o name ns 120 begin) (warn_not_ready o) e
        (warn_not_ready-Returns o)

  pub waited-Tended : Tended [] w.trace → Tended [] (waited o name ns w).1.trace
  unfolding echo
  waited-Tended h =
      let keeps = Tended-Serves o [] in
      (Keeps-bind (wait_for_ready o name ns 120) (warn_not_ready o)
          (wait_for_ready-Keeps o keeps.acts.heard name ns) (warn_not_ready-Keeps o keeps)).at
        begin
        ((keeps.acts.heard.says (codes "Waiting for " ++ (name ++ codes " to be ready..."))).at w h)
