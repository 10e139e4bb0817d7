-- ===== src/Access/Closed.antt =====
-- `open_notebook` from its start to Ctrl+C, where every program is found and the mounts could be set
-- up: what was started in the background is terminated.
use mathlib.Core.Path.{subst}
use marimo_operator.Base.{
  ℕ, Text, codes, ◌≡◌, refl, sym, ◌∙◌, inl, inr, true, false, Option, List, [], ◌∷◌, ◌++◌,
  if◌then◌else◌,
}
use marimo_operator.Access.{
  url_of, wait_for_token, setup_sshfs, close_notebook, serve, open_notebook,
}
use marimo_operator.Access.Cleanup.{Occurs, Returns, close_notebook-stops}
use marimo_operator.Access.Keeps.{wait_for_token-Keeps, close_notebook-Keeps}
use marimo_operator.Access.Rounds.{Installed, wait_for_token-Polled}
use marimo_operator.Access.Setup.{setup_sshfs-Tended}
use marimo_operator.Access.Waited.{waited, waited-ok, waited-Tended}
use marimo_operator.Access.Tended.{StartedAt, Tended, Tended-Serves}
use marimo_operator.Exec.{
  Event, ran, said, stopped, tried, visited, log, Outside, World, M, ◌>>=◌, ◌>>◌, pure, echo,
}
use marimo_operator.Exec.Programs.{run_blocking, visit}
use marimo_operator.Exec.Triples.{next-at}
use marimo_operator.Mounts.{SshfsMount}
use marimo_operator.Result.{Result, ok}
use marimo_operator.Sshfs.{forward_command, find_available_port, is_port}
use marimo_operator.Sshfs.Keeps.{forward_harmless}
use marimo_operator.Value.{ℤ, pos}

-- Every program that was started in the background was terminated.
pub record AllStopped (t : List Event) : Type 0 where
  pub stops : (handle : ℕ) → StartedAt handle t → Occurs (stopped handle) t

abbrev press_line : Text
press_line = codes "Press Ctrl+C to stop port-forward and sync changes"

module _ (o : Outside) (name : Text) (ns : Option Text) (port : ℤ) (f : Text)
    (interrupted : (t : List Event) → o.interrupted t ≡ true) (valid : is_port port ≡ true) where
  -- The world at Ctrl+C, where the end begins.
  record Closing (procs : List (Text × Option ℕ)) (x : Result (Unit {0}) × World) : Type 0 where
    world : World
    tended : Tended procs world.trace
    closes : x ≡ close_notebook o f ns procs world

  run_blocking-true : (cmd : List Text) (w : World) → (run_blocking o cmd w).0 ≡ ok true
  unfolding run_blocking
  run_blocking-true cmd w = rw (interrupted (ran cmd [] ∷ w.trace)) refl

  find_available_port-Returns : Returns (find_available_port o port)
  unfolding find_available_port
  find_available_port-Returns w = (
    (if o.is_free (tried port ∷ w.trace) then port else pos (o.free_port (tried port ∷ w.trace))),
    rw valid refl,
  )

  find_available_port-at : (w : World) → (p : ℤ) × ((find_available_port o port w).0 ≡ ok p)
  find_available_port-at = find_available_port-Returns

  Closing-AllStopped :
      (installed : Installed o) (procs : List (Text × Option ℕ)) (x : Result (Unit {0}) × World)
      → Closing procs x
      → AllStopped x.1.trace
  Closing-AllStopped installed procs x c =
      subst (λ y. AllStopped y.1.trace) (sym c.closes)
        (record { stops = λ handle s. stops handle s })
    where
      ended : Result (Unit {0}) × World
      ended = close_notebook o f ns procs c.world

      stops : (handle : ℕ) → StartedAt handle ended.1.trace → Occurs (stopped handle) ended.1.trace
      stops handle s =
          let tended =
            (close_notebook-Keeps o (Tended-Serves o procs) f ns procs).at c.world c.tended in
          elim (tended.tends handle s) [
            | inl e ↦ e
            | inr r ↦ close_notebook-stops o installed f ns handle procs r c.world
          ]

  module _ (procs : List (Text × Option ℕ)) where
    -- The body of `serve`, once there is a port.
    abbrev served : Option Text → ℤ → M (Unit {0})
    served token local_port = do
      echo (codes "Opening " ++ url_of local_port token)
      echo (press_line)
      echo []
      visit (url_of local_port token)
      (run_blocking o (forward_command name ns local_port port) >>= λ stopped_by_user.
          if stopped_by_user then close_notebook o f ns procs else pure tt)

    served-Closing :
        (token : Option Text) (local_port : ℤ) (w : World)
        → Tended procs w.trace
        → Closing procs (served token local_port w)
    unfolding echo visit
    served-Closing token local_port w h =
        let url = url_of local_port token in
        let cmd = forward_command name ns local_port port in
        let keeps = Tended-Serves o procs in
        let w1 = log (said false (codes "Opening " ++ url)) w in
        let w2 = log (said false press_line) w1 in
        let w3 = log (said false []) w2 in
        let w4 = log (visited url) w3 in
        let h1 = (keeps.acts.heard.says (codes "Opening " ++ url)).at w h in
        let h2 = (keeps.acts.heard.says press_line).at w1 h1 in
        let h3 = (keeps.acts.heard.says []).at w2 h2 in
        let h4 = (keeps.visits url).at w3 h3 in
        record {
          world = (run_blocking o cmd w4).1;
          tended = (keeps.blocks cmd (forward_harmless name ns local_port port)).at w4 h4;
          closes = next-at (run_blocking o cmd w4) _ true (run_blocking-true cmd w4);
        }

    serve-Closing :
        (token : Option Text) (w : World)
        → Tended procs w.trace
        → Closing procs (serve o name ns port f procs token w)
    unfolding serve
    serve-Closing token w h =
        let (local_port, e) = find_available_port-at w in
        subst (Closing procs)
          (sym (next-at (find_available_port o port w) (served token) local_port e))
          (served-Closing token local_port (find_available_port o port w).1
            (((Tended-Serves o procs).ports port).at w h))

    -- The token, and then the browser and the port-forward.
    opened-Closing :
        (installed : Installed o) (w : World)
        → Tended procs w.trace
        → Closing procs ((wait_for_token o 5 name ns >>= serve o name ns port f procs) w)
    opened-Closing installed w h =
        let polled = wait_for_token-Polled o installed name ns 5 w in
        subst (Closing procs)
          (sym (
            next-at (wait_for_token o 5 name ns w) (serve o name ns port f procs) polled.token
              polled.returns))
          (serve-Closing polled.token (wait_for_token o 5 name ns w).1
            ((wait_for_token-Keeps o (Tended-Serves o procs) 5 name ns).at w h))

module _ (o : Outside) (name : Text) (ns : Option Text) (w : World) where
  -- `open_notebook` goes on from there.
  open_notebook-waited :
      (port : ℤ) (f : Text) (ms : List SshfsMount) (procs : List (Text × Option ℕ))
      → Installed o
      → (setup_sshfs o name ns ms (waited o name ns w).1).0 ≡ ok procs
      → open_notebook o name ns port f ms w
        ≡ (wait_for_token o 5 name ns >>= serve o name ns port f procs)
            (setup_sshfs o name ns ms (waited o name ns w).1).1
  unfolding open_notebook echo
  open_notebook-waited port f ms procs installed set_up =
      let (u, e) = waited-ok o name ns w installed in
      next-at (waited o name ns w)
        (λ _. setup_sshfs o name ns ms >>= λ ps.
          wait_for_token o 5 name ns >>= serve o name ns port f ps)
        u e
      ∙ next-at (setup_sshfs o name ns ms (waited o name ns w).1)
          (λ ps. wait_for_token o 5 name ns >>= serve o name ns port f ps) procs set_up

-- Where every program is found, the port is one, no program runs in the background, and the mounts
-- could be set up, Ctrl+C ends `open_notebook` with every program that it started in the background
-- terminated: whatever programs answer, and however the last sync ends.
pub open_notebook-AllStopped :
    (o : Outside) (name : Text) (ns : Option Text) (port : ℤ) (f : Text) (ms : List SshfsMount)
    (procs : List (Text × Option ℕ)) (w : World)
    → Installed o
    → ((t : List Event) → o.interrupted t ≡ true)
    → is_port port ≡ true
    → AllStopped w.trace
    → (setup_sshfs o name ns ms (waited o name ns w).1).0 ≡ ok procs
    → AllStopped (open_notebook o name ns port f ms w).1.trace
open_notebook-AllStopped o name ns port f ms procs w installed interrupted valid before set_up =
    let none_runs : Tended [] w.trace = record {
      tends = λ handle s. inl (before.stops handle s);
    } in
    let tended =
      (setup_sshfs-Tended o name ns ms).at (waited o name ns w).1
        (waited-Tended o name ns w none_runs) procs set_up in
    subst (λ x. AllStopped x.1.trace)
      (sym (open_notebook-waited o name ns w port f ms procs installed set_up))
      (Closing-AllStopped o name ns port f interrupted valid installed procs _ (
        opened-Closing o name ns port f interrupted valid procs installed
          (setup_sshfs o name ns ms (waited o name ns w).1).1 tended))
