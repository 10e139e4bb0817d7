-- ===== src/Sshfs/Traces.antt =====
-- Properties of the trace that every step keeps, but for a deletion on the cluster.
use marimo_operator.Base.{
  Text, ◌≡◌, refl, Bool, true, false, Option, none, some, List, [], ◌∷◌, if◌then◌else◌,
}
use marimo_operator.Exec.{
  Node, file, folder, Event, ran, asked, said, wrote, removed, made, started, stopped, slept, tried,
  visited, Outside, Process, World, echo, echo_err, confirm, prompt, run_command, write_text,
  unlink, find, is_folder, is_file,
}
use marimo_operator.Exec.Keeps.{Keeps, Keeps-pure, Keeps-bind}
use marimo_operator.Exec.Programs.{
  start, stop, sleep, visit, make_dir, make_each, make_one, first_parts, run_blocking, run_end,
}
use marimo_operator.Kubectl.Harmless.{is_harmless}
use marimo_operator.Paths.{FilePath, path_text}
use marimo_operator.Result.{Result}
use marimo_operator.Sshfs.{find_available_port, is_port}
use marimo_operator.Sshfs.Keeps.{Serves}
use marimo_operator.Value.{ℤ}

-- No deletion, and no start of a program in the background.
unfoldable pub is_calm : Event → Bool
unfolding is_harmless
is_calm (ran cmd input) = is_harmless cmd
is_calm (started cmd) = false
is_calm e = true

module _ (o : Outside) (Q : List Event → Type 0)
    (grows : (e : Event) (t : List Event) → is_calm e ≡ true → Q t → Q (e ∷ t)) where
  abbrev P : World → Type 0
  P w = Q w.trace

  -- One event and then an end of any kind.
  branch :
      {A : Type 0} (b : Bool) (x y : Result A × World) → P x.1 → P y.1 → P (if b then x else y).1
  branch true x y h k = h
  branch false x y h k = k

  write_text-grows : (p : FilePath) (s : Text) → Keeps P (write_text p s)
  unfolding write_text
  write_text-grows p s = record {
    at = λ w h.
        branch (is_folder (find (path_text p) w.files)) _ _ h
          (grows (wrote (path_text p) s) w.trace (unfold is_calm in refl) h);
  }

  unlink-grows : (key : Text) → Keeps P (unlink key)
  unfolding unlink
  unlink-grows key = record {
    at = λ w h.
        branch (is_file (find key w.files)) _ _
          (grows (removed key) w.trace (unfold is_calm in refl) h) h;
  }

  pub start-grows :
      ((cmd : List Text) (t : List Event) → Q t → Q (started cmd ∷ t))
      → (cmd : List Text) → Keeps P (start o cmd)
  unfolding start
  start-grows begun cmd = record {
    at = λ w h. branch (o.starts (started cmd ∷ w.trace)) _ _ (begun cmd w.trace h) h;
  }

  find_available_port-grows : (port : ℤ) → Keeps P (find_available_port o port)
  unfolding find_available_port
  find_available_port-grows port = record {
    at = λ w h. branch (is_port port) _ _ (grows (tried port) w.trace (unfold is_calm in refl) h) h;
  }

  make_each-grows : (ps : List FilePath) → Keeps P (make_each ps)
  unfolding make_each
  make_each-grows [] = Keeps-pure tt
  make_each-grows (p ∷ ps) =
      Keeps-bind (λ w. make_one p (find (path_text p) w.files) w) (λ _. make_each ps)
        (record { at = λ w h. one w h (find (path_text p) w.files) }) (λ _. make_each-grows ps)
    where
      one : (w : World) → P w → (n : Option Node) → P (make_one p n w).1
      one w h none =
          unfold make_one in grows (made (path_text p)) w.trace (unfold is_calm in refl) h
      one w h (some folder) = unfold make_one in h
      one w h (some (file s)) = unfold make_one in h

  make_dir-grows : (p : FilePath) → Keeps P (make_dir p)
  unfolding make_dir
  make_dir-grows p = make_each-grows (first_parts p.absolute [] p.names)

  run_end-grows : (b : Bool) (r : Option Process) (w : World) → P w → P (run_end o b r w).1
  run_end-grows true r w h = h
  run_end-grows false none w h = h
  run_end-grows false (some p) w h = h

  run_blocking-grows : (cmd : List Text) → is_harmless cmd ≡ true → Keeps P (run_blocking o cmd)
  unfolding run_blocking
  run_blocking-grows cmd k = record {
    at = λ w h.
        run_end-grows (o.interrupted (ran cmd [] ∷ w.trace)) (o.reply (ran cmd [] ∷ w.trace)) _
          (grows (ran cmd []) w.trace (unfold is_calm in k) h);
  }

  pub grown-Serves : Serves o P
  unfolding echo echo_err confirm prompt run_command stop sleep visit is_calm
  grown-Serves = record {
    acts = record {
      heard = record {
        says = λ s. record { at = λ w h. grows (said false s) w.trace refl h };
        says_err = λ s. record { at = λ w h. grows (said true s) w.trace refl h };
        confirms = λ s. record { at = λ w h. grows (asked s) w.trace refl h };
        prompts = λ s. record { at = λ w h. grows (asked s) w.trace refl h };
        runs = λ cmd input k. record { at = λ w h. grows (ran cmd input) w.trace k h };
      };
      writes = write_text-grows;
      unlinks = unlink-grows;
    };
    stops = λ n. record { at = λ w h. grows (stopped n) w.trace refl h };
    sleeps = λ n. record { at = λ w h. grows (slept n) w.trace refl h };
    visits = λ url. record { at = λ w h. grows (visited url) w.trace refl h };
    ports = find_available_port-grows;
    makes = make_dir-grows;
    blocks = run_blocking-grows;
  }
