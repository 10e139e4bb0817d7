-- ===== src/Exec/Programs.antt =====
-- Background processes, pauses, the browser and directories that are made.
use marimo_operator.Base.{
  ℕ, Text, length, Bool, true, false, Option, none, some, List, [], ◌∷◌, ◌++◌, if◌then◌else◌,
}
use marimo_operator.Exec.{
  Node, file, folder, ran, made, started, stopped, slept, visited, Outside, Process, M, log, pure,
  throw, ◌>>◌, find, store,
}
use marimo_operator.Paths.{FilePath, path_text}
use marimo_operator.Result.{ok, raise, os_error}

-- process.terminate()
unfoldable pub stop : ℕ → M (Unit {0})
stop handle w = (ok tt, log (stopped handle) w)

-- time.sleep(n)
unfoldable pub sleep : ℕ → M (Unit {0})
sleep n w = (ok tt, log (slept n) w)

-- webbrowser.open(url)
unfoldable pub visit : Text → M (Unit {0})
visit url w = (ok tt, log (visited url) w)

unfoldable pub make_one : FilePath → Option Node → M (Unit {0})
unfolding store path_text
make_one p none w = (
  ok tt,
  record w { files = store (path_text p) folder w.files; trace = made (path_text p) ∷ w.trace },
)
make_one p (some folder) w = (ok tt, w)
make_one p (some (file s)) w = (raise os_error, w)

-- The path of each first part of the names, the shortest first.
unfoldable pub first_parts : Bool → List Text → List Text → List FilePath
first_parts absolute before [] = []
first_parts absolute before (n ∷ names) =
    record { absolute = absolute; names = before ++ (n ∷ []) }
    ∷ first_parts absolute (before ++ (n ∷ [])) names

unfoldable pub make_each : List FilePath → M (Unit {0})
unfolding make_one find path_text
make_each [] = pure tt
make_each (p ∷ ps) = (λ w. make_one p (find (path_text p) w.files) w) >> make_each ps

-- p.mkdir(parents=True, exist_ok=True)
unfoldable pub make_dir : FilePath → M (Unit {0})
unfolding make_each first_parts
make_dir p = make_each (first_parts p.absolute [] p.names)

module _ (o : Outside) where
  -- subprocess.Popen(argv). The handle is the number of events before.
  unfoldable pub start : List Text → M ℕ
  start argv w =
      let t = started argv ∷ w.trace in
      if o.starts t then (ok (length w.trace), record w { trace = t }) else (raise os_error, w)

  abbrev pub run_end : Bool → Option Process → M Bool
  run_end true r = pure true
  run_end false none = throw os_error
  run_end false (some p) = pure false

  -- subprocess.run(argv) with the terminal, and whether Ctrl+C ended it.
  unfoldable pub run_blocking : List Text → M Bool
  run_blocking argv w =
      let t = ran argv [] ∷ w.trace in
      run_end (o.interrupted t) (o.reply t) (record w { files = o.moves t w.files; trace = t })
