-- ===== src/Exec.antt =====
-- The world that the commands run in: local files, and a trace of all that was run, asked, printed
-- and written, newest first. What is outside the plugin answers from the trace.
pub mod Keeps
pub mod Files
pub mod Programs
pub mod Triples
use marimo_operator.Base.{
  ◌⊎◌, ℕ, Text, codes, same, starts_with, Bool, true, false, not, ◌&&◌, ◌||◌, Option, none, some,
  List, [], ◌∷◌, ◌++◌, if◌then◌else◌,
}
use marimo_operator.Paths.{FilePath, path_text}
use marimo_operator.Result.{Exn, os_error, exit, Result, ok, raise}
use marimo_operator.Value.{Value, ℤ}

pub data Node : Type 0 where
  file : Text → Node
  folder : Node

abbrev pub FileTable : Type 0
FileTable = List (Text × Node)

unfoldable pub find : Text → FileTable → Option Node
unfolding same
find key [] = none
find key ((k, node) ∷ files) = if same k key then some node else find key files

unfoldable pub store : Text → Node → FileTable → FileTable
unfolding same
store key node [] = (key, node) ∷ []
store key node ((k, old) ∷ files) =
    if same k key then (k, node) ∷ files else (k, old) ∷ store key node files

-- Every entry of the key goes.
unfoldable pub erase : Text → FileTable → FileTable
unfolding same
erase key [] = []
erase key ((k, node) ∷ files) =
    let rest = erase key files in if same k key then rest else (k, node) ∷ rest

pub data Event : Type 0 where
  -- a subprocess, with its arguments and its input
  ran : List Text → Text → Event
  -- a question to the user
  asked : Text → Event
  -- a printed line; the flag is set for the error stream
  said : Bool → Text → Event
  -- a local file written or removed, by its path
  wrote : Text → Text → Event
  removed : Text → Event
  -- a directory made, by its path
  made : Text → Event
  -- a process started in the background, with its arguments
  started : List Text → Event
  -- a background process terminated, by its handle
  stopped : ℕ → Event
  -- a pause in seconds
  slept : ℕ → Event
  -- a local port that was tried
  tried : ℤ → Event
  -- a page opened in the browser
  visited : Text → Event

-- What `subprocess.run` returns. A negative code of a signal is stood for by any other than 0.
pub record Process : Type 0 where
  pub returncode : ℕ
  pub stdout : Text
  pub stderr : Text

-- All that is not the plugin: programs, the user, third-party libraries, hashing and the clock.
pub record Outside : Type 0 where
  -- the answer to the subprocess that was just run; `none` is a `FileNotFoundError`
  pub reply : List Event → Option Process
  -- what that subprocess does to the local files
  pub moves : List Event → FileTable → FileTable
  -- the user's answer to the question that was just asked
  pub confirms : List Event → Bool
  -- the text that the user enters at the prompt that was just shown
  pub prompts : List Event → Text
  -- hashlib.sha256(...).hexdigest()
  pub hexdigest : Text → Text
  pub yaml_load : Text → Option Value
  pub yaml_dump : Value → Text
  -- yaml.dump(..., sort_keys=False)
  pub yaml_dump_in_order : Value → Text
  pub json_load : Text → Option Value
  pub json_dump : Value → Text
  -- datetime.now(timezone.utc).isoformat()
  pub now : List Event → Text
  -- str(Path(s).resolve()) and Path(s).resolve().name
  pub resolved : Text → Text
  pub resolved_name : Text → Text
  pub ssh_image : Text
  -- str(Path.home()) and str(Path(s).expanduser())
  pub home : Text
  pub expanded : Text → Text
  -- whether the program that is to be started in the background is found
  pub starts : List Event → Bool
  -- whether the local port that was just tried is free, and a free one
  pub is_free : List Event → Bool
  pub free_port : List Event → ℕ
  -- whether Ctrl+C ends the subprocess that was just run
  pub interrupted : List Event → Bool
  -- str(e)
  pub message : Exn → Text
  -- datetime.utcnow() - datetime.fromisoformat(s), in microseconds; `none` is a `ValueError` or a
  -- `TypeError`
  pub elapsed : List Event → Text → Option ℤ
  -- how click reports a path that does not exist
  pub usage : Text → Text
  -- the two keys of the section `default` of a configuration, or the text of the error
  pub s3_keys : Text → Text ⊎ (Text × Text)

pub record World : Type 0 where
  pub files : FileTable
  pub trace : List Event

abbrev pub M : Type 0 → Type 0
M A = World → Result A × World

abbrev pub next : {A B : Type 0} → Result A × World → (A → M B) → Result B × World
next (ok a, w) f = f a w
next (raise e, w) f = (raise e, w)

infixl 5 ◌>>=◌ ◌>>◌
abbrev pub ◌>>=◌ : {A B : Type 0} → M A → (A → M B) → M B
◌>>=◌ m f w = next (m w) f

abbrev pub ◌>>◌ : {B : Type 0} → M (Unit {0}) → M B → M B
m >> k = m >>= λ _. k

abbrev pub pure : {A : Type 0} → A → M A
pure a w = (ok a, w)

abbrev pub throw : {A : Type 0} → Exn → M A
throw e w = (raise e, w)

-- A result of pure code.
abbrev pub lift : {A : Type 0} → Result A → M A
lift r w = (r, w)

-- sys.exit(n)
abbrev pub sys_exit : {A : Type 0} → ℕ → M A
sys_exit n = throw (exit n)

abbrev pub log : Event → World → World
log e w = record w { trace = e ∷ w.trace }

unfoldable pub echo : Text → M (Unit {0})
echo line w = (ok tt, log (said false line) w)

unfoldable pub echo_err : Text → M (Unit {0})
echo_err line w = (ok tt, log (said true line) w)

abbrev pub file_text : Option Node → Result Text
file_text (some (file s)) = ok s
file_text _ = raise os_error

-- path.read_text()
unfoldable pub read_text : FilePath → M Text
unfolding find
read_text p w = (file_text (find (path_text p) w.files), w)

abbrev pub is_folder : Option Node → Bool
is_folder (some folder) = true
is_folder _ = false

abbrev pub is_there : Option Node → Bool
is_there none = false
is_there (some node) = true

unfoldable pub is_dir : FilePath → M Bool
unfolding find
is_dir p w = (ok (is_folder (find (path_text p) w.files)), w)

unfoldable pub exists : FilePath → M Bool
unfolding find
exists p w = (ok (is_there (find (path_text p) w.files)), w)

-- path.write_text(s). The directory of the file is taken to exist.
unfoldable pub write_text : FilePath → Text → M (Unit {0})
unfolding find store
write_text p s w =
    let written = record w {
      files = store (path_text p) (file s) w.files;
      trace = wrote (path_text p) s ∷ w.trace;
    } in
    if is_folder (find (path_text p) w.files) then (raise os_error, w) else (ok tt, written)

abbrev pub is_file : Option Node → Bool
is_file (some (file s)) = true
is_file _ = false

-- path.unlink(), for the file of a key.
unfoldable pub unlink : Text → M (Unit {0})
unfolding find erase
unlink key w =
    let gone = record w { files = erase key w.files; trace = removed key ∷ w.trace } in
    if is_file (find key w.files) then (ok tt, gone) else (raise os_error, w)

module _ (o : Outside) where
  -- click.confirm(question)
  unfoldable pub confirm : Text → M Bool
  confirm question w =
      let t = asked question ∷ w.trace in (ok (o.confirms t), record w { trace = t })

  -- click.prompt(question, default="")
  unfoldable pub prompt : Text → M Text
  prompt question w = let t = asked question ∷ w.trace in (ok (o.prompts t), record w { trace = t })

  -- subprocess.run(argv, input=...)
  unfoldable pub run_command : List Text → Text → M (Option Process)
  run_command argv input w =
      let t = ran argv input ∷ w.trace in
      (ok (o.reply t), record w { files = o.moves t w.files; trace = t })
