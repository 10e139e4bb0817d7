-- ===== src/Kubectl/Replies.antt =====
-- What the calls make of kubectl's answer.
use marimo_operator.Base.{
  Text, codes, ◌≡◌, refl, ap, ◌∙◌, ◌++◌, if◌then◌else◌, Bool, true, false, Option, none, some, List,
  [], ◌∷◌, arith, ◌==◌,
}
use marimo_operator.Exec.{
  Process, Event, ran, said, log, Outside, World, echo, echo_err, run_command, ◌>>=◌,
}
use marimo_operator.Kubectl.{
  kubectl, report, delete_command, patch_command, apply_resource, delete_resource, patch_resource,
}
use marimo_operator.Result.{Result, ok}
use marimo_operator.Value.{Fields, dict}

abbrev pub succeeded : Option Process → Bool
succeeded none = false
succeeded (some p) = p.returncode == 0

pub report-succeeded : (r : Option Process) (w : World) → (report r w).0 ≡ ok (succeeded r)
unfolding report
report-succeeded none w = refl
report-succeeded (some p) w = ground arith

pub report-files : (r : Option Process) (w : World) → (report r w).1.files ≡ w.files
unfolding report
report-files none w = refl
report-files (some p) w = ground arith

-- The answer to a command, run in this world.
abbrev pub answer : Outside → World → Event → Option Process
answer o w e = o.reply (e ∷ w.trace)

-- What is printed of an answer.
abbrev pub told : Option Process → Event
told none = said true (codes "Error: kubectl not found in PATH")
told (some p) =
    if p.returncode == 0 then said false p.stdout else said true (codes "Error: " ++ p.stderr)

report-told : (r : Option Process) (w : World) → report r w ≡ (ok (succeeded r), log (told r) w)
unfolding report echo echo_err
report-told none w = refl
report-told (some p) w = ground arith

-- One command was run, and one line is printed of its answer.
abbrev pub ran_and_told : Outside → List Text → Text → World → Result Bool × World
ran_and_told o argv input w =
    let t = ran argv input ∷ w.trace in
    (
      ok (succeeded (o.reply t)),
      record w { files = o.moves t w.files; trace = told (o.reply t) ∷ t },
    )

run-report :
    (o : Outside) (cmd : List Text) (input : Text) (w : World)
    → (run_command o cmd input >>= report) w ≡ ran_and_told o cmd input w
unfolding run_command
run-report o cmd input w = report-told (o.reply (ran cmd input ∷ w.trace)) _

-- The two arguments of a namespace, if there is one.
abbrev pub namespace_args : Option Text → List Text
namespace_args none = []
namespace_args (some ns) = codes "-n" ∷ ns ∷ []

abbrev pub delete_argv : Text → Text → Option Text → Bool → List Text
delete_argv kind name namespace ignore =
    codes "kubectl"
    ∷ codes "delete"
    ∷ kind
    ∷ name
    ∷ (namespace_args namespace ++ (if ignore then codes "--ignore-not-found" ∷ [] else []))

abbrev pub patch_argv : Text → Text → Option Text → Text → List Text
patch_argv kind name namespace patch =
    codes "kubectl"
    ∷ codes "patch"
    ∷ kind
    ∷ name
    ∷ (namespace_args namespace ++ (codes "--type=merge" ∷ codes "-p" ∷ patch ∷ []))

delete_command-argv :
    (kind name : Text) (namespace : Option Text) (ignore : Bool)
    → delete_command kind name namespace ignore ≡ delete_argv kind name namespace ignore
unfolding delete_command
delete_command-argv kind name none true = refl
delete_command-argv kind name none false = refl
delete_command-argv kind name (some ns) true = refl
delete_command-argv kind name (some ns) false = refl

patch_command-argv :
    (kind name : Text) (namespace : Option Text) (patch : Text)
    → patch_command kind name namespace patch ≡ patch_argv kind name namespace patch
unfolding patch_command
patch_command-argv kind name none patch = refl
patch_command-argv kind name (some ns) patch = refl

-- `apply_resource` outside of a dry run, `delete_resource` and `patch_resource` each run one command,
-- with the namespace right behind the name, and print one line: the output, or on the error stream
-- the error. None of the three raises, not even without kubectl; each answers whether kubectl was
-- found and returned 0; and no file changes but by what kubectl does.
pub calls-succeeded :
    (o : Outside) (w : World) (resource : Fields) (kind name patch : Text) (namespace : Option Text)
    (ignore : Bool)
    → (apply_resource o resource false w
        ≡ ran_and_told o
            (codes "kubectl" ∷ codes "apply" ∷ codes "-f" ∷ codes "-" ∷ [])
            (o.yaml_dump (dict resource))
            w)
      × (delete_resource o kind name namespace ignore w
          ≡ ran_and_told o (delete_argv kind name namespace ignore) [] w)
      × (patch_resource o kind name namespace patch w
          ≡ ran_and_told o (patch_argv kind name namespace patch) [] w)
unfolding apply_resource delete_resource patch_resource
calls-succeeded o w resource kind name patch namespace ignore = (
  run-report o (kubectl ∷ codes "apply" ∷ codes "-f" ∷ codes "-" ∷ []) (o.yaml_dump (dict resource))
      w,
  run-report o (delete_command kind name namespace ignore) [] w
      ∙ ap (λ argv. ran_and_told o argv [] w) (delete_command-argv kind name namespace ignore),
  run-report o (patch_command kind name namespace patch) [] w
      ∙ ap (λ argv. ran_and_told o argv [] w) (patch_command-argv kind name namespace patch),
)
