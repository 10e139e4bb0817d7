-- ===== src/Examples/Deploys.antt =====
-- Deployments that are tracked, in the small world of the commands.
use marimo_operator.Base.{Text, codes, same, ◌≡◌, refl, true, false, none, some, [], ◌∷◌}
use marimo_operator.Deploy.{Source, hash_of, track, may_deploy}
use marimo_operator.Deploy.{deploy_and_track}
use marimo_operator.Deploy.Backed.{IsBacked, backed}
use marimo_operator.Deploy.Applied.{deploy_and_track-IsBacked}
use marimo_operator.Exec.{said, wrote, ran}
use marimo_operator.Kubectl.{kubectl}
use marimo_operator.Swap.{to_dict}
use marimo_operator.Deploy.Tracking.{tracked_meta, track-clean, track_empty}
use marimo_operator.Exec.{file, find, World, is_folder}
use marimo_operator.Examples.Commands.{
  demo, deployed_text, meta, outside, start, swap_no_folder, swap_other, demo_there,
}
use marimo_operator.Notebook.{Notebook}
use marimo_operator.Paths.{path, path_text}
use marimo_operator.Result.{ok}
use marimo_operator.Swap.{SwapMeta, swap_path_of, read_swap_file}
use marimo_operator.Swap.Tracking.{swap_at}
use marimo_operator.Sync.{may_overwrite}
use marimo_operator.Sync.Local.{local_key, after_question}
use marimo_operator.Value.{empty}

abbrev source : Text → Source
source text = record { content = some text; frontmatter = none; name = codes "demo" }

abbrev built : Notebook
built = record {
  resource = empty;
  rsync_mounts =
      record { source = codes "./data"; mount = codes "/opt"; scheme = codes "rsync" } ∷ [];
  sshfs_mounts = record { remote_path = codes "/srv"; local_mount = codes "./marimo-mount-1" } ∷ [];
}

abbrev known : SwapMeta
known = tracked_meta (outside 0 meta) demo none (source deployed_text) built start

track-clean_example :
    let o = outside 0 known in
    let saved = tracked_meta o demo none (source deployed_text) built start in
    let w' = (track o demo none (source deployed_text) built start).1 in
    (read_swap_file o demo w' ≡ (ok (some saved), w'))
    × (may_overwrite o demo false saved w' ≡ (ok true, w'))
    × (may_deploy o demo false (some saved) w' ≡ (ok true, w'))
unfolding hash_of
track-clean_example =
    track-clean (outside 0 known) demo none (source deployed_text) built start swap_no_folder
      deployed_text demo_there swap_other refl (λ e. cc) refl

abbrev blank : World
blank = record { files = (demo, file []) ∷ []; trace = [] }

blank_no_folder : is_folder (find (path_text (swap_at demo blank)) blank.files) ≡ false
unfolding find path path_text swap_path_of
blank_no_folder = refl

blank_there : find (local_key demo) blank.files ≡ some (file [])
unfolding find path path_text
blank_there = refl

blank_other : same (path_text (swap_at demo blank)) (local_key demo) ≡ false
unfolding find path path_text swap_path_of same
blank_other = refl

track_empty_example :
    let o = outside 0 meta in
    let w' = (track o demo none (source []) built blank).1 in
    may_overwrite o demo false (tracked_meta o demo none (source []) built blank) w'
    ≡ (ok (o.confirms (after_question demo w').trace), after_question demo w')
track_empty_example =
    track_empty (outside 0 meta) demo none (source []) built blank blank_no_folder blank_there
      blank_other refl

-- The run itself: the resource is applied, then the swap file written.
deploy_and_track_run :
    (deploy_and_track (outside 0 meta) demo (codes "edit") none none false true start).1.trace
    ≡ said false (codes "Tracking deployment in .demo.py.marimo")
      ∷ wrote (codes ".demo.py.marimo") (codes "{}")
      ∷ said false []
      ∷ ran (kubectl ∷ codes "apply" ∷ codes "-f" ∷ codes "-" ∷ []) []
      ∷ []
unfolding deploy_and_track to_dict
deploy_and_track_run = refl

start-IsBacked : IsBacked (outside 0 meta) start
unfolding backed
start-IsBacked = refl

deploy_and_track-IsBacked_example :
    IsBacked
      (outside 0 meta)
      (deploy_and_track (outside 0 meta) demo (codes "edit") none none false true start).1
deploy_and_track-IsBacked_example =
    deploy_and_track-IsBacked (outside 0 meta) demo none (codes "edit") none false true start
      start-IsBacked
