-- ===== src/Lib.antt =====
-- kubectl-marimo, the kubectl plugin of plugin/kubectl_marimo, which deploys marimo notebooks as
-- MarimoNotebook resources, keeps a swap file for each deployment, and syncs or deletes what is
-- deployed.
--
-- How the parts interact. A notebook's text is parsed into its frontmatter; the frontmatter, the
-- options and the mounts become a resource; kubectl carries it to the cluster. The swap file records
-- where a file is deployed, and the hash of its text. `sync` and `delete` read it, compare the hash,
-- ask the user where it differs, pull the text from the pod and write both files again. `delete`
-- releases the volume claim, deletes the resource and removes the swap file. After a deployment the
-- notebook is opened: ports are forwarded, the pod's directories mounted by sshfs, and after Ctrl+C
-- the mounts are cleaned up and the changes synced. `status` lists the swap files of a directory.
--
-- The files, with the code they are about, in plugin/kubectl_marimo:
--   Base        texts as lists of code points with Python's string methods; lists, numbers
--   Value       what YAML, JSON and the metadata parser return: scalars, lists, dicts in order
--   Result      results that may raise, by the class of the exception
--   Paths       pathlib: Path(s), name, parent, suffix, stem, `/`
--   Mounts      parse_mount_uri, filter_mounts of resources.py
--   Slug        slugify of resources.py
--   Env         parse_env of resources.py
--   Notebook    build_ssh_sidecar, build_marimo_notebook of resources.py; has_cw_mounts and
--               has_sshfs_sidecars of deploy.py
--   Content     detect_content_type of resources.py; formats/markdown.py; what parse_file of
--               formats/__init__.py does once the file is read
--   Toml        _parse_toml_value of formats/python.py
--   Pep723      the rest of formats/python.py
--   Exec        the world of the commands: local files, and the trace of what was run, asked,
--               printed, written and removed; all that is outside of the plugin answers from it
--   Kubectl     k8s.py
--   Swap        swap.py
--   Sync        sync.py; compute_hash of resources.py
--   Delete      delete.py; resource_name of resources.py; parse_file of formats/__init__.py
--   Credentials ensure_cw_credentials and ensure_ssh_pubkey of deploy.py
--   Upload      wait_for_ready and sync_local_source of deploy.py
--   Deploy      deploy_notebook of deploy.py, up to the swap file; to_yaml of resources.py
--   Sshfs       find_available_port, setup_local_sshfs_mount, cleanup_sshfs_mount of deploy.py
--   Access      print_access_info, get_access_token, open_notebook of deploy.py, and the whole of
--               its deploy_notebook
--   Status      status.py
--   Main        main.py: the commands, and sessions of commands
--   Examples    runs at concrete inputs
--
-- How the code is modelled. A function that only computes is a function by clauses under its name.
-- A function that reads or writes takes a world and returns a result and a world; a Python function
-- with several guards is cut at the guards into functions that call each other as the code goes on,
-- so `sync_notebook` goes on to `sync_found`, `sync_deployed`, `sync_content` and `pull`. A regular
-- expression is a matcher by recursion on the text. `click.echo` and `print` are one event, with a
-- flag for the error stream, and without the newline at the end.
--
-- How proofs are built. `Exec.Keeps` has the invariants that a command keeps however it ends, and
-- `Exec.Triples` what holds where it ends well. An invariant is kept by all of the commands once it
-- is kept by the steps that the records `Hears` (Credentials.Keeps), `Acts` (Sync.Keeps) and `Serves`
-- (Sshfs.Keeps) name; Sshfs.Traces fills them for what only the trace decides.
--
-- Outside of the model, as parameters in `Outside`: what a subprocess answers and does to the local
-- files, the user's answers, the YAML and JSON libraries, SHA-256, the clock, the user's home, the
-- parser of ~/.s3cfg, where a path resolves to, which ports are free, whether a program can be
-- started in the background, the time since a timestamp, and whether Ctrl+C ends the port-forward
-- that blocks. A theorem that needs the JSON library to read what it prints says so.
--
-- Bounds. Loops are structural recursion. Printed numbers run on fuel: a number n has fuel n + 1,
-- and each step divides by ten. Names are cut at 63 characters, as in the code.
--
-- Where the model is narrower than Python. Upper and lower case, `\w`, `\s` and `isdigit` are those
-- of ASCII. A value that is not null, a Boolean, a text, a whole number, a list or a dict is opaque.
-- A swap file that holds a value of a type the plugin never writes raises an exception of its own.
-- The directory of a file that is written exists, all files are readable UTF-8, and a local path is
-- its text, with no symbolic links.
--
-- The user interrupts the command only while the last port-forward blocks. A process that runs in the
-- background has the number of the events before its start as its handle.
--
-- Not modelled: how click parses an argument list. The operator under api, cmd, internal and pkg is
-- another program, in Go. Manifests, images, tests and examples are no part of the plugin's logic.
pub mod Base
pub mod Mounts
pub mod Slug
pub mod Value
pub mod Toml
pub mod Pep723
pub mod Paths
pub mod Content
pub mod Result
pub mod Env
pub mod Notebook
pub mod Exec
pub mod Kubectl
pub mod Swap
pub mod Sync
pub mod Delete
pub mod Credentials
pub mod Upload
pub mod Deploy
pub mod Sshfs
pub mod Access
pub mod Status
pub mod Main
pub mod Examples
