-- ===== src/Main.antt =====
-- src/main.c: the arguments, the directories of the configured files, and how main joins the
-- settings, the log and the master. What the system answers is a parameter. The first argument, the
-- name of the program, is left out; the limits of the process, whose failures main passes over, are
-- not modelled.
pub mod Arguments
pub mod Directories
pub mod Defaults
pub mod Serving
pub mod Signals
pub mod Shutdown
mod Tests
use nx_lite.Base.{
  ℕ, ◌-◌, Bool, true, false, not, ◌&&◌, ◌||◌, Option, none, some, List, [], ◌∷◌, ◌++◌, leb, ◌==◌,
  if◌then◌else◌, length, take, Bytes, codes, strcmp_eq, strrchr,
}
use nx_lite.Config.{ℤ, pos, Settings, config_load}
use nx_lite.Log.{Log, initial_log, log_init, log_cleanup}
use nx_lite.Master.{
  Master, SetUp, InitResult, ready, refused, master_init, Fork, Second, Waited, master_run,
  master_cleanup,
}

-- What the arguments ask for: to run with that file, in development mode or not; the usage text, and
-- 0; or the usage text for an unknown option, and 1.
pub data Command : Type 0 where
  run_with : Bytes → Bool → Command
  show_usage : Command
  unknown_option : Bytes → Command

abbrev pub is_option : Bytes → Bool
is_option [] = false
is_option (c ∷ s) = c == b'-'

abbrev pub is_development : Bytes → Bool
is_development arg = strcmp_eq arg (codes "-d") || strcmp_eq arg (codes "--dev")

abbrev pub is_help : Bytes → Bool
is_help arg = strcmp_eq arg (codes "-h") || strcmp_eq arg (codes "--help")

-- for (i = 1; i < argc; i++), with the file and the mode so far
unfoldable pub scan_arguments : List Bytes → Bytes → Bool → Command
scan_arguments [] file development = run_with file development
scan_arguments (arg ∷ args) file development =
    let rest =
      scan_arguments args (if is_development arg then file else arg)
        (if is_development arg then true else development) in
    if is_development arg
    then rest
    else if is_help arg
    then show_usage
    else if not (is_option arg)
    then rest
    else unknown_option arg

unfoldable pub parse_arguments : List Bytes → Command
unfolding scan_arguments
parse_arguments args = scan_arguments args (codes "config/server.conf") false

-- The paths that stat finds, and whether mkdir succeeds for a path when those are found.
pub record FileSystem : Type 0 where
  pub found : Bytes → Bool
  pub mkdir : List Bytes → Bytes → Bool

-- A path that is there, or was created: the newest in front.
abbrev pub is_member : Bytes → List Bytes → Bool
is_member p [] = false
is_member p (q ∷ qs) = strcmp_eq q p || is_member p qs

abbrev pub exists_in : FileSystem → List Bytes → Bytes → Bool
exists_in fs made p = fs.found p || is_member p made

-- The directories created, and whether the function goes on.
unfoldable pub make_directory : FileSystem → Bytes → List Bytes → List Bytes × Bool
make_directory fs p made =
    if exists_in fs made p
    then (made, true)
    else if fs.mkdir made p
    then (p ∷ made, true)
    else (made, false)

-- One byte of the path: at a slash, the directory in front of it.
unfoldable pub visit : FileSystem → Bytes → ℕ → List Bytes → List Bytes × Bool
unfolding make_directory
visit fs front c made =
    if c == b'/' && not (length front == 0) then make_directory fs front made else (made, true)

-- while (*p), with the part of the path in front of p and the part from p on
unfoldable pub make_ancestors : FileSystem → Bytes → Bytes → List Bytes → List Bytes × Bool
unfolding visit
make_ancestors fs front [] made = (made, true)
make_ancestors fs front (c ∷ s) made =
    let (made', more) = visit fs front c made in
    elim more [ true ↦ make_ancestors fs (front ++ c ∷ []) s made' | false ↦ (made', false) ]

-- The directory of a path: what is in front of its last slash.
unfoldable pub directory_of : Bytes → Option Bytes
directory_of path = elim (strrchr path b'/') [ none ↦ none | some n ↦ some (take n path) ]

-- The directories created, the newest in front.
unfoldable pub ensure_directories_exist : FileSystem → Bytes → List Bytes → List Bytes
unfolding directory_of make_ancestors make_directory
ensure_directories_exist fs path made = elim (directory_of path) [
  | none ↦ made
  | some dir ↦
      if length dir == 0
      then made
      else let (made', more) = make_ancestors fs [] dir made in
        elim more [ true ↦ (make_directory fs dir made').0 | false ↦ made' ]
]

-- The settings that config_get_instance gives before anything is loaded.
abbrev pub zero_settings : Settings
zero_settings = record {
  port = pos 0;
  worker_count = pos 0;
  root_dir = [];
  log_file = [];
  max_connections = pos 0;
  keep_alive_timeout = pos 0;
  development_mode = false;
}

-- What the system answers: the path behind a file, the content of a file and, with the directories
-- that were created, that of the log, or none if it cannot be opened, and the calls of master_init.
pub record System : Type 0 where
  pub file_system : FileSystem
  pub realpath : Bytes → Option Bytes
  pub content : Bytes → Option Bytes
  pub log_content : List Bytes → Bytes → Option Bytes
  pub socket_calls : SetUp

-- main returns, or runs the master.
pub data Outcome : Type 0 where
  returns : ℕ → Outcome
  runs : Settings → Log → Master → Outcome

-- The log, with the directories that were created for it and for the served files.
unfoldable pub open_log : System → Settings → Log × Bool
unfolding ensure_directories_exist log_init
open_log sys s =
    let made =
      ensure_directories_exist sys.file_system s.root_dir
        (ensure_directories_exist sys.file_system s.log_file []) in
    log_init (sys.log_content made s.log_file) initial_log

abbrev pub with_master : Settings → Log → InitResult → Outcome
with_master s log (refused closed) = returns 1
with_master s log (ready m) = runs s log m

-- From ensure_directories_exist on.
unfoldable pub open_server : System → Settings → Outcome
open_server sys s =
    let log = open_log sys s in
    if log.1
    then with_master s log.0 (master_init sys.socket_calls s.port s.worker_count)
    else returns 1

abbrev pub set_mode : Bool → Settings → Settings
set_mode development s = if development then record s { development_mode = true } else s

-- The settings main runs with, or none if it returns 1 before.
unfoldable pub load_settings : System → Bytes → Bool → Option Settings
load_settings sys file development = elim (sys.realpath file) [
  | none ↦ none
  | some path ↦ elim (config_load (sys.content path) zero_settings) [
    | none ↦ none
    | some s ↦ some (set_mode development s)
  ]
]

unfoldable pub run_file : System → Bytes → Bool → Outcome
unfolding load_settings open_server
run_file sys file development = elim (load_settings sys file development) [
  | none ↦ returns 1
  | some s ↦ open_server sys s
]

unfoldable pub start : System → List Bytes → Outcome
unfolding parse_arguments run_file
start sys args = elim (parse_arguments args) [
  | run_with file development ↦ run_file sys file development
  | show_usage ↦ returns 0
  | unknown_option arg ↦ returns 1
]

-- From master_run on: the master and the log at the end.
abbrev pub finish :
    List Fork
    → List Second
    → List (List (ℕ × Option ℕ) × (ℕ → Waited))
    → Log
    → Master
    → Master × Log
finish forks seconds passes log m =
    (master_cleanup (master_run forks seconds passes m), log_cleanup log)
