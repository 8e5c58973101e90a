-- ===== src/Main/Tests.antt =====
-- Runs of the functions of src/main.c, and its theorems at concrete inputs.
use nx_lite.Base.{
  Among, ◌++◌, inl, inr, List, All, ℕ, ◌<◌, ◌≡◌, refl, true, false, some, [], ◌∷◌, Bytes, arith,
  codes, strcmp_eq,
}
use nx_lite.Config.{
  pos, Settings, config_load, load_lines, fgets, parse_config_line, scan_line, scan_until,
  scan_value, trim_whitespace, set_value, atoi, digits,
}
use nx_lite.Http.Etag.{trim_end}
use nx_lite.Http.Parse.{skip_whitespace}
use nx_lite.Master.{
  Call, close_socket, reaped, Fork, restart_missing, Master, sighup, sigterm, Waited, alive, SetUp,
  new_master, Second, start_workers, monitor, master_init, open_master,
}
use nx_lite.Master.Reap.{slot}
use nx_lite.Master.Alive.{Among-reaped}
use nx_lite.Master.Fresh.{FreshExits, FreshForks, FreshPass, FreshSeconds}
use nx_lite.Master.{fork_into, handle_child_signal, reap, find_pid}
use nx_lite.Log.{Log, initial_log, log_init}
use nx_lite.Main.{
  run_with, show_usage, scan_arguments, parse_arguments, FileSystem, System, runs, run_file,
  load_settings, open_log, open_server, zero_settings,
}
use nx_lite.Main.Serving.{server_keeps_workers}
use nx_lite.Main.Signals.{Dispositions, default_action, deliver, setup_signal_handlers}
use nx_lite.Main.Shutdown.{rest_of_run, IsOverOrNone, signals_end_server}

last_file_wins :
    parse_arguments (codes "-d" ∷ codes "a" ∷ codes "b" ∷ []) ≡ run_with (codes "b") true
unfolding parse_arguments scan_arguments strcmp_eq
last_file_wins = refl

help_ends_scan : parse_arguments (codes "a" ∷ codes "-h" ∷ codes "--what" ∷ []) ≡ show_usage
unfolding parse_arguments scan_arguments strcmp_eq
help_ends_scan = refl

-- Nothing is there, and everything can be made.
abbrev empty_disk : FileSystem
empty_disk = record { found = λ p. false; mkdir = λ made p. true }

abbrev accepting : SetUp
accepting = record {
  socket = some 3;
  reuse_port = true;
  option = λ o. true;
  bind = true;
  listen = true;
  memory = true;
  sigaction = true;
}

abbrev system : Bytes → System
system text = record {
  file_system = empty_disk;
  realpath = λ p. some p;
  content = λ p. some text;
  log_content = λ made p. some [];
  socket_calls = accepting;
}

abbrev two_workers : Bytes
two_workers = codes "worker_processes=2"

abbrev two_settings : Settings
two_settings = record zero_settings { worker_count = pos 2; development_mode = true }

abbrev open_log_file : Log
open_log_file = record initial_log { log_file = some [] }

runs_two :
    run_file (system two_workers) (codes "my.conf") true
    ≡ runs two_settings open_log_file (new_master 3 (pos 0) 2)
unfolding run_file load_settings open_server open_log log_init config_load load_lines fgets
    parse_config_line scan_line scan_until scan_value trim_whitespace trim_end skip_whitespace
    set_value strcmp_eq atoi digits master_init open_master
runs_two = refl

-- Worker 42 ends while the master sleeps, and the handler starts 43.
abbrev busy_second : Second
busy_second = record {
  exits = (42, some 43) ∷ [];
  requested = false;
  forks = record { pid = some 51; exits = [] } ∷ [];
}

abbrev first_forks : List Fork
first_forks = record { pid = some 41; exits = [] } ∷ record { pid = some 42; exits = [] } ∷ []

abbrev after_seconds : Master
after_seconds = monitor (busy_second ∷ []) (start_workers 0 first_forks (new_master 3 (pos 0) 2))

first_forks-FreshForks : FreshForks 0 first_forks (new_master 3 (pos 0) 2)
unfolding FreshForks FreshExits fork_into handle_child_signal
first_forks-FreshForks = (
  (tt, (((λ e. omega (arith, e)), ((λ e. omega (arith, e)), tt)), (λ h. elim h [ ]))),
  ((tt, (((λ e. omega (arith, e)), ((λ e. omega (arith, e)), tt)), (λ h. elim h [ ]))), tt),
)

not_reaped : ¬ Among (reaped 43) (reaped 42 ∷ [])
not_reaped h = elim (Among-reaped 43 42 [] h) [
  | inl none_left ↦ elim none_left [ ]
  | inr e ↦ omega (arith, e)
]

busy_second-FreshSeconds :
    FreshSeconds (busy_second ∷ []) (start_workers 0 first_forks (new_master 3 (pos 0) 2))
unfolding FreshSeconds FreshPass FreshExits start_workers fork_into handle_child_signal reap
    find_pid
busy_second-FreshSeconds =
    (((((λ e. omega (arith, e)), ((λ e. omega (arith, e)), tt)), not_reaped), tt), (tt, tt), tt)

server_keeps_workers_example :
    (0 < slot after_seconds 1) × ¬ Among (reaped (slot after_seconds 1)) after_seconds.calls
server_keeps_workers_example =
    server_keeps_workers (system two_workers) (codes "my.conf") true two_settings open_log_file
      (new_master 3 (pos 0) 2) 2 first_forks (busy_second ∷ []) runs_two refl refl
      (((40, refl), tt), (((41, refl), tt), tt))
      ((refl, ((42, refl), tt), (((50, refl), tt), tt)), tt) first_forks-FreshForks
      busy_second-FreshSeconds 1 (omega arith)

abbrev defaults : Dispositions
defaults = record {
  hangup = default_action;
  interrupt = default_action;
  termination = default_action;
  broken_pipe = default_action;
}

abbrev watching : Master
watching = record (new_master 3 (pos 80) 2) { worker_pids = 41 ∷ 42 ∷ [] }

-- No worker ends by itself.
abbrev hangs : ℕ → Waited
hangs p = alive

abbrev two_forks : List Fork
two_forks = record { pid = some 51; exits = [] } ∷ record { pid = some 52; exits = [] } ∷ []

signals_end_server_example :
    (m' final : Master) × (deliver true
        (setup_signal_handlers defaults)
        (sighup ∷ sigterm ∷ [])
        watching
      ≡ some m')
    × (m'.worker_pids ≡ 41 ∷ 42 ∷ [])
    × (rest_of_run two_forks
          (busy_second ∷ [])
          (([], hangs) ∷ [])
          (deliver true (setup_signal_handlers defaults) (sighup ∷ sigterm ∷ []) watching)
        ≡ some final)
    × (rest_of_run two_forks [] (([], hangs) ∷ []) (some m') ≡ some final)
    × ((calls : List Call) × (final.calls ≡ calls ++ close_socket 3 ∷ []))
    × All (IsOverOrNone 3 final) (restart_missing 0 two_forks m').worker_pids
signals_end_server_example =
    signals_end_server true defaults (sighup ∷ sigterm ∷ []) two_forks (busy_second ∷ [])
      (([], hangs) ∷ []) watching 3 refl refl
