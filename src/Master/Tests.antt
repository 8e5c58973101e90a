-- ===== src/Master/Tests.antt =====
-- Runs of the functions of src/master.c, and its theorems at concrete inputs.
use nx_lite.Base.{
  inl, inr, Among, here, there, sym, subst, ℕ, ◌<◌, ◌≡◌, refl, ◌⊎◌, Bool, true, false, Option, none,
  some, List, [], ◌∷◌, arith, ◌==◌,
}
use nx_lite.Config.{pos}
use nx_lite.Master.{
  Master, SetUp, refused, master_init, new_master, terminate, kill, reaped, find_pid, reap,
  handle_child_signal, Fork, fork_into, start_workers, restart_missing, Second, monitor, Waited,
  alive, ended, stop_workers, wait_workers, wait_pass, open_master,
}
use nx_lite.Master.Reap.{slot}
use nx_lite.Master.Monitor.{lost_child}
use nx_lite.Master.Alive.{Among-reaped, empty-LivingIn}
use nx_lite.Master.Fresh.{FreshExits, FreshForks, FreshPass, FreshSeconds, workers_live}
use nx_lite.Master.Spared.{stop_workers-kills_workers}
use nx_lite.Master.Shutdown.{IsOver, ended_master, shutdown_ends_all}

abbrev accepting : SetUp
accepting = record {
  socket = some 3;
  reuse_port = true;
  option = λ o. true;
  bind = true;
  listen = true;
  memory = true;
  sigaction = true;
}

abbrev busy_port : SetUp
busy_port = record accepting { bind = false }

abbrev two_slots : Master
two_slots = new_master 3 (pos 7877) 2

abbrev two_workers : Master
two_workers = record two_slots { worker_pids = 41 ∷ 42 ∷ [] }

abbrev forks : ℕ → Fork
forks pid = record { pid = some pid; exits = [] }

abbrev quiet_second : Second
quiet_second = record { exits = []; requested = false; forks = forks 51 ∷ forks 52 ∷ [] }

-- Worker 42 ends while the master sleeps, and the handler starts 43.
abbrev busy_second : Second
busy_second = record {
  exits = (42, some 43) ∷ [];
  requested = false;
  forks = forks 51 ∷ forks 52 ∷ [];
}

starts_two : (start_workers 0 (forks 41 ∷ forks 42 ∷ []) two_slots).worker_pids ≡ 41 ∷ 42 ∷ []
unfolding start_workers fork_into handle_child_signal
starts_two = refl

replaces_one : (monitor (busy_second ∷ []) two_workers).worker_pids ≡ 41 ∷ 43 ∷ []
unfolding monitor restart_missing fork_into handle_child_signal reap find_pid
replaces_one = refl

abbrev if_ended : Bool → Waited
if_ended true = ended
if_ended false = alive

-- The first worker ends at once, the second has to be killed.
abbrev one_pass : List (List (ℕ × Option ℕ) × (ℕ → Waited))
one_pass = ([], λ p. if_ended (p == 41)) ∷ []

ends_two :
    (stop_workers one_pass two_workers).calls
    ≡ terminate 41 ∷ terminate 42 ∷ reaped 41 ∷ kill 42 ∷ []
unfolding stop_workers wait_workers wait_pass handle_child_signal
ends_two = refl

refuses_busy_port : master_init busy_port (pos 7877) (pos 2) ≡ refused (3 ∷ [])
unfolding master_init open_master
refuses_busy_port = refl

lost_child_example :
    ((fork_into 0 (record { pid = some 41; exits = (41, none) ∷ [] }) two_slots).calls
      ≡ reaped 41 ∷ [])
    × (slot
          (monitor
            (quiet_second ∷ [])
            (fork_into 0 (record { pid = some 41; exits = (41, none) ∷ [] }) two_slots))
          0
        ≡ 41)
lost_child_example =
    lost_child 0 41 none two_slots (quiet_second ∷ []) (omega arith) (omega arith)
      ((tt, (tt, (tt, tt))), tt)

abbrev both_forks : List Fork
both_forks = forks 41 ∷ forks 42 ∷ []

both_forks-FreshForks : FreshForks 0 both_forks two_slots
unfolding FreshForks FreshExits fork_into handle_child_signal
both_forks-FreshForks = (
  (tt, (((λ e. omega (arith, e)), ((λ e. omega (arith, e)), tt)), (λ h. elim h [ ]))),
  ((tt, (((λ e. omega (arith, e)), ((λ e. omega (arith, e)), tt)), (λ h. elim h [ ]))), tt),
)

not_reaped : ¬ Among (reaped 43) (reaped 42 ∷ [])
not_reaped h = elim (Among-reaped 43 42 [] h) [
  | inl none_left ↦ elim none_left [ ]
  | inr e ↦ omega (arith, e)
]

busy_second-FreshSeconds : FreshSeconds (busy_second ∷ []) (start_workers 0 both_forks two_slots)
unfolding FreshSeconds FreshPass FreshExits start_workers fork_into handle_child_signal reap
    find_pid
busy_second-FreshSeconds = (
  ((((λ e. omega (arith, e)), ((λ e. omega (arith, e)), tt)), not_reaped), tt),
  (tt, (tt, tt)),
  tt,
)

abbrev after_seconds : Master
after_seconds = monitor (busy_second ∷ []) (start_workers 0 both_forks two_slots)

workers_live_example :
    (0 < slot after_seconds 1)
    × (¬ Among (reaped (slot after_seconds 1)) after_seconds.calls)
    × (0 < slot (restart_missing 0 both_forks two_slots) 1)
workers_live_example =
    workers_live both_forks (busy_second ∷ []) two_slots refl (empty-LivingIn 2 []) refl
      (((40, refl), tt), (((41, refl), tt), tt))
      ((refl, ((42, refl), tt), (((50, refl), tt), (((51, refl), tt), tt))), tt)
      both_forks-FreshForks busy_second-FreshSeconds 1 (omega arith)

kills_second : Among (kill 42) (stop_workers one_pass two_workers).calls
kills_second = subst (Among (kill 42)) (sym ends_two) (there (there (there (here refl))))

stop_workers-kills_workers_example :
    Among (kill 42) two_workers.calls ⊎ ((0 < 42) × Among 42 two_workers.worker_pids)
stop_workers-kills_workers_example = stop_workers-kills_workers one_pass 42 two_workers kills_second

abbrev last_second : Second
last_second = record busy_second { exits = []; requested = true }

shutdown_ends_all_example :
    (ended_master both_forks (last_second ∷ busy_second ∷ []) one_pass two_slots
      ≡ ended_master both_forks (last_second ∷ []) one_pass two_slots)
    × IsOver 42 3 (ended_master both_forks (last_second ∷ busy_second ∷ []) one_pass two_slots)
unfolding monitor start_workers
shutdown_ends_all_example =
    shutdown_ends_all both_forks [] (busy_second ∷ []) last_second one_pass two_slots 42 3 refl refl
      (omega arith) (there (here refl))
