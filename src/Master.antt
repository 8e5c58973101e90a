-- ===== src/Master.antt =====
-- src/master.c and include/master.h: the set-up of the master, its table of worker processes, and how
-- it starts, restarts and stops them. What the system answers is a parameter. A process number of 0 in
-- the table stands for no process; fork gives positive ones. Signals are delivered where a call waits,
-- and between fork and the store of its result.
pub mod Init
pub mod Monitor
pub mod Reap
pub mod Kept
pub mod Alive
pub mod Fresh
pub mod Stop
pub mod Spared
pub mod Child
pub mod Restart
pub mod Shutdown
mod Tests
use nx_lite.Base.{
  ℕ, zero, suc, ◌+◌, Bool, true, false, not, ◌&&◌, ◌||◌, Option, none, some, List, [], ◌∷◌, ◌++◌,
  ◌==◌, if◌then◌else◌, get_or, set, replicate,
}
use nx_lite.Config.{ℤ, pos, negsuc}

-- A signal to a process; its end as waitpid tells it, by its status or, where the handler of SIGCHLD
-- was first, by ECHILD; and a descriptor that is closed.
pub data Call : Type 0 where
  terminate kill reload reaped close_socket : ℕ → Call

pub record Master : Type 0 where
  pub server_fd : Option ℕ
  pub port : ℤ
  pub is_running : Bool
  pub is_shutting_down : Bool
  pub shutdown_requested : Bool
  pub worker_pids : List ℕ
  pub calls : List Call

-- The options of the listening socket, in the order in which they are set.
pub data TcpOption : Type 0 where
  reuse_addr keep_alive no_delay defer_accept send_buffer receive_buffer keep_idle keep_interval
        keep_count :
      TcpOption

-- Only TCP_DEFER_ACCEPT may fail.
abbrev pub configure_tcp_socket : (TcpOption → Bool) → Bool
configure_tcp_socket sets =
    sets reuse_addr
    && sets keep_alive
    && sets no_delay
    && sets send_buffer
    && sets receive_buffer
    && sets keep_idle
    && sets keep_interval
    && sets keep_count

-- What the system answers to master_init.
pub record SetUp : Type 0 where
  pub socket : Option ℕ
  pub reuse_port : Bool
  pub option : TcpOption → Bool
  pub bind : Bool
  pub listen : Bool
  pub memory : Bool
  pub sigaction : Bool

-- A master that is ready, or the descriptors that were closed before -1 is returned.
pub data InitResult : Type 0 where
  ready : Master → InitResult
  refused : List ℕ → InitResult

abbrev pub new_master : ℕ → ℤ → ℕ → Master
new_master fd port worker_count = record {
  server_fd = some fd;
  port = port;
  is_running = true;
  is_shutting_down = false;
  shutdown_requested = false;
  worker_pids = replicate worker_count 0;
  calls = [];
}

-- The part behind the test of the arguments, for a positive number of workers.
unfoldable pub open_master : SetUp → ℤ → ℕ → InitResult
open_master s port worker_count = elim s.socket [
  | none ↦ refused []
  | some fd ↦
      if s.reuse_port
        && configure_tcp_socket s.option
        && s.bind
        && s.listen
        && s.memory
        && s.sigaction
      then ready (new_master fd port worker_count)
      else refused (fd ∷ [])
]

unfoldable pub master_init : SetUp → ℤ → ℤ → InitResult
unfolding open_master
master_init s port (negsuc n) = refused []
master_init s port (pos zero) = refused []
master_init s port (pos (suc n)) = open_master s port (suc n)

abbrev pub set_pid : ℕ → ℕ → Master → Master
set_pid i pid m = record m { worker_pids = set m.worker_pids i pid }

abbrev pub call : Call → Master → Master
call c m = record m { calls = m.calls ++ c ∷ [] }

abbrev pub next_slot : Option ℕ → Option ℕ
next_slot none = none
next_slot (some i) = some (suc i)

-- for (i = 0; i < worker_count; i++) if (worker_pids[i] == pid)
unfoldable pub find_pid : ℕ → List ℕ → Option ℕ
find_pid pid [] = none
find_pid pid (p ∷ ps) = let rest = find_pid pid ps in if p == pid then some 0 else next_slot rest

abbrev pub may_restart : Master → Bool
may_restart m = m.is_running && not m.shutdown_requested && not m.is_shutting_down

-- What fork gives to the parent is stored.
abbrev pub refill : ℕ → Option ℕ → Master → Master
refill i none m = m
refill i (some pid) m = set_pid i pid m

-- The slot of a process that ended is cleared, and a new one is started unless the master stops.
abbrev pub clear_slot : Option ℕ → Option ℕ → Master → Master
clear_slot none forked m = m
clear_slot (some i) forked m =
    if may_restart m then refill i forked (set_pid i 0 m) else set_pid i 0 m

-- A process that waitpid gives; `forked` is what fork gives to the parent if it is called.
unfoldable pub reap : ℕ → Option ℕ → Master → Master
reap pid forked m = clear_slot (find_pid pid m.worker_pids) forked (call (reaped pid) m)

-- The processes that waitpid gives one after the other, each with what fork answers if it is called.
unfoldable pub handle_child_signal : List (ℕ × Option ℕ) → Master → Master
unfolding reap
handle_child_signal [] m = m
handle_child_signal ((pid, forked) ∷ exits) m = handle_child_signal exits (reap pid forked m)

-- What happens while a worker is forked: the answer of fork, and the processes of which the signal
-- handler learns before the answer is stored.
pub record Fork : Type 0 where
  pub pid : Option ℕ
  pub exits : List (ℕ × Option ℕ)

-- pid = fork_worker(master, i); if (pid > 0) worker_pids[i] = pid;
unfoldable pub fork_into : ℕ → Fork → Master → Master
unfolding handle_child_signal
fork_into i f m = refill i f.pid (handle_child_signal f.exits m)

-- The slots from number i on, each with its answers.
unfoldable pub start_workers : ℕ → List Fork → Master → Master
unfolding fork_into
start_workers i [] m = m
start_workers i (f ∷ fs) m = start_workers (i + 1) fs (fork_into i f m)

-- One pass over the table: a slot without a process gets a new one.
unfoldable pub restart_missing : ℕ → List Fork → Master → Master
unfolding fork_into
restart_missing i [] m = m
restart_missing i (f ∷ fs) m =
    restart_missing (i + 1) fs (if get_or m.worker_pids i 0 == 0 then fork_into i f m else m)

-- Each second, while the master runs: the signals that arrive while it sleeps, and a pass.
pub record Second : Type 0 where
  pub exits : List (ℕ × Option ℕ)
  pub requested : Bool
  pub forks : List Fork

unfoldable pub monitor : List Second → Master → Master
unfolding restart_missing handle_child_signal
monitor [] m = m
monitor (s ∷ ss) m =
    let slept = handle_child_signal s.exits m in
    elim (m.is_running && not m.shutdown_requested) [
      | false ↦ m
      | true ↦ monitor ss (
          restart_missing 0 s.forks
            (record slept { shutdown_requested = m.shutdown_requested || s.requested }))
    ]

abbrev pub send_all : (ℕ → Call) → List ℕ → List Call
send_all signal [] = []
send_all signal (p ∷ ps) = if p == 0 then send_all signal ps else signal p ∷ send_all signal ps

-- What waitpid says of a process that was told to stop: it runs, it ended, it was reaped by the signal
-- handler already, or another error.
pub data Waited : Type 0 where
  alive ended no_child wait_error : Waited

-- The table behind a slot, the processes of it that are gone, and whether some run, with the slot.
abbrev pub wait_slot : Waited → ℕ → List ℕ × List Call × Bool → List ℕ × List Call × Bool
wait_slot alive p (ps, gone, running) = (p ∷ ps, gone, true)
wait_slot ended p (ps, gone, running) = (0 ∷ ps, reaped p ∷ gone, running)
wait_slot no_child p (ps, gone, running) = (0 ∷ ps, reaped p ∷ gone, running)
wait_slot wait_error p (ps, gone, running) = (p ∷ ps, gone, running)

abbrev pub empty_slot : List ℕ × List Call × Bool → List ℕ × List Call × Bool
empty_slot (ps, gone, running) = (0 ∷ ps, gone, running)

-- One pass of waitpid over the table.
unfoldable pub wait_pass : (ℕ → Waited) → List ℕ → List ℕ × List Call × Bool
wait_pass answer [] = ([], [], false)
wait_pass answer (p ∷ ps) =
    let rest = wait_pass answer ps in
    if p == 0 then empty_slot rest else wait_slot (answer p) p rest

abbrev pub after_pass : List ℕ × List Call × Bool → Master → Master
after_pass (pids, gone, running) m = record m { worker_pids = pids; calls = m.calls ++ gone }

-- Passes until no process runs, or ten seconds are over; before each, the signals that arrived.
unfoldable pub wait_workers : List (List (ℕ × Option ℕ) × (ℕ → Waited)) → Master → Master
unfolding wait_pass handle_child_signal
wait_workers [] m = m
wait_workers ((exits, answer) ∷ passes) m =
    let signalled = handle_child_signal exits m in
    let pass = wait_pass answer signalled.worker_pids in
    elim pass.2 [
      | true ↦ wait_workers passes (after_pass pass signalled)
      | false ↦ after_pass pass signalled
    ]

-- The end of master_run: terminate all, wait, and kill what is left.
unfoldable pub stop_workers : List (List (ℕ × Option ℕ) × (ℕ → Waited)) → Master → Master
unfolding wait_workers
stop_workers passes m =
    let told : Master = record m {
      is_shutting_down = true;
      calls = m.calls ++ send_all terminate m.worker_pids;
    } in
    let waited = wait_workers passes told in
    record waited { calls = waited.calls ++ send_all kill waited.worker_pids }

unfoldable pub master_run :
    List Fork → List Second → List (List (ℕ × Option ℕ) × (ℕ → Waited)) → Master → Master
unfolding start_workers monitor stop_workers
master_run forks seconds passes m = stop_workers passes (monitor seconds (start_workers 0 forks m))

-- The table is freed.
unfoldable pub master_cleanup : Master → Master
master_cleanup m = elim m.server_fd [
  | none ↦ record m { worker_pids = [] }
  | some fd ↦ record m {
    server_fd = none;
    worker_pids = [];
    calls = m.calls ++ close_socket fd ∷ [];
  }
]

pub data Signal : Type 0 where
  sigterm sigint sighup : Signal

-- `loaded` says whether the configuration could be loaded from a null file name.
unfoldable pub master_handle_signal : Bool → Signal → Master → Master
master_handle_signal loaded sigterm m = record m { is_running = false }
master_handle_signal loaded sigint m = record m { is_running = false }
master_handle_signal loaded sighup m =
    if loaded then record m { calls = m.calls ++ send_all reload m.worker_pids } else m
