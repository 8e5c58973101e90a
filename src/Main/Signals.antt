-- ===== src/Main/Signals.antt =====
-- setup_signal_handlers and handle_shutdown_signal of src/main.c, and what the signals do to the master.
use nx_lite.Base.{◌≡◌, refl, ◌∙◌, Bool, true, false, ◌||◌, Option, none, some, List, [], ◌∷◌, arith}
use nx_lite.Master.{Master, Signal, sigterm, sigint, sighup, master_handle_signal}

-- What a signal does: it ends the process, nothing, or it runs master_handle_signal or
-- handle_shutdown_signal.
pub data Disposition : Type 0 where
  default_action ignored run_master run_shutdown : Disposition

pub record Dispositions : Type 0 where
  pub hangup : Disposition
  pub interrupt : Disposition
  pub termination : Disposition
  pub broken_pipe : Disposition

unfoldable pub setup_signal_handlers : Dispositions → Dispositions
setup_signal_handlers d = record d {
  hangup = run_master;
  interrupt = run_shutdown;
  termination = run_shutdown;
  broken_pipe = ignored;
}

abbrev pub handle_shutdown_signal : Master → Master
handle_shutdown_signal m = record m { shutdown_requested = true }

abbrev pub disposition : Dispositions → Signal → Disposition
disposition d sigterm = d.termination
disposition d sigint = d.interrupt
disposition d sighup = d.hangup

-- The master behind the handler, or none if the process ends.
abbrev pub run_handler : Bool → Disposition → Signal → Master → Option Master
run_handler loaded default_action signal m = none
run_handler loaded ignored signal m = some m
run_handler loaded run_master signal m = some (master_handle_signal loaded signal m)
run_handler loaded run_shutdown signal m = some (handle_shutdown_signal m)

abbrev pub deliver_next : Option Master → (Master → Option Master) → Option Master
deliver_next none rest = none
deliver_next (some m) rest = rest m

-- Signals that arrive one after the other.
unfoldable pub deliver : Bool → Dispositions → List Signal → Master → Option Master
deliver loaded d [] m = some m
deliver loaded d (signal ∷ signals) m =
    deliver_next (run_handler loaded (disposition d signal) signal m) (deliver loaded d signals)

abbrev pub is_end : Signal → Bool
is_end sigterm = true
is_end sigint = true
is_end sighup = false

abbrev pub any_end : List Signal → Bool
any_end [] = false
any_end (signal ∷ signals) = is_end signal || any_end signals

-- What the signals leave of a master: it runs on with its table and its socket, and its end is requested
-- if it was before or one of the signals asks for it.
pub record IsRequested (signals : List Signal) (m m' : Master) : Type 0 where
  pub shutdown_requested : m'.shutdown_requested ≡ (m.shutdown_requested || any_end signals)
  pub is_running : m'.is_running ≡ m.is_running
  pub worker_pids : m'.worker_pids ≡ m.worker_pids
  pub server_fd : m'.server_fd ≡ m.server_fd

IsRequested-next :
    {signal : Signal} {signals : List Signal} {m n o : Master}
    → IsRequested (signal ∷ []) m n
    → IsRequested signals n o
    → IsRequested (signal ∷ signals) m o
IsRequested-next a b = record {
  shutdown_requested = ground (arith, a.shutdown_requested, b.shutdown_requested);
  is_running = b.is_running ∙ a.is_running;
  worker_pids = b.worker_pids ∙ a.worker_pids;
  server_fd = b.server_fd ∙ a.server_fd;
}

shutdown-IsRequested :
    (signal : Signal) (m : Master)
    → is_end signal ≡ true
    → IsRequested (signal ∷ []) m (handle_shutdown_signal m)
shutdown-IsRequested signal m e = record {
  shutdown_requested = ground (arith, e);
  is_running = refl;
  worker_pids = refl;
  server_fd = refl;
}

reload-IsRequested :
    (loaded : Bool) (m : Master)
    → IsRequested (sighup ∷ []) m (master_handle_signal loaded sighup m)
unfolding master_handle_signal
reload-IsRequested true m = record {
  shutdown_requested = ground arith;
  is_running = refl;
  worker_pids = refl;
  server_fd = refl;
}
reload-IsRequested false m = record {
  shutdown_requested = ground arith;
  is_running = refl;
  worker_pids = refl;
  server_fd = refl;
}

-- Once main has set the handlers, no SIGTERM, SIGINT or SIGHUP ends the process at once, whatever was
-- set before: it runs on with its table and its socket. The end is requested as soon as one of the
-- signals is SIGTERM or SIGINT, and by no other.
pub deliver-IsRequested :
    (loaded : Bool) (d : Dispositions) (signals : List Signal) (m : Master)
    → (m' : Master) × (deliver loaded (setup_signal_handlers d) signals m ≡ some m')
      × IsRequested signals m m'
unfolding deliver setup_signal_handlers
deliver-IsRequested loaded d [] m = (
  m,
  refl,
  record {
    shutdown_requested = ground arith;
    is_running = refl;
    worker_pids = refl;
    server_fd = refl;
  },
)
deliver-IsRequested loaded d (sigterm ∷ signals) m =
    let (m', e, r) = deliver-IsRequested loaded d signals (handle_shutdown_signal m) in
    (m', e, IsRequested-next (shutdown-IsRequested sigterm m refl) r)
deliver-IsRequested loaded d (sigint ∷ signals) m =
    let (m', e, r) = deliver-IsRequested loaded d signals (handle_shutdown_signal m) in
    (m', e, IsRequested-next (shutdown-IsRequested sigint m refl) r)
deliver-IsRequested loaded d (sighup ∷ signals) m =
    let (m', e, r) = deliver-IsRequested loaded d signals (master_handle_signal loaded sighup m) in
    (m', e, IsRequested-next (reload-IsRequested loaded m) r)
