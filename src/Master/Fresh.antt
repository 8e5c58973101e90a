-- ===== src/Master/Fresh.antt =====
-- That master_run in src/master.c keeps living processes in its table, where fork gives fresh numbers.
use nx_lite.Base.{
  Among, ℕ, ◌+◌, ◌<◌, ◌≡◌, Bool, true, false, not, ◌&&◌, ◌||◌, Option, List, [], ◌∷◌, length,
  get_or, All, ◌==◌, if◌then◌else◌,
}
use nx_lite.Master.{
  Master, reaped, call, may_restart, reap, handle_child_signal, Fork, fork_into, start_workers,
  restart_missing, Second, monitor,
}
use nx_lite.Master.Reap.{slot}
use nx_lite.Master.Alive.{Living, FreshPid, reap-Living, refill-Living}
use nx_lite.Master.Kept.{ForkSucceeds, SecondSucceeds, workers_kept}
use nx_lite.Master.Monitor.{restart_slot, after_second}

-- The same of each process that is forked while the ends of others are handled.
unfoldable pub FreshExits : List (ℕ × Option ℕ) → Master → Type 0
FreshExits [] m = Unit
FreshExits ((pid, forked) ∷ exits) m =
    FreshPid forked (call (reaped pid) m) × FreshExits exits (reap pid forked m)

handle_child_signal-Living :
    (exits : List (ℕ × Option ℕ)) (m : Master)
    → Living m
    → FreshExits exits m
    → Living (handle_child_signal exits m)
unfolding handle_child_signal FreshExits
handle_child_signal-Living [] m l f = l
handle_child_signal-Living ((pid, forked) ∷ exits) m l (f, fs) =
    handle_child_signal-Living exits (reap pid forked m) (reap-Living pid forked m l f) fs

-- A worker that ends before its number is stored is not fresh when it is.
abbrev pub FreshFork : Fork → Master → Type 0
FreshFork f m = FreshExits f.exits m × FreshPid f.pid (handle_child_signal f.exits m)

fork_into-Living :
    (i : ℕ) (f : Fork) (m : Master) → Living m → FreshFork f m → Living (fork_into i f m)
unfolding fork_into
fork_into-Living i f m l (fresh, new) =
    refill-Living i f.pid (handle_child_signal f.exits m)
      (handle_child_signal-Living f.exits m l fresh) new

unfoldable pub FreshForks : ℕ → List Fork → Master → Type 0
FreshForks i [] m = Unit
FreshForks i (f ∷ fs) m = FreshFork f m × FreshForks (i + 1) fs (fork_into i f m)

start_workers-Living :
    (i : ℕ) (fs : List Fork) (m : Master)
    → Living m
    → FreshForks i fs m
    → Living (start_workers i fs m)
unfolding start_workers FreshForks
start_workers-Living i [] m l f = l
start_workers-Living i (f ∷ fs) m l (fresh, more) =
    start_workers-Living (i + 1) fs (fork_into i f m) (fork_into-Living i f m l fresh) more

-- A slot that has a process is passed over.
abbrev pub FreshSlot : Bool → Fork → Master → Type 0
FreshSlot true f m = FreshFork f m
FreshSlot false f m = Unit

unfoldable pub FreshPass : ℕ → List Fork → Master → Type 0
FreshPass i [] m = Unit
FreshPass i (f ∷ fs) m =
    FreshSlot (get_or m.worker_pids i 0 == 0) f m × FreshPass (i + 1) fs (restart_slot i f m)

restart_slot-Living :
    (i : ℕ) (f : Fork) (m : Master)
    → Living m
    → FreshSlot (get_or m.worker_pids i 0 == 0) f m
    → Living (restart_slot i f m)
restart_slot-Living i f m l =
    elim (get_or m.worker_pids i 0 == 0)
      as (λ b. FreshSlot b f m → Living (if b then fork_into i f m else m)) [
        | true ↦ (λ fresh. fork_into-Living i f m l fresh)
        | false ↦ (λ fresh. l)
      ]

restart_missing-Living :
    (i : ℕ) (fs : List Fork) (m : Master)
    → Living m
    → FreshPass i fs m
    → Living (restart_missing i fs m)
unfolding restart_missing FreshPass
restart_missing-Living i [] m l f = l
restart_missing-Living i (f ∷ fs) m l (fresh, more) =
    restart_missing-Living (i + 1) fs (restart_slot i f m) (restart_slot-Living i f m l fresh) more

abbrev pub slept : Second → Master → Master
slept s m = record (handle_child_signal s.exits m) {
  shutdown_requested = m.shutdown_requested || s.requested;
}

unfoldable pub FreshSeconds : List Second → Master → Type 0
FreshSeconds [] m = Unit
FreshSeconds (s ∷ ss) m =
    FreshExits s.exits m × FreshPass 0 s.forks (slept s m) × FreshSeconds ss (after_second s m)

monitor-Living :
    (seconds : List Second) (m : Master)
    → Living m
    → FreshSeconds seconds m
    → Living (monitor seconds m)
unfolding monitor FreshSeconds
monitor-Living [] m l f = l
monitor-Living (s ∷ seconds) m l (exits, pass, more) =
    elim (m.is_running && not m.shutdown_requested)
      as (λ b.
        Living
          (elim b as (λ x. Master) [ false ↦ m | true ↦ monitor seconds (after_second s m) ])) [
            | false ↦ l
            | true ↦
                let handled : Living (handle_child_signal s.exits m) =
                  handle_child_signal-Living s.exits m l exits in
                let rested : Living (slept s m) = record {
                  distinct = handled.distinct;
                  alive = handled.alive;
                } in
                monitor-Living seconds (after_second s m)
                  (restart_missing-Living 0 s.forks (slept s m) rested pass) more
          ]

-- A master that runs gives each slot a worker, if fork succeeds for each, and after any number of
-- seconds each slot has a process whose end was not told by waitpid: a worker that ended is replaced,
-- whenever the master learned of it, as long as each fork succeeds and no end is requested. A number
-- that fork gives is assumed to be neither in the table nor that of a process that was reaped. A slot
-- that has none, from whatever state, has one after the next pass.
pub workers_live :
    (forks : List Fork) (seconds : List Second) (m : Master)
    → may_restart m ≡ true
    → Living m
    → length forks ≡ length m.worker_pids
    → All ForkSucceeds forks
    → All SecondSucceeds seconds
    → FreshForks 0 forks m
    → FreshSeconds seconds (start_workers 0 forks m)
    → (j : ℕ) → j < length m.worker_pids
    → (0 < slot (monitor seconds (start_workers 0 forks m)) j)
      × (¬ Among
          (reaped (slot (monitor seconds (start_workers 0 forks m)) j))
          (monitor seconds (start_workers 0 forks m)).calls)
      × (0 < slot (restart_missing 0 forks m) j)
workers_live forks seconds m may l long all succeed fresh fresh_seconds j below =
    let (taken, passed) = workers_kept forks seconds m may long all succeed j below in
    let living : Living (monitor seconds (start_workers 0 forks m)) =
      monitor-Living seconds (start_workers 0 forks m) (start_workers-Living 0 forks m l fresh)
        fresh_seconds in
    (taken, living.alive j taken, passed)
