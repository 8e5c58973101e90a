-- ===== src/Master/Shutdown.antt =====
-- From the request to end to the end of the master of src/master.c: master_run and master_cleanup.
use nx_lite.Base.{
  Among, Among-append_left, sym, subst, ℕ, ◌+◌, ◌<◌, ◌≡◌, refl, ◌∙◌, ap, ◌⊎◌, inl, inr, true, false,
  not, ◌&&◌, ◌||◌, Option, none, some, List, [], ◌∷◌, ◌++◌, arith,
}
use nx_lite.Master.{
  Master, Call, handle_child_signal, Fork, fork_into, start_workers, Second, monitor, Waited,
  wait_pass, after_pass, wait_workers, stop_workers, master_run, master_cleanup, terminate, kill,
  reaped, close_socket, send_all,
}
use nx_lite.Master.Reap.{IsSame, IsSame-refl, IsSame-trans, handle_child_signal-IsSame}
use nx_lite.Master.Monitor.{fork_into-IsSame, after_second}
use nx_lite.Master.Kept.{restart_missing-IsSame}
use nx_lite.Master.Stop.{stop_workers-reaps_or_kills}

start_workers-IsSame : (i : ℕ) (fs : List Fork) (m : Master) → IsSame m (start_workers i fs m)
unfolding start_workers
start_workers-IsSame i [] m = IsSame-refl m
start_workers-IsSame i (f ∷ fs) m =
    IsSame-trans (fork_into-IsSame i f m) (start_workers-IsSame (i + 1) fs (fork_into i f m))

abbrev SameSocket : Master → Master → Type 0
SameSocket m' m = m'.server_fd ≡ m.server_fd

after_second-server_fd : (s : Second) (m : Master) → (after_second s m).server_fd ≡ m.server_fd
after_second-server_fd s m =
    let slept : Master = record (handle_child_signal s.exits m) {
      shutdown_requested = m.shutdown_requested || s.requested;
    } in
    (restart_missing-IsSame 0 s.forks slept).server_fd
    ∙ (handle_child_signal-IsSame s.exits m).server_fd

monitor-server_fd : (ss : List Second) (m : Master) → (monitor ss m).server_fd ≡ m.server_fd
unfolding monitor
monitor-server_fd [] m = refl
monitor-server_fd (s ∷ ss) m =
    elim (m.is_running && not m.shutdown_requested)
      as (λ b.
        SameSocket (elim b as (λ x. Master) [ false ↦ m | true ↦ monitor ss (after_second s m) ])
          m) [
            | false ↦ refl
            | true ↦ monitor-server_fd ss (after_second s m) ∙ after_second-server_fd s m
          ]

wait_workers-server_fd :
    (passes : List (List (ℕ × Option ℕ) × (ℕ → Waited))) (m : Master)
    → (wait_workers passes m).server_fd ≡ m.server_fd
unfolding wait_workers
wait_workers-server_fd [] m = refl
wait_workers-server_fd ((exits, answer) ∷ passes) m =
    let signalled = handle_child_signal exits m in
    let pass = wait_pass answer signalled.worker_pids in
    let same = (handle_child_signal-IsSame exits m).server_fd in
    elim pass.2
      as (λ b.
        SameSocket
          (elim b as (λ x. Master) [
            | true ↦ wait_workers passes (after_pass pass signalled)
            | false ↦ after_pass pass signalled
          ])
          m) [
            | true ↦ wait_workers-server_fd passes (after_pass pass signalled) ∙ same
            | false ↦ same
          ]

pub stop_workers-server_fd :
    (passes : List (List (ℕ × Option ℕ) × (ℕ → Waited))) (m : Master)
    → (stop_workers passes m).server_fd ≡ m.server_fd
unfolding stop_workers
stop_workers-server_fd passes m =
    wait_workers-server_fd passes
      (record m { is_shutting_down = true; calls = m.calls ++ send_all terminate m.worker_pids })

-- Once the end is requested, no second is waited for.
pub monitor_ended : (ss : List Second) (m : Master) → m.shutdown_requested ≡ true → monitor ss m ≡ m
unfolding monitor
monitor_ended [] m e = refl
monitor_ended (s ∷ ss) m e =
    let ends : (m.is_running && not m.shutdown_requested) ≡ false = ground (arith, e) in
    simp (monitor, ends) refl

after_second-ended :
    (s : Second) (m : Master) → s.requested ≡ true → (after_second s m).shutdown_requested ≡ true
after_second-ended s m e =
    let slept : Master = record (handle_child_signal s.exits m) {
      shutdown_requested = m.shutdown_requested || s.requested;
    } in
    (restart_missing-IsSame 0 s.forks slept).shutdown_requested ∙ ground (arith, e)

monitor-last :
    (before after : List Second) (s : Second) (m : Master)
    → s.requested ≡ true
    → monitor (before ++ s ∷ after) m ≡ monitor (before ++ s ∷ []) m
unfolding monitor
monitor-last [] after s m e =
    elim (m.is_running && not m.shutdown_requested)
      as (λ b.
        elim b [ false ↦ m | true ↦ monitor after (after_second s m) ]
        ≡ elim b [ false ↦ m | true ↦ after_second s m ]) [
          | false ↦ refl
          | true ↦ monitor_ended after (after_second s m) (after_second-ended s m e)
        ]
monitor-last (b ∷ before) after s m e =
    elim (m.is_running && not m.shutdown_requested)
      as (λ t.
        elim t [ false ↦ m | true ↦ monitor (before ++ s ∷ after) (after_second b m) ]
        ≡ elim t [ false ↦ m | true ↦ monitor (before ++ s ∷ []) (after_second b m) ]) [
          | false ↦ refl
          | true ↦ monitor-last before after s (after_second b m) e
        ]

pub master_cleanup-closes :
    (fd : ℕ) (m : Master)
    → m.server_fd ≡ some fd
    → ((master_cleanup m).server_fd ≡ none)
      × ((master_cleanup m).calls ≡ m.calls ++ close_socket fd ∷ [])
unfolding master_cleanup
master_cleanup-closes fd m e = simp (master_cleanup, e) (refl, refl)

-- A process that was told to terminate and was then reaped or killed.
abbrev pub IsEnded : ℕ → Master → Type 0
IsEnded p m = Among (terminate p) m.calls × (Among (reaped p) m.calls ⊎ Among (kill p) m.calls)

-- The process was ended, the listening socket is closed, and closing it was the last call.
abbrev pub IsOver : ℕ → ℕ → Master → Type 0
IsOver p fd m =
    IsEnded p m
    × ((calls : List Call) × (m.calls ≡ calls ++ close_socket fd ∷ []))
    × (m.server_fd ≡ none)

pub stop_workers-IsOver :
    (passes : List (List (ℕ × Option ℕ) × (ℕ → Waited))) (p fd : ℕ) (m : Master)
    → m.server_fd ≡ some fd
    → 0 < p
    → Among p m.worker_pids
    → IsOver p fd (master_cleanup (stop_workers passes m))
stop_workers-IsOver passes p fd m socket positive h =
    let stopped = stop_workers passes m in
    let (closed, calls) =
      master_cleanup-closes fd stopped (stop_workers-server_fd passes m ∙ socket) in
    let later : (c : Call) → Among c stopped.calls → Among c (master_cleanup stopped).calls = λ c k.
      subst (Among c) (sym calls) (Among-append_left stopped.calls (close_socket fd ∷ []) k) in
    let (told, gone) = stop_workers-reaps_or_kills passes p m positive h in
    (
      (
        later (terminate p) told,
        elim gone [ inl r ↦ inl (later (reaped p) r) | inr k ↦ inr (later (kill p) k) ],
      ),
      (stopped.calls, calls),
      closed,
    )

-- The master after master_run and master_cleanup.
abbrev pub ended_master :
    List Fork → List Second → List (List (ℕ × Option ℕ) × (ℕ → Waited)) → Master → Master
ended_master forks seconds passes m = master_cleanup (master_run forks seconds passes m)

-- When the end is requested in a second, no second behind it is waited for. A process that is in the
-- table when that second is over is told to terminate, and is reaped or killed, whatever waitpid answers
-- and whichever signals arrive meanwhile; and the listening socket is closed, which is the last call.
pub shutdown_ends_all :
    (forks : List Fork) (before after : List Second) (s : Second)
    (passes : List (List (ℕ × Option ℕ) × (ℕ → Waited))) (m : Master) (p fd : ℕ)
    → s.requested ≡ true
    → m.server_fd ≡ some fd
    → 0 < p
    → Among p (monitor (before ++ s ∷ []) (start_workers 0 forks m)).worker_pids
    → (ended_master forks (before ++ s ∷ after) passes m
        ≡ ended_master forks (before ++ s ∷ []) passes m)
      × IsOver p fd (ended_master forks (before ++ s ∷ after) passes m)
unfolding master_run
shutdown_ends_all forks before after s passes m p fd requested socket positive h =
    let started = start_workers 0 forks m in
    let kept : (monitor (before ++ s ∷ []) started).server_fd ≡ some fd =
      monitor-server_fd (before ++ s ∷ []) started
      ∙ (start_workers-IsSame 0 forks m).server_fd
      ∙ socket in
    let same =
      ap (λ x. master_cleanup (stop_workers passes x))
        (monitor-last before after s started requested) in
    (
      same,
      subst (IsOver p fd) (sym same)
          (stop_workers-IsOver passes p fd (monitor (before ++ s ∷ []) started) kept positive h),
    )
