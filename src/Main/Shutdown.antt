-- ===== src/Main/Shutdown.antt =====
-- What a signal to end does to the server of src/main.c and src/master.c.
use nx_lite.Base.{
  Among, here, there, ℕ, zero, suc, ◌≡◌, refl, ◌∙◌, ap, ◌⊎◌, inl, inr, Bool, true, Option, none,
  some, List, [], ◌∷◌, ◌++◌, All, arith,
}
use nx_lite.Master.{
  Call, close_socket, Master, Fork, Signal, Second, Waited, monitor, restart_missing, stop_workers,
  master_cleanup,
}
use nx_lite.Master.Kept.{restart_missing-IsSame}
use nx_lite.Master.Shutdown.{
  IsOver, stop_workers-IsOver, monitor_ended, master_cleanup-closes, stop_workers-server_fd,
}
use nx_lite.Main.Signals.{
  Dispositions, setup_signal_handlers, deliver, any_end, deliver-IsRequested,
}

-- What is left of master_run and master_cleanup when the signals reach the master in its sleep: the pass
-- behind the sleep, the seconds behind it, and the end; or nothing where the signals ended the process.
abbrev pub rest_of_run :
    List Fork
    → List Second
    → List (List (ℕ × Option ℕ) × (ℕ → Waited))
    → Option Master
    → Option Master
rest_of_run forks seconds passes none = none
rest_of_run forks seconds passes (some m) =
    some (master_cleanup (stop_workers passes (monitor seconds (restart_missing 0 forks m))))

All-Among : (P : ℕ → Type 0) (xs : List ℕ) → ((p : ℕ) → Among p xs → P p) → All P xs
All-Among P [] f = tt
All-Among P (x ∷ xs) f = (f x (here refl), All-Among P xs (λ p h. f p (there h)))

-- An empty slot, or a process that is over.
abbrev pub IsOverOrNone : ℕ → Master → ℕ → Type 0
IsOverOrNone fd m p = (p ≡ 0) ⊎ IsOver p fd m

stop_workers-all :
    (passes : List (List (ℕ × Option ℕ) × (ℕ → Waited))) (fd : ℕ) (m : Master)
    → m.server_fd ≡ some fd
    → (p : ℕ) → Among p m.worker_pids
    → IsOverOrNone fd (master_cleanup (stop_workers passes m)) p
stop_workers-all passes fd m socket zero h = inl refl
stop_workers-all passes fd m socket (suc p) h =
    inr (stop_workers-IsOver passes (suc p) fd m socket (omega arith) h)

-- When SIGTERM, SIGINT and SIGHUP, in any number and one of the first two among them, reach a master
-- in its sleep, and main has set the handlers, they do not end the process: the pass behind the sleep is
-- made, no further second is waited for, each process that is in the table after the pass is told to
-- terminate and is reaped or killed, and the listening socket is closed last.
pub signals_end_server :
    (loaded : Bool) (d : Dispositions) (signals : List Signal) (forks : List Fork)
    (seconds : List Second) (passes : List (List (ℕ × Option ℕ) × (ℕ → Waited))) (m : Master)
    (fd : ℕ)
    → any_end signals ≡ true
    → m.server_fd ≡ some fd
    → (m' final : Master) × (deliver loaded (setup_signal_handlers d) signals m ≡ some m')
      × (m'.worker_pids ≡ m.worker_pids)
      × (rest_of_run forks seconds passes (deliver loaded (setup_signal_handlers d) signals m)
          ≡ some final)
      × (rest_of_run forks [] passes (some m') ≡ some final)
      × ((calls : List Call) × (final.calls ≡ calls ++ close_socket fd ∷ []))
      × All (IsOverOrNone fd final) (restart_missing 0 forks m').worker_pids
signals_end_server loaded d signals forks seconds passes m fd ends socket =
    let (m', delivered, r) = deliver-IsRequested loaded d signals m in
    let passed = restart_missing 0 forks m' in
    let same = restart_missing-IsSame 0 forks m' in
    let requested : m'.shutdown_requested ≡ true = ground (arith, r.shutdown_requested, ends) in
    let over : monitor seconds passed ≡ passed =
      monitor_ended seconds passed (same.shutdown_requested ∙ requested) in
    let closes =
      master_cleanup-closes fd (stop_workers passes passed)
        (stop_workers-server_fd passes passed ∙ same.server_fd ∙ r.server_fd ∙ socket) in
    (
      m',
      master_cleanup (stop_workers passes passed),
      delivered,
      r.worker_pids,
      ap (rest_of_run forks seconds passes) delivered
          ∙ ap (λ x. some (master_cleanup (stop_workers passes x))) over,
      ap (λ x. some (master_cleanup (stop_workers passes x)))
          (monitor_ended [] passed (same.shutdown_requested ∙ requested)),
      ((stop_workers passes passed).calls, closes.1),
      All-Among (IsOverOrNone fd (master_cleanup (stop_workers passes passed))) passed.worker_pids
          (stop_workers-all passes fd passed (same.server_fd ∙ r.server_fd ∙ socket)),
    )
