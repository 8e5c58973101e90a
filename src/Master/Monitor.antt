-- ===== src/Master/Monitor.antt =====
-- The loops of master_run in src/master.c that start the workers and start them again.
use nx_lite.Base.{
  ℕ, ◌+◌, ◌<◌, ◌≡◌, refl, sym, ◌∙◌, subst, ◌≢◌, true, false, not, ◌&&◌, ◌||◌, Option, none, some,
  List, [], ◌∷◌, ◌++◌, arith, length, get_or, get_or-set_self, get_or-set_ne, All, ◌==◌,
  if◌then◌else◌, ℕ_discrete,
}
use nx_lite.Master.{
  Master, refill, handle_child_signal, reaped, Fork, fork_into, restart_missing, Second, monitor,
}
use nx_lite.Master.Reap.{
  slot, IsSame, IsSame-trans, refill-IsSame, handle_child_signal-IsSame, handle_child_signal-slot,
  reap-calls,
}

pub fork_into-IsSame : (i : ℕ) (f : Fork) (m : Master) → IsSame m (fork_into i f m)
unfolding fork_into
fork_into-IsSame i f m =
    IsSame-trans (handle_child_signal-IsSame f.exits m)
      (refill-IsSame i f.pid (handle_child_signal f.exits m))

refill-slot :
    (i j : ℕ) (forked : Option ℕ) (m : Master) → i ≢ j → slot (refill i forked m) j ≡ slot m j
refill-slot i j none m h = refl
refill-slot i j (some pid) m h = get_or-set_ne m.worker_pids i j pid 0 h

-- No handler that runs while a worker is forked learns of the end of the process.
abbrev pub Spares : ℕ → Fork → Type 0
Spares pid f = All (λ e. e.0 ≢ pid) f.exits

fork_into-slot :
    (i j : ℕ) (f : Fork) (m : Master)
    → i ≢ j
    → Spares (slot m j) f
    → slot (fork_into i f m) j ≡ slot m j
unfolding fork_into
fork_into-slot i j f m ne spares =
    refill-slot i j f.pid (handle_child_signal f.exits m) ne
    ∙ handle_child_signal-slot f.exits m j spares

-- One step of a pass that looks for slots without a process.
abbrev pub restart_slot : ℕ → Fork → Master → Master
restart_slot i f m = if get_or m.worker_pids i 0 == 0 then fork_into i f m else m

restart_slot-slot :
    (i j : ℕ) (f : Fork) (m : Master)
    → 0 < slot m j
    → Spares (slot m j) f
    → slot (restart_slot i f m) j ≡ slot m j
restart_slot-slot i j f m taken spares = elim (ℕ_discrete i j) [
  | yes e ↦ let busy : (slot m i == 0) ≡ false = rw e (ground (arith, taken)) in simp (busy) refl
  | no ne ↦ elim (slot m i == 0) as (λ b. slot (if b then fork_into i f m else m) j ≡ slot m j) [
    | true ↦ fork_into-slot i j f m ne spares
    | false ↦ refl
  ]
]

restart_missing-slot :
    (i j : ℕ) (fs : List Fork) (m : Master)
    → 0 < slot m j
    → All (Spares (slot m j)) fs
    → slot (restart_missing i fs m) j ≡ slot m j
unfolding restart_missing
restart_missing-slot i j [] m taken spares = refl
restart_missing-slot i j (f ∷ fs) m taken spares =
    let same = restart_slot-slot i j f m taken spares.0 in
    restart_missing-slot (i + 1) j fs (restart_slot i f m) (rw same taken)
      (subst (λ p. All (Spares p) fs) (sym same) spares.1)
    ∙ same

abbrev pub SecondSpares : ℕ → Second → Type 0
SecondSpares pid s = All (λ e. e.0 ≢ pid) s.exits × All (Spares pid) s.forks

-- What a second of the loop leaves behind.
abbrev pub after_second : Second → Master → Master
after_second s m = restart_missing 0 s.forks (record (handle_child_signal s.exits m) {
  shutdown_requested = m.shutdown_requested || s.requested;
})

monitor-slot :
    (seconds : List Second) (j : ℕ) (m : Master)
    → 0 < slot m j
    → All (SecondSpares (slot m j)) seconds
    → slot (monitor seconds m) j ≡ slot m j
unfolding monitor
monitor-slot [] j m taken spares = refl
monitor-slot (s ∷ seconds) j m taken spares =
    elim (m.is_running && not m.shutdown_requested)
      as (λ b.
        slot (elim b [ false ↦ m | true ↦ monitor seconds (after_second s m) ]) j ≡ slot m j) [
          | false ↦ refl
          | true ↦
              let slept : Master = record (handle_child_signal s.exits m) {
                shutdown_requested = m.shutdown_requested || s.requested;
              } in
              let kept : slot slept j ≡ slot m j =
                handle_child_signal-slot s.exits m j spares.0.0 in
              let same : slot (after_second s m) j ≡ slot m j =
                restart_missing-slot 0 j s.forks slept (rw kept taken)
                  (subst (λ p. All (Spares p) s.forks) (sym kept) spares.0.1)
                ∙ kept in
              monitor-slot seconds j (after_second s m) (rw same taken)
                (subst (λ p. All (SecondSpares p) seconds) (sym same) spares.1)
              ∙ same
        ]

-- A worker that ends before the master has stored its process number is lost: the handler has reaped
-- the process, the number is stored after that, and the slot keeps it and gets no other worker for as
-- long as the master runs and no other process has the same number.
pub lost_child :
    (i pid : ℕ) (forked : Option ℕ) (m : Master) (seconds : List Second)
    → i < length m.worker_pids
    → 0 < pid
    → All (SecondSpares pid) seconds
    → ((fork_into i (record { pid = some pid; exits = (pid, forked) ∷ [] }) m).calls
        ≡ m.calls ++ reaped pid ∷ [])
      × (slot
            (monitor seconds
              (fork_into i (record { pid = some pid; exits = (pid, forked) ∷ [] }) m))
            i
          ≡ pid)
lost_child i pid forked m seconds below positive spares =
    let signalled : Master = handle_child_signal ((pid, forked) ∷ []) m in
    let f : Fork = record { pid = some pid; exits = (pid, forked) ∷ [] } in
    let stored : slot (fork_into i f m) i ≡ pid =
      unfold fork_into in
      get_or-set_self signalled.worker_pids i pid 0 (
        subst (λ n. i < n) (sym (handle_child_signal-IsSame ((pid, forked) ∷ []) m).worker_count)
          below) in
    (
      unfold fork_into in unfold handle_child_signal in reap-calls pid forked m,
      monitor-slot seconds i (fork_into i f m) (rw stored positive)
            (subst (λ p. All (SecondSpares p) seconds) (sym stored) spares)
          ∙ stored,
    )
