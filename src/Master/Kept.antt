-- ===== src/Master/Kept.antt =====
-- That master_run in src/master.c keeps a process in each slot while fork succeeds.
use nx_lite.Base.{
  ℕ, suc, ◌+◌, ◌<◌, ◌≤◌, ◌≡◌, sym, ◌∙◌, ap, subst, ◌⊎◌, inl, inr, true, false, not, ◌&&◌, ◌||◌,
  List, [], ◌∷◌, arith, length, get_or-set_self, get_or-set_ne, All, Bool-cases, ◌==◌,
  if◌then◌else◌, ℕ_discrete,
}
use nx_lite.Master.{
  Master, may_restart, refill, handle_child_signal, set_pid, Fork, fork_into, start_workers,
  restart_missing, Second, monitor,
}
use nx_lite.Master.Reap.{
  slot, IsSame, IsSame-refl, IsSame-trans, IsSame-may_restart, handle_child_signal-IsSame,
  handle_child_signal_taken, Forks, AllFork,
}
use nx_lite.Master.Monitor.{fork_into-IsSame, restart_slot, after_second}

-- A slot gets a process when the fork for it gives one, and the others keep theirs.
fork_into_taken :
    (i j : ℕ) (f : Fork) (m : Master)
    → may_restart m ≡ true
    → Forks f.pid
    → AllFork f.exits
    → j < length m.worker_pids
    → (i ≡ j) ⊎ (0 < slot m j)
    → 0 < slot (fork_into i f m) j
unfolding fork_into
fork_into_taken i j f m may (pid, forks) all below h =
    let signalled = handle_child_signal f.exits m in
    let long : j < length signalled.worker_pids =
      subst (λ n. j < n) (sym (handle_child_signal-IsSame f.exits m).worker_count) below in
    let goal : 0 < slot (set_pid i (suc pid) signalled) j = elim (ℕ_discrete i j) [
      | yes e ↦
          rw
            (subst (λ k. slot (set_pid k (suc pid) signalled) j ≡ suc pid) (sym e)
              (get_or-set_self signalled.worker_pids j (suc pid) 0 long))
            (omega arith)
      | no ne ↦
          let taken : 0 < slot m j = elim h [ inl e ↦ absurd (ne e) | inr t ↦ t ] in
          rw (get_or-set_ne signalled.worker_pids i j (suc pid) 0 ne)
            (handle_child_signal_taken f.exits m j may all taken)
    ] in
    subst (λ o. 0 < slot (refill i o signalled) j) (sym forks) goal

abbrev pub ForkSucceeds : Fork → Type 0
ForkSucceeds f = Forks f.pid × AllFork f.exits

restart_slot_taken :
    (i j : ℕ) (f : Fork) (m : Master)
    → may_restart m ≡ true
    → ForkSucceeds f
    → j < length m.worker_pids
    → (i ≡ j) ⊎ (0 < slot m j)
    → 0 < slot (restart_slot i f m) j
restart_slot_taken i j f m may (forks, all) below h = elim (Bool-cases (slot m i == 0)) [
  | inl e ↦ rw e (fork_into_taken i j f m may forks all below h)
  | inr e ↦ rw e (elim h [ inl same ↦ ground (arith, e, ap (slot m) same) | inr taken ↦ taken ])
]

restart_slot-IsSame : (i : ℕ) (f : Fork) (m : Master) → IsSame m (restart_slot i f m)
restart_slot-IsSame i f m =
    elim (slot m i == 0) as (λ b. IsSame m (if b then fork_into i f m else m)) [
      | true ↦ fork_into-IsSame i f m
      | false ↦ IsSame-refl m
    ]

-- A slot that has a process or is still to come.
abbrev Due : ℕ → ℕ → ℕ → Master → Type 0
Due i n j m = ((i ≤ j) × (j < i + n)) ⊎ (0 < slot m j)

Due-now :
    (i n j : ℕ) (m : Master)
    → Due i (suc n) j m
    → ((i ≡ j) ⊎ (0 < slot m j)) ⊎ ((i + 1 ≤ j) × (j < i + 1 + n))
Due-now i n j m (inr taken) = inl (inr taken)
Due-now i n j m (inl (low, high)) = elim (ℕ_discrete i j) [
  | yes e ↦ inl (inl e)
  | no ne ↦ inr (ground (arith, ne), ground arith)
]

pub restart_missing-IsSame :
    (i : ℕ) (fs : List Fork) (m : Master) → IsSame m (restart_missing i fs m)
unfolding restart_missing
restart_missing-IsSame i [] m = IsSame-refl m
restart_missing-IsSame i (f ∷ fs) m =
    IsSame-trans (restart_slot-IsSame i f m)
      (restart_missing-IsSame (i + 1) fs (restart_slot i f m))

pub restart_missing_taken :
    (i j : ℕ) (fs : List Fork) (m : Master)
    → may_restart m ≡ true
    → All ForkSucceeds fs
    → j < length m.worker_pids
    → Due i (length fs) j m
    → 0 < slot (restart_missing i fs m) j
unfolding restart_missing
restart_missing_taken i j [] m may all below (inl (low, high)) = absurd (omega arith)
restart_missing_taken i j [] m may all below (inr taken) = taken
restart_missing_taken i j (f ∷ fs) m may all below due =
    let same = restart_slot-IsSame i f m in
    restart_missing_taken (i + 1) j fs (restart_slot i f m) (IsSame-may_restart same ∙ may) all.1
      (subst (λ n. j < n) (sym same.worker_count) below)
      (elim (Due-now i (length fs) j m due) [
        | inl now ↦ inr (restart_slot_taken i j f m may all.0 below now)
        | inr later ↦ inl later
      ])

start_workers_taken :
    (i j : ℕ) (fs : List Fork) (m : Master)
    → may_restart m ≡ true
    → All ForkSucceeds fs
    → j < length m.worker_pids
    → Due i (length fs) j m
    → IsSame m (start_workers i fs m) × (0 < slot (start_workers i fs m) j)
unfolding start_workers
start_workers_taken i j [] m may all below (inl (low, high)) = absurd (omega arith)
start_workers_taken i j [] m may all below (inr taken) = (IsSame-refl m, taken)
start_workers_taken i j (f ∷ fs) m may all below due =
    let same = fork_into-IsSame i f m in
    let (rest, taken) =
      start_workers_taken (i + 1) j fs (fork_into i f m) (IsSame-may_restart same ∙ may) all.1
        (subst (λ n. j < n) (sym same.worker_count) below)
        (elim (Due-now i (length fs) j m due) [
          | inl now ↦ inr (fork_into_taken i j f m may all.0.0 all.0.1 below now)
          | inr later ↦ inl later
        ]) in
    (IsSame-trans same rest, taken)

-- A second in which no end is requested and fork succeeds wherever it is called.
abbrev pub SecondSucceeds : Second → Type 0
SecondSucceeds s = (s.requested ≡ false) × AllFork s.exits × All ForkSucceeds s.forks

monitor_taken :
    (j : ℕ) (seconds : List Second) (m : Master)
    → may_restart m ≡ true
    → All SecondSucceeds seconds
    → j < length m.worker_pids
    → 0 < slot m j
    → 0 < slot (monitor seconds m) j
unfolding monitor
monitor_taken j [] m may all below taken = taken
monitor_taken j (s ∷ seconds) m may all below taken =
    elim (m.is_running && not m.shutdown_requested)
      as (λ b. 0 < slot (elim b [ false ↦ m | true ↦ monitor seconds (after_second s m) ]) j) [
        | false ↦ taken
        | true ↦
            let (quiet, exits, forks) = all.0 in
            let handled = handle_child_signal s.exits m in
            let slept : Master = record handled {
              shutdown_requested = m.shutdown_requested || s.requested;
            } in
            let same = handle_child_signal-IsSame s.exits m in
            let still : may_restart slept ≡ true =
              ground (arith, may, quiet, same.is_running, same.is_shutting_down) in
            let long : j < length slept.worker_pids =
              subst (λ n. j < n) (sym same.worker_count) below in
            let later : IsSame slept (after_second s m) = restart_missing-IsSame 0 s.forks slept in
            monitor_taken j seconds (after_second s m) (IsSame-may_restart later ∙ still) all.1
              (subst (λ n. j < n) (sym later.worker_count) long)
              (restart_missing_taken 0 j s.forks slept still forks long
                (inr (handle_child_signal_taken s.exits m j may exits taken)))
      ]

-- A master that runs gives each slot a worker, if fork succeeds for each, and no slot is without
-- one after any number of seconds, whichever workers ended in them and whenever the master learned of
-- it, as long as each fork succeeds and no end is requested. A slot that has none, from whatever
-- state, has one after the next pass.
pub workers_kept :
    (forks : List Fork) (seconds : List Second) (m : Master)
    → may_restart m ≡ true
    → length forks ≡ length m.worker_pids
    → All ForkSucceeds forks
    → All SecondSucceeds seconds
    → (j : ℕ) → j < length m.worker_pids
    → (0 < slot (monitor seconds (start_workers 0 forks m)) j)
      × (0 < slot (restart_missing 0 forks m) j)
workers_kept forks seconds m may long all succeed j below =
    let due : Due 0 (length forks) j m = inl (omega arith, omega arith) in
    let (same, taken) = start_workers_taken 0 j forks m may all below due in
    (
      monitor_taken j seconds (start_workers 0 forks m) (IsSame-may_restart same ∙ may) succeed
          (subst (λ n. j < n) (sym same.worker_count) below) taken,
      restart_missing_taken 0 j forks m may all below due,
    )
