-- ===== src/Master/Reap.antt =====
-- What the handler of SIGCHLD in src/master.c does to the slots of the table.
use nx_lite.Base.{
  ℕ, suc, ◌<◌, ◌≡◌, refl, sym, ◌∙◌, ap, subst, ◌≢◌, ◌⊎◌, inl, inr, true, false, Option, none, some,
  List, [], ◌∷◌, ◌++◌, arith, length, get_or, set, get_or-set_self, get_or-set_ne, length-set, All,
  Bool-cases, Option-cases, ◌==◌, if◌then◌else◌, ℕ_discrete,
}
use nx_lite.Master.{
  Master, find_pid, may_restart, reap, refill, clear_slot, next_slot, handle_child_signal, set_pid,
  call, reaped, Call,
}

abbrev pub slot : Master → ℕ → ℕ
slot m i = get_or m.worker_pids i 0

pub find_pid_cases :
    (pid p : ℕ) (ps : List ℕ) (i : ℕ)
    → find_pid pid (p ∷ ps) ≡ some i
    → ((p ≡ pid) × (i ≡ 0)) ⊎ ((j : ℕ) × (find_pid pid ps ≡ some j) × (i ≡ suc j))
unfolding find_pid
find_pid_cases pid p ps i h = elim (Bool-cases (p == pid)) [
  | inl e ↦
      let first : some 0 ≡ some i =
        subst (λ b. (if b then some 0 else next_slot (find_pid pid ps)) ≡ some i) e h in
      inl (ground (arith, e), cc)
  | inr e ↦
      let later : next_slot (find_pid pid ps) ≡ some i =
        subst (λ b. (if b then some 0 else next_slot (find_pid pid ps)) ≡ some i) e h in
      elim (Option-cases (find_pid pid ps)) [
        | inl none_left ↦
            let none_some : none ≡ some i = sym (ap next_slot none_left) ∙ later in
            absurd (ground (arith, none_some))
        | inr (j, found) ↦
            let same : some (suc j) ≡ some i = sym (ap next_slot found) ∙ later in
            inr (j, found, cc)
      ]
]

pub find_pid_sound :
    (pid : ℕ) (ps : List ℕ) (i : ℕ)
    → find_pid pid ps ≡ some i
    → (get_or ps i 0 ≡ pid) × (i < length ps)
unfolding find_pid
find_pid_sound pid [] i h = ground (arith, h)
find_pid_sound pid (p ∷ ps) i h = elim (find_pid_cases pid p ps i h) [
  | inl (e, first) ↦ rw first (e, omega arith)
  | inr (j, found, later) ↦
      let (at_j, below) = find_pid_sound pid ps j found in rw later (at_j, omega arith)
]

clear_slot-slot :
    (o : Option ℕ) (pid : ℕ) (forked : Option ℕ) (m : Master) (i : ℕ)
    → ((j : ℕ) → o ≡ some j → (slot m j ≡ pid) × (j < length m.worker_pids))
    → (slot (clear_slot o forked m) i ≡ slot m i)
      ⊎ ((slot m i ≡ pid)
          × ((may_restart m ≡ false)
              ⊎ (forked ≡ none)
              ⊎ (forked ≡ some (slot (clear_slot o forked m) i))))
clear_slot-slot none pid forked m i h = inl refl
clear_slot-slot (some j) pid none m i h = elim (ℕ_discrete j i) [
  | no ne ↦ inl (ground (arith, get_or-set_ne m.worker_pids j i 0 0 ne))
  | yes e ↦ inr (subst (λ k. slot m k ≡ pid) e (h j refl).0, inr (inl refl))
]
clear_slot-slot (some j) pid (some new) m i h = elim (ℕ_discrete j i) [
  | no ne ↦ inl (
      ground (
        arith,
        get_or-set_ne m.worker_pids j i 0 0 ne,
        get_or-set_ne (set m.worker_pids j 0) j i new 0 ne,
      ))
  | yes e ↦ elim (Bool-cases (may_restart m)) [
    | inl may ↦ inr (
      subst (λ k. slot m k ≡ pid) e (h j refl).0,
      inr (
          inr (
            rw may (
              ap some (
                sym (
                  subst (λ k. slot (set_pid j new (set_pid j 0 m)) k ≡ new) e
                    (get_or-set_self (set m.worker_pids j 0) j new 0
                      (subst (λ n. j < n) (sym (length-set m.worker_pids j 0)) (h j refl).1))))))),
    )
    | inr may ↦ inr (subst (λ k. slot m k ≡ pid) e (h j refl).0, inl may)
  ]
]

-- The slot of the process, or any other.
pub reap-slot :
    (pid : ℕ) (forked : Option ℕ) (m : Master) (i : ℕ)
    → (slot (reap pid forked m) i ≡ slot m i)
      ⊎ ((slot m i ≡ pid)
          × ((may_restart m ≡ false)
              ⊎ (forked ≡ none)
              ⊎ (forked ≡ some (slot (reap pid forked m) i))))
unfolding reap
reap-slot pid forked m i =
    clear_slot-slot (find_pid pid m.worker_pids) pid forked (call (reaped pid) m) i
      (λ j e. find_pid_sound pid m.worker_pids j e)

-- What a change of the table by the handler leaves as it is.
pub record IsSame (m m' : Master) : Type 0 where
  pub is_running : m'.is_running ≡ m.is_running
  pub shutdown_requested : m'.shutdown_requested ≡ m.shutdown_requested
  pub is_shutting_down : m'.is_shutting_down ≡ m.is_shutting_down
  pub server_fd : m'.server_fd ≡ m.server_fd
  pub worker_count : length m'.worker_pids ≡ length m.worker_pids

pub IsSame-refl : (m : Master) → IsSame m m
IsSame-refl m = record {
  is_running = refl;
  shutdown_requested = refl;
  is_shutting_down = refl;
  server_fd = refl;
  worker_count = refl;
}

pub IsSame-trans : {m n o : Master} → IsSame m n → IsSame n o → IsSame m o
IsSame-trans a b = record {
  is_running = b.is_running ∙ a.is_running;
  shutdown_requested = b.shutdown_requested ∙ a.shutdown_requested;
  is_shutting_down = b.is_shutting_down ∙ a.is_shutting_down;
  server_fd = b.server_fd ∙ a.server_fd;
  worker_count = b.worker_count ∙ a.worker_count;
}

pub IsSame-may_restart : {m n : Master} → IsSame m n → may_restart n ≡ may_restart m
IsSame-may_restart s = cc s.is_running

pub set_pid-IsSame : (i pid : ℕ) (m : Master) → IsSame m (set_pid i pid m)
set_pid-IsSame i pid m = record {
  is_running = refl;
  shutdown_requested = refl;
  is_shutting_down = refl;
  server_fd = refl;
  worker_count = length-set m.worker_pids i pid;
}

pub refill-IsSame : (i : ℕ) (forked : Option ℕ) (m : Master) → IsSame m (refill i forked m)
refill-IsSame i none m = IsSame-refl m
refill-IsSame i (some pid) m = set_pid-IsSame i pid m

clear_slot-IsSame : (o forked : Option ℕ) (m : Master) → IsSame m (clear_slot o forked m)
clear_slot-IsSame none forked m = IsSame-refl m
clear_slot-IsSame (some i) forked m =
    let cleared = set_pid-IsSame i 0 m in
    elim (may_restart m)
      as (λ b. IsSame m (if b then refill i forked (set_pid i 0 m) else set_pid i 0 m)) [
        | true ↦ IsSame-trans cleared (refill-IsSame i forked (set_pid i 0 m))
        | false ↦ cleared
      ]

call-IsSame : (c : Call) (m : Master) → IsSame m (call c m)
call-IsSame c m = record {
  is_running = refl;
  shutdown_requested = refl;
  is_shutting_down = refl;
  server_fd = refl;
  worker_count = refl;
}

pub reap-IsSame : (pid : ℕ) (forked : Option ℕ) (m : Master) → IsSame m (reap pid forked m)
unfolding reap
reap-IsSame pid forked m =
    IsSame-trans (call-IsSame (reaped pid) m)
      (clear_slot-IsSame (find_pid pid m.worker_pids) forked (call (reaped pid) m))

pub handle_child_signal-IsSame :
    (exits : List (ℕ × Option ℕ)) (m : Master) → IsSame m (handle_child_signal exits m)
unfolding handle_child_signal
handle_child_signal-IsSame [] m = IsSame-refl m
handle_child_signal-IsSame ((pid, forked) ∷ exits) m =
    IsSame-trans (reap-IsSame pid forked m) (handle_child_signal-IsSame exits (reap pid forked m))

-- A slot keeps its process while the handler learns of others only.
pub handle_child_signal-slot :
    (exits : List (ℕ × Option ℕ)) (m : Master) (i : ℕ)
    → All (λ e. e.0 ≢ slot m i) exits
    → slot (handle_child_signal exits m) i ≡ slot m i
unfolding handle_child_signal
handle_child_signal-slot [] m i h = refl
handle_child_signal-slot ((pid, forked) ∷ exits) m i h = elim (reap-slot pid forked m i) [
  | inl e ↦
      handle_child_signal-slot exits (reap pid forked m) i
        (subst (λ p. All (λ x. x.0 ≢ p) exits) (sym e) h.1)
      ∙ e
  | inr (e, rest) ↦ absurd (h.0 (sym e))
]

-- What fork gives, wherever it is called.
abbrev pub Forks : Option ℕ → Type 0
Forks forked = (pid : ℕ) × (forked ≡ some (suc pid))

abbrev pub AllFork : List (ℕ × Option ℕ) → Type 0
AllFork exits = All (λ e. Forks e.1) exits

-- A slot that is taken stays taken while each process that ends is replaced.
pub handle_child_signal_taken :
    (exits : List (ℕ × Option ℕ)) (m : Master) (i : ℕ)
    → may_restart m ≡ true
    → AllFork exits
    → 0 < slot m i
    → 0 < slot (handle_child_signal exits m) i
unfolding handle_child_signal
handle_child_signal_taken [] m i may all h = h
handle_child_signal_taken ((pid, forked) ∷ exits) m i may all h =
    let still = IsSame-may_restart (reap-IsSame pid forked m) ∙ may in
    handle_child_signal_taken exits (reap pid forked m) i still all.1
      (elim (reap-slot pid forked m i) [
        | inl e ↦ rw e h
        | inr (e, rest) ↦
            let (p, positive) = all.0 in
            elim rest [
              | inl stops ↦ absurd (ground (arith, stops, may))
              | inr (inl fails) ↦ absurd (ground (arith, fails, positive))
              | inr (inr new) ↦
                  let same : suc p ≡ slot (reap pid forked m) i = cc in
                  subst (λ n. 0 < n) same (omega arith)
            ]
      ])

clear_slot-calls : (o forked : Option ℕ) (m : Master) → (clear_slot o forked m).calls ≡ m.calls
clear_slot-calls none forked m = refl
clear_slot-calls (some i) none m = ground arith
clear_slot-calls (some i) (some pid) m = ground arith

pub reap-calls :
    (pid : ℕ) (forked : Option ℕ) (m : Master)
    → (reap pid forked m).calls ≡ m.calls ++ reaped pid ∷ []
unfolding reap
reap-calls pid forked m = clear_slot-calls (find_pid pid m.worker_pids) forked (call (reaped pid) m)
