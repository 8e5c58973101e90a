-- ===== src/Master/Stop.antt =====
-- How src/master.c ends its workers.
use nx_lite.Base.{
  Among, here, there, Among-append_left, Among-append_right, ℕ, ◌<◌, ◌≡◌, refl, sym, ◌∙◌, ap, subst,
  ◌⊎◌, inl, inr, Bool, true, false, Option, none, some, List, [], ◌∷◌, ◌++◌, arith, set, ◌==◌,
  if◌then◌else◌,
}
use nx_lite.Master.{
  Master, may_restart, clear_slot, find_pid, reap, handle_child_signal, reaped, Call, call,
  terminate, kill, send_all, Waited, alive, ended, no_child, wait_error, wait_slot, empty_slot,
  after_pass, wait_pass, wait_workers, stop_workers,
}
use nx_lite.Master.Reap.{find_pid_cases, reap-IsSame, handle_child_signal-IsSame, reap-calls}

find_pid_keeps :
    (p pid : ℕ) (ps : List ℕ) (i : ℕ)
    → find_pid pid ps ≡ some i
    → Among p ps
    → (p ≡ pid) ⊎ Among p (set ps i 0)
find_pid_keeps p pid [] i found h = elim h [ ]
find_pid_keeps p pid (q ∷ ps) i found (here e) = elim (find_pid_cases pid q ps i found) [
  | inl (same, first) ↦ inl (e ∙ same)
  | inr (j, next, later) ↦ inr (rw later (here e))
]
find_pid_keeps p pid (q ∷ ps) i found (there h) = elim (find_pid_cases pid q ps i found) [
  | inl (same, first) ↦ inr (rw first (there h))
  | inr (j, next, later) ↦ elim (find_pid_keeps p pid ps j next h) [
    | inl e ↦ inl e
    | inr left ↦ inr (rw later (there left))
  ]
]

-- The signal is sent to each process of the list.
send_all-Among :
    (signal : ℕ → Call) (p : ℕ) (ps : List ℕ)
    → 0 < p
    → Among p ps
    → Among (signal p) (send_all signal ps)
send_all-Among signal p [] positive h = elim h [ ]
send_all-Among signal p (q ∷ ps) positive (here e) =
    let busy : (q == 0) ≡ false = ground (arith, positive, e) in rw busy (here (ap signal e))
send_all-Among signal p (q ∷ ps) positive (there h) =
    elim (q == 0)
      as (λ b. Among (signal p) (if b then send_all signal ps else signal q ∷ send_all signal ps)) [
        | true ↦ send_all-Among signal p ps positive h
        | false ↦ there (send_all-Among signal p ps positive h)
      ]

-- A process that was told to stop is in the table, or its end is known.
abbrev pub Accounted : ℕ → List ℕ × List Call × Bool → Type 0
Accounted p r = Among p r.0 ⊎ Among (reaped p) r.1

wait_slot_self :
    (w : Waited) (p q : ℕ) (r : List ℕ × List Call × Bool) → p ≡ q → Accounted p (wait_slot w q r)
wait_slot_self alive p q r e = inl (here e)
wait_slot_self ended p q r e = inr (here (ap reaped e))
wait_slot_self no_child p q r e = inr (here (ap reaped e))
wait_slot_self wait_error p q r e = inl (here e)

wait_slot_other :
    (w : Waited) (p q : ℕ) (r : List ℕ × List Call × Bool)
    → Accounted p r
    → Accounted p (wait_slot w q r)
wait_slot_other alive p q r (inl h) = inl (there h)
wait_slot_other alive p q r (inr h) = inr h
wait_slot_other ended p q r (inl h) = inl (there h)
wait_slot_other ended p q r (inr h) = inr (there h)
wait_slot_other no_child p q r (inl h) = inl (there h)
wait_slot_other no_child p q r (inr h) = inr (there h)
wait_slot_other wait_error p q r (inl h) = inl (there h)
wait_slot_other wait_error p q r (inr h) = inr h

empty_slot-Accounted :
    (p : ℕ) (r : List ℕ × List Call × Bool) → Accounted p r → Accounted p (empty_slot r)
empty_slot-Accounted p r (inl h) = inl (there h)
empty_slot-Accounted p r (inr h) = inr h

wait_pass-Accounted :
    (answer : ℕ → Waited) (p : ℕ) (ps : List ℕ)
    → 0 < p
    → Among p ps
    → Accounted p (wait_pass answer ps)
unfolding wait_pass
wait_pass-Accounted answer p [] positive h = elim h [ ]
wait_pass-Accounted answer p (q ∷ ps) positive (here e) =
    let busy : (q == 0) ≡ false = ground (arith, positive, e) in
    rw busy (wait_slot_self (answer q) p q (wait_pass answer ps) e)
wait_pass-Accounted answer p (q ∷ ps) positive (there h) =
    let rest = wait_pass-Accounted answer p ps positive h in
    elim (q == 0)
      as (λ b. Accounted p (
        if b
        then empty_slot (wait_pass answer ps)
        else wait_slot (answer q) q (wait_pass answer ps))) [
          | true ↦ empty_slot-Accounted p (wait_pass answer ps) rest
          | false ↦ wait_slot_other (answer q) p q (wait_pass answer ps) rest
        ]

-- The same of a master.
abbrev pub IsKnown : ℕ → Master → Type 0
IsKnown p m = Among p m.worker_pids ⊎ Among (reaped p) m.calls

clear_slot-IsKnown :
    (o forked : Option ℕ) (pid p : ℕ) (m : Master)
    → m.is_shutting_down ≡ true
    → o ≡ find_pid pid m.worker_pids
    → Among p m.worker_pids
    → (p ≡ pid) ⊎ Among p (clear_slot o forked m).worker_pids
clear_slot-IsKnown none forked pid p m down found h = inr h
clear_slot-IsKnown (some i) forked pid p m down found h =
    let stops : may_restart m ≡ false = ground (arith, down) in
    rw stops (find_pid_keeps p pid m.worker_pids i (sym found) h)

reap-IsKnown :
    (pid p : ℕ) (forked : Option ℕ) (m : Master)
    → m.is_shutting_down ≡ true
    → IsKnown p m
    → IsKnown p (reap pid forked m)
reap-IsKnown pid p forked m down (inr h) = inr (
    subst (Among (reaped p)) (sym (reap-calls pid forked m))
      (Among-append_left m.calls (reaped pid ∷ []) h))
reap-IsKnown pid p forked m down (inl h) =
    elim (clear_slot-IsKnown (find_pid pid m.worker_pids) forked pid p (call (reaped pid) m) down
      refl h) [
        | inl e ↦ inr (
            subst (Among (reaped p)) (sym (reap-calls pid forked m))
              (Among-append_right m.calls (reaped pid ∷ []) (here (ap reaped e))))
        | inr left ↦ inl (unfold reap in left)
      ]

handle_child_signal-IsKnown :
    (exits : List (ℕ × Option ℕ)) (p : ℕ) (m : Master)
    → m.is_shutting_down ≡ true
    → IsKnown p m
    → IsKnown p (handle_child_signal exits m)
unfolding handle_child_signal
handle_child_signal-IsKnown [] p m down h = h
handle_child_signal-IsKnown ((pid, forked) ∷ exits) p m down h =
    handle_child_signal-IsKnown exits p (reap pid forked m)
      ((reap-IsSame pid forked m).is_shutting_down ∙ down) (reap-IsKnown pid p forked m down h)

handle_child_signal-calls :
    (exits : List (ℕ × Option ℕ)) (c : Call) (m : Master)
    → Among c m.calls
    → Among c (handle_child_signal exits m).calls
unfolding handle_child_signal
handle_child_signal-calls [] c m h = h
handle_child_signal-calls ((pid, forked) ∷ exits) c m h =
    handle_child_signal-calls exits c (reap pid forked m) (
      subst (Among c) (sym (reap-calls pid forked m))
        (Among-append_left m.calls (reaped pid ∷ []) h))

after_pass-IsKnown :
    (answer : ℕ → Waited) (p : ℕ) (m : Master)
    → 0 < p
    → IsKnown p m
    → IsKnown p (after_pass (wait_pass answer m.worker_pids) m)
after_pass-IsKnown answer p m positive (inr h) =
    inr (Among-append_left m.calls (wait_pass answer m.worker_pids).1 h)
after_pass-IsKnown answer p m positive (inl h) =
    elim (wait_pass-Accounted answer p m.worker_pids positive h) [
      | inl stays ↦ inl stays
      | inr gone ↦ inr (Among-append_right m.calls (wait_pass answer m.worker_pids).1 gone)
    ]

-- What a master that shuts down keeps while it waits.
abbrev Waits : ℕ → Call → Master → Type 0
Waits p c m = IsKnown p m × Among c m.calls × (m.is_shutting_down ≡ true)

wait_workers-Waits :
    (passes : List (List (ℕ × Option ℕ) × (ℕ → Waited))) (p : ℕ) (c : Call) (m : Master)
    → 0 < p
    → Waits p c m
    → Waits p c (wait_workers passes m)
unfolding wait_workers
wait_workers-Waits [] p c m positive w = w
wait_workers-Waits ((exits, answer) ∷ passes) p c m positive (known, called, down) =
    let signalled = handle_child_signal exits m in
    let pass = wait_pass answer signalled.worker_pids in
    let later : Waits p c (after_pass pass signalled) = (
      after_pass-IsKnown answer p signalled positive
          (handle_child_signal-IsKnown exits p m down known),
      Among-append_left signalled.calls pass.1 (handle_child_signal-calls exits c m called),
      (handle_child_signal-IsSame exits m).is_shutting_down ∙ down,
    ) in
    elim pass.2
      as (λ b. Waits p c (elim b [
        | true ↦ wait_workers passes (after_pass pass signalled)
        | false ↦ after_pass pass signalled
      ])) [
        | true ↦ wait_workers-Waits passes p c (after_pass pass signalled) positive later
        | false ↦ later
      ]

-- Whatever waitpid answers and whichever signals arrive while the master waits, each worker of the
-- table is told to terminate, and at the end it was reaped or it is killed: none is left alone.
pub stop_workers-reaps_or_kills :
    (passes : List (List (ℕ × Option ℕ) × (ℕ → Waited))) (p : ℕ) (m : Master)
    → 0 < p
    → Among p m.worker_pids
    → Among (terminate p) (stop_workers passes m).calls
      × (Among (reaped p) (stop_workers passes m).calls
          ⊎ Among (kill p) (stop_workers passes m).calls)
unfolding stop_workers
stop_workers-reaps_or_kills passes p m positive h =
    let told : Master = record m {
      is_shutting_down = true;
      calls = m.calls ++ send_all terminate m.worker_pids;
    } in
    let waited = wait_workers passes told in
    let (known, called, down) = wait_workers-Waits passes p (terminate p) told positive (
      inl h,
      Among-append_right m.calls (send_all terminate m.worker_pids)
          (send_all-Among terminate p m.worker_pids positive h),
      refl,
    ) in
    (
      Among-append_left waited.calls (send_all kill waited.worker_pids) called,
      elim known [
        | inl stays ↦ inr (
            Among-append_right waited.calls (send_all kill waited.worker_pids)
              (send_all-Among kill p waited.worker_pids positive stays))
        | inr gone ↦ inl (Among-append_left waited.calls (send_all kill waited.worker_pids) gone)
      ],
    )
