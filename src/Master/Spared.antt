-- ===== src/Master/Spared.antt =====
-- That src/master.c kills no process but the workers of its table.
use nx_lite.Base.{
  Bool-cases, sym, ℕ, zero, suc, ◌<◌, ◌≡◌, refl, ◌∙◌, ap, subst, ◌⊎◌, inl, inr, Bool, true, false,
  Option, none, some, List, [], ◌∷◌, ◌++◌, arith, set, Among, here, there, ◌==◌, if◌then◌else◌,
}
use nx_lite.Master.{
  Master, may_restart, refill, set_pid, clear_slot, find_pid, reap, handle_child_signal, reaped,
  Call, call, terminate, kill, reload, close_socket, send_all, Waited, alive, ended, no_child,
  wait_error, wait_slot, wait_pass, empty_slot, after_pass, wait_workers, stop_workers,
}
use nx_lite.Master.Reap.{reap-IsSame, handle_child_signal-IsSame, reap-calls}

Among-split {ℓ} :
    {A : Type ℓ} {x : A} (xs ys : List A) → Among x (xs ++ ys) → Among x xs ⊎ Among x ys
Among-split [] ys h = inr h
Among-split (x ∷ xs) ys (here e) = inl (here e)
Among-split (x ∷ xs) ys (there h) = elim (Among-split xs ys h) [
  | inl a ↦ inl (there a)
  | inr b ↦ inr b
]

Among-set : (p : ℕ) (ps : List ℕ) (i : ℕ) → 0 < p → Among p (set ps i 0) → Among p ps
Among-set p [] i positive h = h
Among-set p (q ∷ ps) zero positive (here e) = absurd (ground (arith, positive, e))
Among-set p (q ∷ ps) zero positive (there h) = there h
Among-set p (q ∷ ps) (suc i) positive (here e) = here e
Among-set p (q ∷ ps) (suc i) positive (there h) = there (Among-set p ps i positive h)

-- A call that is no kill.
abbrev is_kill : Call → Bool
is_kill (kill p) = true
is_kill (terminate p) = false
is_kill (reload p) = false
is_kill (reaped p) = false
is_kill (close_socket p) = false

-- A state whose table and kills are among those of another.
record Less (p : ℕ) (m m' : Master) : Type 0 where
  table : 0 < p → Among p m'.worker_pids → Among p m.worker_pids
  kills : Among (kill p) m'.calls → Among (kill p) m.calls

Less-refl : (p : ℕ) (m : Master) → Less p m m
Less-refl p m = record { table = λ positive h. h; kills = λ h. h }

Less-trans : {p : ℕ} {l m n : Master} → Less p l m → Less p m n → Less p l n
Less-trans a b = record {
  table = λ positive h. a.table positive (b.table positive h);
  kills = λ h. a.kills (b.kills h);
}

clear_slot-table :
    (o forked : Option ℕ) (p : ℕ) (m : Master)
    → 0 < p
    → m.is_shutting_down ≡ true
    → Among p (clear_slot o forked m).worker_pids
    → Among p m.worker_pids
clear_slot-table none forked p m positive down h = h
clear_slot-table (some i) forked p m positive down h =
    let stops : may_restart m ≡ false = ground (arith, down) in
    Among-set p m.worker_pids i positive (
      subst
        (λ b. Among p (if b then refill i forked (set_pid i 0 m) else set_pid i 0 m).worker_pids)
        stops h)

Among-kill_reaped :
    (p : ℕ) (cs : List Call) (q : ℕ) → Among (kill p) (cs ++ reaped q ∷ []) → Among (kill p) cs
Among-kill_reaped p cs q h = elim (Among-split cs (reaped q ∷ []) h) [
  | inl before ↦ before
  | inr (here e) ↦ let f : true ≡ false = ap is_kill e in absurd (ground (arith, f))
  | inr (there none_left) ↦ elim none_left [ ]
]

reap-Less :
    (pid p : ℕ) (forked : Option ℕ) (m : Master)
    → m.is_shutting_down ≡ true
    → Less p m (reap pid forked m)
reap-Less pid p forked m down = record {
  table = λ positive h.
      clear_slot-table (find_pid pid m.worker_pids) forked p (call (reaped pid) m) positive down
        (unfold reap in h);
  kills = λ h. Among-kill_reaped p m.calls pid (subst (Among (kill p)) (reap-calls pid forked m) h);
}

handle_child_signal-Less :
    (exits : List (ℕ × Option ℕ)) (p : ℕ) (m : Master)
    → m.is_shutting_down ≡ true
    → Less p m (handle_child_signal exits m)
unfolding handle_child_signal
handle_child_signal-Less [] p m down = Less-refl p m
handle_child_signal-Less ((pid, forked) ∷ exits) p m down =
    Less-trans (reap-Less pid p forked m down) (
      handle_child_signal-Less exits p (reap pid forked m)
        ((reap-IsSame pid forked m).is_shutting_down ∙ down))

-- A pass that only takes processes out of the table and kills none.
abbrev Passes : ℕ → List ℕ → List ℕ × List Call × Bool → Type 0
Passes p ps r = (0 < p → Among p r.0 → Among p ps) × ¬ Among (kill p) r.1

Among-kill_cons :
    (p q : ℕ) (cs : List Call) → ¬ Among (kill p) cs → ¬ Among (kill p) (reaped q ∷ cs)
Among-kill_cons p q cs no_kill (here e) =
    let f : true ≡ false = ap is_kill e in absurd (ground (arith, f))
Among-kill_cons p q cs no_kill (there h) = no_kill h

Among-keep :
    (p q : ℕ) (ps qs : List ℕ) → (Among p qs → Among p ps) → Among p (q ∷ qs) → Among p (q ∷ ps)
Among-keep p q ps qs f (here e) = here e
Among-keep p q ps qs f (there h) = there (f h)

Among-clear :
    (p q : ℕ) (ps qs : List ℕ)
    → 0 < p
    → (Among p qs → Among p ps)
    → Among p (0 ∷ qs)
    → Among p (q ∷ ps)
Among-clear p q ps qs positive f (here e) = absurd (ground (arith, positive, e))
Among-clear p q ps qs positive f (there h) = there (f h)

wait_slot-Passes :
    (w : Waited) (p q : ℕ) (ps : List ℕ) (r : List ℕ × List Call × Bool)
    → Passes p ps r
    → Passes p (q ∷ ps) (wait_slot w q r)
wait_slot-Passes alive p q ps r v = ((λ positive. Among-keep p q ps r.0 (v.0 positive)), v.1)
wait_slot-Passes ended p q ps r v =
    ((λ positive. Among-clear p q ps r.0 positive (v.0 positive)), Among-kill_cons p q r.1 v.1)
wait_slot-Passes no_child p q ps r v =
    ((λ positive. Among-clear p q ps r.0 positive (v.0 positive)), Among-kill_cons p q r.1 v.1)
wait_slot-Passes wait_error p q ps r v = ((λ positive. Among-keep p q ps r.0 (v.0 positive)), v.1)

wait_pass-Passes : (answer : ℕ → Waited) (p : ℕ) (ps : List ℕ) → Passes p ps (wait_pass answer ps)
unfolding wait_pass
wait_pass-Passes answer p [] = ((λ positive h. h), (λ h. elim h [ ]))
wait_pass-Passes answer p (q ∷ ps) =
    let rest = wait_pass-Passes answer p ps in
    elim (q == 0)
      as (λ b. Passes p (q ∷ ps) (
        if b
        then empty_slot (wait_pass answer ps)
        else wait_slot (answer q) q (wait_pass answer ps))) [
          | true ↦ (
            (λ positive. Among-clear p q ps (wait_pass answer ps).0 positive (rest.0 positive)),
            rest.1,
          )
          | false ↦ wait_slot-Passes (answer q) p q ps (wait_pass answer ps) rest
        ]

after_pass-Less :
    (answer : ℕ → Waited) (p : ℕ) (m : Master)
    → Less p m (after_pass (wait_pass answer m.worker_pids) m)
after_pass-Less answer p m =
    let v = wait_pass-Passes answer p m.worker_pids in
    record {
      table = v.0;
      kills = λ h. elim (Among-split m.calls (wait_pass answer m.worker_pids).1 h) [
        | inl a ↦ a
        | inr b ↦ absurd (v.1 b)
      ];
    }

wait_workers-Less :
    (passes : List (List (ℕ × Option ℕ) × (ℕ → Waited))) (p : ℕ) (m : Master)
    → m.is_shutting_down ≡ true
    → Less p m (wait_workers passes m)
unfolding wait_workers
wait_workers-Less [] p m down = Less-refl p m
wait_workers-Less ((exits, answer) ∷ passes) p m down =
    let signalled = handle_child_signal exits m in
    let pass = wait_pass answer signalled.worker_pids in
    let still : signalled.is_shutting_down ≡ true =
      (handle_child_signal-IsSame exits m).is_shutting_down ∙ down in
    let passed : Less p m (after_pass pass signalled) =
      Less-trans (handle_child_signal-Less exits p m down) (after_pass-Less answer p signalled) in
    elim pass.2
      as (λ b. Less p m (elim b [
        | true ↦ wait_workers passes (after_pass pass signalled)
        | false ↦ after_pass pass signalled
      ])) [
        | true ↦ Less-trans passed (wait_workers-Less passes p (after_pass pass signalled) still)
        | false ↦ passed
      ]

kill-not_terminate :
    (p q : ℕ) (cs : List Call) → ¬ Among (kill p) cs → ¬ Among (kill p) (terminate q ∷ cs)
kill-not_terminate p q cs no_kill (here e) =
    let f : true ≡ false = ap is_kill e in absurd (ground (arith, f))
kill-not_terminate p q cs no_kill (there later) = no_kill later

send_all-not_kill : (p : ℕ) (ps : List ℕ) → ¬ Among (kill p) (send_all terminate ps)
send_all-not_kill p [] h = elim h [ ]
send_all-not_kill p (q ∷ ps) h =
    let later = send_all-not_kill p ps in
    (elim (q == 0)
        as (λ b.
          ¬ Among (kill p)
            (if b then send_all terminate ps else terminate q ∷ send_all terminate ps)) [
              | true ↦ later
              | false ↦ kill-not_terminate p q (send_all terminate ps) later
            ])
      h

abbrev killed : Call → ℕ
killed (kill p) = p
killed (terminate p) = 0
killed (reload p) = 0
killed (reaped p) = 0
killed (close_socket p) = 0

kill-Among :
    (p q : ℕ) (ps : List ℕ) (cs : List Call)
    → (Among (kill p) cs → Among p ps)
    → Among (kill p) (kill q ∷ cs)
    → Among p (q ∷ ps)
kill-Among p q ps cs f (here e) = here (ap killed e)
kill-Among p q ps cs f (there later) = there (f later)

send_all-kill : (p : ℕ) (ps : List ℕ) → Among (kill p) (send_all kill ps) → Among p ps
send_all-kill p [] h = elim h [ ]
send_all-kill p (q ∷ ps) h =
    let later = send_all-kill p ps in
    (elim (q == 0)
        as (λ b.
          Among (kill p) (if b then send_all kill ps else kill q ∷ send_all kill ps)
          → Among p (q ∷ ps)) [
            | true ↦ (λ x. there (later x))
            | false ↦ kill-Among p q ps (send_all kill ps) later
          ])
      h

positive-cons :
    (p q : ℕ) (cs : List Call)
    → 0 < q
    → (Among (kill p) cs → 0 < p)
    → Among (kill p) (kill q ∷ cs)
    → 0 < p
positive-cons p q cs positive f (here e) = subst (λ n. 0 < n) (sym (ap killed e)) positive
positive-cons p q cs positive f (there later) = f later

-- No signal is sent for an empty slot.
send_all-positive : (p : ℕ) (ps : List ℕ) → Among (kill p) (send_all kill ps) → 0 < p
send_all-positive p [] h = elim h [ ]
send_all-positive p (q ∷ ps) h = elim (Bool-cases (q == 0)) [
  | inl e ↦
      send_all-positive p ps (
        subst (λ b. Among (kill p) (if b then send_all kill ps else kill q ∷ send_all kill ps)) e h)
  | inr e ↦
      positive-cons p q (send_all kill ps) (ground (arith, e)) (send_all-positive p ps) (
        subst (λ b. Among (kill p) (if b then send_all kill ps else kill q ∷ send_all kill ps)) e h)
]

-- Whatever is killed at the end, and was not before, is a worker of the table, and so one process:
-- its number is not 0, which would be every process of the group.
pub stop_workers-kills_workers :
    (passes : List (List (ℕ × Option ℕ) × (ℕ → Waited))) (p : ℕ) (m : Master)
    → Among (kill p) (stop_workers passes m).calls
    → Among (kill p) m.calls ⊎ ((0 < p) × Among p m.worker_pids)
unfolding stop_workers
stop_workers-kills_workers passes p m h =
    let told : Master = record m {
      is_shutting_down = true;
      calls = m.calls ++ send_all terminate m.worker_pids;
    } in
    let waited = wait_workers passes told in
    let less : Less p told waited = wait_workers-Less passes p told refl in
    elim (Among-split waited.calls (send_all kill waited.worker_pids) h) [
      | inl before ↦
          elim (Among-split m.calls (send_all terminate m.worker_pids) (less.kills before)) [
            | inl a ↦ inl a
            | inr b ↦ absurd (send_all-not_kill p m.worker_pids b)
          ]
      | inr now ↦
          let positive = send_all-positive p waited.worker_pids now in
          inr (positive, less.table positive (send_all-kill p waited.worker_pids now))
    ]
