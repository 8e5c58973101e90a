-- ===== src/Main/Serving.antt =====
-- What main of src/main.c has when it runs the master, and what the master does from there.
use nx_lite.Base.{
  Among, ℕ, zero, suc, ◌<◌, ◌≡◌, refl, sym, subst, ◌∙◌, ap, inl, inr, Bool, true, false, Option,
  some, List, length, length-replicate, replicate, Bytes, arith, Option-cases, if◌then◌else◌, All,
}
use nx_lite.Config.{ℤ, pos, negsuc, Settings}
use nx_lite.Log.{Log}
use nx_lite.Master.{
  Master, SetUp, InitResult, ready, refused, master_init, may_restart, Fork, Second, start_workers,
  monitor, open_master, reaped,
}
use nx_lite.Master.Reap.{slot}
use nx_lite.Master.Init.{IsReady, open_master-holds_or_closes}
use nx_lite.Master.Kept.{ForkSucceeds, SecondSucceeds}
use nx_lite.Master.Alive.{LivingIn, Living, empty-LivingIn}
use nx_lite.Master.Fresh.{FreshForks, FreshSeconds, workers_live}
use nx_lite.Main.{
  System, Outcome, returns, runs, open_server, load_settings, run_file, open_log, with_master,
}

-- The parts of a state in which the master runs; main may also have returned.
abbrev pub IsServing : Option Settings → Outcome → Type 0
IsServing loaded (returns code) = code ≡ 1
IsServing loaded (runs s log m) =
    (loaded ≡ some s)
    × ((n : ℕ) × (s.worker_count ≡ pos (suc n)) × (m.worker_pids ≡ replicate (suc n) 0))
    × (m.port ≡ s.port)
    × (may_restart m ≡ true)

with_master-IsServing :
    (sys : SetUp) (s : Settings) (log : Log) (count : ℤ)
    → s.worker_count ≡ count
    → IsServing (some s) (with_master s log (master_init sys s.port count))
unfolding master_init
with_master-IsServing sys s log (negsuc n) e = refl
with_master-IsServing sys s log (pos zero) e = refl
with_master-IsServing sys s log (pos (suc n)) e =
    from_ready (open_master sys s.port (suc n)) (open_master-holds_or_closes sys s.port (suc n)).1
  where
    from_ready :
        (r : InitResult) → IsReady (suc n) s.port r → IsServing (some s) (with_master s log r)
    from_ready (refused closed) v = refl
    from_ready (ready m) v = (refl, (n, e, v.0), v.1, v.2)

open_server-IsServing : (sys : System) (s : Settings) → IsServing (some s) (open_server sys s)
unfolding open_server
open_server-IsServing sys s =
    elim (open_log sys s).1
      as (λ b. IsServing (some s) (
        if b
        then with_master s (open_log sys s).0 (master_init sys.socket_calls s.port s.worker_count)
        else returns 1)) [
          | true ↦ with_master-IsServing sys.socket_calls s (open_log sys s).0 s.worker_count refl
          | false ↦ refl
        ]

-- main returns 1, or it runs the master with the settings it loaded, a positive number of workers, as
-- many slots, and the configured port.
pub run_file-IsServing :
    (sys : System) (file : Bytes) (development : Bool)
    → IsServing (load_settings sys file development) (run_file sys file development)
unfolding run_file
run_file-IsServing sys file development = elim (Option-cases (load_settings sys file development)) [
  | inl e ↦ simp (run_file, e) refl
  | inr (s, e) ↦ simp (run_file, e) (open_server-IsServing sys s)
]

-- A server that main runs has in each of the configured number of slots a process whose end was not told
-- by waitpid, after any number of seconds, whichever workers ended in them, as long as each fork succeeds
-- and no end is requested. A number that fork gives is assumed to be neither in the table nor that of a
-- process that was reaped.
pub server_keeps_workers :
    (sys : System) (file : Bytes) (development : Bool) (s : Settings) (log : Log) (m : Master)
    (n : ℕ) (forks : List Fork) (seconds : List Second)
    → run_file sys file development ≡ runs s log m
    → s.worker_count ≡ pos n
    → length forks ≡ n
    → All ForkSucceeds forks
    → All SecondSucceeds seconds
    → FreshForks 0 forks m
    → FreshSeconds seconds (start_workers 0 forks m)
    → (j : ℕ) → j < n
    → (0 < slot (monitor seconds (start_workers 0 forks m)) j)
      × ¬ Among
          (reaped (slot (monitor seconds (start_workers 0 forks m)) j))
          (monitor seconds (start_workers 0 forks m)).calls
server_keeps_workers sys file development s log m n forks seconds run count enough all succeed fresh
      fresh_seconds j below =
    let (loaded, (k, positive, slots), port, may) =
      subst (IsServing (load_settings sys file development)) run
        (run_file-IsServing sys file development) in
    let same : pos n ≡ pos (suc k) = sym count ∙ positive in
    let long : length m.worker_pids ≡ n =
      ap length slots ∙ length-replicate (suc k) 0 ∙ ground (arith, same) in
    let empty : Living m =
      subst (λ pids. LivingIn pids m.calls) (sym slots) (empty-LivingIn (suc k) m.calls) in
    let (taken, living, passed) =
      workers_live forks seconds m may empty (enough ∙ sym long) all succeed fresh fresh_seconds j
        (rw long below) in
    (taken, living)
