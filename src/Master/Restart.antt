-- ===== src/Master/Restart.antt =====
-- The CPU of a worker of src/master.c that is started, and of one that is started again.
mod Tests
use nx_lite.Base.{
  ℕ, suc, ◌%◌, ◌≡◌, true, false, some, none, [], ltb, if◌then◌else◌, refl, inl, inr, Bool-cases,
  lt→ltb, arith,
}
use nx_lite.Config.{pos}
use nx_lite.Worker.{all_set}
use nx_lite.Worker.Start.{Startup, refused, worker_init}
use nx_lite.Master.Child.{Cpus, set_worker_cpu_affinity, forked_child, restarted_child}

-- The slot modulo the number of CPUs is a CPU.
slot_cpu : (n i : ℕ) → ltb (i % suc n) (suc n) ≡ true
slot_cpu n i = lt→ltb (i % suc n) (suc n) (omega arith)

set_worker_cpu_affinity-slot :
    (cpus : Cpus) (n i : ℕ)
    → cpus.affinity (i % suc n) ≡ true
    → set_worker_cpu_affinity cpus i (pos (suc n)) ≡ some (i % suc n)
unfolding set_worker_cpu_affinity
set_worker_cpu_affinity-slot cpus n i e = rw e refl

-- Without its CPU a worker takes nothing.
unbound_worker :
    (s : Startup) (server_fd : ℕ)
    → worker_init (record s { affinity = false }) server_fd ≡ refused [] [] []
unfolding worker_init
unbound_worker s server_fd = elim (Bool-cases (all_set s.handlers)) [
  | inl t ↦ simp (worker_init, t) refl
  | inr f ↦ simp (worker_init, f) refl
]

-- Where a process can be bound to the CPUs below the number that sysconf gives and to no other,
-- a worker that fork_worker starts is bound to a CPU, whatever its slot. The one that the signal
-- handler starts in the place of a worker that ended is so only if the slot is the number of a CPU: in
-- any other it ends before it has taken anything.
pub restarted_child-refused :
    (cpus : Cpus) (s : Startup) (n server_fd i : ℕ)
    → cpus.online ≡ pos (suc n)
    → ((c : ℕ) → cpus.affinity c ≡ ltb c (suc n))
    → (forked_child cpus s server_fd i ≡ worker_init (record s { affinity = true }) server_fd)
      × (restarted_child cpus s server_fd i ≡ (
          if ltb i (suc n)
          then worker_init (record s { affinity = true }) server_fd
          else refused [] [] []))
unfolding forked_child restarted_child
restarted_child-refused cpus s n server_fd i online known = (
  rw (online, set_worker_cpu_affinity-slot cpus n i bound, bound) refl,
  elim (Bool-cases (ltb i (suc n))) [
    | inl t ↦ rw (known i, t) refl
    | inr f ↦ rw (known i, f) (unbound_worker s server_fd)
  ],
)
  where
    bound : cpus.affinity (i % suc n) ≡ true
    bound = rw (known (i % suc n)) (slot_cpu n i)
