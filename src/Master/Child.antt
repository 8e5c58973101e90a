-- ===== src/Master/Child.antt =====
-- fork_worker of src/master.c in the child, the child that handle_child_signal forks, and
-- set_worker_cpu_affinity. What the system answers is an argument.
use nx_lite.Base.{ℕ, zero, suc, ◌%◌, Bool, Option, none, some, if◌then◌else◌}
use nx_lite.Config.{ℤ, pos, negsuc}
use nx_lite.Worker.Start.{Startup, StartResult, worker_init}

-- What sysconf gives as the number of CPUs, and whether a process may be bound to the CPU of a number.
pub record Cpus : Type 0 where
  pub online : ℤ
  pub affinity : ℕ → Bool

abbrev pub bind_cpu : Cpus → ℕ → Option ℕ
bind_cpu cpus cpu_id = if cpus.affinity cpu_id then some cpu_id else none

-- The CPU, or none where -1 is returned.
unfoldable pub set_worker_cpu_affinity : Cpus → ℕ → ℤ → Option ℕ
set_worker_cpu_affinity cpus worker_id (negsuc n) = none
set_worker_cpu_affinity cpus worker_id (pos zero) = none
set_worker_cpu_affinity cpus worker_id (pos (suc n)) = bind_cpu cpus (worker_id % suc n)

-- int cpu_id = set_worker_cpu_affinity(worker_id); if (cpu_id < 0) cpu_id = worker_id;
abbrev pub cpu_or_slot : ℕ → Option ℕ → ℕ
cpu_or_slot worker_id none = worker_id
cpu_or_slot worker_id (some cpu_id) = cpu_id

-- worker_init for a CPU; `s` is what the system answers to the rest of it.
abbrev pub init_on : Cpus → Startup → ℕ → ℕ → StartResult
init_on cpus s server_fd cpu_id =
    worker_init (record s { affinity = cpus.affinity cpu_id }) server_fd

-- The child of fork_worker.
unfoldable pub forked_child : Cpus → Startup → ℕ → ℕ → StartResult
unfolding set_worker_cpu_affinity
forked_child cpus s server_fd worker_id =
    init_on cpus s server_fd
      (cpu_or_slot worker_id (set_worker_cpu_affinity cpus worker_id cpus.online))

-- The child that handle_child_signal forks for a slot whose worker ended.
unfoldable pub restarted_child : Cpus → Startup → ℕ → ℕ → StartResult
restarted_child cpus s server_fd i = init_on cpus s server_fd i
