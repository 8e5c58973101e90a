-- ===== src/Worker/Tests.antt =====
-- A worker with two clients, and the theorems on it.
use nx_lite.Base.{List, ℕ, ◌+◌, ◌<◌, ◌≡◌, refl, ◌⊎◌, true, none, some, [], ◌∷◌, ◌++◌, arith, codes}
use mathlib.Core.HLevel.{⊥_prop}
use mathlib.Core.Logic.Or
use mathlib.Core.List.{Nodup, Nodup-cons, Perm, eq-or-mem_of_mem-cons, not-mem-nil}
use mathlib.Mathlib.Data.List.Nodup.{Nodup-singleton}
use nx_lite.Mempool.{Pool, mempool_free}
use nx_lite.RateLimit.Entries.{zero_table, decrement_connection_count}
use nx_lite.Worker.{
  Client, zero_client, Worker, Setup, SystemCall, epoll_del, close_fd, find_client,
  worker_remove_client, worker_handle_timeout, worker_handle_connection,
}
use nx_lite.Worker.Remove.{IsValid, ClosesFile, worker_remove_client_lem}
use nx_lite.Worker.Connection.{Outcome, worker_handle_connection_lem}
use nx_lite.Worker.Steps.{start, next, removed, timed, Steps-IsValid}

abbrev new_pool : Pool
new_pool = record {
  block_size = 8192;
  blocks_per_pool = 2;
  free_list = none;
  memory_blocks = 4096 ∷ [];
  total_blocks = 2;
  used_blocks = 1;
  local_free_list = some 0;
  local_free_count = 1;
  next = λ i. none;
  address = λ i. 4096 + i;
}

abbrev client_5 : Client
client_5 = record zero_client {
  fd = 5;
  timer_fd = 6;
  last_activity = 100;
  client_ip = codes "10.0.0.7";
}

abbrev client_7 : Client
client_7 = record zero_client {
  fd = 7;
  timer_fd = 8;
  last_activity = 180;
  client_ip = codes "10.0.0.8";
}

abbrev busy_worker : Worker
busy_worker = record {
  keep_alive_timeout = 30;
  clients = client_5 ∷ client_7 ∷ [];
  buffer_pool = new_pool;
  rate_limits = zero_table;
  calls = [];
}

abbrev idle_worker : Worker
idle_worker = record busy_worker { clients = [] }

abbrev good_setup : Setup
good_setup = record {
  options = true ∷ true ∷ [];
  nonblocking = true;
  epoll = true;
  timer = some 12;
  timer_set = true;
  timer_epoll = true;
  memory = record { blocks = none; headers = true; array = true };
  peer = some (codes "10.0.0.9");
}

pair-Nodup : (a b : ℕ) → a < b → Nodup (a ∷ b ∷ [])
pair-Nodup a b h = Nodup-cons.1 (
  λ m.
      Or.elim ⊥_prop (eq-or-mem_of_mem-cons m) (λ e. let e' : a ≡ b = e in omega (arith, e'))
        not-mem-nil,
  Nodup-singleton b,
)

busy_worker-IsValid : IsValid busy_worker
busy_worker-IsValid = record {
  room = omega arith;
  fds = pair-Nodup 5 7 (omega arith);
  timers = pair-Nodup 6 8 (omega arith);
}

worker_remove_client_lem_example :
    ((find_client 5 busy_worker.clients ≡ none)
      × (worker_remove_client 5 busy_worker ≡ busy_worker))
    ⊎ ((c : Client) × (c.fd ≡ 5)
        × Perm busy_worker.clients (c ∷ (worker_remove_client 5 busy_worker).clients)
        × ((files : List SystemCall) × ((worker_remove_client 5 busy_worker).calls
              ≡ busy_worker.calls
                ++ epoll_del 5
                  ∷ epoll_del c.timer_fd
                  ∷ (files ++ close_fd 5 ∷ close_fd c.timer_fd ∷ []))
            × ClosesFile c.pending_response files)
        × ((worker_remove_client 5 busy_worker).buffer_pool
            ≡ mempool_free c.buffer busy_worker.buffer_pool)
        × ((worker_remove_client 5 busy_worker).rate_limits
            ≡ decrement_connection_count (some c.client_ip) busy_worker.rate_limits))
worker_remove_client_lem_example = worker_remove_client_lem 5 busy_worker

worker_handle_connection_lem_example :
    Outcome good_setup 11 busy_worker (worker_handle_connection 200 good_setup 11 busy_worker)
worker_handle_connection_lem_example = worker_handle_connection_lem 200 good_setup 11 busy_worker

Steps-IsValid_example : IsValid (worker_remove_client 5 (worker_handle_timeout 200 8 busy_worker))
Steps-IsValid_example =
    Steps-IsValid (next (next start (timed 200 8)) (removed 5)) busy_worker-IsValid

-- Client 5 was idle for too long, client 7 was not.
idle_client_removed : (worker_handle_timeout 200 6 busy_worker).clients ≡ client_7 ∷ []
unfolding worker_handle_timeout
idle_client_removed = refl
