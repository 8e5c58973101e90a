-- ===== src/Worker/Start/Tests.antt =====
-- Runs of worker_init and worker_add_client of src/worker.c, and their theorems at concrete inputs.
use nx_lite.Base.{Bool, false, ◌≡◌, refl, true, none, some, [], ◌∷◌}
use nx_lite.Mempool.{Thread, mempool_init, add_chunk, empty_pool}
use nx_lite.Worker.{Worker}
use nx_lite.Worker.Start.{
  Startup, WorkerArray, events, clients, connection_pool, started, new_worker, make_arrays,
  open_worker, worker_init,
}

abbrev fresh_thread : Thread
fresh_thread = record { list = none; count = 0; next = λ p. none; address = λ p. 0 }

abbrev working : Startup
working = record {
  handlers = true ∷ true ∷ true ∷ [];
  affinity = true;
  thread = fresh_thread;
  mutex = true;
  memory = record { blocks = some 4096; headers = true; array = true };
  epoll_fd = some 5;
  nonblocking = true;
  epoll = true;
  arrays = λ a. true;
}

abbrev first_worker : Worker
first_worker = new_worker 3 (add_chunk 4096 (empty_pool fresh_thread 8192 10000))

starts : worker_init working 3 ≡ started first_worker 5
unfolding worker_init open_worker make_arrays mempool_init
starts = refl

-- There is no memory for the array of connections.
abbrev two_arrays : WorkerArray → Bool
two_arrays events = true
two_arrays clients = true
two_arrays connection_pool = false

abbrev short_of_memory : Startup
short_of_memory = record working { arrays = two_arrays }
