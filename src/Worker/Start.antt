-- ===== src/Worker/Start.antt =====
-- worker_init of src/worker.c, and worker_add_client, which the program does not call. What the system
-- answers is an argument.
pub mod Outcomes
pub mod Sharing
pub mod Adding
mod Tests
use nx_lite.Base.{
  ℕ, Bool, true, false, not, ◌&&◌, ◌||◌, Option, none, some, List, [], ◌∷◌, ◌++◌, leb,
  if◌then◌else◌, length,
}
use nx_lite.Mempool.{
  Pool, Memory, Thread, allocated, failed, crashed, AllocResult, mempool_init, mempool_alloc,
  mempool_free, Release, mempool_cleanup,
}
use nx_lite.RateLimit.Entries.{zero_table}
use nx_lite.Worker.{
  Client, Worker, SystemCall, epoll_add, close_fd, call, Setup, all_set, create_timeout_timer,
  max_connections,
}

-- The arrays of a worker, in the order in which they are made.
pub data WorkerArray : Type 0 where
  events clients connection_pool : WorkerArray

-- Whether the handlers of the three signals are set, the worker is bound to its CPU, the mutex of the
-- pool is made, the listening socket is set non-blocking and added to epoll, and there is memory for the
-- three arrays; the list of free blocks of the thread, the memory of the pool, and the descriptor of
-- epoll.
pub record Startup : Type 0 where
  pub handlers : List Bool
  pub affinity : Bool
  pub thread : Thread
  pub mutex : Bool
  pub memory : Memory
  pub epoll_fd : Option ℕ
  pub nonblocking : Bool
  pub epoll : Bool
  pub arrays : WorkerArray → Bool

-- A worker with its descriptor of epoll; or -1, with the calls that were made, what the cleanup of the
-- pool gave back, and the arrays that were freed.
pub data StartResult : Type 0 where
  started : Worker → ℕ → StartResult
  refused : List SystemCall → List Release → List WorkerArray → StartResult

abbrev pub new_worker : ℕ → Pool → Worker
new_worker server_fd pool = record {
  keep_alive_timeout = 30;
  clients = [];
  buffer_pool = pool;
  rate_limits = zero_table;
  calls = epoll_add server_fd ∷ [];
}

-- From the array of events on.
unfoldable pub make_arrays : Startup → ℕ → ℕ → Pool → StartResult
make_arrays s server_fd epoll_fd pool =
    let calls = epoll_add server_fd ∷ close_fd epoll_fd ∷ [] in
    let releases = (mempool_cleanup pool).1 in
    if not (s.arrays events)
    then refused calls releases []
    else if not (s.arrays clients)
    then refused calls releases (events ∷ [])
    else if not (s.arrays connection_pool)
    then refused calls releases (events ∷ clients ∷ [])
    else started (new_worker server_fd pool) epoll_fd

-- From epoll_create1 on.
unfoldable pub open_worker : Startup → ℕ → Pool → StartResult
unfolding make_arrays
open_worker s server_fd pool = elim s.epoll_fd [
  | none ↦ refused [] (mempool_cleanup pool).1 []
  | some epoll_fd ↦
      if s.nonblocking && s.epoll
      then make_arrays s server_fd epoll_fd pool
      else refused (close_fd epoll_fd ∷ []) (mempool_cleanup pool).1 []
]

unfoldable pub worker_init : Startup → ℕ → StartResult
unfolding open_worker
worker_init s server_fd =
    if all_set s.handlers && s.affinity
    then elim (mempool_init s.thread s.mutex s.memory 8192 10000) [
      | none ↦ refused [] [] []
      | some pool ↦ open_worker s server_fd pool
    ]
    else refused [] [] []

-- The worker after worker_add_client and whether 0 is returned; none where the allocation reads
-- through a null pointer.
abbrev pub AddResult : Type 0
AddResult = Option (Worker × Bool)

-- The slot behind the clients keeps the fields that are not set.
abbrev pub take_slot : ℕ → ℕ → ℕ → ℕ → Client → Client
take_slot now client_fd timer_fd buffer stale = record stale {
  fd = client_fd;
  timer_fd = timer_fd;
  last_activity = now;
  buffer = some buffer;
  keep_alive = true;
  pending_response = none;
}

-- The part behind the allocation of the buffer.
unfoldable pub add_with_buffer : ℕ → Setup → Client → ℕ → ℕ → Pool → Worker → Worker × Bool
unfolding create_timeout_timer
add_with_buffer now s stale client_fd buffer pool w =
    let timer = create_timeout_timer s in
    let freed = record w { buffer_pool = mempool_free (some buffer) pool } in
    elim timer.0 [
      | none ↦ (call timer.1 freed, false)
      | some timer_fd ↦
          if s.timer_epoll
          then (
            call (epoll_add timer_fd ∷ []) (record w {
              clients = w.clients ++ take_slot now client_fd timer_fd buffer stale ∷ [];
              buffer_pool = pool;
            }),
            true,
          )
          else (call (close_fd timer_fd ∷ []) freed, false)
    ]

-- The options of the socket of a client, in the order in which they are set.
pub data ClientOption : Type 0 where
  no_delay defer_accept quick_ack send_buffer receive_buffer keep_alive : ClientOption

-- Only the three that are named here make it fail.
abbrev pub optimize_tcp_socket : (ClientOption → Bool) → Bool
optimize_tcp_socket sets = sets no_delay && sets send_buffer && sets receive_buffer

-- `sets` says which options can be set; `stale` is what the slot behind the clients holds.
unfoldable pub worker_add_client :
    ℕ → (ClientOption → Bool) → Setup → Client → ℕ → Worker → AddResult
unfolding add_with_buffer
worker_add_client now sets s stale client_fd w =
    if leb max_connections (length w.clients) || not (optimize_tcp_socket sets && s.nonblocking)
    then some (w, false)
    else elim (mempool_alloc s.memory w.buffer_pool) [
      | crashed ↦ none
      | failed ↦ some (w, false)
      | allocated buffer pool ↦ some (add_with_buffer now s stale client_fd buffer pool w)
    ]
