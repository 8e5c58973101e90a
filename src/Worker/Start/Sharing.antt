-- ===== src/Worker/Start/Sharing.antt =====
-- The buffers of the clients of a worker of src/worker.c, from worker_init on.
mod Tests
use nx_lite.Base.{ℕ, ◌≡◌, ◌≢◌, sym, subst, none, []}
use nx_lite.Mempool.Flush.{Distinct}
use nx_lite.Mempool.Allocating.{Fits}
use nx_lite.Mempool.Parts.{IsOwned}
use nx_lite.Mempool.Ownership.{
  IsFresh, mempool_init-IsOwned, IsOwned-Distinct, mempool_alloc-ne_crashed,
}
use nx_lite.Worker.{Worker, Setup, worker_handle_connection}
use nx_lite.Worker.Connection.{Outcome, worker_handle_connection_lem}
use nx_lite.Worker.Steps.{Steps}
use nx_lite.Worker.Buffers.{buffers, OwnsBuffers, StepsFit, Steps-OwnsBuffers}
use nx_lite.Worker.Start.{Startup, started, worker_init}
use nx_lite.Worker.Start.Outcomes.{StartsOrReleases, worker_init-StartsOrReleases}

started-OwnsBuffers :
    (s : Startup) (server_fd epoll_fd : ℕ) (w : Worker)
    → IsFresh s.thread
    → worker_init s server_fd ≡ started w epoll_fd
    → OwnsBuffers w
unfolding buffers
started-OwnsBuffers s server_fd epoll_fd w fresh e =
    let (fd, valid, empty, calls, made) =
      subst (StartsOrReleases s server_fd) e (worker_init-StartsOrReleases s server_fd) in
    subst (λ cs. IsOwned w.buffer_pool (buffers cs)) (sym empty)
      (mempool_init-IsOwned s.thread s.mutex s.memory 8192 10000 w.buffer_pool fresh made)

-- From the start of a worker, whose thread has no blocks of an earlier pool, through any connections,
-- removals, timers, writes and reads, where the memory that the system gives never overlaps, no two
-- clients have the same buffer; and a further connection does not read through a null pointer.
pub client_buffers-Distinct :
    (s : Startup) (server_fd epoll_fd : ℕ) (w w' : Worker) (now : ℕ) (s' : Setup) (fd : ℕ)
    → IsFresh s.thread
    → worker_init s server_fd ≡ started w epoll_fd
    → (steps : Steps w w') → StepsFit steps
    → Fits w'.buffer_pool s'.memory.blocks
    → Distinct (buffers w'.clients) × (worker_handle_connection now s' fd w' ≢ none)
client_buffers-Distinct s server_fd epoll_fd w w' now s' fd fresh e steps fits fit =
    let v = Steps-OwnsBuffers steps fits (started-OwnsBuffers s server_fd epoll_fd w fresh e) in
    (
      IsOwned-Distinct w'.buffer_pool (buffers w'.clients) v,
      λ crash.
          mempool_alloc-ne_crashed s'.memory w'.buffer_pool (buffers w'.clients) v fit
            (subst (Outcome s' fd w') crash (worker_handle_connection_lem now s' fd w')),
    )
