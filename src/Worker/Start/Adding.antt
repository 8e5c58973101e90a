-- ===== src/Worker/Start/Adding.antt =====
-- How worker_add_client of src/worker.c ends.
use nx_lite.Base.{
  ℕ, Bool, ◌≡◌, refl, ◌⊎◌, inl, inr, true, false, not, ◌&&◌, ◌||◌, none, some, [], ◌∷◌, ◌++◌,
  Option-cases, Bool-cases, append-nil, leb, length,
}
use nx_lite.Mempool.{Pool, crashed, mempool_alloc}
use nx_lite.Worker.{
  Client, Worker, epoll_add, close_fd, Setup, create_timeout_timer, max_connections,
}
use nx_lite.Worker.Connection.{AllocResult-cases}
use nx_lite.Worker.Start.{
  ClientOption, optimize_tcp_socket, AddResult, take_slot, add_with_buffer, worker_add_client,
}

-- With 0, one client more and its timer in epoll; with -1, the same clients, and at most a timer closed.
abbrev pub AddsOrNot : ℕ → Setup → Client → ℕ → Worker → AddResult → Type 0
AddsOrNot now s stale client_fd w none = mempool_alloc s.memory w.buffer_pool ≡ crashed
AddsOrNot now s stale client_fd w (some (w', true)) =
    (timer_fd : ℕ) × (buffer : ℕ) × (w'.clients
      ≡ w.clients ++ take_slot now client_fd timer_fd buffer stale ∷ [])
    × (w'.calls ≡ w.calls ++ epoll_add timer_fd ∷ [])
AddsOrNot now s stale client_fd w (some (w', false)) =
    (w'.clients ≡ w.clients)
    × ((w'.calls ≡ w.calls) ⊎ ((timer_fd : ℕ) × (w'.calls ≡ w.calls ++ close_fd timer_fd ∷ [])))

add_with_buffer-AddsOrNot :
    (now : ℕ) (s : Setup) (stale : Client) (client_fd buffer : ℕ) (pool : Pool) (w : Worker)
    → AddsOrNot now s stale client_fd w (some (add_with_buffer now s stale client_fd buffer pool w))
unfolding add_with_buffer create_timeout_timer
add_with_buffer-AddsOrNot now s stale client_fd buffer pool w = elim (Option-cases s.timer) [
  | inl e ↦ simp (add_with_buffer, create_timeout_timer, e) (refl, inl (append-nil w.calls))
  | inr (t, e) ↦ elim (Bool-cases s.timer_set) [
    | inr f ↦ simp (add_with_buffer, create_timeout_timer, e, f) (refl, inr (t, refl))
    | inl set_ ↦ elim (Bool-cases s.timer_epoll) [
      | inl added ↦
          simp (add_with_buffer, create_timeout_timer, e, set_, added) (t, buffer, refl, refl)
      | inr f ↦ simp (add_with_buffer, create_timeout_timer, e, set_, f) (refl, inr (t, refl))
    ]
  ]
]

-- With 0, there is one client more behind the others, whose timer was added to epoll, and no call was
-- made for the descriptor of the client, which epoll does not watch; the address, the bytes received
-- and the start of the connection are those of the slot. With -1 the clients are as they were. Without
-- an outcome, the allocation read through a null pointer.
pub worker_add_client_lem :
    (now : ℕ) (sets : ClientOption → Bool) (s : Setup) (stale : Client) (client_fd : ℕ) (w : Worker)
    → AddsOrNot now s stale client_fd w (worker_add_client now sets s stale client_fd w)
unfolding worker_add_client
worker_add_client_lem now sets s stale client_fd w =
    elim (Bool-cases
      (leb max_connections (length w.clients) || not (optimize_tcp_socket sets && s.nonblocking))) [
        | inl f ↦ simp (worker_add_client, f) (refl, inl refl)
        | inr t ↦ elim (AllocResult-cases (mempool_alloc s.memory w.buffer_pool)) [
          | inl e ↦ simp (worker_add_client, t, e) refl
          | inr (inl e) ↦ simp (worker_add_client, t, e) (refl, inl refl)
          | inr (inr (buffer, pool, e)) ↦
              simp (worker_add_client, t, e)
                (add_with_buffer-AddsOrNot now s stale client_fd buffer pool w)
        ]
      ]
