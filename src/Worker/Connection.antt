-- ===== src/Worker/Connection.antt =====
-- About worker_handle_connection of src/worker.c: what becomes of a connection that was accepted.
use nx_lite.Base.{
  ℕ, ◌<◌, ◌≡◌, refl, ◌⊎◌, inl, inr, ◌&&◌, Option, none, some, List, [], ◌∷◌, ◌++◌, leb, length,
  Bool-cases, Option-cases, append_assoc, leb-false,
}
use nx_lite.Mempool.{AllocResult, Pool, allocated, failed, crashed, mempool_alloc, mempool_free}
use nx_lite.Worker.{
  Client, Worker, SystemCall, epoll_add, close_fd, Setup, all_set, call, create_timeout_timer,
  new_client, admit_client, worker_handle_connection, max_connections,
}

-- A new client of that descriptor and timer, which epoll watches, behind the others, with a buffer
-- that was allocated for it.
pub record Accepted (s : Setup) (fd : ℕ) (w w' : Worker) : Type 0 where
  pub client : Client
  pub client_fd : client.fd ≡ fd
  pub timer : s.timer ≡ some client.timer_fd
  pub room : length w.clients < 100000
  pub clients : w'.clients ≡ w.clients ++ client ∷ []
  pub block : ℕ
  pub buffer : client.buffer ≡ some block
  pub pool : mempool_alloc s.memory w.buffer_pool ≡ allocated block w'.buffer_pool
  pub calls : w'.calls ≡ w.calls ++ epoll_add fd ∷ epoll_add client.timer_fd ∷ []

-- The same clients, and the descriptor is closed: at once, or when there is no timer, or behind the
-- timer. The connection stays counted, and a buffer that was allocated is freed.
pub record Refused (s : Setup) (fd : ℕ) (w w' : Worker) : Type 0 where
  pub before : List SystemCall
  pub clients : w'.clients ≡ w.clients
  pub calls : w'.calls ≡ w.calls ++ (before ++ close_fd fd ∷ [])
  pub timer :
      (before ≡ [])
      ⊎ (s.timer ≡ none)
      ⊎ ((t : ℕ) × (rest : List SystemCall) × (s.timer ≡ some t)
          × (before ≡ rest ++ close_fd t ∷ []))
  pub rate_limits : w'.rate_limits ≡ w.rate_limits
  pub pool :
      (w'.buffer_pool ≡ w.buffer_pool)
      ⊎ ((block : ℕ) × (p : Pool) × (mempool_alloc s.memory w.buffer_pool ≡ allocated block p)
          × (w'.buffer_pool ≡ mempool_free (some block) p))

abbrev pub Outcome : Setup → ℕ → Worker → Option Worker → Type 0
Outcome s fd w none = mempool_alloc s.memory w.buffer_pool ≡ crashed
Outcome s fd w (some w') = Accepted s fd w w' ⊎ Refused s fd w w'

pub AllocResult-cases :
    (r : AllocResult) → (r ≡ crashed) ⊎ (r ≡ failed) ⊎ ((b : ℕ) × (p : Pool) × (r ≡ allocated b p))
AllocResult-cases crashed = inl refl
AllocResult-cases failed = inr (inl refl)
AllocResult-cases (allocated b p) = inr (inr (b, p, refl))

admit_client_lem :
    (now : ℕ) (s : Setup) (fd t : ℕ) (w : Worker)
    → s.timer ≡ some t
    → Outcome s fd w (admit_client now s fd t (call (epoll_add fd ∷ epoll_add t ∷ []) w))
unfolding admit_client
admit_client_lem now s fd t w e = elim (AllocResult-cases (mempool_alloc s.memory w.buffer_pool)) [
  | inl crash ↦ simp (admit_client, crash) refl
  | inr (inl fail) ↦
      simp (admit_client, fail)
        (inr (record {
          before = epoll_add fd ∷ epoll_add t ∷ close_fd t ∷ [];
          clients = refl;
          calls = append_assoc w.calls _ _;
          timer = inr (inr (t, epoll_add fd ∷ epoll_add t ∷ [], e, refl));
          rate_limits = refl;
          pool = inl refl;
        }))
  | inr (inr (b, p, ok)) ↦ elim (Bool-cases (leb max_connections (length w.clients))) [
    | inl full ↦
        simp (admit_client, ok, full)
          (inr (record {
            before = epoll_add fd ∷ epoll_add t ∷ close_fd t ∷ [];
            clients = refl;
            calls = append_assoc w.calls _ _;
            timer = inr (inr (t, epoll_add fd ∷ epoll_add t ∷ [], e, refl));
            rate_limits = refl;
            pool = inr (b, p, ok, refl);
          }))
    | inr room ↦
        simp (admit_client, ok, room)
          (inl (record {
            client = new_client now fd t b s;
            client_fd = refl;
            timer = e;
            room = leb-false _ _ room;
            clients = refl;
            block = b;
            buffer = refl;
            pool = ok;
            calls = refl;
          }))
  ]
]

refused :
    (s : Setup) (fd : ℕ) (w : Worker) (before : List SystemCall)
    → ((before ≡ [])
        ⊎ (s.timer ≡ none)
        ⊎ ((t : ℕ) × (rest : List SystemCall) × (s.timer ≡ some t)
            × (before ≡ rest ++ close_fd t ∷ [])))
    → Refused s fd w (call (before ++ close_fd fd ∷ []) w)
refused s fd w before timer = record {
  before = before;
  clients = refl;
  calls = refl;
  timer = timer;
  rate_limits = refl;
  pool = inl refl;
}

-- A connection that is handled gets a new client behind the others, watched by epoll with its timer,
-- with a buffer that was allocated for it; or its descriptor is closed, as is the timer if it was made,
-- the clients stay as they are, a buffer that was allocated is freed, and no connection is counted down.
-- Without an outcome, the allocation read through a null pointer.
pub worker_handle_connection_lem :
    (now : ℕ) (s : Setup) (fd : ℕ) (w : Worker)
    → Outcome s fd w (worker_handle_connection now s fd w)
unfolding worker_handle_connection
worker_handle_connection_lem now s fd w =
    elim (Bool-cases (all_set s.options && s.nonblocking && s.epoll)) [
      | inr bad ↦ simp (worker_handle_connection, bad) (inr (refused s fd w [] (inl refl)))
      | inl good ↦ elim (Option-cases s.timer) [
        | inl e ↦
            simp (worker_handle_connection, create_timeout_timer, good, e, append_assoc)
              (inr (refused s fd w (epoll_add fd ∷ []) (inr (inl e))))
        | inr (t, e) ↦ elim (Bool-cases s.timer_set) [
          | inr unset ↦
              simp (worker_handle_connection, create_timeout_timer, good, e, unset, append_assoc)
                (inr (
                  refused s fd w (epoll_add fd ∷ close_fd t ∷ [])
                    (inr (inr (t, epoll_add fd ∷ [], e, refl)))))
          | inl set ↦ elim (Bool-cases s.timer_epoll) [
            | inr unwatched ↦
                simp
                  (
                    worker_handle_connection, create_timeout_timer, good, e, set, unwatched,
                    append_assoc,
                  )
                  (inr (
                    refused s fd w (epoll_add fd ∷ close_fd t ∷ [])
                      (inr (inr (t, epoll_add fd ∷ [], e, refl)))))
            | inl watched ↦
                simp
                  (
                    worker_handle_connection, create_timeout_timer, good, e, set, watched,
                    append_assoc,
                  )
                  (admit_client_lem now s fd t w e)
          ]
        ]
      ]
    ]
