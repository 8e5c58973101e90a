-- ===== src/Worker/Events/Exit.antt =====
-- About the end of a worker in worker_run and worker_cleanup of src/worker.c.
use nx_lite.Base.{
  ℕ, zero, suc, ◌<◌, ◌≡◌, refl, sym, ◌∙◌, ap, Bool, true, false, List, [], ◌∷◌, ◌++◌, ltb,
  if◌then◌else◌, length, get_or, append_assoc, append-nil, arith, lt→ltb,
}
use nx_lite.Mempool.{Pool}
use nx_lite.Worker.{Client, zero_client, Worker, SystemCall, close_fd}
use nx_lite.Worker.Events.{
  shutdown_calls, release_clients, close_clients, cleanup_calls, worker_cleanup,
}

release_clients-calls :
    (f : Client → List SystemCall) (cs : List Client) (pool : Pool) (calls : List SystemCall)
    → (more : List SystemCall) × ((release_clients f cs (pool, calls)).1 ≡ calls ++ more)
unfolding release_clients
release_clients-calls f [] pool calls = ([], sym (append-nil calls))
release_clients-calls f (c ∷ cs) pool calls =
    let (more, e) = release_clients-calls f cs _ (calls ++ f c) in
    (f c ++ more, e ∙ append_assoc calls (f c) more)

-- A call of client i is among those that are made.
release_clients-at :
    (f : Client → List SystemCall) (cs : List Client) (i : ℕ) (pool : Pool)
    (calls rest : List SystemCall) (x : SystemCall)
    → i < length cs
    → f (get_or cs i zero_client) ≡ x ∷ rest
    → (a b : List SystemCall) × ((release_clients f cs (pool, calls)).1 ≡ calls ++ (a ++ x ∷ b))
unfolding release_clients
release_clients-at f [] i pool calls rest x small e = absurd (omega (arith, small))
release_clients-at f (c ∷ cs) zero pool calls rest x small e =
    let (more, e1) = release_clients-calls f cs _ (calls ++ f c) in
    ([], rest ++ more, e1 ∙ append_assoc calls (f c) more ∙ ap (λ s. calls ++ (s ++ more)) e)
release_clients-at f (c ∷ cs) (suc i) pool calls rest x small e =
    let (a, b, e1) = release_clients-at f cs i _ (calls ++ f c) rest x (omega (arith, small)) e in
    (
      f c ++ a,
      b,
      e1
          ∙ append_assoc calls (f c) (a ++ x ∷ b)
          ∙ ap (λ s. calls ++ s) (sym (append_assoc (f c) a (x ∷ b))),
    )

guarded_head :
    (b : Bool) (x : SystemCall) (rest : List SystemCall)
    → b ≡ true
    → (if b then x ∷ [] else []) ++ rest ≡ x ∷ rest
guarded_head true x rest e = refl
guarded_head false x rest e = absurd (ground (arith, e))

shutdown_calls-fd :
    (c : Client) → 0 < c.fd → (rest : List SystemCall) × (shutdown_calls c ≡ close_fd c.fd ∷ rest)
unfolding shutdown_calls
shutdown_calls-fd c pos = (_, guarded_head (ltb 0 c.fd) (close_fd c.fd) _ (lt→ltb 0 c.fd pos))

-- For each client that a worker has when its loop ends, the descriptor is closed by worker_run and
-- once more by worker_cleanup.
client_closed_twice :
    (w : Worker) (i epoll_fd : ℕ)
    → i < length w.clients
    → 0 < (get_or w.clients i zero_client).fd
    → (a b a' b' : List SystemCall) × ((close_clients w).calls
        ≡ w.calls ++ (a ++ close_fd (get_or w.clients i zero_client).fd ∷ b))
      × ((worker_cleanup epoll_fd (close_clients w)).calls
          ≡ (close_clients w).calls ++ (a' ++ close_fd (get_or w.clients i zero_client).fd ∷ b'))
unfolding close_clients worker_cleanup
client_closed_twice w i epoll_fd small pos =
    let c : Client = get_or w.clients i zero_client in
    let (rest, first) = shutdown_calls-fd c pos in
    let (a, b, e) =
      release_clients-at shutdown_calls w.clients i w.buffer_pool w.calls rest (close_fd c.fd) small
        first in
    let (a', b', e') =
      release_clients-at cleanup_calls w.clients i (close_clients w).buffer_pool
        (close_clients w).calls (close_fd c.timer_fd ∷ []) (close_fd c.fd) small refl in
    (
      a,
      b,
      a',
      b' ++ close_fd epoll_fd ∷ [],
      e,
      ap (λ s. s ++ close_fd epoll_fd ∷ []) e'
          ∙ append_assoc (close_clients w).calls (a' ++ close_fd c.fd ∷ b') (close_fd epoll_fd ∷ [])
          ∙ ap (λ s. (close_clients w).calls ++ s)
              (append_assoc a' (close_fd c.fd ∷ b') (close_fd epoll_fd ∷ [])),
    )
