-- ===== src/Server/Descriptors.antt =====
-- Which descriptors src/server.c leaves open.
use nx_lite.Base.{
  ℕ, ◌≡◌, refl, inl, inr, true, false, ◌&&◌, Option, none, some, List, [], ◌∷◌, ◌++◌, Option-cases,
  Bool-cases,
}
use nx_lite.Config.{ℤ}
use nx_lite.Server.{
  ServerCall, create, watch, close_fd, write, Server, ServerSetup, optimize_server_socket,
  server_init, server_init_worker,
}

-- The descriptors that are made, and those that are closed, in their order.
abbrev pub made : List ServerCall → List ℕ
made [] = []
made (create fd ∷ cs) = fd ∷ made cs
made (watch fd ∷ cs) = made cs
made (close_fd fd ∷ cs) = made cs
made (write fd s ∷ cs) = made cs

abbrev pub closed : List ServerCall → List ℕ
closed [] = []
closed (create fd ∷ cs) = closed cs
closed (watch fd ∷ cs) = closed cs
closed (close_fd fd ∷ cs) = fd ∷ closed cs
closed (write fd s ∷ cs) = closed cs

abbrev pub held : Option Server → List ℕ
held none = []
held (some s) = s.server_fd ∷ s.epoll_fd ∷ []

-- What server_init made is held by the server or was closed, whatever fails.
pub server_init-holds_or_closes :
    (s : ServerSetup) (port : ℤ)
    → made (server_init s port).1 ≡ held (server_init s port).0 ++ closed (server_init s port).1
unfolding server_init
server_init-holds_or_closes s port = elim (Option-cases s.socket) [
  | inl e ↦ simp (server_init, e) refl
  | inr (fd, e) ↦
      elim (Bool-cases
        (optimize_server_socket s.reuse_addr s.no_delay && s.bind && s.nonblocking)) [
          | inr f ↦ simp (server_init, e, f) refl
          | inl t ↦ elim (Option-cases s.epoll) [
            | inl none_left ↦ simp (server_init, e, t, none_left) refl
            | inr (epoll_fd, made_it) ↦ simp (server_init, e, t, made_it) refl
          ]
        ]
]

-- server_init_worker does not do so: where epoll refuses the socket, the descriptor of epoll stays
-- open, and no server holds it.
pub server_init_worker-leaks :
    (s : ServerSetup) (fd epoll_fd : ℕ)
    → s.nonblocking ≡ true
    → s.epoll ≡ some epoll_fd
    → s.watched ≡ false
    → ((server_init_worker s fd).0 ≡ none)
      × (made (server_init_worker s fd).1 ≡ epoll_fd ∷ [])
      × (closed (server_init_worker s fd).1 ≡ [])
unfolding server_init_worker
server_init_worker-leaks s fd epoll_fd a b c = simp (server_init_worker, a, b, c) (refl, refl, refl)
