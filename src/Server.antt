-- ===== src/Server.antt =====
-- src/server.c and include/server.h, an older server of one process that main does not start. What the
-- system answers is a parameter; the calls that concern a descriptor are recorded in order.
pub mod Descriptors
mod Tests
use nx_lite.Base.{
  ℕ, zero, suc, Bool, true, false, not, ◌&&◌, ◌||◌, Option, none, some, List, [], ◌∷◌, ◌++◌, ltb,
  ◌==◌, if◌then◌else◌, Bytes, codes, take,
}
use nx_lite.Config.{ℤ, pos, negsuc, atoi, fgets}

-- A call that makes, watches, or closes a descriptor, or writes to one.
pub data ServerCall : Type 0 where
  create watch close_fd : ℕ → ServerCall
  write : ℕ → Bytes → ServerCall

pub record Server : Type 0 where
  pub server_fd : ℕ
  pub port : Option ℤ
  pub is_running : Bool
  pub is_worker : Bool
  pub epoll_fd : ℕ

-- The two options whose failure counts, SO_REUSEADDR and TCP_NODELAY.
abbrev pub optimize_server_socket : Bool → Bool → Bool
optimize_server_socket reuse_addr no_delay = reuse_addr && no_delay

-- What the system answers while a server is set up.
pub record ServerSetup : Type 0 where
  pub socket : Option ℕ
  pub reuse_addr : Bool
  pub no_delay : Bool
  pub bind : Bool
  pub nonblocking : Bool
  pub epoll : Option ℕ
  pub watched : Bool

abbrev pub new_server : ℕ → ℤ → ℕ → Server
new_server fd port epoll_fd = record {
  server_fd = fd;
  port = some port;
  is_running = true;
  is_worker = false;
  epoll_fd = epoll_fd;
}

-- The server, or none for -1, and the calls.
unfoldable pub server_init : ServerSetup → ℤ → Option Server × List ServerCall
server_init s port = elim s.socket [
  | none ↦ (none, [])
  | some fd ↦
      if optimize_server_socket s.reuse_addr s.no_delay && s.bind && s.nonblocking
      then elim s.epoll [
        | none ↦ (none, create fd ∷ close_fd fd ∷ [])
        | some epoll_fd ↦ (some (new_server fd port epoll_fd), create fd ∷ create epoll_fd ∷ [])
      ]
      else (none, create fd ∷ close_fd fd ∷ [])
]

abbrev pub new_worker_server : ℕ → ℕ → Server
new_worker_server fd epoll_fd = record {
  server_fd = fd;
  port = none;
  is_running = false;
  is_worker = true;
  epoll_fd = epoll_fd;
}

unfoldable pub server_init_worker : ServerSetup → ℕ → Option Server × List ServerCall
server_init_worker s fd =
    if s.nonblocking
    then elim s.epoll [
      | none ↦ (none, [])
      | some epoll_fd ↦
          if s.watched
          then (some (new_worker_server fd epoll_fd), create epoll_fd ∷ watch fd ∷ [])
          else (none, create epoll_fd ∷ [])
    ]
    else (none, [])

-- What accept gives: a descriptor, and whether it is set non-blocking and added to epoll. At the end of
-- the list, -1.
pub record AcceptedClient : Type 0 where
  pub fd : ℕ
  pub nonblocking : Bool
  pub watched : Bool

abbrev pub accept_client : AcceptedClient → List ServerCall
accept_client a =
    if not a.nonblocking
    then create a.fd ∷ close_fd a.fd ∷ []
    else if a.watched
    then create a.fd ∷ watch a.fd ∷ []
    else create a.fd ∷ close_fd a.fd ∷ []

unfoldable pub handle_new_connection : List AcceptedClient → List ServerCall
handle_new_connection [] = []
handle_new_connection (a ∷ rest) = accept_client a ++ handle_new_connection rest

abbrev pub hello_response : Bytes
hello_response =
    codes "HTTP/1.1 200 OK\r\nContent-Type: text/plain\r\nContent-Length: 12\r\n\r\nHello World!"

-- What read gives: bytes, the end of the stream, or -1.
pub data ReadResult : Type 0 where
  some_bytes end_of_stream read_error : ReadResult

-- What is read is answered, whatever it is.
abbrev pub handle_client_data : ReadResult → ℕ → List ServerCall
handle_client_data some_bytes fd = write fd hello_response ∷ close_fd fd ∷ []
handle_client_data end_of_stream fd = []
handle_client_data read_error fd = []

-- An event: the descriptor, with what accept or read give when it is handled.
pub record ServerEvent : Type 0 where
  pub fd : ℕ
  pub accepted : List AcceptedClient
  pub read : ReadResult

abbrev pub dispatch_event : ℕ → ServerEvent → List ServerCall
dispatch_event server_fd e =
    if e.fd == server_fd then handle_new_connection e.accepted else handle_client_data e.read e.fd

unfoldable pub dispatch_events : ℕ → List ServerEvent → List ServerCall
dispatch_events server_fd [] = []
dispatch_events server_fd (e ∷ es) = dispatch_event server_fd e ++ dispatch_events server_fd es

-- while (1), as long as epoll_wait gives events; its failure ends the list.
unfoldable pub server_run : List (List ServerEvent) → Server → List ServerCall
unfolding dispatch_events
server_run [] s = []
server_run (events ∷ waits) s = dispatch_events s.server_fd events ++ server_run waits s

abbrev pub server_cleanup : Server → List ServerCall
server_cleanup s = close_fd s.epoll_fd ∷ []

-- The backlog with the limit that the text of the file gives, if it can be read and is positive.
abbrev pub limit_of : Option Bytes → ℕ
limit_of none = 0
limit_of (some text) = elim (atoi (fgets 15 text).0) [ pos n ↦ n | negsuc n ↦ 0 ]

abbrev pub backlog : ℕ → Option Bytes → Option Bytes → ℕ
backlog somaxconn first second =
    let raised = if limit_of first == 0 then somaxconn else limit_of first in
    if not (limit_of second == 0) && ltb (limit_of second) raised then limit_of second else raised

-- Whether 0 is returned, the backlog given to listen, and the calls.
abbrev pub server_start :
    ℕ → Option Bytes → Option Bytes → (ℕ → Bool) → Bool → Server → Bool × ℕ × List ServerCall
server_start somaxconn first second listen watched s =
    let size = backlog somaxconn first second in
    if not (listen size)
    then (false, size, [])
    else if watched
    then (true, size, watch s.server_fd ∷ [])
    else (false, size, [])
