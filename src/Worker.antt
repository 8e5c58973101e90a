-- ===== src/Worker.antt =====
-- The clients of a worker: client_conn_t and worker_t of include/worker.h and, of src/worker.c,
-- worker_handle_connection, worker_remove_client, worker_handle_timeout and
-- worker_handle_client_write. What the system answers is an argument; the calls that concern a
-- descriptor are recorded in order.
pub mod Data
pub mod Events
pub mod Connection
pub mod Remove
pub mod Buffers
pub mod Keeping
pub mod Steps
pub mod Start
pub mod Timeout
mod Tests
use nx_lite.Base.{
  ℕ, zero, suc, ◌+◌, ◌-◌, Bool, true, false, not, ◌&&◌, ◌||◌, Option, none, some, List, [], ◌∷◌,
  ◌++◌, ltb, leb, ◌==◌, if◌then◌else◌, length, take, get_or, set, Bytes, codes,
}
use nx_lite.Mempool.{Pool, Memory, allocated, failed, crashed, mempool_alloc, mempool_free}
use nx_lite.RateLimit.Entries.{Table, decrement_connection_count}
use nx_lite.Http.Response.{Response, http_free_response, zero_response}
use nx_lite.Http.Send.{Socket, complete, blocked, failure, overflow, stuck, http_send_response}

abbrev pub max_connections : ℕ
max_connections = 100000

abbrev pub slow_loris_timeout : ℕ
slow_loris_timeout = 10

-- The pending response is none where has_pending_response is 0.
pub record Client : Type 0 where
  pub fd : ℕ
  pub timer_fd : ℕ
  pub last_activity : ℕ
  pub buffer : Option ℕ
  pub keep_alive : Bool
  pub pending_response : Option Response
  pub connection_start : ℕ
  pub client_ip : Bytes
  pub bytes_received : ℕ

abbrev pub zero_client : Client
zero_client = record {
  fd = 0;
  timer_fd = 0;
  last_activity = 0;
  buffer = none;
  keep_alive = false;
  pending_response = none;
  connection_start = 0;
  client_ip = [];
  bytes_received = 0;
}

-- A call that adds a descriptor to epoll, takes it out, changes what is waited for on it, or closes it.
pub data SystemCall : Type 0 where
  epoll_add epoll_del epoll_mod close_fd : ℕ → SystemCall

-- The first client_count clients of the array, the rate limit table of the process, and the calls
-- made so far.
pub record Worker : Type 0 where
  pub keep_alive_timeout : ℕ
  pub clients : List Client
  pub buffer_pool : Pool
  pub rate_limits : Table
  pub calls : List SystemCall

-- for (i = 0; i < client_count; i++) if (clients[i].fd == fd)
unfoldable pub find_client : ℕ → List Client → Option ℕ
find_client fd [] = none
find_client fd (c ∷ cs) =
    let rest = find_client fd cs in
    if c.fd == fd then some 0 else elim rest [ none ↦ none | some i ↦ some (suc i) ]

unfoldable pub find_timer : ℕ → List Client → Option ℕ
find_timer timer_fd [] = none
find_timer timer_fd (c ∷ cs) =
    let rest = find_timer timer_fd cs in
    if c.timer_fd == timer_fd then some 0 else elim rest [ none ↦ none | some i ↦ some (suc i) ]

-- The last client takes the place of client i, and there is one client less.
unfoldable pub swap_remove : ℕ → List Client → List Client
swap_remove i cs =
    let last = length cs - 1 in
    take last (if ltb i last then set cs i (get_or cs last zero_client) else cs)

-- The descriptors that go with a client, in the order of the calls.
unfoldable pub release_calls : Client → List SystemCall
unfolding http_free_response
release_calls c =
    let file : Option ℕ = elim c.pending_response [
      | none ↦ none
      | some r ↦ (http_free_response r).1
    ] in
    epoll_del c.fd ∷ epoll_del c.timer_fd ∷ (elim file [ none ↦ [] | some f ↦ close_fd f ∷ [] ])
    ++ close_fd c.fd ∷ close_fd c.timer_fd ∷ []

unfoldable pub remove_client_at : ℕ → Worker → Worker
unfolding swap_remove release_calls
remove_client_at i w =
    let c = get_or w.clients i zero_client in
    record w {
      clients = swap_remove i w.clients;
      buffer_pool = mempool_free c.buffer w.buffer_pool;
      rate_limits = decrement_connection_count (some c.client_ip) w.rate_limits;
      calls = w.calls ++ release_calls c;
    }

unfoldable pub worker_remove_client : ℕ → Worker → Worker
unfolding find_client remove_client_at
worker_remove_client fd w = elim (find_client fd w.clients) [
  | none ↦ w
  | some i ↦ remove_client_at i w
]

-- A client that sent one to three bytes, ten seconds or more after it connected.
abbrev pub is_slow_loris : ℕ → Client → Bool
is_slow_loris now c =
    ltb 0 c.bytes_received
    && ltb c.bytes_received 4
    && leb slow_loris_timeout (now - c.connection_start)

abbrev pub is_idle : ℕ → ℕ → Client → Bool
is_idle now timeout c = leb timeout (now - c.last_activity)

unfoldable pub worker_handle_timeout : ℕ → ℕ → Worker → Worker
unfolding find_timer worker_remove_client
worker_handle_timeout now timer_fd w = elim (find_timer timer_fd w.clients) [
  | none ↦ w
  | some i ↦
      let c = get_or w.clients i zero_client in
      let removed = worker_remove_client c.fd w in
      if is_slow_loris now c
      then removed
      else if is_idle now w.keep_alive_timeout c
      then removed
      else w
]

-- What the system answers while a connection is set up: whether the seven socket options, the
-- non-blocking mode and epoll accept the descriptor; the timer, and whether it can be set and added
-- to epoll; the address of the peer, if it has one.
pub record Setup : Type 0 where
  pub options : List Bool
  pub nonblocking : Bool
  pub epoll : Bool
  pub timer : Option ℕ
  pub timer_set : Bool
  pub timer_epoll : Bool
  pub memory : Memory
  pub peer : Option Bytes

abbrev pub all_set : List Bool → Bool
all_set [] = true
all_set (b ∷ bs) = b && all_set bs

abbrev pub call : List SystemCall → Worker → Worker
call more w = record w { calls = w.calls ++ more }

unfoldable pub create_timeout_timer : Setup → Option ℕ × List SystemCall
create_timeout_timer s = elim s.timer [
  | none ↦ (none, [])
  | some t ↦ if s.timer_set then (some t, []) else (none, close_fd t ∷ [])
]

abbrev pub new_client : ℕ → ℕ → ℕ → ℕ → Setup → Client
new_client now client_fd timer_fd buffer s = record {
  fd = client_fd;
  timer_fd = timer_fd;
  last_activity = now;
  buffer = some buffer;
  keep_alive = true;
  pending_response = none;
  connection_start = now;
  client_ip = elim s.peer [ none ↦ codes "unknown" | some ip ↦ ip ];
  bytes_received = 0;
}

-- The part behind the timer; none where the allocation reads through a null pointer.
unfoldable pub admit_client : ℕ → Setup → ℕ → ℕ → Worker → Option Worker
admit_client now s client_fd timer_fd w = elim (mempool_alloc s.memory w.buffer_pool) [
  | crashed ↦ none
  | failed ↦ some (call (close_fd timer_fd ∷ close_fd client_fd ∷ []) w)
  | allocated buffer pool ↦
      if leb max_connections (length w.clients)
      then some (
          call (close_fd timer_fd ∷ close_fd client_fd ∷ [])
            (record w { buffer_pool = mempool_free (some buffer) pool }))
      else some (record w {
        clients = w.clients ++ new_client now client_fd timer_fd buffer s ∷ [];
        buffer_pool = pool;
      })
]

unfoldable pub worker_handle_connection : ℕ → Setup → ℕ → Worker → Option Worker
unfolding create_timeout_timer admit_client
worker_handle_connection now s client_fd w =
    if not (all_set s.options && s.nonblocking && s.epoll)
    then some (call (close_fd client_fd ∷ []) w)
    else let timer = create_timeout_timer s in
      let added = call (epoll_add client_fd ∷ timer.1) w in
      elim timer.0 [
        | none ↦ some (call (close_fd client_fd ∷ []) added)
        | some timer_fd ↦
            if s.timer_epoll
            then admit_client now s client_fd timer_fd (call (epoll_add timer_fd ∷ []) added)
            else some (call (close_fd timer_fd ∷ close_fd client_fd ∷ []) added)
      ]

unfoldable pub set_client : ℕ → Client → Worker → Worker
set_client i c w = record w { clients = set w.clients i c }

-- Waiting for input again; the client is removed if epoll refuses.
unfoldable pub resume_reading : Bool → ℕ → Worker → Worker
unfolding worker_remove_client
resume_reading modified fd w =
    let asked = call (epoll_mod fd ∷ []) w in
    let removed = worker_remove_client fd asked in if modified then asked else removed

-- A pending response that was sent: its file is closed.
unfoldable pub finish_pending : ℕ → Client → Response → Worker → Worker
unfolding set_client http_free_response
finish_pending i c r w =
    let closed : List SystemCall = elim (http_free_response r).1 [
      | none ↦ []
      | some f ↦ close_fd f ∷ []
    ] in
    call closed (set_client i (record c { pending_response = none }) w)

-- Client i can be written to; none where the header block of its pending response does not fit the
-- buffer.
unfoldable pub write_client :
    Socket → Bytes → Bool → ℕ → ℕ → Client → Option Response → Worker → Option Worker
unfolding set_client finish_pending resume_reading worker_remove_client
write_client io file modified fd i c none w = some (resume_reading modified fd (set_client i c w))
write_client io file modified fd i c (some r) w =
    let sent = http_send_response io file r in
    let kept = set_client i (record c { pending_response = some sent.response }) w in
    let finished = finish_pending i c sent.response w in
    elim sent.code [
      | failure ↦ some (worker_remove_client fd kept)
      | blocked ↦ some kept
      | complete ↦
          if c.keep_alive
          then some (resume_reading modified fd finished)
          else some (worker_remove_client fd finished)
      | overflow ↦ none
      | stuck ↦ none
    ]

unfoldable pub worker_handle_client_write : ℕ → Socket → Bytes → Bool → ℕ → Worker → Option Worker
unfolding find_client write_client
worker_handle_client_write now io file modified fd w = elim (find_client fd w.clients) [
  | none ↦ some w
  | some i ↦
      let c = record (get_or w.clients i zero_client) { last_activity = now } in
      write_client io file modified fd i c c.pending_response w
]
