-- ===== src/Worker/Events.antt =====
-- worker_run and worker_cleanup of src/worker.c, over the handlers of a worker. What epoll_wait and
-- accept4 give is a parameter; a signal that ends the loop is the end of the list of waits.
pub mod Accepting
pub mod Exit
mod Tests
use nx_lite.Base.{
  ℕ, zero, suc, ◌+◌, ◌-◌, Bool, true, false, not, ◌&&◌, ◌||◌, Option, none, some, List, [], ◌∷◌,
  ◌++◌, ltb, leb, ◌==◌, if◌then◌else◌, length, get_or, Bytes,
}
use nx_lite.Mempool.{Pool, mempool_free, mempool_cleanup}
use nx_lite.RateLimit.Entries.{check_rate_limit, cleanup_rate_limit_table}
use nx_lite.Http.Response.{Response, http_free_response}
use nx_lite.Http.Cache.{Cache}
use nx_lite.Http.Send.{Socket}
use nx_lite.Worker.{
  Client, zero_client, Worker, SystemCall, close_fd, call, Setup, worker_remove_client,
  worker_handle_connection, worker_handle_client_write,
}
use nx_lite.Worker.Data.{
  Incoming, System, Handled, DataResult, handled, corrupted, unfinished, worker_handle_client_data,
}

-- What accept4 gives: a descriptor, with the address of the client and what the system answers while
-- the connection is set up; EAGAIN; EMFILE or ENFILE; or another error.
pub data AcceptResult : Type 0 where
  connection : ℕ → Bytes → Setup → AcceptResult
  nothing too_many accept_error : AcceptResult

abbrev pub max_accept_per_cycle : ℕ
max_accept_per_cycle = 2000

-- A loop that ends; one that reads through a null pointer; and the model short of rounds.
pub data AcceptRun : Type 0 where
  accepted : Worker → AcceptRun
  crash short : AcceptRun

-- for (j = 0; j < client_count && closed < 10; j++): clients idle for more than five seconds are
-- removed. The client that takes the place of one is passed over. Also how many were closed.
unfoldable pub close_idle : ℕ → ℕ → ℕ → ℕ → Worker → Worker × ℕ
close_idle zero now j closed w = (w, closed)
close_idle (suc fuel) now j closed w =
    let c = get_or w.clients j zero_client in
    let idle = ltb 5 (now - c.last_activity) in
    let rest =
      close_idle fuel now (j + 1) (if idle then closed + 1 else closed)
        (if idle then worker_remove_client c.fd w else w) in
    if ltb j (length w.clients) && ltb closed 10 then rest else (w, closed)

-- A connection that is not allowed is closed.
unfoldable pub admit : Bool → ℕ → ℕ → Bytes → Setup → Worker → Option Worker
admit development_mode now fd ip s w =
    let (limits, allowed) = check_rate_limit development_mode now (some ip) w.rate_limits in
    let counted : Worker = record w { rate_limits = limits } in
    if allowed
    then worker_handle_connection now s fd counted
    else some (call (close_fd fd ∷ []) counted)

-- Call number k of accept4, after so many connections.
unfoldable pub accept_loop : ℕ → (ℕ → AcceptResult) → Bool → ℕ → ℕ → ℕ → Worker → AcceptRun
unfolding close_idle admit
accept_loop zero accepts dev now k count w = short
accept_loop (suc fuel) accepts dev now k count w =
    if leb max_accept_per_cycle count then accepted w else elim (accepts k) [
      | nothing ↦ accepted w
      | accept_error ↦ accepted w
      | too_many ↦
          let (w', closed) = close_idle (length w.clients) now 0 0 w in
          elim closed [
            | zero ↦ accepted w'
            | suc n ↦ accept_loop fuel accepts dev now (k + 1) count w'
          ]
      | connection fd ip s ↦ elim (admit dev now fd ip s w) [
        | none ↦ crash
        | some w' ↦ accept_loop fuel accepts dev now (k + 1) (count + 1) w'
      ]
    ]

-- Rounds for 2000 connections and for each client to be closed once.
abbrev pub accept_rounds : ℕ → Worker → ℕ
accept_rounds count w =
    (max_accept_per_cycle - count) + ((max_accept_per_cycle - count) + length w.clients) + 1

-- The descriptor of an event, and its flags: EPOLLERR or EPOLLHUP, EPOLLIN, EPOLLOUT and EPOLLRDHUP.
pub record Event : Type 0 where
  pub fd : ℕ
  pub failed : Bool
  pub input : Bool
  pub output : Bool
  pub hung_up : Bool

-- What the system answers while an event is handled.
pub record Answers : Type 0 where
  pub now : ℕ
  pub development_mode : Bool
  pub accepts : ℕ → AcceptResult
  pub system : System
  pub incoming : Incoming
  pub socket : Socket
  pub file : Bytes
  pub epoll_set : Bool

-- The worker and the cache of its process; is_running.
pub record Loop : Type 0 where
  pub worker : Worker
  pub cache : Cache
  pub is_running : Bool

-- none where a handler writes behind a buffer or reads through a null pointer.
unfoldable pub accept_event : Answers → Loop → Option Loop
accept_event a l =
    elim (accept_loop (accept_rounds 0 l.worker) a.accepts a.development_mode a.now 0 0 l.worker) [
      | accepted w ↦ some (record l { worker = w })
      | crash ↦ none
      | short ↦ none
    ]

unfoldable pub data_event : ℕ → Answers → Loop → Option Loop
data_event fd a l = elim (worker_handle_client_data a.system a.incoming a.now fd l.worker l.cache) [
  | handled h ↦ some (record l { worker = h.worker; cache = h.cache })
  | corrupted ↦ none
  | unfinished ↦ none
]

unfoldable pub write_event : ℕ → Answers → Loop → Option Loop
write_event fd a l =
    elim (worker_handle_client_write a.now a.socket a.file a.epoll_set fd l.worker) [
      | none ↦ none
      | some w ↦ some (record l { worker = w })
    ]

abbrev pub remove_event : ℕ → Loop → Loop
remove_event fd l = record l { worker = worker_remove_client fd l.worker }

-- An event, for the listening socket of that descriptor.
unfoldable pub handle_event : ℕ → Event → Answers → Loop → Option Loop
handle_event server_fd ev a l =
    if ev.failed
    then some (if ev.fd == server_fd then record l { is_running = false } else remove_event ev.fd l)
    else if ev.fd == server_fd && ev.input
    then accept_event a l
    else if ev.input
    then data_event ev.fd a l
    else if ev.output
    then write_event ev.fd a l
    else if ev.hung_up
    then some (remove_event ev.fd l)
    else some l

-- for (i = 0; i < nfds; i++); the loop ends when the listening socket fails.
unfoldable pub handle_events : ℕ → List (Event × Answers) → Loop → Option Loop
handle_events server_fd [] l = some l
handle_events server_fd ((ev, a) ∷ evs) l = elim (handle_event server_fd ev a l) [
  | none ↦ none
  | some l' ↦ elim l'.is_running [ true ↦ handle_events server_fd evs l' | false ↦ some l' ]
]

-- What epoll_wait gives: an error other than EINTR; EINTR, or nothing in time; or events, and the
-- time when they are handled.
pub data Wait : Type 0 where
  wait_error no_events : Wait
  events : List (Event × Answers) → ℕ → Wait

-- Every ten seconds the rate limit table is cleaned up. The time of the last clean up is kept.
unfoldable pub report_stats : ℕ → ℕ → Loop → Loop × ℕ
report_stats now last_stats_time l =
    if leb 10 (now - last_stats_time)
    then (
      record l {
        worker = record l.worker {
          rate_limits = cleanup_rate_limit_table now l.worker.rate_limits;
        };
      },
      now,
    )
    else (l, last_stats_time)

unfoldable pub run_loop : ℕ → List Wait → ℕ → Loop → Option Loop
run_loop server_fd [] last l = some l
run_loop server_fd (wait_error ∷ waits) last l = some l
run_loop server_fd (no_events ∷ waits) last l = run_loop server_fd waits last l
run_loop server_fd (events evs now ∷ waits) last l = elim (handle_events server_fd evs l) [
  | none ↦ none
  | some l' ↦
      let (l'', last') = report_stats now last l' in
      elim l''.is_running [ true ↦ run_loop server_fd waits last' l'' | false ↦ some l'' ]
]

-- The descriptors that are closed for a client when the loop has ended, where they are positive.
unfoldable pub shutdown_calls : Client → List SystemCall
shutdown_calls c =
    (if ltb 0 c.fd then close_fd c.fd ∷ [] else [])
    ++ ((if ltb 0 c.timer_fd then close_fd c.timer_fd ∷ [] else []) ++ (elim c.pending_response [
      | none ↦ []
      | some r ↦ elim (http_free_response r).1 [ none ↦ [] | some f ↦ close_fd f ∷ [] ]
    ]))

-- Each client gives back its buffer, and makes its calls.
unfoldable pub release_clients :
    (Client → List SystemCall) → List Client → Pool × List SystemCall → Pool × List SystemCall
release_clients f [] s = s
release_clients f (c ∷ cs) (pool, calls) =
    release_clients f cs (mempool_free c.buffer pool, calls ++ f c)

-- The clients are closed, but kept in the array.
unfoldable pub close_clients : Worker → Worker
unfolding release_clients
close_clients w =
    let (pool, calls) = release_clients shutdown_calls w.clients (w.buffer_pool, w.calls) in
    record w { buffer_pool = pool; calls = calls }

-- The whole of worker_run, where there is memory for its array of events.
unfoldable pub worker_run : ℕ → List Wait → ℕ → Loop → Option Loop
unfolding run_loop close_clients
worker_run server_fd waits now l =
    elim (if l.is_running then run_loop server_fd waits now l else some l) [
      | none ↦ none
      | some l' ↦ some (record l' { worker = close_clients l'.worker })
    ]

abbrev pub cleanup_calls : Client → List SystemCall
cleanup_calls c = close_fd c.fd ∷ close_fd c.timer_fd ∷ []

-- The array of clients is freed.
unfoldable pub worker_cleanup : ℕ → Worker → Worker
unfolding release_clients
worker_cleanup epoll_fd w =
    let (pool, calls) = release_clients cleanup_calls w.clients (w.buffer_pool, w.calls) in
    record w {
      clients = [];
      buffer_pool = (mempool_cleanup pool).0;
      calls = calls ++ close_fd epoll_fd ∷ [];
    }
