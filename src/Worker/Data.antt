-- ===== src/Worker/Data.antt =====
-- worker_handle_client_data of src/worker.c, over the models of parsing, request handling and
-- sending. What recv gives is a parameter, and so are the answers of the system to each request. The
-- text that is received stands for the buffer of the client: a call writes the buffer from its start,
-- and reads only what it has written itself.
pub mod Cases
pub mod Reading
pub mod Total
pub mod Lost
pub mod Pipeline
mod Tests
use nx_lite.Base.{
  ℕ, zero, suc, ◌+◌, ◌-◌, Bool, true, false, not, ◌&&◌, ◌||◌, Option, none, some, List, [], ◌∷◌,
  ◌++◌, ltb, leb, ◌==◌, if◌then◌else◌, length, take, drop, get_or, map, Bytes, strstr,
}
use nx_lite.Http.Parse.{
  ParseResult, Request, parsed, oversized, unsupported, malformed, out_of_fuel, http_parse_request,
  crlf,
}
use nx_lite.Http.Response.{Response, http_create_response, http_free_response}
use nx_lite.Http.Cache.{Cache}
use nx_lite.Http.Send.{Socket, complete, blocked, failure, overflow, stuck, http_send_response}
use nx_lite.Http.Serve.{Library, Serving}
use nx_lite.Http.Handle.{Config, http_handle_request}
use nx_lite.Worker.{
  Client, zero_client, Worker, SystemCall, close_fd, epoll_mod, find_client, worker_remove_client,
  set_client, call,
}

abbrev pub buffer_size : ℕ
buffer_size = 8192

-- What recv gives: at least one byte, 0, EAGAIN or EWOULDBLOCK, or another error.
pub data Received : Type 0 where
  bytes : ℕ → Bytes → Received
  end_of_stream would_block reset : Received

-- The answer of call number k, which asks for at most the given number of bytes.
abbrev pub Incoming : Type 0
Incoming = ℕ → ℕ → Received

-- How the loop of recv ends: the buffer is full, there is no more for now, the stream is closed or
-- broken, or the client is held for a slow loris.
pub data ReadEnd : Type 0 where
  full drained closed slow endless : ReadEnd

pub record ReadResult : Type 0 where
  pub client : Client
  pub text : Bytes
  pub end : ReadEnd

-- A single byte, more than 100 in all, and more than five seconds since the connection began.
abbrev pub is_dripping : ℕ → Bytes → Client → Bool
is_dripping now more c =
    length more == 0 && ltb 100 c.bytes_received && ltb 5 (now - c.connection_start)

unfoldable pub read_loop : ℕ → Incoming → ℕ → ℕ → Client → Bytes → ReadResult
read_loop zero io now k c text = record { client = c; text = text; end = endless }
read_loop (suc fuel) io now k c text = elim (io k (buffer_size - length text - 1)) [
  | end_of_stream ↦ record { client = c; text = text; end = closed }
  | reset ↦ record { client = c; text = text; end = closed }
  | would_block ↦ record { client = c; text = text; end = drained }
  | bytes b more ↦
      let text' = text ++ b ∷ more in
      let c' = record c { bytes_received = c.bytes_received + suc (length more) } in
      let rest = read_loop fuel io now (k + 1) c' text' in
      if leb (buffer_size - 1) (length text')
      then record { client = c'; text = text'; end = full }
      else if is_dripping now more c'
      then record { client = c'; text = text'; end = slow }
      else rest
]

-- What the handler uses beside the clients: realpath, the configuration and, for request number n,
-- the library functions, the socket, the content of the file that is sent, and whether epoll and the
-- timer can be set.
pub record System : Type 0 where
  pub realpath : Bytes → Option Bytes
  pub config : Config
  pub library : ℕ → Library
  pub socket : ℕ → Socket
  pub file : ℕ → Bytes
  pub epoll_set : ℕ → Bool
  pub timer_set : ℕ → Bool

-- The worker, the cache of the process, and what was sent to the client.
pub record Handled : Type 0 where
  pub worker : Worker
  pub cache : Cache
  pub output : Bytes

-- A handler that ends; one that writes behind a buffer; and the model short of rounds.
pub data DataResult : Type 0 where
  handled : Handled → DataResult
  corrupted unfinished : DataResult

-- After one request: the handler returns, or goes on with the bytes behind the request.
pub data Progress : Type 0 where
  returned : DataResult → Progress
  continued : Handled → Bytes → Progress

-- The text of a C string: what is in front of its NUL.
unfoldable pub c_string : Bytes → Bytes
c_string [] = []
c_string (c ∷ s) = let rest = c_string s in if c == 0 then [] else c ∷ rest

abbrev pub remove_from : ℕ → Handled → Handled
remove_from fd h = record h { worker = worker_remove_client fd h.worker }

abbrev pub refusal : ℕ → Response
refusal code = record (http_create_response code) { keep_alive = false }

-- A request that cannot be parsed is answered, however that goes, and the client is removed.
unfoldable pub refuse_request : System → ℕ → ℕ → ℕ → Handled → DataResult
refuse_request sys n fd code h =
    let sent = http_send_response (sys.socket n) (sys.file n) (refusal code) in
    let removed = remove_from fd (record h { output = h.output ++ sent.output }) in
    elim sent.code [
      | overflow ↦ corrupted
      | stuck ↦ unfinished
      | complete ↦ handled removed
      | blocked ↦ handled removed
      | failure ↦ handled removed
    ]

-- The rest of a response that would block is kept for later.
unfoldable pub suspend : Bool → ℕ → ℕ → Response → Handled → Handled
unfolding set_client
suspend epoll_set fd i r h =
    let w = call (epoll_mod fd ∷ []) h.worker in
    let c = get_or w.clients i zero_client in
    if epoll_set
    then record h { worker = set_client i (record c { pending_response = some r }) w }
    else record h { worker = worker_remove_client fd w }

-- The response was sent, and is freed.
unfoldable pub complete_request : System → ℕ → ℕ → Bool → Response → Handled → Bytes → Progress
complete_request sys n fd keep_alive r h rest =
    let files : List SystemCall = elim (http_free_response r).1 [
      | none ↦ []
      | some f ↦ close_fd f ∷ []
    ] in
    let freed : Handled = record h { worker = call files h.worker } in
    if keep_alive && sys.timer_set n
    then continued freed rest
    else returned (handled (remove_from fd freed))

-- The client takes over the decision to keep the connection, and the response is sent.
unfoldable pub answer_request : System → ℕ → ℕ → ℕ → Serving → Handled → Bytes → Progress
unfolding set_client suspend complete_request
answer_request sys n fd i s h rest =
    let sent = http_send_response (sys.socket n) (sys.file n) s.response in
    let c = get_or h.worker.clients i zero_client in
    let w = set_client i (record c { keep_alive = s.response.keep_alive }) h.worker in
    let h' : Handled = record {
      worker = call (map close_fd s.closed) w;
      cache = s.cache;
      output = h.output ++ sent.output;
    } in
    elim sent.code [
      | overflow ↦ returned corrupted
      | stuck ↦ returned unfinished
      | failure ↦ returned (handled (remove_from fd h'))
      | blocked ↦ returned (handled (suspend (sys.epoll_set n) fd i sent.response h'))
      | complete ↦ complete_request sys n fd s.response.keep_alive sent.response h' rest
    ]

-- One request, of req_len bytes at the head of the buffer.
unfoldable pub handle_one : System → ℕ → ℕ → ℕ → ℕ → Bytes → Handled → Progress
unfolding refuse_request answer_request
handle_one sys n fd i req_len buffer h = elim (http_parse_request (c_string buffer) req_len) [
  | oversized ↦ returned (refuse_request sys n fd 413 h)
  | unsupported ↦ returned (refuse_request sys n fd 505 h)
  | malformed ↦ returned (refuse_request sys n fd 400 h)
  | out_of_fuel ↦ returned unfinished
  | parsed request ↦
      elim (http_handle_request sys.realpath (sys.library n) sys.config request h.cache) [
        | none ↦ returned corrupted
        | some s ↦ answer_request sys n fd i s h (drop req_len buffer)
      ]
]

-- while (offset < total_read); what is left without the end of a request stays in the buffer.
unfoldable pub process_requests : ℕ → System → ℕ → ℕ → ℕ → Bytes → Handled → DataResult
process_requests zero sys n fd i buffer h = unfinished
process_requests (suc fuel) sys n fd i buffer h = elim (strstr (c_string buffer) (crlf ++ crlf)) [
  | none ↦ handled h
  | some end ↦ elim (handle_one sys n fd i (end + 4) buffer h) [
    | returned result ↦ result
    | continued h' rest ↦ process_requests fuel sys (n + 1) fd i rest h'
  ]
]

-- What was read from client i is processed.
unfoldable pub process_text : System → ℕ → ℕ → ℕ → ReadResult → Handled → DataResult
unfolding set_client process_requests
process_text sys now fd i r h = elim r.text [
  | [] ↦ elim r.end [
    | closed ↦ handled (remove_from fd (record h { worker = set_client i r.client h.worker }))
    | _ ↦ handled (record h { worker = set_client i r.client h.worker })
  ]
  | b ∷ text ↦
      let active = set_client i (record r.client { last_activity = now }) h.worker in
      process_requests (length r.text) sys 0 fd i r.text (record h { worker = active })
]

unfoldable pub handle_reading : System → ℕ → ℕ → ℕ → ReadResult → Handled → DataResult
unfolding set_client process_text
handle_reading sys now fd i r h = elim r.end [
  | slow ↦ handled (remove_from fd (record h { worker = set_client i r.client h.worker }))
  | endless ↦ unfinished
  | full ↦ process_text sys now fd i r h
  | drained ↦ process_text sys now fd i r h
  | closed ↦ process_text sys now fd i r h
]

-- Client i, if it has a buffer.
unfoldable pub read_client : System → Incoming → ℕ → ℕ → ℕ → Handled → DataResult
unfolding read_loop handle_reading
read_client sys io now fd i h =
    let c = get_or h.worker.clients i zero_client in
    elim c.buffer [
      | none ↦ handled h
      | some block ↦ handle_reading sys now fd i (read_loop buffer_size io now 0 c []) h
    ]

unfoldable pub worker_handle_client_data : System → Incoming → ℕ → ℕ → Worker → Cache → DataResult
unfolding find_client read_client
worker_handle_client_data sys io now fd w cache = elim (find_client fd w.clients) [
  | none ↦ handled (record { worker = w; cache = cache; output = [] })
  | some i ↦ read_client sys io now fd i (record { worker = w; cache = cache; output = [] })
]
