-- ===== src/Worker/Data/Total.antt =====
-- About worker_handle_client_data of src/worker.c: that it ends, and what it keeps of a worker.
use nx_lite.Base.{
  ℕ, zero, suc, ◌+◌, ◌<◌, ◌≤◌, ◌≡◌, refl, subst, ap, ◌≢◌, inl, inr, Bool, true, false, ◌&&◌, List,
  [], ◌∷◌, ◌++◌, length, length-drop, drop, get_or, map, Bytes, strstr, arith, Bool-cases,
  Option-cases,
}
use nx_lite.Http.Parse.{http_parse_request, crlf}
use nx_lite.Http.Parse.Total.{http_parse_request_total}
use nx_lite.Http.Response.{Response}
use nx_lite.Http.Cache.{Cache}
use nx_lite.Http.Send.{http_send_response}
use nx_lite.Http.Send.Total.{http_send_response_total}
use nx_lite.Http.Serve.{Serving}
use nx_lite.Http.Handle.{http_handle_request}
use nx_lite.Worker.{
  Client, zero_client, Worker, SystemCall, close_fd, epoll_mod, find_client, worker_remove_client,
  set_client, call,
}
use nx_lite.Worker.Data.{
  Incoming, ReadResult, read_loop, System, Handled, DataResult, handled, corrupted, unfinished,
  Progress, returned, continued, c_string, refusal, refuse_request, suspend, complete_request,
  answer_request, handle_one, process_requests, process_text, handle_reading, read_client,
  worker_handle_client_data,
}
use nx_lite.Worker.Data.Reading.{ReadsFor, read_client-ReadsFor}
use nx_lite.Worker.Data.Cases.{
  strstr-length, c_string-length, SendCode-cases, ParseResult-cases, Progress-cases, List-cases,
  ReadEnd-cases,
}

-- The handler ends, in a worker for which Q holds unless it writes behind a buffer.
abbrev pub Ends : (Worker → Type 0) → DataResult → Type 0
Ends Q (handled h) = Q h.worker
Ends Q corrupted = Unit
Ends Q unfinished = unfinished ≢ unfinished

-- The same after one request; what is left of the buffer is shorter by its length.
abbrev EndsOrGoesOn : (Worker → Type 0) → ℕ → Bytes → Progress → Type 0
EndsOrGoesOn Q len buffer (returned r) = Ends Q r
EndsOrGoesOn Q len buffer (continued h rest) = Q h.worker × (rest ≡ drop len buffer)

-- What removing a client, a call and a change of a client keep, the handler keeps.
module _ (Q : Worker → Type 0)
    (removes : (fd : ℕ) (w : Worker) → Q w → Q (worker_remove_client fd w))
    (calls : (more : List SystemCall) (w : Worker) → Q w → Q (call more w))
    (sets : (i : ℕ) (c : Client) (w : Worker)
      → c.fd ≡ (get_or w.clients i zero_client).fd
      → c.timer_fd ≡ (get_or w.clients i zero_client).timer_fd
      → c.buffer ≡ (get_or w.clients i zero_client).buffer
      → Q w
      → Q (set_client i c w)) where
  refuse_request-Ends :
      (sys : System) (n fd code : ℕ) (h : Handled)
      → Q h.worker
      → Ends Q (refuse_request sys n fd code h)
  unfolding refuse_request
  refuse_request-Ends sys n fd code h v =
      elim (SendCode-cases (http_send_response (sys.socket n) (sys.file n) (refusal code)).code
        (http_send_response_total (sys.socket n) (sys.file n) (refusal code))) [
          | inl (inl e) ↦ simp (refuse_request, e) (removes fd h.worker v)
          | inl (inr e) ↦ simp (refuse_request, e) (removes fd h.worker v)
          | inr (inl e) ↦ simp (refuse_request, e) (removes fd h.worker v)
          | inr (inr e) ↦ simp (refuse_request, e) tt
        ]

  suspend_keeps :
      (epoll_set : Bool) (fd i : ℕ) (r : Response) (h : Handled)
      → Q h.worker
      → Q (suspend epoll_set fd i r h).worker
  unfolding suspend
  suspend_keeps true fd i r h v = sets i _ _ refl refl refl (calls (epoll_mod fd ∷ []) h.worker v)
  suspend_keeps false fd i r h v = removes fd _ (calls (epoll_mod fd ∷ []) h.worker v)

  complete_request-EndsOrGoesOn :
      (sys : System) (n fd len : ℕ) (keep_alive : Bool) (r : Response) (h : Handled)
      (buffer : Bytes)
      → Q h.worker
      → EndsOrGoesOn Q len buffer (complete_request sys n fd keep_alive r h (drop len buffer))
  unfolding complete_request
  complete_request-EndsOrGoesOn sys n fd len keep_alive r h buffer v =
      elim (Bool-cases (keep_alive && sys.timer_set n)) [
        | inl stays ↦ simp (complete_request, stays) (calls _ h.worker v, refl)
        | inr goes ↦ simp (complete_request, goes) (removes fd _ (calls _ h.worker v))
      ]

  answer_request-EndsOrGoesOn :
      (sys : System) (n fd i len : ℕ) (s : Serving) (h : Handled) (buffer : Bytes)
      → Q h.worker
      → EndsOrGoesOn Q len buffer (answer_request sys n fd i s h (drop len buffer))
  unfolding answer_request
  answer_request-EndsOrGoesOn sys n fd i len s h buffer v =
      elim (SendCode-cases (http_send_response (sys.socket n) (sys.file n) s.response).code
        (http_send_response_total (sys.socket n) (sys.file n) s.response)) [
          | inl (inl e) ↦ simp (answer_request, e) (removes fd _ sent)
          | inl (inr e) ↦ simp (answer_request, e) (suspend_keeps (sys.epoll_set n) fd i _ _ sent)
          | inr (inl e) ↦
              simp (answer_request, e)
                (complete_request-EndsOrGoesOn sys n fd len s.response.keep_alive _ _ buffer sent)
          | inr (inr e) ↦ simp (answer_request, e) tt
        ]
    where
      asked : Worker
      asked =
          set_client i
            (record (get_or h.worker.clients i zero_client) { keep_alive = s.response.keep_alive })
            h.worker

      sent : Q (call (map close_fd s.closed) asked)
      sent = calls (map close_fd s.closed) asked (sets i _ h.worker refl refl refl v)

  handle_one-EndsOrGoesOn :
      (sys : System) (n fd i len : ℕ) (buffer : Bytes) (h : Handled)
      → Q h.worker
      → EndsOrGoesOn Q len buffer (handle_one sys n fd i len buffer h)
  unfolding handle_one
  handle_one-EndsOrGoesOn sys n fd i len buffer h v =
      elim (ParseResult-cases (http_parse_request (c_string buffer) len)
        (http_parse_request_total (c_string buffer) len)) [
          | inr (inl e) ↦ simp (handle_one, e) (refuse_request-Ends sys n fd 413 h v)
          | inr (inr (inl e)) ↦ simp (handle_one, e) (refuse_request-Ends sys n fd 505 h v)
          | inr (inr (inr e)) ↦ simp (handle_one, e) (refuse_request-Ends sys n fd 400 h v)
          | inl (q, e) ↦
              elim (Option-cases
                (http_handle_request sys.realpath (sys.library n) sys.config q h.cache)) [
                  | inl e1 ↦ simp (handle_one, e, e1) tt
                  | inr (s, e1) ↦
                      simp (handle_one, e, e1)
                        (answer_request-EndsOrGoesOn sys n fd i len s h buffer v)
                ]
        ]

  process_requests-Ends :
      (fuel : ℕ) (sys : System) (n fd i : ℕ) (buffer : Bytes) (h : Handled)
      → length buffer ≤ fuel
      → 0 < fuel
      → Q h.worker
      → Ends Q (process_requests fuel sys n fd i buffer h)
  unfolding process_requests
  process_requests-Ends zero sys n fd i buffer h small pos v = absurd (omega arith)
  process_requests-Ends (suc fuel) sys n fd i buffer h small pos v =
      elim (Option-cases (strstr (c_string buffer) (crlf ++ crlf))) [
        | inl e ↦ simp (process_requests, e) v
        | inr (end, e) ↦
            let fits : 4 ≤ length buffer = omega (
              arith,
              strstr-length (c_string buffer) (crlf ++ crlf) end e,
              c_string-length buffer,
            ) in
            let one = handle_one-EndsOrGoesOn sys n fd i (end + 4) buffer h v in
            elim (Progress-cases (handle_one sys n fd i (end + 4) buffer h)) [
              | inl (r, e1) ↦
                  simp (process_requests, e, e1) (subst (EndsOrGoesOn Q (end + 4) buffer) e1 one)
              | inr (h', rest, e1) ↦
                  let (v', same) = subst (EndsOrGoesOn Q (end + 4) buffer) e1 one in
                  simp (process_requests, e, e1)
                    (process_requests-Ends fuel sys (n + 1) fd i rest h'
                      (omega (arith, fits, small, ap length same, length-drop (end + 4) buffer))
                      (omega (arith, fits, small)) v')
            ]
      ]

  process_text-Ends :
      (sys : System) (now fd i : ℕ) (r : ReadResult) (h : Handled)
      → ReadsFor (get_or h.worker.clients i zero_client) r
      → Q h.worker
      → Ends Q (process_text sys now fd i r h)
  unfolding process_text
  process_text-Ends sys now fd i r h for v = elim (List-cases r.text) [
    | inr (b, text, e) ↦
        simp (process_text, e)
          (process_requests-Ends (suc (length text)) sys 0 fd i (b ∷ text)
            (record h { worker = set_client i (record r.client { last_activity = now }) h.worker })
            (omega arith) (omega arith)
            (sets i (record r.client { last_activity = now }) h.worker for.fd for.timer_fd
              for.buffer v))
    | inl e ↦
        let kept = sets i r.client h.worker for.fd for.timer_fd for.buffer v in
        elim (ReadEnd-cases r.end for.ended) [
          | inl e1 ↦ simp (process_text, e, e1) kept
          | inr (inl e1) ↦ simp (process_text, e, e1) (removes fd _ kept)
          | inr (inr (inl e1)) ↦ simp (process_text, e, e1) kept
          | inr (inr (inr e1)) ↦ simp (process_text, e, e1) kept
        ]
  ]

  handle_reading-Ends :
      (sys : System) (now fd i : ℕ) (r : ReadResult) (h : Handled)
      → ReadsFor (get_or h.worker.clients i zero_client) r
      → Q h.worker
      → Ends Q (handle_reading sys now fd i r h)
  unfolding handle_reading
  handle_reading-Ends sys now fd i r h for v = elim (ReadEnd-cases r.end for.ended) [
    | inl e ↦
        simp (handle_reading, e)
          (removes fd _ (sets i r.client h.worker for.fd for.timer_fd for.buffer v))
    | inr (inl e) ↦ simp (handle_reading, e) (process_text-Ends sys now fd i r h for v)
    | inr (inr (inl e)) ↦ simp (handle_reading, e) (process_text-Ends sys now fd i r h for v)
    | inr (inr (inr e)) ↦ simp (handle_reading, e) (process_text-Ends sys now fd i r h for v)
  ]

  read_client-Ends :
      (sys : System) (io : Incoming) (now fd i : ℕ) (h : Handled)
      → Q h.worker
      → Ends Q (read_client sys io now fd i h)
  unfolding read_client
  read_client-Ends sys io now fd i h v =
      let c = get_or h.worker.clients i zero_client in
      elim (Option-cases c.buffer) [
        | inl e ↦ simp (read_client, e) v
        | inr (block, e) ↦
            simp (read_client, e)
              (handle_reading-Ends sys now fd i (read_loop 8192 io now 0 c []) h
                (read_client-ReadsFor io now c) v)
      ]

  pub worker_handle_client_data-Ends :
      (sys : System) (io : Incoming) (now fd : ℕ) (w : Worker) (cache : Cache)
      → Q w
      → Ends Q (worker_handle_client_data sys io now fd w cache)
  unfolding worker_handle_client_data
  worker_handle_client_data-Ends sys io now fd w cache v =
      elim (Option-cases (find_client fd w.clients)) [
        | inl e ↦ simp (worker_handle_client_data, e) v
        | inr (i, e) ↦ simp (worker_handle_client_data, e) (read_client-Ends sys io now fd i _ v)
      ]

Ends-finished : (Q : Worker → Type 0) (r : DataResult) → Ends Q r → r ≢ unfinished
Ends-finished Q (handled h) v e = cc
Ends-finished Q corrupted v e = cc
Ends-finished Q unfinished v e = v e

-- Whatever recv, the sockets and the library functions answer, and whatever the client sends, the
-- handler of incoming data comes to an end.
pub worker_handle_client_data_total :
    (sys : System) (io : Incoming) (now fd : ℕ) (w : Worker) (cache : Cache)
    → worker_handle_client_data sys io now fd w cache ≢ unfinished
worker_handle_client_data_total sys io now fd w cache =
    Ends-finished (λ x. Unit) (worker_handle_client_data sys io now fd w cache)
      (worker_handle_client_data-Ends (λ x. Unit) (λ f x v. tt) (λ more x v. tt)
        (λ i c x same same_timer same_buffer v. tt) sys io now fd w cache tt)
