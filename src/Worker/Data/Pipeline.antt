-- ===== src/Worker/Data/Pipeline.antt =====
-- About worker_handle_client_data of src/worker.c, for requests that come one behind the other.
use nx_lite.Base.{
  drop-append, ℕ, zero, suc, ◌+◌, ◌<◌, ◌≤◌, ◌≡◌, refl, sym, subst, ap, ◌∙◌, inl, inr, Bool, true,
  false, ◌&&◌, Option, none, some, List, [], ◌∷◌, ◌++◌, if◌then◌else◌, length, length-append, drop,
  get_or, append_assoc, append-nil, Bytes, strstr, has_prefix, arith, Bool-cases, Option-cases,
  &&-true,
}
use nx_lite.Http.Parse.{Request, parsed, http_parse_request, crlf}
use nx_lite.Http.Response.{Response}
use nx_lite.Http.Cache.{Cache}
use nx_lite.Http.Send.{SendCode, complete, blocked, failure, overflow, stuck, http_send_response}
use nx_lite.Http.Serve.{Serving}
use nx_lite.Http.Handle.{http_handle_request}
use nx_lite.Worker.{Worker, find_client, zero_client}
use nx_lite.Worker.Data.Lost.{
  once, read_once, process_requests-none, worker_handle_client_data-once,
}
use nx_lite.Worker.Data.{
  System, Handled, DataResult, handled, Progress, continued, c_string, complete_request,
  answer_request, handle_one, process_requests, worker_handle_client_data,
}

-- Texts of requests, one behind the other: each ends with its empty line, and is parsed to its request.
pub data IsPipeline : Bytes → List Request → Type 0 where
  no_more : IsPipeline [] []
  request :
      (t rest : Bytes) (q : Request) (qs : List Request) (n : ℕ)
      → strstr (c_string (t ++ rest)) (crlf ++ crlf) ≡ some n
      → length t ≡ n + 4
      → http_parse_request (c_string (t ++ rest)) (n + 4) ≡ parsed q
      → IsPipeline rest qs
      → IsPipeline (t ++ rest) (q ∷ qs)

abbrev is_complete : SendCode → Bool
is_complete complete = true
is_complete _ = false

-- The specification: request number n and the following are handled one by one, with the cache that
-- the one before leaves, and the answers are sent in this order. It is none unless each answer is sent
-- whole and keeps the connection.
unfoldable pub answer_in_order : System → ℕ → Cache → List Request → Option (Cache × Bytes)
answer_in_order sys n cache [] = some (cache, [])
answer_in_order sys n cache (q ∷ qs) =
    elim (http_handle_request sys.realpath (sys.library n) sys.config q cache) [
      | none ↦ none
      | some s ↦
          let sent = http_send_response (sys.socket n) (sys.file n) s.response in
          if is_complete sent.code && (s.response.keep_alive && sys.timer_set n)
          then elim (answer_in_order sys (n + 1) s.cache qs) [
            | none ↦ none
            | some (cache', output) ↦ some (cache', sent.output ++ output)
          ]
          else none
    ]

-- The handler returns with that cache, having sent that output.
abbrev pub Sends : Cache → Bytes → DataResult → Type 0
Sends cache output r = (h : Handled) × (r ≡ handled h) × (h.cache ≡ cache) × (h.output ≡ output)

is_complete-true : (c : SendCode) → is_complete c ≡ true → c ≡ complete
is_complete-true complete h = refl
is_complete-true blocked h = absurd (ground (arith, h))
is_complete-true failure h = absurd (ground (arith, h))
is_complete-true overflow h = absurd (ground (arith, h))
is_complete-true stuck h = absurd (ground (arith, h))

-- The handler goes on behind the request, with that cache and that output.
abbrev GoesOn : Cache → Bytes → Bytes → Progress → Type 0
GoesOn cache output rest p =
    (h : Handled) × (p ≡ continued h rest) × (h.cache ≡ cache) × (h.output ≡ output)

GoesOn-if :
    (b : Bool) (h : Handled) (rest : Bytes) (p : Progress)
    → b ≡ true
    → GoesOn h.cache h.output rest (if b then continued h rest else p)
GoesOn-if true h rest p e = (h, refl, refl, refl)
GoesOn-if false h rest p e = absurd (ground (arith, e))

complete_request-GoesOn :
    (sys : System) (n fd : ℕ) (keep_alive : Bool) (r : Response) (h : Handled) (rest : Bytes)
    → (keep_alive && sys.timer_set n) ≡ true
    → GoesOn h.cache h.output rest (complete_request sys n fd keep_alive r h rest)
unfolding complete_request
complete_request-GoesOn sys n fd keep_alive r h rest stays =
    GoesOn-if (keep_alive && sys.timer_set n) _ rest _ stays

answer_request-GoesOn :
    (sys : System) (n fd i : ℕ) (s : Serving) (h : Handled) (rest : Bytes)
    → (http_send_response (sys.socket n) (sys.file n) s.response).code ≡ complete
    → (s.response.keep_alive && sys.timer_set n) ≡ true
    → GoesOn s.cache
        (h.output ++ (http_send_response (sys.socket n) (sys.file n) s.response).output)
        rest
        (answer_request sys n fd i s h rest)
unfolding answer_request
answer_request-GoesOn sys n fd i s h rest sent stays =
    simp (answer_request, sent)
      (complete_request-GoesOn sys n fd s.response.keep_alive _ _ rest stays)

handle_one-parsed :
    (sys : System) (n fd i len : ℕ) (buffer : Bytes) (h : Handled) (q : Request) (s : Serving)
    → http_parse_request (c_string buffer) len ≡ parsed q
    → http_handle_request sys.realpath (sys.library n) sys.config q h.cache ≡ some s
    → handle_one sys n fd i len buffer h ≡ answer_request sys n fd i s h (drop len buffer)
unfolding handle_one
handle_one-parsed sys n fd i len buffer h q s e e1 = simp (handle_one, e, e1) refl

handle_one-GoesOn :
    (sys : System) (n fd i len : ℕ) (t rest : Bytes) (h : Handled) (q : Request) (s : Serving)
    → length t ≡ len + 4
    → http_parse_request (c_string (t ++ rest)) (len + 4) ≡ parsed q
    → http_handle_request sys.realpath (sys.library n) sys.config q h.cache ≡ some s
    → (http_send_response (sys.socket n) (sys.file n) s.response).code ≡ complete
    → (s.response.keep_alive && sys.timer_set n) ≡ true
    → GoesOn s.cache
        (h.output ++ (http_send_response (sys.socket n) (sys.file n) s.response).output)
        rest
        (handle_one sys n fd i (len + 4) (t ++ rest) h)
handle_one-GoesOn sys n fd i len t rest h q s size parses handles sent stays =
    subst
      (GoesOn s.cache
        (h.output ++ (http_send_response (sys.socket n) (sys.file n) s.response).output) rest)
      (sym (
        handle_one-parsed sys n fd i (len + 4) (t ++ rest) h q s parses handles
        ∙ ap (answer_request sys n fd i s h)
            (ap (λ k. drop k (t ++ rest)) (sym size) ∙ drop-append t rest)))
      (answer_request-GoesOn sys n fd i s h rest sent stays)

process_requests-continued :
    (fuel : ℕ) (sys : System) (n fd i len : ℕ) (buffer rest : Bytes) (h h' : Handled)
    → strstr (c_string buffer) (crlf ++ crlf) ≡ some len
    → handle_one sys n fd i (len + 4) buffer h ≡ continued h' rest
    → process_requests (suc fuel) sys n fd i buffer h
      ≡ process_requests fuel sys (n + 1) fd i rest h'
unfolding process_requests
process_requests-continued fuel sys n fd i len buffer rest h h' e e1 =
    simp (process_requests, e, e1) refl

-- What the specification says of a run of the handler that has sent something already.
abbrev SendsIfSome : Bytes → Option (Cache × Bytes) → DataResult → Type 0
SendsIfSome before none r = Unit
SendsIfSome before (some (cache, output)) r = Sends cache (before ++ output) r

SendsIfSome-append :
    (before mid : Bytes) (o : Option (Cache × Bytes)) (r : DataResult)
    → SendsIfSome (before ++ mid) o r
    → SendsIfSome before
        (elim o [ none ↦ none | some (cache, output) ↦ some (cache, mid ++ output) ])
        r
SendsIfSome-append before mid none r s = tt
SendsIfSome-append before mid (some (cache, output)) r (h, e, same, sent) =
    (h, e, same, sent ∙ append_assoc before mid output)

no_end : strstr (c_string []) (crlf ++ crlf) ≡ none
unfolding strstr c_string has_prefix
no_end = refl

process_requests-SendsIfSome :
    (fuel : ℕ) (sys : System) (n fd i : ℕ) (buffer : Bytes) (qs : List Request) (h : Handled)
    → length buffer ≤ fuel
    → 0 < fuel
    → IsPipeline buffer qs
    → SendsIfSome h.output
        (answer_in_order sys n h.cache qs)
        (process_requests fuel sys n fd i buffer h)
unfolding answer_in_order
process_requests-SendsIfSome zero sys n fd i buffer qs h small pos p = absurd (omega arith)
process_requests-SendsIfSome (suc fuel) sys n fd i _ _ h small pos no_more =
    (h, process_requests-none fuel sys n fd i [] h no_end, refl, sym (append-nil h.output))
process_requests-SendsIfSome (suc fuel) sys n fd i _ _ h small pos
      (request t rest q qs len ends size parses p) =
    elim (Option-cases (http_handle_request sys.realpath (sys.library n) sys.config q h.cache)) [
      | inl e ↦ simp (answer_in_order, e) tt
      | inr (s, e) ↦
          elim (Bool-cases (
            is_complete (http_send_response (sys.socket n) (sys.file n) s.response).code
            && (s.response.keep_alive && sys.timer_set n))) [
              | inr stops ↦ simp (answer_in_order, e, stops) tt
              | inl stays ↦
                  let (sent, kept) = &&-true _ _ stays in
                  let (h', goes, same, output) =
                    handle_one-GoesOn sys n fd i len t rest h q s size parses e
                      (is_complete-true _ sent) kept in
                  let later =
                    process_requests-SendsIfSome fuel sys (n + 1) fd i rest qs h'
                      (omega (arith, small, size, length-append t rest))
                      (omega (arith, small, size, length-append t rest)) p in
                  simp (answer_in_order, e, stays)
                    (SendsIfSome-append h.output _ (answer_in_order sys (n + 1) s.cache qs) _ (
                      subst
                        (λ o.
                          SendsIfSome o (answer_in_order sys (n + 1) s.cache qs)
                            (process_requests (suc fuel) sys n fd i (t ++ rest) h))
                        output
                        (subst
                          (λ c.
                            SendsIfSome h'.output (answer_in_order sys (n + 1) c qs)
                              (process_requests (suc fuel) sys n fd i (t ++ rest) h))
                          same
                          (subst (SendsIfSome h'.output (answer_in_order sys (n + 1) h'.cache qs))
                            (sym (
                              process_requests-continued fuel sys n fd i len (t ++ rest) rest h h'
                                ends goes))
                            later))))
            ]
    ]

-- Requests of 2 to 8190 bytes in all that come at once, one behind the other, are answered in their
-- order, as the specification says: the same bytes are sent and the same cache is left as when they are
-- handled one by one, where each answer is sent whole and keeps the connection.
pub worker_handle_client_data-answer_in_order :
    (sys : System) (b : ℕ) (more : Bytes) (qs : List Request) (now fd i block : ℕ) (w : Worker)
    (cache cache' : Cache) (output : Bytes)
    → find_client fd w.clients ≡ some i
    → (get_or w.clients i zero_client).buffer ≡ some block
    → 0 < length more
    → length more < 8190
    → IsPipeline (b ∷ more) qs
    → answer_in_order sys 0 cache qs ≡ some (cache', output)
    → (h : Handled) × (worker_handle_client_data sys (once b more) now fd w cache ≡ handled h)
      × (h.cache ≡ cache')
      × (h.output ≡ output)
worker_handle_client_data-answer_in_order sys b more qs now fd i block w cache cache' output found
      buffer many room p e =
    let (h, ends, same, sent) =
      subst
        (λ o. SendsIfSome [] o (
          process_requests (suc (length more)) sys 0 fd i (b ∷ more)
            (record { worker = read_once b more now i w; cache = cache; output = [] })))
        e
        (process_requests-SendsIfSome (suc (length more)) sys 0 fd i (b ∷ more) qs
          (record { worker = read_once b more now i w; cache = cache; output = [] }) (omega arith)
          (omega arith) p) in
    (
      h,
      worker_handle_client_data-once sys b more now fd i block w cache found buffer many room
          ∙ ends,
      same,
      sent,
    )
