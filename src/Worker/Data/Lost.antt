-- ===== src/Worker/Data/Lost.antt =====
-- About worker_handle_client_data of src/worker.c, when a request comes in two parts.
use nx_lite.Base.{
  ℕ, zero, suc, ◌+◌, ◌<◌, ◌≡◌, refl, ap, ◌∙◌, inl, inr, false, none, some, List, [], ◌∷◌, ◌++◌, leb,
  ◌==◌, length, get_or, set, Bytes, strstr, arith, Bool-cases, Option-cases,
}
use nx_lite.Http.Parse.{crlf}
use nx_lite.Http.Cache.{Cache}
use nx_lite.Worker.{Client, zero_client, Worker, find_client, set_client}
use nx_lite.Worker.Data.{
  bytes, would_block, Incoming, drained, is_dripping, read_loop, System, Handled, handled, c_string,
  process_requests, process_text, handle_reading, read_client, worker_handle_client_data,
}

-- These bytes, and then nothing for now.
abbrev pub once : ℕ → Bytes → Incoming
once b more zero n = bytes b more
once b more (suc k) n = would_block

abbrev pub counted : ℕ → Bytes → Client → Client
counted b more c = record c { bytes_received = c.bytes_received + suc (length more) }

not_dripping :
    (now : ℕ) (more : Bytes) (c : Client) → 0 < length more → is_dripping now more c ≡ false
not_dripping now more c h =
    let some_more : (length more == 0) ≡ false = ground (arith, h) in simp some_more refl

read_loop-once :
    (fuel b now : ℕ) (more : Bytes) (c : Client)
    → 0 < length more
    → length more < 8190
    → read_loop (suc (suc fuel)) (once b more) now 0 c []
      ≡ record { client = counted b more c; text = b ∷ more; end = drained }
unfolding read_loop
read_loop-once fuel b now more c many room =
    let small : leb 8191 (length (b ∷ more)) ≡ false = ground (arith, room) in
    rw (small, not_dripping now more (counted b more c) many) refl

worker_handle_client_data-found :
    (sys : System) (io : Incoming) (now fd i : ℕ) (w : Worker) (cache : Cache)
    → find_client fd w.clients ≡ some i
    → worker_handle_client_data sys io now fd w cache
      ≡ read_client sys io now fd i (record { worker = w; cache = cache; output = [] })
unfolding worker_handle_client_data
worker_handle_client_data-found sys io now fd i w cache found =
    simp (worker_handle_client_data, found) refl

read_client-some :
    (sys : System) (io : Incoming) (now fd i block : ℕ) (h : Handled)
    → (get_or h.worker.clients i zero_client).buffer ≡ some block
    → read_client sys io now fd i h
      ≡ handle_reading sys now fd i
          (read_loop 8192 io now 0 (get_or h.worker.clients i zero_client) [])
          h
unfolding read_client
read_client-some sys io now fd i block h buffer = simp (read_client, buffer) refl

-- What was read, and when.
abbrev pub read_once : ℕ → Bytes → ℕ → ℕ → Worker → Worker
read_once b more now i w =
    set_client i (record (counted b more (get_or w.clients i zero_client)) { last_activity = now })
      w

-- A client that reads some bytes at once goes on to process them.
pub worker_handle_client_data-once :
    (sys : System) (b : ℕ) (more : Bytes) (now fd i block : ℕ) (w : Worker) (cache : Cache)
    → find_client fd w.clients ≡ some i
    → (get_or w.clients i zero_client).buffer ≡ some block
    → 0 < length more
    → length more < 8190
    → worker_handle_client_data sys (once b more) now fd w cache
      ≡ process_requests
          (suc (length more))
          sys
          0
          fd
          i
          (b ∷ more)
          (record { worker = read_once b more now i w; cache = cache; output = [] })
unfolding handle_reading process_text
worker_handle_client_data-once sys b more now fd i block w cache found buffer many room =
    worker_handle_client_data-found sys (once b more) now fd i w cache found
    ∙ read_client-some sys (once b more) now fd i block
        (record { worker = w; cache = cache; output = [] }) buffer
    ∙ ap (λ r. handle_reading sys now fd i r (record { worker = w; cache = cache; output = [] }))
        (read_loop-once 8190 b now more (get_or w.clients i zero_client) many room)

pub process_requests-none :
    (fuel : ℕ) (sys : System) (n fd i : ℕ) (buffer : Bytes) (h : Handled)
    → strstr (c_string buffer) (crlf ++ crlf) ≡ none
    → process_requests (suc fuel) sys n fd i buffer h ≡ handled h
unfolding process_requests
process_requests-none fuel sys n fd i buffer h e = simp (process_requests, e) refl

find_client-set :
    (fd i : ℕ) (c : Client) (cs : List Client)
    → find_client fd cs ≡ some i
    → c.fd ≡ (get_or cs i zero_client).fd
    → find_client fd (set cs i c) ≡ some i
unfolding find_client
find_client-set fd i c [] e same = absurd (ground (arith, e))
find_client-set fd zero c (d ∷ cs) e same = elim (Bool-cases (d.fd == fd)) [
  | inl own ↦ ground (arith, own, same)
  | inr other ↦ elim (Option-cases (find_client fd cs)) [
    | inl none_left ↦ absurd (ground (arith, e, other, none_left))
    | inr (k, found) ↦ absurd (ground (arith, e, other, found))
  ]
]
find_client-set fd (suc i) c (d ∷ cs) e same = elim (Bool-cases (d.fd == fd)) [
  | inl own ↦ absurd (ground (arith, e, own))
  | inr other ↦ elim (Option-cases (find_client fd cs)) [
    | inl none_left ↦ absurd (ground (arith, e, other, none_left))
    | inr (k, found) ↦
        let at : k ≡ i = ground (arith, e, other, found) in
        let rest = find_client-set fd i c cs (found ∙ ap some at) same in
        ground (arith, other, rest)
  ]
]
