-- ===== src/Http/Send.antt =====
-- http_send_response of src/http.c. Call number k of send or sendfile answers `io k n`, n being
-- the size asked for: how much it took, or an error, and errno behind it (which a call that
-- succeeds leaves as it was). The result is the code that is returned, the bytes that went out, and
-- the response with its file offset.
pub mod Complete
pub mod Retry
pub mod Total
mod Tests
use nx_lite.Base.{
  ℕ, zero, suc, ◌+◌, ◌-◌, ◌*◌, ◌/◌, ◌%◌, ◌^◌, Bool, true, false, not, ◌&&◌, ◌||◌, Option, none,
  some, List, [], ◌∷◌, ◌++◌, ltb, leb, ◌==◌, if◌then◌else◌, length, take, drop, Bytes, codes,
}
use nx_lite.Http.Parse.{Header, crlf}
use nx_lite.Http.Response.{Response}

-- EAGAIN or EWOULDBLOCK, EPIPE or ECONNRESET, and the rest.
pub data Errno : Type 0 where
  again gone other : Errno

pub data IoResult : Type 0 where
  wrote : ℕ → Errno → IoResult
  io_error : Errno → IoResult

-- The return values 1, 0 and -1; a header block that does not fit the buffer of 8192 bytes, where
-- the C code leaves the buffer; and the model short of rounds.
pub data SendCode : Type 0 where
  complete blocked failure overflow stuck : SendCode

pub record SendResult : Type 0 where
  pub code : SendCode
  pub output : Bytes
  pub response : Response

abbrev pub on_errno : Errno → SendCode
on_errno again = blocked
on_errno gone = failure
on_errno other = failure

-- The answer of call number k, which asks for the given number of bytes.
abbrev pub Socket : Type 0
Socket = ℕ → ℕ → IoResult

-- snprintf of %d for a number that is not negative
unfoldable pub decimal : ℕ → ℕ → Bytes
decimal zero n = (48 + n % 10) ∷ []
decimal (suc fuel) n =
    let rest = decimal fuel (n / 10) in
    if ltb n 10 then (48 + n) ∷ [] else rest ++ (48 + n % 10) ∷ []

unfoldable pub header_lines : List Header → Bytes
header_lines [] = []
header_lines (h ∷ hs) = (h.name ++ (codes ": " ++ (h.value ++ crlf))) ++ header_lines hs

unfoldable pub header_block : Response → Bytes
unfolding decimal header_lines
header_block r =
    codes "HTTP/1.1 "
    ++ (decimal r.status_code r.status_code
        ++ (codes " "
            ++ ((elim r.status_text [ none ↦ codes "Unknown" | some text ↦ text ])
                ++ (crlf
                    ++ (header_lines r.headers
                        ++ ((if r.keep_alive
                              then codes "Connection: keep-alive"
                              else codes "Connection: close")
                            ++ (crlf ++ crlf)))))))

-- The loop over send: `text` is what ptr + total_sent points to.
unfoldable pub send_loop : ℕ → Socket → ℕ → Bytes → ℕ → SendCode × Bytes
send_loop fuel io k text zero = (complete, [])
send_loop zero io k text (suc remaining) = (stuck, [])
send_loop (suc fuel) io k text (suc remaining) = elim (io k (suc remaining)) [
  | io_error e ↦ (on_errno e, [])
  | wrote n e ↦ elim n [
    | zero ↦ (on_errno e, [])
    | suc m ↦
        let rest = send_loop fuel io (k + 1) (drop (suc m) text) (suc remaining - suc m) in
        (rest.0, take (suc m) text ++ rest.1)
  ]
]

abbrev pub chunk_size : ℕ
chunk_size = 1024 * 1024

-- The loop over sendfile, in pieces of at most a megabyte, which are asked of `io` with their size;
-- the offset comes back too.
unfoldable pub sendfile_loop : ℕ → Socket → ℕ → Bytes → ℕ → ℕ → SendCode × Bytes × ℕ
sendfile_loop fuel io k file offset zero = (complete, [], offset)
sendfile_loop zero io k file offset (suc remaining) = (stuck, [], offset)
sendfile_loop (suc fuel) io k file offset (suc remaining) =
    let to_send = if ltb chunk_size (suc remaining) then chunk_size else suc remaining in
    elim (io k to_send) [
      | io_error e ↦ (on_errno e, [], offset)
      | wrote n e ↦ elim n [
        | zero ↦ (on_errno e, [], offset)
        | suc m ↦
            let rest =
              sendfile_loop fuel io (k + 1) file (offset + suc m) (suc remaining - suc m) in
            (rest.0, take (suc m) (drop offset file) ++ rest.1, rest.2)
      ]
    ]

-- One send of a whole text, and what follows it if the send took all of it.
unfoldable pub send_whole : IoResult → Bytes → SendCode × Bytes → SendCode × Bytes
send_whole (io_error e) text next = (on_errno e, [])
send_whole (wrote n e) text next =
    if n == length text then (next.0, text ++ next.1) else (on_errno e, take n text)

-- The header block, then a body.
unfoldable pub send_body : Socket → Response → Bytes → ℕ → SendResult
unfolding send_whole
send_body io r body body_length =
    let block = header_block r in
    let text = take body_length body in
    let second = send_whole (io 1 body_length) text (complete, []) in
    let first = send_whole (io 0 (length block)) block second in
    record { code = first.0; output = first.1; response = r }

unfoldable pub send_headers : Socket → Response → SendResult
unfolding send_whole
send_headers io r =
    let block = header_block r in
    let first = send_whole (io 0 (length block)) block (complete, []) in
    record { code = first.0; output = first.1; response = r }

-- What is left of the file, in the arithmetic of size_t.
abbrev pub file_remaining : Response → ℕ
file_remaining r = (r.body_length + 2 ^ 64 - r.file_offset) % 2 ^ 64

-- A call of sendfile that would block stores the offset; any other end leaves it.
unfoldable pub send_file : Socket → Bytes → Response → SendResult
unfolding send_whole sendfile_loop
send_file io file r =
    let block = header_block r in
    let remaining = file_remaining r in
    let body = sendfile_loop remaining io 1 file r.file_offset remaining in
    let first = send_whole (io 0 (length block)) block (body.0, body.1) in
    elim (io 0 (length block)) [
      | io_error e ↦ record { code = first.0; output = first.1; response = r }
      | wrote n e ↦
          if n == length block
          then elim body.0 [
            | blocked ↦ record {
              code = first.0;
              output = first.1;
              response = record r { file_offset = body.2 };
            }
            | _ ↦ record { code = first.0; output = first.1; response = r }
          ]
          else record { code = first.0; output = first.1; response = r }
    ]

unfoldable pub send_cached : Socket → Bytes → Response → SendResult
unfolding send_loop
send_cached io text r =
    let sent = send_loop r.body_length io 0 text r.body_length in
    record { code = sent.0; output = sent.1; response = r }

-- The body as it is, if there is one.
unfoldable pub send_plain : Socket → Response → SendResult
unfolding send_body send_headers
send_plain io r = elim r.body [
  | some text ↦ if ltb 0 r.body_length then send_body io r text r.body_length else send_headers io r
  | none ↦ send_headers io r
]

-- The response without its cached text, by what it holds.
unfoldable pub send_fresh : Socket → Bytes → Response → SendResult
unfolding send_plain
send_fresh io file r =
    if leb 8192 (length (header_block r))
    then record { code = overflow; output = []; response = r }
    else if r.is_file
    then send_file io file r
    else elim r.compressed_body [
      | some text ↦
          if ltb 0 r.compressed_length
          then send_body io r text r.compressed_length
          else send_plain io r
      | none ↦ send_plain io r
    ]

-- `file` is the content behind the descriptor of the response.
unfoldable pub http_send_response : Socket → Bytes → Response → SendResult
http_send_response io file r =
    if r.is_cached
    then elim r.cached_response [ some text ↦ send_cached io text r | none ↦ send_fresh io file r ]
    else send_fresh io file r
