-- ===== src/Http/Send/Total.antt =====
-- About the loops of http_send_response of src/http.c.
use nx_lite.Base.{
  ℕ, zero, suc, ◌+◌, ◌-◌, ◌≤◌, ◌≡◌, refl, ◌≢◌, ◌⊎◌, inl, inr, [], ltb, leb, ◌==◌, if◌then◌else◌,
  length, take, drop, Bytes, arith, Bool-cases, Option-cases,
}
use nx_lite.Http.Response.{Response}
use nx_lite.Http.Send.{
  Errno, again, gone, other, IoResult, wrote, io_error, SendCode, complete, stuck, on_errno, Socket,
  header_block, send_loop, chunk_size, file_remaining, sendfile_loop, send_whole, send_body,
  send_headers, send_file, send_cached, send_plain, send_fresh, http_send_response,
}

IoResult-cases :
    (x : IoResult)
    → ((e : Errno) × (x ≡ io_error e))
      ⊎ ((e : Errno) × (x ≡ wrote 0 e))
      ⊎ ((m : ℕ) × (e : Errno) × (x ≡ wrote (suc m) e))
IoResult-cases (io_error e) = inl (e, refl)
IoResult-cases (wrote zero e) = inr (inl (e, refl))
IoResult-cases (wrote (suc m) e) = inr (inr (m, e, refl))

on_errno-ne-stuck : (e : Errno) → on_errno e ≢ stuck
on_errno-ne-stuck again h = cc
on_errno-ne-stuck gone h = cc
on_errno-ne-stuck other h = cc

send_loop_total :
    (fuel k remaining : ℕ) (io : Socket) (text : Bytes)
    → remaining ≤ fuel
    → (send_loop fuel io k text remaining).0 ≢ stuck
unfolding send_loop
send_loop_total fuel k zero io text h = ground arith
send_loop_total zero k (suc remaining) io text h = absurd (omega arith)
send_loop_total (suc fuel) k (suc remaining) io text h =
    elim (IoResult-cases (io k (suc remaining))) [
      | inl (e, q) ↦ rw (q, send_loop) (on_errno-ne-stuck e)
      | inr (inl (e, q)) ↦ rw (q, send_loop) (on_errno-ne-stuck e)
      | inr (inr (m, e, q)) ↦
          rw (q, send_loop)
            (send_loop_total fuel (k + 1) (suc remaining - suc m) io (drop (suc m) text)
              (omega arith))
    ]

sendfile_loop_total :
    (fuel k remaining offset : ℕ) (io : Socket) (file : Bytes)
    → remaining ≤ fuel
    → (sendfile_loop fuel io k file offset remaining).0 ≢ stuck
unfolding sendfile_loop
sendfile_loop_total fuel k zero offset io file h = ground arith
sendfile_loop_total zero k (suc remaining) offset io file h = absurd (omega arith)
sendfile_loop_total (suc fuel) k (suc remaining) offset io file h =
    elim (IoResult-cases
      (io k (if ltb chunk_size (suc remaining) then chunk_size else suc remaining))) [
        | inl (e, q) ↦ rw (q, sendfile_loop) (on_errno-ne-stuck e)
        | inr (inl (e, q)) ↦ rw (q, sendfile_loop) (on_errno-ne-stuck e)
        | inr (inr (m, e, q)) ↦
            rw (q, sendfile_loop)
              (sendfile_loop_total fuel (k + 1) (suc remaining - suc m) (offset + suc m) io file
                (omega arith))
      ]

send_whole_total :
    (r : IoResult) (text : Bytes) (next : SendCode × Bytes)
    → next.0 ≢ stuck
    → (send_whole r text next).0 ≢ stuck
unfolding send_whole
send_whole_total (io_error e) text next h = on_errno-ne-stuck e
send_whole_total (wrote n e) text next h = elim (Bool-cases (n == length text)) [
  | inl whole ↦ rw whole h
  | inr part ↦ rw part (on_errno-ne-stuck e)
]

send_body_total :
    (io : Socket) (r : Response) (text : Bytes) (n : ℕ) → (send_body io r text n).code ≢ stuck
unfolding send_body
send_body_total io r text n =
    send_whole_total (io 0 (length (header_block r))) (header_block r)
      (send_whole (io 1 n) (take n text) (complete, []))
      (send_whole_total (io 1 n) (take n text) (complete, []) (λ e. cc))

send_headers_total : (io : Socket) (r : Response) → (send_headers io r).code ≢ stuck
unfolding send_headers
send_headers_total io r =
    send_whole_total (io 0 (length (header_block r))) (header_block r) (complete, []) (λ e. cc)

-- The three ends of send_file have the code of the first send.
send_file_total : (io : Socket) (file : Bytes) (r : Response) → (send_file io file r).code ≢ stuck
unfolding send_file
send_file_total io file r = ground (
  arith,
  send_whole_total (io 0 (length (header_block r))) (header_block r)
      ((sendfile_loop n io 1 file r.file_offset n).0, (sendfile_loop n io 1 file r.file_offset n).1)
      (sendfile_loop_total n 1 n r.file_offset io file (omega arith)),
)
  where
    n : ℕ
    n = file_remaining r

send_plain_total : (io : Socket) (r : Response) → (send_plain io r).code ≢ stuck
unfolding send_plain
send_plain_total io r = elim (Option-cases r.body) [
  | inl h ↦ simp (send_plain, h) (send_headers_total io r)
  | inr (b, h) ↦
      simp (send_plain, h)
        (elim (Bool-cases (ltb 0 r.body_length)) [
          | inl some_bytes ↦ simp some_bytes (send_body_total io r b r.body_length)
          | inr empty ↦ simp empty (send_headers_total io r)
        ])
]

send_fresh_total : (io : Socket) (file : Bytes) (r : Response) → (send_fresh io file r).code ≢ stuck
unfolding send_fresh
send_fresh_total io file r = elim (Bool-cases (leb 8192 (length (header_block r)))) [
  | inl large ↦ simp large (λ e. cc)
  | inr small ↦ simp small (elim (Bool-cases r.is_file) [
    | inl isfile ↦ simp isfile (send_file_total io file r)
    | inr plain ↦ simp plain (elim (Option-cases r.compressed_body) [
      | inl h ↦ simp h (send_plain_total io r)
      | inr (text, h) ↦ simp h (elim (Bool-cases (ltb 0 r.compressed_length)) [
        | inl some_bytes ↦ simp some_bytes (send_body_total io r text r.compressed_length)
        | inr empty ↦ simp empty (send_plain_total io r)
      ])
    ])
  ])
]

-- Sending ends for every response, whatever the socket answers: the loops have rounds enough.
pub http_send_response_total :
    (io : Socket) (file : Bytes) (r : Response) → (http_send_response io file r).code ≢ stuck
unfolding http_send_response send_cached
http_send_response_total io file r = elim (Bool-cases r.is_cached) [
  | inr fresh ↦ simp fresh (send_fresh_total io file r)
  | inl cached ↦ simp cached (elim (Option-cases r.cached_response) [
    | inl h ↦ simp h (send_fresh_total io file r)
    | inr (text, h) ↦ simp h (send_loop_total r.body_length 0 r.body_length io text (omega arith))
  ])
]
