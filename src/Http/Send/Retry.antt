-- ===== src/Http/Send/Retry.antt =====
-- About two calls of http_send_response of src/http.c in a row, the first of which would block.
use nx_lite.Base.{
  ℕ, ◌<◌, ◌≡◌, refl, ◌∙◌, ap, true, false, some, [], ◌++◌, length, take, drop, Bytes, arith, ==_iff,
}
use nx_lite.Http.Response.{Response}
use nx_lite.Http.Send.{
  Errno, wrote, complete, blocked, SendResult, Socket, header_block, file_remaining, sendfile_loop,
  send_file, send_cached, send_loop, send_fresh, http_send_response,
}
use nx_lite.Http.Send.Complete.{Progresses, send_cached-complete, send_file-complete}

response-cached :
    (io : Socket) (file text : Bytes) (r : Response)
    → r.is_cached ≡ true
    → r.cached_response ≡ some text
    → (http_send_response io file r).response ≡ r
unfolding http_send_response send_cached
response-cached io file text r cached stored = ground (arith, cached, stored)

-- A cached response that is sent again after a call that sent a part of it is sent from the beginning:
-- whatever the first socket took, a second socket that makes progress gets the whole text.
cached_retry_restarts :
    (io io' : Socket) (file text : Bytes) (r : Response)
    → Progresses io'
    → r.is_cached ≡ true
    → r.cached_response ≡ some text
    → (http_send_response io' file (http_send_response io file r).response).output
      ≡ take r.body_length text
cached_retry_restarts io io' file text r p cached stored =
    ap (λ x. (http_send_response io' file x).output) (response-cached io file text r cached stored)
    ∙ ap (λ (x : SendResult). x.output) (send_cached-complete io' file text r p cached stored)

send_loop-zero :
    (io : Socket) (text : Bytes) (n : ℕ) → n ≡ 0 → send_loop n io 0 text n ≡ (complete, [])
unfolding send_loop
send_loop-zero io text n e = rw e

-- The answer to a HEAD request that the cache serves has a body length of 0: nothing is sent, not
-- even a header, and the call reports success, whatever the socket does.
cached_head_sends_nothing :
    (io : Socket) (file text : Bytes) (r : Response)
    → r.is_cached ≡ true
    → r.cached_response ≡ some text
    → r.body_length ≡ 0
    → http_send_response io file r ≡ record { code = complete; output = []; response = r }
unfolding http_send_response send_cached
cached_head_sends_nothing io file text r cached stored empty =
    ground (arith, cached, stored, send_loop-zero io text r.body_length empty)

header_block-offset :
    (r : Response) (n : ℕ) → header_block (record r { file_offset = n }) ≡ header_block r
unfolding header_block
header_block-offset r n = refl

send_file-stored :
    (io : Socket) (file : Bytes) (r : Response) (e : Errno)
    → io 0 (length (header_block r)) ≡ wrote (length (header_block r)) e
    → (sendfile_loop (file_remaining r) io 1 file r.file_offset (file_remaining r)).0 ≡ blocked
    → (send_file io file r).response ≡ record r {
      file_offset = (sendfile_loop (file_remaining r) io 1 file r.file_offset (file_remaining r)).2;
    }
unfolding send_file
send_file-stored io file r e header block =
    simp (
      send_file,
      header,
      (==_iff (length (header_block r)) (length (header_block r))).1 refl,
      block,
    )

http_send_response-file :
    (io : Socket) (file : Bytes) (r : Response)
    → r.is_cached ≡ false
    → r.is_file ≡ true
    → length (header_block r) < 8192
    → http_send_response io file r ≡ send_file io file r
unfolding http_send_response send_fresh
http_send_response-file io file r cached isfile small = ground (arith, cached, isfile, small)

-- A file response whose first call took the header block and then would block is sent again with
-- its header block a second time, in front of the rest of the file.
file_retry_repeats_header :
    (io io' : Socket) (file : Bytes) (r : Response) (e e' : Errno)
    → Progresses io'
    → r.is_cached ≡ false
    → r.is_file ≡ true
    → length (header_block r) < 8192
    → io 0 (length (header_block r)) ≡ wrote (length (header_block r)) e
    → (sendfile_loop (file_remaining r) io 1 file r.file_offset (file_remaining r)).0 ≡ blocked
    → io' 0 (length (header_block r)) ≡ wrote (length (header_block r)) e'
    → (offset : ℕ) × ((http_send_response io file r).response ≡ record r { file_offset = offset })
      × ((http_send_response io' file (http_send_response io file r).response).output
          ≡ header_block r
            ++ take (file_remaining (record r { file_offset = offset })) (drop offset file))
file_retry_repeats_header io io' file r e e' p cached isfile small header block header' = (
  offset,
  stored,
  ap (λ x. (http_send_response io' file x).output) stored
      ∙ ap (λ (x : SendResult). x.output)
          (send_file-complete io' file again e' p cached isfile (rw same small) (rw same header'))
      ∙ ap (λ t. t ++ take (file_remaining (record r { file_offset = offset })) (drop offset file))
          same,
)
  where
    n : ℕ
    n = file_remaining r

    offset : ℕ
    offset = (sendfile_loop n io 1 file r.file_offset n).2

    again : Response
    again = record r { file_offset = offset }

    same : header_block again ≡ header_block r
    same = header_block-offset r offset

    stored : (http_send_response io file r).response ≡ again
    stored =
        ap (λ (x : SendResult). x.response) (http_send_response-file io file r cached isfile small)
        ∙ send_file-stored io file r e header block
