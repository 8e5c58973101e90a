-- ===== src/Http/Handle/Head.antt =====
-- About the end of http_handle_request of src/http.c for a HEAD request.
use nx_lite.Base.{
  ℕ, ◌<◌, ◌≡◌, refl, ◌∙◌, ap, Bool, true, false, ◌&&◌, none, some, List, ◌++◌, length, Bytes,
}
use nx_lite.Http.Parse.{Header, Request, http_should_keep_alive}
use nx_lite.Http.Response.{Response, CompressionType, http_get_mime_type, http_free_response}
use nx_lite.Http.Send.{Errno, wrote, Socket, SendResult, header_block, http_send_response}
use nx_lite.Http.Send.Complete.{send_compressed-complete}
use nx_lite.Http.Serve.{Library}
use nx_lite.Http.Handle.{compress_again, keep_alive_header, drop_body, finish_response}
use nx_lite.Http.Handle.Served.{keep_alive_header-OnlyHeaders, compress_again-file}

and_false : (b : Bool) → (b && false) ≡ false
and_false true = refl
and_false false = refl

compress_again-done :
    (lib : Library) (mime out : Bytes) (type : CompressionType) (r : Response)
    → r.compressed_body ≡ some out
    → compress_again lib mime type r ≡ r
unfolding compress_again
compress_again-done lib mime out type r e = simp (compress_again, e, and_false) refl

-- The descriptor of a file that a HEAD request asks for is never closed: the response that is freed
-- in the end is no longer one of a file.
finish_response-leaks :
    (lib : Library) (timeout : ℕ) (path : Bytes) (type : CompressionType) (q : Request)
    (r : Response)
    → r.is_file ≡ true
    → ((finish_response lib timeout true path type q r).file_fd ≡ r.file_fd)
      × ((http_free_response (finish_response lib timeout true path type q r)).1 ≡ none)
unfolding finish_response http_free_response
finish_response-leaks lib timeout path type q r e =
    let kept : Response = record r { keep_alive = http_should_keep_alive q } in
    let (hs, same) = keep_alive_header-OnlyHeaders timeout kept in
    (
      ap (λ x. (keep_alive_header timeout x).file_fd)
            (compress_again-file lib (http_get_mime_type path) type kept e)
          ∙ ap (λ (x : Response). x.file_fd) same,
      refl,
    )

-- The compressed body of a file that a HEAD request asks for is sent behind the header block, over a
-- socket that takes both at once.
finish_response-sends :
    (lib : Library) (timeout : ℕ) (path out file : Bytes) (type : CompressionType) (q : Request)
    (r : Response) (io : Socket) (e e' : Errno)
    → r.compressed_body ≡ some out
    → r.compressed_length ≡ length out
    → 0 < length out
    → length (header_block (finish_response lib timeout true path type q r)) < 8192
    → io 0 (length (header_block (finish_response lib timeout true path type q r)))
      ≡ wrote (length (header_block (finish_response lib timeout true path type q r))) e
    → io 1 (length out) ≡ wrote (length out) e'
    → (http_send_response io file (finish_response lib timeout true path type q r)).output
      ≡ header_block (finish_response lib timeout true path type q r) ++ out
finish_response-sends lib timeout path out file type q r io e e' body size pos small header second =
    ap (λ (x : SendResult). x.output)
      (send_compressed-complete io file out (finish_response lib timeout true path type q r) e e'
        (unfold finish_response in refl) (unfold finish_response in refl)
        (ap (λ (x : Response). x.compressed_body) fields ∙ body)
        (ap (λ (x : Response). x.compressed_length) fields ∙ size) pos small header second)
  where
    kept : Response
    kept = record r { keep_alive = http_should_keep_alive q }

    headers : List Header
    headers = (keep_alive_header-OnlyHeaders timeout kept).0

    fields :
        finish_response lib timeout true path type q r
        ≡ record kept { headers = headers; is_file = false; is_cached = false; body_length = 0 }
    fields =
        unfold finish_response in
        ap (λ x. drop_body true (keep_alive_header timeout x))
          (compress_again-done lib (http_get_mime_type path) out type kept body)
        ∙ ap (drop_body true) (keep_alive_header-OnlyHeaders timeout kept).1
