-- ===== src/Http/Handle/Served.antt =====
-- About http_handle_request of src/http.c for a file that is served through its descriptor.
use nx_lite.Base.{
  ℕ, ◌-◌, ◌≡◌, refl, sym, subst, ◌∙◌, ap, inl, inr, Bool, true, false, Option, none, some, [], ◌∷◌,
  ◌++◌, length, get_or, Bytes, codes, strcmp_eq, arith, Bool-cases, take_all, ◌<◌, ◌≢◌,
}
use nx_lite.Http.Parse.{Request, find_header, http_should_keep_alive}
use nx_lite.Http.Path.{path_max, validate_and_resolve_path}
use nx_lite.Http.Path.Containment.{resolved-IsWithin}
use nx_lite.Http.Response.{
  Response, CompressionType, no_compression, http_create_response, http_get_mime_type,
}
use nx_lite.Http.Cache.{Cache, find_cached_response}
use nx_lite.Http.Etag.{Stat}
use nx_lite.Http.Send.{decimal}
use nx_lite.Http.Serve.{Library, Serving, is_coding, index_path, http_serve_file, serve_regular}
use nx_lite.Http.Serve.Fields.{
  OnlyHeaders, OnlyHeaders-if, http_add_header-OnlyHeaders, serve_regular_plain,
}
use nx_lite.Http.Handle.{
  check_etag, is_unmodified, compress_again, keep_alive_header, finish_response, coding_for,
  serve_path, answer_file, answer_path, request_path, Config, http_handle_request,
}

index_path-file :
    (path : Bytes)
    → length path < 4096
    → get_or path (length path - 1) 0 ≢ b'/'
    → index_path path ≡ path
unfolding index_path
index_path-file path short file =
    rw (take_all 4095 path (omega (arith, short))) (ground (arith, file))

pub keep_alive_header-OnlyHeaders :
    (timeout : ℕ) (r : Response) → OnlyHeaders r (keep_alive_header timeout r)
unfolding keep_alive_header
keep_alive_header-OnlyHeaders timeout r =
    OnlyHeaders-if r.keep_alive r _
      (http_add_header-OnlyHeaders r (codes "Keep-Alive") (codes "timeout=" ++ decimal 10 timeout))

pub compress_again-file :
    (lib : Library) (mime : Bytes) (type : CompressionType) (r : Response)
    → r.is_file ≡ true
    → compress_again lib mime type r ≡ r
unfolding compress_again
compress_again-file lib mime type r e = elim (Bool-cases (is_coding type)) [
  | inl coding ↦ simp (compress_again, coding, e) refl
  | inr none_of ↦ simp (compress_again, none_of) refl
]

finish_response-file :
    (lib : Library) (timeout : ℕ) (path : Bytes) (type : CompressionType) (q : Request)
    (r : Response)
    → r.is_file ≡ true
    → OnlyHeaders
        (record r { keep_alive = http_should_keep_alive q })
        (finish_response lib timeout false path type q r)
unfolding finish_response
finish_response-file lib timeout path type q r e =
    subst
      (λ x.
        OnlyHeaders (record r { keep_alive = http_should_keep_alive q })
          (keep_alive_header timeout x))
      (sym (
        compress_again-file lib (http_get_mime_type path) type
          (record r { keep_alive = http_should_keep_alive q }) e))
      (keep_alive_header-OnlyHeaders timeout (record r { keep_alive = http_should_keep_alive q }))

-- The answer is the file behind the descriptor, from its start, with status 200, and the descriptor
-- stays open for it.
pub record ServesFile (q : Request) (path : Bytes) (fd : ℕ) (st : Stat) (s : Serving) : Type 0 where
  pub status_code : s.response.status_code ≡ 200
  pub is_file : s.response.is_file ≡ true
  pub is_cached : s.response.is_cached ≡ false
  pub file_fd : s.response.file_fd ≡ fd
  pub file_offset : s.response.file_offset ≡ 0
  pub body_length : s.response.body_length ≡ st.size
  pub compressed_body : s.response.compressed_body ≡ none
  pub keep_alive : s.response.keep_alive ≡ http_should_keep_alive q
  pub opened : s.opened ≡ path ∷ []
  pub closed : s.closed ≡ []

http_serve_file-regular :
    (lib : Library) (path : Bytes) (r : Response) (q : Option Request) (c : Cache) (fd : ℕ)
    (st : Stat)
    → index_path path ≡ path
    → lib.open_file path ≡ some fd
    → lib.fstat path ≡ some st
    → st.is_regular ≡ true
    → http_serve_file lib path r q c ≡ (serve_regular lib path fd st r q c, true)
unfolding http_serve_file
http_serve_file-regular lib path r q c fd st same opened stat regular =
    simp (http_serve_file, same, opened, stat, regular) refl

serve_path-regular :
    (lib : Library) (timeout : ℕ) (is_head : Bool) (path : Bytes) (q : Request) (r : Response)
    (c : Cache) (fd : ℕ) (st : Stat)
    → index_path path ≡ path
    → lib.open_file path ≡ some fd
    → lib.fstat path ≡ some st
    → st.is_regular ≡ true
    → coding_for path q ≡ no_compression
    → serve_path lib timeout is_head path q r c
      ≡ record (serve_regular lib path fd st
          (record r { compression_type = no_compression })
          (some q)
          c) {
            response =
                finish_response lib timeout is_head path no_compression q
                  (serve_regular lib path fd st
                    (record r { compression_type = no_compression })
                    (some q)
                    c).response;
          }
unfolding serve_path
serve_path-regular lib timeout is_head path q r c fd st same opened stat regular plain =
    rw
      (
        plain,
        http_serve_file-regular lib path (record r { compression_type = no_compression }) (some q) c
            fd st same opened stat regular,
      )
      refl

abbrev plain_created : Response
plain_created = record (http_create_response 200) { compression_type = no_compression }

ServesFile-finish :
    (lib : Library) (timeout : ℕ) (path : Bytes) (q : Request) (c : Cache) (fd : ℕ) (st : Stat)
    → ServesFile q path fd st (record (serve_regular lib path fd st plain_created (some q) c) {
      response =
          finish_response lib timeout false path no_compression q
            (serve_regular lib path fd st plain_created (some q) c).response;
    })
unfolding http_create_response
ServesFile-finish lib timeout path q c fd st =
    let ((hs, e), opened, closed) =
      serve_regular_plain lib path fd st plain_created (some q) c refl in
    let (hs', e') =
      finish_response-file lib timeout path no_compression q
        (serve_regular lib path fd st plain_created (some q) c).response
        (ap (λ (r : Response). r.is_file) e) in
    record {
      status_code =
          ap (λ (r : Response). r.status_code) e' ∙ ap (λ (r : Response). r.status_code) e;
      is_file = ap (λ (r : Response). r.is_file) e' ∙ ap (λ (r : Response). r.is_file) e;
      is_cached = ap (λ (r : Response). r.is_cached) e' ∙ ap (λ (r : Response). r.is_cached) e;
      file_fd = ap (λ (r : Response). r.file_fd) e' ∙ ap (λ (r : Response). r.file_fd) e;
      file_offset =
          ap (λ (r : Response). r.file_offset) e' ∙ ap (λ (r : Response). r.file_offset) e;
      body_length =
          ap (λ (r : Response). r.body_length) e' ∙ ap (λ (r : Response). r.body_length) e;
      compressed_body =
          ap (λ (r : Response). r.compressed_body) e' ∙ ap (λ (r : Response). r.compressed_body) e;
      keep_alive = ap (λ (r : Response). r.keep_alive) e';
      opened = opened;
      closed = closed;
    }

answer_file-plain :
    (lib : Library) (timeout : ℕ) (is_head : Bool) (path : Bytes) (q : Request) (r : Response)
    (c : Cache) (st : Stat)
    → lib.stat path ≡ some st
    → find_header (codes "If-None-Match") q.headers ≡ none
    → find_header (codes "If-Modified-Since") q.headers ≡ none
    → answer_file lib timeout is_head path q r c ≡ some (serve_path lib timeout is_head path q r c)
unfolding answer_file check_etag is_unmodified
answer_file-plain lib timeout is_head path q r c st stat no_tag no_date =
    rw (answer_file, stat, no_tag, is_unmodified, no_date) refl

pub http_handle_request-get :
    (realpath : Bytes → Option Bytes) (lib : Library) (config : Config) (q : Request) (c : Cache)
    (path : Bytes)
    → q.method ≡ codes "GET"
    → validate_and_resolve_path realpath config.root_dir (request_path q) path_max ≡ some path
    → find_cached_response lib.time path (some q) c ≡ none
    → http_handle_request realpath lib config q c
      ≡ answer_file lib config.keep_alive_timeout false path q (http_create_response 200) c
unfolding http_handle_request answer_path strcmp_eq answer_file
http_handle_request-get realpath lib config q c path get valid fresh =
    simp (http_handle_request, answer_path, get, valid, fresh, strcmp_eq) refl

-- A GET for a regular file that the cache does not have, without conditions, and for which no content
-- coding is chosen, is answered with status 200 by the whole file behind its open descriptor. Its
-- path is that of the validation and does not end with a slash.
pub http_handle_request-ServesFile :
    (realpath : Bytes → Option Bytes) (lib : Library) (config : Config) (q : Request) (c : Cache)
    (path : Bytes) (fd : ℕ) (st st' : Stat)
    → q.method ≡ codes "GET"
    → validate_and_resolve_path realpath config.root_dir (request_path q) path_max ≡ some path
    → get_or path (length path - 1) 0 ≢ b'/'
    → find_cached_response lib.time path (some q) c ≡ none
    → lib.stat path ≡ some st'
    → find_header (codes "If-None-Match") q.headers ≡ none
    → find_header (codes "If-Modified-Since") q.headers ≡ none
    → coding_for path q ≡ no_compression
    → lib.open_file path ≡ some fd
    → lib.fstat path ≡ some st
    → st.is_regular ≡ true
    → (s : Serving) × (http_handle_request realpath lib config q c ≡ some s)
      × ServesFile q path fd st s
http_handle_request-ServesFile realpath lib config q c path fd st st' get valid file fresh stat
      no_tag no_date plain opened fstat regular =
    (
      _,
      http_handle_request-get realpath lib config q c path get valid fresh
          ∙ answer_file-plain lib config.keep_alive_timeout false path q created c st' stat no_tag
              no_date
          ∙ ap some (
              serve_path-regular lib config.keep_alive_timeout false path q created c fd st
                (index_path-file path
                  (resolved-IsWithin realpath config.root_dir (request_path q) path_max path
                    valid).3
                  file)
                opened fstat regular plain),
      ServesFile-finish lib config.keep_alive_timeout path q c fd st,
    )
  where
    created : Response
    created = http_create_response 200
