-- ===== src/Http/Serve.antt =====
-- http_serve_file and http_compress_content of src/http.c. The file system, the answers of malloc and
-- zlib are a parameter; what happens to the file behind a descriptor while it is served is not.
pub mod Fields
use nx_lite.Base.{
  ℕ, zero, suc, ◌+◌, ◌-◌, ◌*◌, Bool, true, false, not, ◌&&◌, ◌||◌, Option, none, some, List, [],
  ◌∷◌, ◌++◌, ltb, leb, ◌==◌, if◌then◌else◌, length, take, drop, get_or, Bytes, codes, strcasecmp_eq,
  strrchr,
}
use nx_lite.Http.Parse.{Request, crlf}
use nx_lite.Http.Path.{path_max}
use nx_lite.Http.Response.{
  Response, CompressionType, no_compression, gzip, deflate, http_add_header, http_get_mime_type,
  http_should_compress_mime_type,
}
use nx_lite.Http.Cache.{Cache, cache_response}
use nx_lite.Http.Etag.{Stat, make_etag}
use nx_lite.Http.Send.{decimal, header_lines}

abbrev pub compression_level_default : ℕ
compression_level_default = 6

abbrev pub compression_level_min : ℕ
compression_level_min = 1

abbrev pub compression_level_max : ℕ
compression_level_max = 9

-- The library functions that serving a request calls. `memory n` says whether allocation number n
-- succeeds; `pread n path size` is what read number n of at most `size` bytes of the file gives, or
-- none; `compress type level text room` is the output of deflate, if all of it fits `room` bytes.
pub record Library : Type 0 where
  pub open_file : Bytes → Option ℕ
  pub stat : Bytes → Option Stat
  pub fstat : Bytes → Option Stat
  pub pread : ℕ → Bytes → ℕ → Option Bytes
  pub memory : ℕ → Bool
  pub zlib_init : ℕ → Bool
  pub compress : CompressionType → ℕ → Bytes → ℕ → Option Bytes
  pub format_time : ℕ → Bytes
  pub parse_time : Bytes → Option ℕ
  pub time : ℕ

-- Attempt number n: none where memory or zlib fails; `some none` where the output does not fit.
unfoldable pub deflate_once : Library → ℕ → CompressionType → ℕ → Bytes → ℕ → Option (Option Bytes)
deflate_once lib n type level text room =
    if not (lib.memory n)
    then none
    else if not (lib.zlib_init n)
    then none
    else some (lib.compress type level text room)

-- The first attempt has 128 bytes to spare, the second twice the length.
unfoldable pub deflate_text : Library → ℕ → CompressionType → ℕ → Bytes → Option Bytes
unfolding deflate_once
deflate_text lib n type level text = elim (deflate_once lib n type level text (length text + 128)) [
  | none ↦ none
  | some (some out) ↦ some out
  | some none ↦ elim (deflate_once lib (n + 1) type level text (length text * 2)) [
    | none ↦ none
    | some none ↦ none
    | some (some out) ↦ some out
  ]
]

abbrev pub is_coding : CompressionType → Bool
is_coding no_compression = false
is_coding gzip = true
is_coding deflate = true

unfoldable pub clamp_level : ℕ → ℕ
clamp_level level =
    if ltb level compression_level_min || ltb compression_level_max level
    then compression_level_default
    else level

-- The response, and whether 0 is returned.
unfoldable pub http_compress_content :
    Library → ℕ → Response → CompressionType → ℕ → Response × Bool
unfolding deflate_text clamp_level
http_compress_content lib n r type level = elim r.body [
  | none ↦ (r, false)
  | some body ↦ if r.body_length == 0 then (r, false) else elim r.compressed_body [
    | some done ↦ (r, true)
    | none ↦
        if not (is_coding type)
        then (r, false)
        else elim (deflate_text lib n type (clamp_level level) (take r.body_length body)) [
          | none ↦ (r, false)
          | some out ↦ (
            record r {
              compressed_body = some out;
              compressed_length = length out;
              compression_type = type;
              compression_level = clamp_level level;
            },
            true,
          )
        ]
  ]
]

-- strncasecmp(type, prefix, strlen(prefix)) == 0
abbrev pub has_prefix_nocase : Bytes → Bytes → Bool
has_prefix_nocase type prefix = strcasecmp_eq (take (length prefix) type) prefix

unfoldable pub choose_level : Bytes → ℕ
choose_level type =
    if has_prefix_nocase type (codes "text/html")
      || has_prefix_nocase type (codes "text/css")
      || has_prefix_nocase type (codes "application/javascript")
    then compression_level_default
    else if has_prefix_nocase type (codes "image/")
        || has_prefix_nocase type (codes "application/octet-stream")
    then compression_level_min
    else if has_prefix_nocase type (codes "application/font")
        || has_prefix_nocase type (codes "image/svg+xml")
    then compression_level_max
    else compression_level_default

abbrev pub coding_header : CompressionType → Response → Response
coding_header no_compression r = r
coding_header gzip r = http_add_header r (codes "Content-Encoding") (codes "gzip")
coding_header deflate r = http_add_header r (codes "Content-Encoding") (codes "deflate")

abbrev pub is_one_of : Bytes → List Bytes → Bool
is_one_of ext [] = false
is_one_of ext (e ∷ es) = strcasecmp_eq ext e || is_one_of ext es

abbrev pub image_extensions : List Bytes
image_extensions = codes ".png" ∷ codes ".jpg" ∷ codes ".jpeg" ∷ codes ".gif" ∷ codes ".ico" ∷ []

-- The Cache-Control value by the extension of a file.
unfoldable pub cache_control : Bytes → Bytes
cache_control ext =
    if is_one_of ext (codes ".css" ∷ codes ".js" ∷ [])
    then codes "public, max-age=86400, must-revalidate"
    else if is_one_of ext image_extensions
    then codes "public, max-age=604800, immutable"
    else if is_one_of ext (codes ".html" ∷ codes ".htm" ∷ [])
    then codes "public, max-age=300, must-revalidate"
    else if is_one_of ext (codes ".pdf" ∷ codes ".doc" ∷ codes ".docx" ∷ [])
    then codes "public, max-age=86400"
    else codes "public, max-age=3600"

-- A path that ends with a slash stands for the index file of the directory.
unfoldable pub index_path : Bytes → Bytes
index_path path =
    let p = take (path_max - 1) path in
    if get_or p (length p - 1) 0 == b'/'
    then p ++ take (path_max - length p - 1) (codes "index.html")
    else p

-- The response, the cache, the descriptors that were opened, and those that were closed.
pub record Serving : Type 0 where
  pub response : Response
  pub cache : Cache
  pub opened : List Bytes
  pub closed : List ℕ

-- The whole file, if read number n gets all of it.
unfoldable pub read_all : Library → ℕ → Bytes → ℕ → Option Bytes
read_all lib n path size =
    if lib.memory n
    then elim (lib.pread n path size) [
      | none ↦ none
      | some text ↦ if length text == size then some text else none
    ]
    else none

-- The body is left to sendfile.
unfoldable pub serve_descriptor : ℕ → Stat → Response → Response
serve_descriptor fd st r =
    http_add_header (record r { body_length = st.size; file_fd = fd; is_file = true })
      (codes "Content-Length") (decimal 20 st.size)

-- The body is in memory, and compressed if that succeeds. Allocations 0 and 1 go before.
unfoldable pub serve_body : Library → Bytes → Bytes → Response → Response
unfolding http_compress_content choose_level
serve_body lib mime text r =
    let in_memory = record r { body = some text; body_length = length text; is_file = false } in
    let (c, done) =
      http_compress_content lib 1 in_memory in_memory.compression_type (choose_level mime) in
    if done
    then http_add_header (coding_header c.compression_type c) (codes "Content-Length")
        (decimal 20 c.compressed_length)
    else http_add_header c (codes "Content-Length") (decimal 20 c.body_length)

-- What the client gets: the response, and whether the descriptor was closed.
unfoldable pub serve_content : Library → Bytes → ℕ → Stat → Response → Response × Bool
unfolding serve_descriptor serve_body read_all
serve_content lib path fd st r =
    let mime = http_get_mime_type path in
    let typed = http_add_header r (codes "Content-Type") mime in
    if http_should_compress_mime_type (some mime)
      && is_coding r.compression_type
      && leb st.size (10 * 1024 * 1024)
    then elim (read_all lib 0 path st.size) [
      | some text ↦ (serve_body lib mime text typed, true)
      | none ↦ (serve_descriptor fd st typed, false)
    ]
    else (serve_descriptor fd st typed, false)

unfoldable pub validators : Library → Bytes → Stat → Response → Response
validators lib path st r =
    http_add_header
      (http_add_header (http_add_header r (codes "Last-Modified") (lib.format_time st.mtime))
        (codes "ETag") (make_etag path st))
      (codes "Vary") (codes "Accept-Encoding, User-Agent")

-- The whole response as it is cached. Its header block is that of a response with at most 13 short
-- headers, which fits the 4096 bytes of its buffer.
unfoldable pub cached_text : Response → Bytes → Bytes
cached_text r text =
    codes "HTTP/1.1 200 OK"
    ++ (crlf
        ++ (header_lines r.headers ++ (codes "Connection: keep-alive" ++ (crlf ++ (crlf ++ text)))))

-- A small file that was not compressed is cached. A read from a closed descriptor fails.
unfoldable pub store_file :
    Library → Bytes → Stat → Option Request → Bool → Response → Cache → Cache
unfolding read_all cached_text
store_file lib path st request was_closed r c =
    if ltb st.size (1024 * 1024)
      && (elim r.compressed_body [ none ↦ true | some out ↦ false ])
      && not was_closed
    then elim (read_all lib 3 path st.size) [
      | none ↦ c
      | some text ↦
          if lib.memory 4
          then cache_response (lib.memory 5) lib.time path (cached_text r text) request
              (make_etag path st) c
          else c
    ]
    else c

-- A path with no extension is not cached, also not by the client.
unfoldable pub finish_file :
    Library → Bytes → Stat → Option Request → Bool → Response → Cache → Response × Cache
unfolding validators cache_control store_file
finish_file lib path st request was_closed r c =
    let valid = validators lib path st r in
    elim (strrchr path b'.') [
      | none ↦ (
        http_add_header valid (codes "Cache-Control") (codes "no-cache, no-store, must-revalidate"),
        c,
      )
      | some dot ↦
          let done =
            http_add_header valid (codes "Cache-Control") (cache_control (drop dot path)) in
          (done, store_file lib path st request was_closed done c)
    ]

abbrev pub not_served : Bytes → List ℕ → Response → Cache → Serving
not_served path closed r c = record { response = r; cache = c; opened = path ∷ []; closed = closed }

unfoldable pub serve_regular :
    Library → Bytes → ℕ → Stat → Response → Option Request → Cache → Serving
serve_regular lib path fd st r request c =
    let (content, was_closed) = serve_content lib path fd st r in
    let (done, cache) = finish_file lib path st request was_closed content c in
    record {
      response = done;
      cache = cache;
      opened = path ∷ [];
      closed = if was_closed then fd ∷ [] else [];
    }

-- The state, and whether 0 is returned.
unfoldable pub http_serve_file :
    Library → Bytes → Response → Option Request → Cache → Serving × Bool
http_serve_file lib path r request c =
    let full = index_path path in
    elim (lib.open_file full) [
      | none ↦ (not_served full [] r c, false)
      | some fd ↦ elim (lib.fstat full) [
        | none ↦ (not_served full (fd ∷ []) r c, false)
        | some st ↦
            if not st.is_regular
            then (not_served full (fd ∷ []) r c, false)
            else (serve_regular lib full fd st r request c, true)
      ]
    ]
