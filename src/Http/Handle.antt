-- ===== src/Http/Handle.antt =====
-- http_handle_request of src/http.c, over the models of path validation, cache, entity tags and file
-- serving. The configuration is its two fields that the function reads.
pub mod Served
pub mod Head
pub mod Opened
mod Tests
use nx_lite.Base.{
  ℕ, zero, suc, ◌+◌, ◌-◌, ◌*◌, Bool, true, false, not, ◌&&◌, ◌||◌, Option, none, some, List, [],
  ◌∷◌, ◌++◌, ltb, leb, ◌==◌, if◌then◌else◌, length, take, drop, get_or, Bytes, codes, strcmp_eq,
  strcasecmp_eq, strrchr,
}
use nx_lite.Http.Parse.{Header, Request, find_header, http_should_keep_alive, max_header_size}
use nx_lite.Http.Path.{path_max, validate_and_resolve_path}
use nx_lite.Http.Response.{
  Response, CompressionType, no_compression, http_add_header, http_create_response,
  http_get_mime_type, http_should_compress_mime_type, http_negotiate_compression,
}
use nx_lite.Http.Cache.{Cache, CacheEntry, zero_cache_entry, find_cached_response}
use nx_lite.Http.Etag.{Stat, make_etag, EtagMatch, matched, unmatched, overrun, if_none_match}
use nx_lite.Http.Send.{decimal}
use nx_lite.Http.Serve.{
  Library, Serving, cache_control, is_coding, coding_header, choose_level, http_compress_content,
  http_serve_file, is_one_of, image_extensions,
}

abbrev pub refuse : ℕ → Bytes → Response → Response
refuse code text r = record r { status_code = code; status_text = some text; keep_alive = false }

abbrev pub not_modified : Request → Response → Response
not_modified q r = record r {
  status_code = 304;
  status_text = some (codes "Not Modified");
  keep_alive = http_should_keep_alive q;
}

-- What If-None-Match says; unmatched where the request has no such header.
unfoldable pub check_etag : Bytes → Request → EtagMatch
check_etag etag q = elim (find_header (codes "If-None-Match") q.headers) [
  | none ↦ unmatched
  | some value ↦ if_none_match etag value
]

-- The entry of the cache answers the request; none where the comparison of tags writes behind its
-- buffer.
unfoldable pub answer_cached : Bool → Request → CacheEntry → Response → Option Response
answer_cached is_head q e r = elim (check_etag e.etag q) [
  | overrun ↦ none
  | matched ↦ some (
      not_modified q
        (http_add_header (record r { body_length = 0; is_cached = false }) (codes "ETag") e.etag))
  | unmatched ↦ some (record r {
    is_cached = true;
    cached_response = e.response;
    body_length = if is_head then 0 else e.response_len;
    keep_alive = http_should_keep_alive q;
  })
]

-- The Cache-Control header of an answer 304, which knows fewer extensions.
unfoldable pub revalidation_header : Bytes → Response → Response
revalidation_header path r = elim (strrchr path b'.') [
  | none ↦ r
  | some dot ↦
      let ext = drop dot path in
      http_add_header r (codes "Cache-Control") (
        if is_one_of ext (codes ".css" ∷ codes ".js" ∷ [])
        then codes "public, max-age=86400, must-revalidate"
        else if is_one_of ext image_extensions
        then codes "public, max-age=604800, immutable"
        else if is_one_of ext (codes ".html" ∷ codes ".htm" ∷ [])
        then codes "public, max-age=300, must-revalidate"
        else codes "public, max-age=3600")
]

abbrev pub vary_header : Response → Response
vary_header r = http_add_header r (codes "Vary") (codes "Accept-Encoding, User-Agent")

unfoldable pub etag_not_modified : Bytes → Bytes → Request → Response → Response
unfolding revalidation_header
etag_not_modified path etag q r =
    not_modified q (vary_header (revalidation_header path (http_add_header r (codes "ETag") etag)))

unfoldable pub date_not_modified : Library → Stat → Bytes → Request → Response → Response
date_not_modified lib st etag q r = not_modified q (
    vary_header (
      http_add_header (http_add_header r (codes "ETag") etag) (codes "Last-Modified")
        (lib.format_time st.mtime)))

-- If-Modified-Since names a time, and the file is not younger.
unfoldable pub is_unmodified : Library → Stat → Request → Bool
is_unmodified lib st q = elim (find_header (codes "If-Modified-Since") q.headers) [
  | none ↦ false
  | some value ↦ elim (lib.parse_time value) [ none ↦ false | some since ↦ leb st.mtime since ]
]

-- The value of the first header of that name is overwritten, or the header is added.
unfoldable pub replace_value : Bytes → Bytes → List Header → Option (List Header)
replace_value name value [] = none
replace_value name value (h ∷ hs) =
    let rest = replace_value name value hs in
    if strcasecmp_eq h.name name
    then some (record h { value = take (max_header_size - 1) value } ∷ hs)
    else elim rest [ none ↦ none | some hs' ↦ some (h ∷ hs') ]

unfoldable pub set_content_length : Bytes → Response → Response
unfolding replace_value
set_content_length value r = elim (replace_value (codes "Content-Length") value r.headers) [
  | none ↦ http_add_header r (codes "Content-Length") value
  | some hs ↦ record r { headers = hs }
]

unfoldable pub compressed_again : CompressionType → Response × Bool → Response
unfolding set_content_length
compressed_again type (c, done) =
    if done then set_content_length (decimal 20 c.compressed_length) (coding_header type c) else c

-- A body in memory that is not compressed yet is given to zlib once more.
unfoldable pub compress_again : Library → Bytes → CompressionType → Response → Response
unfolding compressed_again http_compress_content
compress_again lib mime type r =
    if is_coding type
      && not r.is_file
      && (elim r.body [ none ↦ false | some text ↦ true ])
      && ltb 0 r.body_length
      && (elim r.compressed_body [ none ↦ true | some out ↦ false ])
    then compressed_again type (http_compress_content lib 6 r type (choose_level mime))
    else r

abbrev pub drop_body : Bool → Response → Response
drop_body is_head r =
    if is_head then record r { is_file = false; is_cached = false; body_length = 0 } else r

unfoldable pub keep_alive_header : ℕ → Response → Response
keep_alive_header timeout r =
    if r.keep_alive
    then http_add_header r (codes "Keep-Alive") (codes "timeout=" ++ decimal 10 timeout)
    else r

-- What follows a file that was served.
unfoldable pub finish_response :
    Library → ℕ → Bool → Bytes → CompressionType → Request → Response → Response
finish_response lib timeout is_head path type q r = drop_body is_head (
    keep_alive_header timeout (
      compress_again lib (http_get_mime_type path) type
        (record r { keep_alive = http_should_keep_alive q })))

abbrev pub unserved : Response → Cache → Serving
unserved r c = record { response = r; cache = c; opened = []; closed = [] }

abbrev pub coding_for : Bytes → Request → CompressionType
coding_for path q =
    if http_should_compress_mime_type (some (http_get_mime_type path))
    then http_negotiate_compression (some q)
    else no_compression

unfoldable pub serve_path : Library → ℕ → Bool → Bytes → Request → Response → Cache → Serving
serve_path lib timeout is_head path q r c =
    let type = coding_for path q in
    let (s, done) = http_serve_file lib path (record r { compression_type = type }) (some q) c in
    if done
    then record s { response = finish_response lib timeout is_head path type q s.response }
    else record s { response = refuse 404 (codes "Not Found") s.response }

unfoldable pub answer_file :
    Library → ℕ → Bool → Bytes → Request → Response → Cache → Option Serving
answer_file lib timeout is_head path q r c = elim (lib.stat path) [
  | none ↦ some (unserved (refuse 404 (codes "Not Found") r) c)
  | some st ↦
      let etag = make_etag path st in
      elim (check_etag etag q) [
        | overrun ↦ none
        | matched ↦ some (unserved (etag_not_modified path etag q r) c)
        | unmatched ↦
            if is_unmodified lib st q
            then some (unserved (date_not_modified lib st etag q r) c)
            else some (serve_path lib timeout is_head path q r c)
      ]
]

unfoldable pub request_path : Request → Bytes
request_path q = if strcmp_eq q.uri (codes "/") then codes "/index.html" else q.uri

pub record Config : Type 0 where
  pub root_dir : Bytes
  pub keep_alive_timeout : ℕ

unfoldable pub answer_path :
    Library → ℕ → Bool → Bytes → Request → Response → Cache → Option Serving
answer_path lib timeout is_head path q r c = elim (find_cached_response lib.time path (some q) c) [
  | some i ↦ elim (answer_cached is_head q (get_or c.entries i zero_cache_entry) r) [
    | none ↦ none
    | some answer ↦ some (unserved answer c)
  ]
  | none ↦ answer_file lib timeout is_head path q r c
]

-- none where a tag of the request makes the comparison write behind its buffer.
unfoldable pub http_handle_request :
    (Bytes → Option Bytes) → Library → Config → Request → Cache → Option Serving
http_handle_request realpath lib config q c =
    let r = http_create_response 200 in
    if not (strcmp_eq q.method (codes "GET") || strcmp_eq q.method (codes "HEAD"))
    then some (unserved (refuse 501 (codes "Not Implemented") r) c)
    else elim (validate_and_resolve_path realpath config.root_dir (request_path q) path_max) [
      | none ↦ some (unserved (refuse 403 (codes "Forbidden") r) c)
      | some path ↦
          answer_path lib config.keep_alive_timeout (strcmp_eq q.method (codes "HEAD")) path q r c
    ]
