-- ===== src/Http/Response.antt =====
-- http_response_t of include/http.h and, of src/http.c, http_create_response, http_add_header,
-- http_get_mime_type, http_should_compress_mime_type, http_negotiate_compression and
-- http_free_response.
pub mod Headers
pub mod Content
mod Tests
use nx_lite.Base.{
  ℕ, ◌+◌, ◌-◌, Bool, true, false, not, ◌&&◌, ◌||◌, Option, none, some, List, [], ◌∷◌, ◌++◌, ltb,
  leb, ◌==◌, if◌then◌else◌, length, take, drop, Bytes, codes, strcasecmp_eq, strstr, strrchr,
}
use nx_lite.Http.Parse.{Header, Request, max_headers, max_header_size}

pub data CompressionType : Type 0 where
  no_compression gzip deflate : CompressionType

-- A pointer to bytes is none where it is null. file_fd is 0 or a descriptor that open returned.
pub record Response : Type 0 where
  pub status_code : ℕ
  pub status_text : Option Bytes
  pub headers : List Header
  pub keep_alive : Bool
  pub is_file : Bool
  pub is_cached : Bool
  pub file_fd : ℕ
  pub cached_response : Option Bytes
  pub body : Option Bytes
  pub body_length : ℕ
  pub file_offset : ℕ
  pub compression_type : CompressionType
  pub compressed_body : Option Bytes
  pub compressed_length : ℕ
  pub compression_level : ℕ

abbrev pub StatusTable : Type 0
StatusTable = List (ℕ × Bytes)

abbrev pub status_messages : StatusTable
status_messages =
    (200, codes "OK")
    ∷ (400, codes "Bad Request")
    ∷ (403, codes "Forbidden")
    ∷ (404, codes "Not Found")
    ∷ (413, codes "Request Entity Too Large")
    ∷ (500, codes "Internal Server Error")
    ∷ (501, codes "Not Implemented")
    ∷ (505, codes "HTTP Version Not Supported")
    ∷ []

unfoldable pub find_status : ℕ → StatusTable → Option Bytes
find_status code [] = none
find_status code ((c, text) ∷ rest) = if c == code then some text else find_status code rest

unfoldable pub http_add_header : Response → Bytes → Bytes → Response
http_add_header r name value =
    if ltb (length r.headers) max_headers
    then record r {
      headers =
          r.headers
          ++ record {
            name = take (max_header_size - 1) name;
            value = take (max_header_size - 1) value;
          }
            ∷ [];
    }
    else r

unfoldable pub zero_response : ℕ → Response
unfolding find_status
zero_response status_code = record {
  status_code = status_code;
  status_text = find_status status_code status_messages;
  headers = [];
  keep_alive = false;
  is_file = false;
  is_cached = false;
  file_fd = 0;
  cached_response = none;
  body = none;
  body_length = 0;
  file_offset = 0;
  compression_type = no_compression;
  compressed_body = none;
  compressed_length = 0;
  compression_level = 0;
}

-- The headers that every response carries.
abbrev pub security_headers : List Header
security_headers =
    record { name = codes "X-Content-Type-Options"; value = codes "nosniff" }
    ∷ record { name = codes "X-Frame-Options"; value = codes "DENY" }
    ∷ record { name = codes "X-XSS-Protection"; value = codes "1; mode=block" }
    ∷ record { name = codes "Referrer-Policy"; value = codes "strict-origin-when-cross-origin" }
    ∷ record { name = codes "Content-Security-Policy"; value = codes "default-src 'self'" }
    ∷ []

unfoldable pub add_headers : Response → List Header → Response
add_headers r [] = r
add_headers r (h ∷ hs) = add_headers (http_add_header r h.name h.value) hs

unfoldable pub http_create_response : ℕ → Response
unfolding zero_response add_headers http_add_header
http_create_response status_code = add_headers (zero_response status_code) security_headers

abbrev pub mime_types : List (Bytes × Bytes)
mime_types =
    (codes ".html", codes "text/html")
    ∷ (codes ".htm", codes "text/html")
    ∷ (codes ".css", codes "text/css")
    ∷ (codes ".js", codes "application/javascript")
    ∷ (codes ".json", codes "application/json")
    ∷ (codes ".png", codes "image/png")
    ∷ (codes ".jpg", codes "image/jpeg")
    ∷ (codes ".jpeg", codes "image/jpeg")
    ∷ (codes ".gif", codes "image/gif")
    ∷ (codes ".ico", codes "image/x-icon")
    ∷ (codes ".txt", codes "text/plain")
    ∷ (codes ".pdf", codes "application/pdf")
    ∷ []

unfoldable pub find_mime_type : Bytes → List (Bytes × Bytes) → Option Bytes
find_mime_type ext [] = none
find_mime_type ext ((e, type) ∷ rest) =
    if strcasecmp_eq ext e then some type else find_mime_type ext rest

-- mime_types[0].type is what an unknown extension gets.
unfoldable pub http_get_mime_type : Bytes → Bytes
unfolding find_mime_type
http_get_mime_type path = elim (strrchr path b'.') [
  | none ↦ codes "text/html"
  | some dot ↦ elim (find_mime_type (drop dot path) mime_types) [
    | none ↦ codes "text/html"
    | some type ↦ type
  ]
]

abbrev pub compressible_types : List Bytes
compressible_types =
    codes "text/"
    ∷ codes "application/javascript"
    ∷ codes "application/json"
    ∷ codes "application/xml"
    ∷ codes "application/xhtml+xml"
    ∷ codes "image/svg+xml"
    ∷ codes "application/x-font-ttf"
    ∷ codes "application/x-font-opentype"
    ∷ codes "application/vnd.ms-fontobject"
    ∷ codes "application/font-woff"
    ∷ codes "application/font-woff2"
    ∷ []

-- strncasecmp(type, prefix, strlen(prefix)) == 0 for one of the prefixes
unfoldable pub has_some_prefix : Bytes → List Bytes → Bool
has_some_prefix type [] = false
has_some_prefix type (p ∷ ps) =
    if strcasecmp_eq (take (length p) type) p then true else has_some_prefix type ps

unfoldable pub http_should_compress_mime_type : Option Bytes → Bool
unfolding has_some_prefix
http_should_compress_mime_type none = false
http_should_compress_mime_type (some type) = has_some_prefix type compressible_types

-- The first Accept-Encoding header that names gzip or deflate decides.
unfoldable pub negotiate : List Header → CompressionType
negotiate [] = no_compression
negotiate (h ∷ hs) =
    let rest = negotiate hs in
    if strcasecmp_eq h.name (codes "Accept-Encoding")
    then elim (strstr h.value (codes "gzip")) [
      | some n ↦ gzip
      | none ↦ elim (strstr h.value (codes "deflate")) [ some n ↦ deflate | none ↦ rest ]
    ]
    else rest

unfoldable pub http_negotiate_compression : Option Request → CompressionType
unfolding negotiate
http_negotiate_compression none = no_compression
http_negotiate_compression (some r) = negotiate r.headers

-- The descriptor that is closed, if one is, and the response without its bodies.
unfoldable pub http_free_response : Response → Response × Option ℕ
http_free_response r =
    (record r { body = none; compressed_body = none }, if r.is_file then some r.file_fd else none)
