-- ===== src/Http/Handle/Tests.antt =====
-- Requests answered over a small file system.
use nx_lite.Base.{
  ◌<◌, ◌≡◌, refl, true, false, Option, none, some, [], ◌∷◌, length, All, Bytes, codes, arith,
  strcmp_eq, if◌then◌else◌, strstr, strrchr, has_prefix, strcasecmp_eq,
}
use nx_lite.Http.Parse.{Request, find_header, http_should_keep_alive}
use nx_lite.Http.Path.{within_root, validate_and_resolve_path}
use nx_lite.Http.Path.Containment.{IsWithin}
use nx_lite.Http.Response.{
  Response, http_add_header, gzip, http_create_response, http_get_mime_type,
  http_should_compress_mime_type, http_negotiate_compression,
}
use nx_lite.Http.Cache.{zero_cache}
use nx_lite.Http.Cache.Lookup.{find_cached_response-zero_cache}
use nx_lite.Http.Etag.{Stat}
use nx_lite.Http.Send.{Socket, wrote, other, header_block, decimal}
use nx_lite.Http.Serve.{Library, Serving, index_path}
use nx_lite.Http.Handle.{
  keep_alive_header, compress_again, coding_for, request_path, Config, finish_response,
  http_handle_request,
}
use nx_lite.Http.Handle.Served.{ServesFile, http_handle_request-ServesFile}
use nx_lite.Http.Handle.Opened.{http_handle_request-IsWithin}

abbrev css_path : Bytes
css_path = codes "/srv/static/a.css"

abbrev static_dir : Bytes
static_dir = codes "./static"

abbrev small_realpath : Bytes → Option Bytes
small_realpath p =
    if strcmp_eq p static_dir
    then some (codes "/srv/static")
    else if strcmp_eq p (codes "./static/a.css")
    then some css_path
    else none

abbrev css_stat : Stat
css_stat = record { is_regular = true; ino = 12; size = 5; mtime = 1000 }

-- Every name is the same file, behind descriptor 7; zlib is out of memory.
abbrev one_file : Library
one_file = record {
  open_file = λ p. some 7;
  stat = λ p. some css_stat;
  fstat = λ p. some css_stat;
  pread = λ n p size. none;
  memory = λ n. false;
  zlib_init = λ n. false;
  compress = λ type level text room. none;
  format_time = λ t. codes "Thu, 01 Jan 1970 00:16:40 GMT";
  parse_time = λ s. none;
  time = 5000;
}

abbrev config : Config
config = record { root_dir = static_dir; keep_alive_timeout = 60 }

abbrev get_css : Request
get_css = record {
  method = codes "GET";
  uri = codes "/a.css";
  version = codes "HTTP/1.1";
  headers = [];
  keep_alive = true;
}

http_handle_request-ServesFile_example :
    (s : Serving) × (http_handle_request small_realpath one_file config get_css zero_cache ≡ some s)
    × ServesFile get_css css_path 7 css_stat s
unfolding validate_and_resolve_path request_path strcmp_eq strstr strrchr has_prefix within_root
    find_header coding_for http_get_mime_type http_should_compress_mime_type
    http_negotiate_compression strcasecmp_eq
http_handle_request-ServesFile_example =
    http_handle_request-ServesFile small_realpath one_file config get_css zero_cache css_path 7
      css_stat css_stat refl refl (omega arith)
      (find_cached_response-zero_cache 5000 css_path (some get_css)) refl refl refl refl refl refl
      refl

css_answered :
    (s : Serving) × (http_handle_request small_realpath one_file config get_css zero_cache ≡ some s)
unfolding validate_and_resolve_path request_path strcmp_eq strstr strrchr has_prefix within_root
    find_header coding_for http_get_mime_type http_should_compress_mime_type
    http_negotiate_compression strcasecmp_eq
css_answered =
    let served =
      http_handle_request-ServesFile small_realpath one_file config get_css zero_cache css_path 7
        css_stat css_stat refl refl (omega arith)
        (find_cached_response-zero_cache 5000 css_path (some get_css)) refl refl refl refl refl refl
        refl in
    (served.0, served.1)

http_handle_request-IsWithin_example :
    All
      (λ p.
        (path root : Bytes) × (small_realpath static_dir ≡ some root)
        × IsWithin root path
        × (p ≡ index_path path))
      css_answered.0.opened
http_handle_request-IsWithin_example =
    http_handle_request-IsWithin small_realpath one_file config get_css zero_cache css_answered.0
      css_answered.1

abbrev css_response : Response
css_response = record (http_create_response 200) { is_file = true; file_fd = 7; body_length = 5 }

abbrev gzip_response : Response
gzip_response = record css_response {
  compression_type = gzip;
  compressed_body = some (31 ∷ 139 ∷ []);
  compressed_length = 2;
}

abbrev open_socket : Socket
open_socket k n = wrote n other

gzip_header_small :
    length (header_block (finish_response one_file 60 true css_path gzip get_css gzip_response))
    < 8192
unfolding header_block finish_response http_create_response keep_alive_header compress_again
    http_should_keep_alive strcmp_eq decimal http_add_header
gzip_header_small = omega arith
