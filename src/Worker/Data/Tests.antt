-- ===== src/Worker/Data/Tests.antt =====
-- Data of a client at concrete inputs.
use nx_lite.Base.{
  ◌+◌, ◌≡◌, refl, ◌≢◌, true, false, Option, none, some, [], ◌∷◌, ◌++◌, Bytes, codes, arith, length,
  strcmp_eq, if◌then◌else◌, strstr, strrchr, has_prefix, strcasecmp_eq, strchr, isspace, djb2,
}
use nx_lite.Mempool.{Pool}
use nx_lite.RateLimit.Entries.{zero_table}
use nx_lite.Http.Parse.{
  scan_request_line, parse_line, valid_version, valid_method, finish_request, parse_headers,
  header_fuel, parsed_keep_alive, Request, parsed, http_parse_request, crlf, find_header,
  http_should_keep_alive,
}
use nx_lite.Http.Path.{within_root, validate_and_resolve_path}
use nx_lite.Http.Response.{Response, http_create_response, http_add_header}
use nx_lite.Http.Cache.{zero_cache}
use nx_lite.Http.Cache.Lookup.{find_cached_response-zero_cache}
use nx_lite.Http.Etag.{Stat, make_etag, hex, etag_input}
use nx_lite.Http.Send.{
  wrote, other, header_block, decimal, send_fresh, complete, http_send_response,
}
use nx_lite.Http.Serve.{Library}
use nx_lite.Http.Handle.{
  unserved, request_path, date_not_modified, answer_file, check_etag, is_unmodified,
  http_handle_request,
}
use nx_lite.Http.Handle.Served.{http_handle_request-get}
use nx_lite.Worker.{Client, zero_client, Worker, find_client}
use nx_lite.Worker.Data.{System, Handled, handled, unfinished, c_string, worker_handle_client_data}
use nx_lite.Worker.Data.Total.{worker_handle_client_data_total}
use nx_lite.Worker.Data.Lost.{once}
use nx_lite.Worker.Data.Pipeline.{
  IsPipeline, no_more, request, answer_in_order, worker_handle_client_data-answer_in_order,
}

abbrev css_path : Bytes
css_path = codes "/srv/a.css"

abbrev small_realpath : Bytes → Option Bytes
small_realpath p =
    if strcmp_eq p (codes "./static")
    then some (codes "/srv")
    else if strcmp_eq p (codes "./static/a.css")
    then some css_path
    else none

abbrev css_stat : Stat
css_stat = record { is_regular = true; ino = 12; size = 5; mtime = 1000 }

-- Every name is the same file, and every date is a later one.
abbrev one_file : Library
one_file = record {
  open_file = λ p. some 7;
  stat = λ p. some css_stat;
  fstat = λ p. some css_stat;
  pread = λ n p size. none;
  memory = λ n. false;
  zlib_init = λ n. false;
  compress = λ type level text room. none;
  format_time = λ t. codes "Thu";
  parse_time = λ s. some 2000;
  time = 5000;
}

abbrev system : System
system = record {
  realpath = small_realpath;
  config = record { root_dir = codes "./static"; keep_alive_timeout = 60 };
  library = λ n. one_file;
  socket = λ n k size. wrote size other;
  file = λ n. [];
  epoll_set = λ n. true;
  timer_set = λ n. true;
}

abbrev pool : Pool
pool = record {
  block_size = 8192;
  blocks_per_pool = 2;
  free_list = none;
  memory_blocks = 4096 ∷ [];
  total_blocks = 2;
  used_blocks = 1;
  local_free_list = some 0;
  local_free_count = 1;
  next = λ i. none;
  address = λ i. 4096 + i;
}

abbrev reader : Client
reader = record zero_client { fd = 5; timer_fd = 6; last_activity = 100; buffer = some 1 }

abbrev worker : Worker
worker = record {
  keep_alive_timeout = 30;
  clients = reader ∷ [];
  buffer_pool = pool;
  rate_limits = zero_table;
  calls = [];
}

abbrev request_rest : Bytes
request_rest =
    codes "ET /a.css HTTP/1.1" ++ (crlf ++ (codes "If-Modified-Since: Fri" ++ (crlf ++ crlf)))

abbrev conditional : Request
conditional = record {
  method = codes "GET";
  uri = codes "/a.css";
  version = codes "HTTP/1.1";
  headers = record { name = codes "If-Modified-Since"; value = codes "Fri" ++ (crlf ++ crlf) } ∷ [];
  keep_alive = true;
}

conditional_parsed :
    http_parse_request (c_string (b'G' ∷ request_rest)) (length (b'G' ∷ request_rest))
    ≡ parsed conditional
unfolding http_parse_request c_string strstr has_prefix isspace strcmp_eq strcasecmp_eq strchr
    scan_request_line parse_line valid_version valid_method finish_request parse_headers header_fuel
    parsed_keep_alive
conditional_parsed = refl

abbrev unchanged_response : Response
unchanged_response =
    date_not_modified one_file css_stat (make_etag css_path css_stat) conditional
      (http_create_response 200)

conditional_answered :
    http_handle_request small_realpath one_file system.config conditional zero_cache
    ≡ some (unserved unchanged_response zero_cache)
unfolding validate_and_resolve_path request_path strcmp_eq strstr strrchr has_prefix within_root
    answer_file check_etag is_unmodified find_header strcasecmp_eq
conditional_answered =
    http_handle_request-get small_realpath one_file system.config conditional zero_cache css_path
      refl refl (find_cached_response-zero_cache 5000 css_path (some conditional))

unchanged_sent : (http_send_response (system.socket 0) [] unchanged_response).code ≡ complete
unfolding http_send_response date_not_modified http_create_response http_add_header header_block
    decimal make_etag http_should_keep_alive strcmp_eq send_fresh hex djb2 etag_input strcasecmp_eq
unchanged_sent = refl

unchanged_kept : unchanged_response.keep_alive ≡ true
unfolding date_not_modified http_should_keep_alive strcmp_eq strcasecmp_eq
unchanged_kept = refl

conditional_in_order :
    answer_in_order system 0 zero_cache (conditional ∷ [])
    ≡ some (zero_cache, (http_send_response (system.socket 0) [] unchanged_response).output ++ [])
unfolding answer_in_order
conditional_in_order =
    simp (answer_in_order, conditional_answered, unchanged_sent, unchanged_kept) refl

conditional-IsPipeline : IsPipeline (b'G' ∷ request_rest) (conditional ∷ [])
unfolding strstr has_prefix c_string
conditional-IsPipeline =
    request (b'G' ∷ request_rest) [] conditional [] 43 refl refl conditional_parsed no_more

worker_handle_client_data-answer_in_order_example :
    (h : Handled) × (worker_handle_client_data system
        (once b'G' request_rest)
        200
        5
        worker
        zero_cache
      ≡ handled h)
    × (h.cache ≡ zero_cache)
    × (h.output ≡ (http_send_response (system.socket 0) [] unchanged_response).output ++ [])
unfolding find_client
worker_handle_client_data-answer_in_order_example =
    worker_handle_client_data-answer_in_order system b'G' request_rest (conditional ∷ []) 200 5 0 1
      worker zero_cache zero_cache
      ((http_send_response (system.socket 0) [] unchanged_response).output ++ []) refl refl
      (omega arith) (omega arith) conditional-IsPipeline conditional_in_order

worker_handle_client_data_total_example :
    worker_handle_client_data system (once b'G' request_rest) 200 5 worker zero_cache ≢ unfinished
worker_handle_client_data_total_example =
    worker_handle_client_data_total system (once b'G' request_rest) 200 5 worker zero_cache
