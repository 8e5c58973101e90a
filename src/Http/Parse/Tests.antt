-- ===== src/Http/Parse/Tests.antt =====
-- Requests that are parsed by evaluation, and the theorems at concrete inputs.
use nx_lite.Base.{
  ◌≡◌, refl, ◌≢◌, true, [], ◌∷◌, ◌++◌, length, arith, codes, Bytes, strcmp_eq, strcasecmp_eq,
  strstr, strchr, isspace, has_byte,
}
use nx_lite.Http.Parse.{
  Header, Request, parsed, unsupported, out_of_fuel, RequestLine, crlf, scan_request_line,
  valid_version, valid_method, valid_name, take_line, parse_headers, parsed_keep_alive,
  finish_request, parse_line, header_fuel, http_parse_request, http_should_keep_alive, find_header,
}
use nx_lite.Http.Parse.KeepAlive.{keep_alive_by_version}
use nx_lite.Http.Parse.WellFormed.{IsLine, IsRequest, http_parse_request-IsRequest}
use nx_lite.Http.Parse.Total.{http_parse_request_total}
use nx_lite.Http.Parse.Print.{print_request, print_headers, run_on, IsSendable}
use nx_lite.Http.Parse.RoundTrip.{http_parse_request-print_request}

abbrev root_line : RequestLine
root_line = record { method = codes "GET"; uri = codes "/a.css"; version = codes "HTTP/1.1" }

abbrev close_header : Header
close_header = record { name = codes "Connection"; value = codes "close" }

-- A client that asks for the connection to be closed.
abbrev close_request : Bytes
close_request =
    codes "GET /a.css HTTP/1.1" ++ (crlf ++ (codes "Connection: close" ++ (crlf ++ crlf)))

-- The connection is kept open, because the value is not `close`.
abbrev close_request_result : Request
close_request_result = record {
  method = codes "GET";
  uri = codes "/a.css";
  version = codes "HTTP/1.1";
  headers = record { name = codes "Connection"; value = codes "close" ++ (crlf ++ crlf) } ∷ [];
  keep_alive = true;
}

http_parse_request-close_request :
    http_parse_request close_request (length close_request) ≡ parsed close_request_result
unfolding http_parse_request scan_request_line parse_line header_fuel parse_headers finish_request
    valid_version valid_method parsed_keep_alive take_line strstr strchr strcmp_eq strcasecmp_eq
    find_header
http_parse_request-close_request = refl

http_parse_request-old_version :
    http_parse_request (codes "GET / HTTP/0.9" ++ (crlf ++ crlf)) 18 ≡ unsupported
unfolding http_parse_request scan_request_line parse_line valid_version strstr strcmp_eq
http_parse_request-old_version = refl

keep_alive_by_version_example :
    (close_request_result.keep_alive ≡ true) × (http_should_keep_alive close_request_result ≡ true)
unfolding strcmp_eq
keep_alive_by_version_example =
    keep_alive_by_version close_request (length close_request) close_request_result
      http_parse_request-close_request

http_parse_request-IsRequest_example : IsRequest close_request_result
http_parse_request-IsRequest_example =
    http_parse_request-IsRequest close_request (length close_request) close_request_result
      http_parse_request-close_request

http_parse_request_total_example : http_parse_request close_request 42 ≢ out_of_fuel
http_parse_request_total_example = http_parse_request_total close_request 42

root_line-IsLine : IsLine root_line
unfolding isspace
root_line-IsLine = record {
  method = ((λ e. cc), omega arith, (refl, (refl, (refl, tt))));
  uri = ((λ e. cc), omega arith, (refl, (refl, (refl, (refl, (refl, (refl, tt)))))));
  version =
      ((λ e. cc), omega arith, (refl, (refl, (refl, (refl, (refl, (refl, (refl, (refl, tt)))))))));
}

close_header-IsSendable : IsSendable close_header
unfolding valid_name has_byte
close_header-IsSendable = record {
  printable = refl;
  no_colon = refl;
  name_fits = omega arith;
  one_line = refl;
  line_fits = omega arith;
}

http_parse_request-print_request_example :
    http_parse_request
      (print_request root_line (close_header ∷ []))
      (length (print_request root_line (close_header ∷ [])))
    ≡ parsed (record {
      method = codes "GET";
      uri = codes "/a.css";
      version = codes "HTTP/1.1";
      headers = run_on (close_header ∷ []);
      keep_alive = strcmp_eq (codes "HTTP/1.1") (codes "HTTP/1.1");
    })
unfolding valid_version valid_method strcmp_eq print_request print_headers
http_parse_request-print_request_example =
    http_parse_request-print_request root_line (close_header ∷ []) root_line-IsLine refl refl
      (close_header-IsSendable, tt) (omega arith) (omega arith)
