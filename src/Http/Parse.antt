-- ===== src/Http/Parse.antt =====
-- http_parse_request and http_should_keep_alive of src/http.c. A pointer into the buffer is the
-- string that it points to; `left` is the number of bytes from line_start to buffer + length.
pub mod Cases
pub mod KeepAlive
pub mod WellFormed
pub mod Total
pub mod Print
pub mod RoundTrip
mod Tests
use nx_lite.Base.{
  ℕ, zero, suc, ◌+◌, ◌-◌, ◌*◌, Bool, true, false, not, ◌&&◌, ◌||◌, Option, none, some, List, [],
  ◌∷◌, ◌++◌, ltb, leb, ◌==◌, if◌then◌else◌, length, take, drop, Bytes, codes, strcmp_eq,
  strcasecmp_eq, isspace, strstr, strchr,
}

abbrev pub max_headers : ℕ
max_headers = 32

abbrev pub max_header_size : ℕ
max_header_size = 1024

abbrev pub max_uri_size : ℕ
max_uri_size = 2048

abbrev pub max_method_size : ℕ
max_method_size = 16

abbrev pub max_request_size : ℕ
max_request_size = 64 * 1024

abbrev pub max_header_line_size : ℕ
max_header_line_size = 8192

-- A name and a value.
pub record Header : Type 0 where
  pub name : Bytes
  pub value : Bytes

-- The headers hold header_count entries.
pub record Request : Type 0 where
  pub method : Bytes
  pub uri : Bytes
  pub version : Bytes
  pub headers : List Header
  pub keep_alive : Bool

-- The return values 0, -2, -3 and -1, and the loop of the model short of rounds.
pub data ParseResult : Type 0 where
  parsed : Request → ParseResult
  oversized unsupported malformed out_of_fuel : ParseResult

abbrev pub crlf : Bytes
crlf = 13 ∷ 10 ∷ []

unfoldable pub skip_whitespace : Bytes → Bytes
unfolding isspace
skip_whitespace [] = []
skip_whitespace (c ∷ s) = let rest = skip_whitespace s in if isspace c then rest else c ∷ s

-- At most n bytes up to a white-space byte, and what follows them.
unfoldable pub read_word : ℕ → Bytes → Bytes × Bytes
unfolding isspace
read_word zero s = ([], s)
read_word (suc n) [] = ([], [])
read_word (suc n) (c ∷ s) =
    let rest = read_word n s in if isspace c then ([], c ∷ s) else (c ∷ rest.0, rest.1)

-- The conversion %ns of sscanf: it fails on an empty word.
unfoldable pub scan_word : ℕ → Bytes → Option (Bytes × Bytes)
unfolding skip_whitespace read_word
scan_word n s = let r = read_word n (skip_whitespace s) in elim r.0 [ [] ↦ none | c ∷ w ↦ some r ]

-- sscanf(line, "%15s %2047s %15s", method, uri, version)
pub record RequestLine : Type 0 where
  pub method : Bytes
  pub uri : Bytes
  pub version : Bytes

unfoldable pub scan_request_line : Bytes → Option RequestLine
unfolding scan_word
scan_request_line s = elim (scan_word 15 s) [
  | none ↦ none
  | some (m, s1) ↦ elim (scan_word 2047 s1) [
    | none ↦ none
    | some (u, s2) ↦ elim (scan_word 15 s2) [
      | none ↦ none
      | some (v, s3) ↦ some (record { method = m; uri = u; version = v })
    ]
  ]
]

unfoldable pub valid_version : Bytes → Bool
valid_version v = strcmp_eq v (codes "HTTP/1.0") || strcmp_eq v (codes "HTTP/1.1")

unfoldable pub valid_method : Bytes → Bool
valid_method m =
    strcmp_eq m (codes "GET")
    || strcmp_eq m (codes "HEAD")
    || strcmp_eq m (codes "POST")
    || strcmp_eq m (codes "PUT")
    || strcmp_eq m (codes "DELETE")
    || strcmp_eq m (codes "OPTIONS")
    || strcmp_eq m (codes "TRACE")
    || strcmp_eq m (codes "PATCH")

-- A byte of 128 or more is a negative char, so it fails the first test; here it fails the second.
unfoldable pub valid_name : Bytes → Bool
valid_name [] = true
valid_name (c ∷ s) = let rest = valid_name s in if ltb c 32 || ltb 126 c then false else rest

unfoldable pub skip_blanks : Bytes → Bytes
skip_blanks [] = []
skip_blanks (c ∷ s) = let rest = skip_blanks s in if c == 32 then rest else c ∷ s

-- The value is what follows the colon up to the end of the buffer, cut to 1023 bytes.
unfoldable pub header_at : Bytes → ℕ → Header
unfolding skip_blanks
header_at s colon = record {
  name = take (max_header_size - 1) (take colon s);
  value = take (max_header_size - 1) (skip_blanks (drop (suc colon) s));
}

-- What the loop does with the line at s that ends after n bytes: reject the request, or go on with
-- the headers.
unfoldable pub take_line : Bytes → ℕ → List Header → Option (List Header)
unfolding header_at valid_name
take_line s n hs = if ltb max_header_line_size n then none else elim (strchr s b':') [
  | none ↦ some hs
  | some colon ↦
      if leb max_header_size colon
      then none
      else if valid_name (take colon s)
      then some (hs ++ header_at s colon ∷ [])
      else none
]

pub data Headers : Type 0 where
  done : List Header → Headers
  rejected no_fuel : Headers

unfoldable pub parse_headers : ℕ → ℕ → Bytes → List Header → Headers
unfolding take_line
parse_headers zero left s hs = no_fuel
parse_headers (suc fuel) left s hs = elim (ltb 0 left && ltb (length hs) max_headers) [
  | false ↦ done hs
  | true ↦ elim (strstr s crlf) [
    | none ↦ done hs
    | some zero ↦ done hs
    | some (suc n) ↦ elim (take_line s (suc n) hs) [
      | none ↦ rejected
      | some hs' ↦ parse_headers fuel (left - (n + 3)) (drop (n + 3) s) hs'
    ]
  ]
]

-- The value of the first header of a name.
unfoldable pub find_header : Bytes → List Header → Option Bytes
find_header name [] = none
find_header name (h ∷ hs) = if strcasecmp_eq h.name name then some h.value else find_header name hs

unfoldable pub parsed_keep_alive : Bytes → List Header → Bool
unfolding find_header
parsed_keep_alive version hs =
    let default = strcmp_eq version (codes "HTTP/1.1") in
    elim (find_header (codes "Connection") hs) [
      | none ↦ default
      | some v ↦
          if strcasecmp_eq v (codes "close")
          then false
          else if strcasecmp_eq v (codes "keep-alive")
          then true
          else default
    ]

unfoldable pub finish_request : RequestLine → Headers → ParseResult
finish_request l (done hs) = parsed (record {
  method = take (max_method_size - 1) l.method;
  uri = take (max_uri_size - 1) l.uri;
  version = take 15 l.version;
  headers = hs;
  keep_alive = parsed_keep_alive (take 15 l.version) hs;
})
finish_request l rejected = malformed
finish_request l no_fuel = out_of_fuel

-- The rounds: each takes a line of at least three bytes off the buffer, and the last one stops.
unfoldable pub header_fuel : Bytes → ℕ
header_fuel buffer = suc (length buffer)

unfoldable pub parse_line : Bytes → ℕ → ℕ → RequestLine → ParseResult
parse_line buffer size line_end l =
    if not (valid_version l.version)
    then unsupported
    else if not (valid_method l.method)
    then malformed
    else finish_request l
        (parse_headers (header_fuel buffer) (size - (line_end + 2)) (drop (line_end + 2) buffer) [])

unfoldable pub http_parse_request : Bytes → ℕ → ParseResult
http_parse_request buffer size =
    if ltb max_request_size size then oversized else elim (strstr buffer crlf) [
      | none ↦ malformed
      | some line_end ↦ elim (scan_request_line buffer) [
        | none ↦ malformed
        | some l ↦ parse_line buffer size line_end l
      ]
    ]

-- HTTP/1.1 stays open unless the first Connection header says close; HTTP/1.0 closes unless it says
-- keep-alive; any other version closes.
unfoldable pub http_should_keep_alive : Request → Bool
unfolding find_header
http_should_keep_alive r =
    if strcmp_eq r.version (codes "HTTP/1.1")
    then elim (find_header (codes "Connection") r.headers) [
      | none ↦ true
      | some v ↦ not (strcasecmp_eq v (codes "close"))
    ]
    else if strcmp_eq r.version (codes "HTTP/1.0")
    then elim (find_header (codes "Connection") r.headers) [
      | none ↦ false
      | some v ↦ strcasecmp_eq v (codes "keep-alive")
    ]
    else false
