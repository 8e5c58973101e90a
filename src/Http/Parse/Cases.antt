-- ===== src/Http/Parse/Cases.antt =====
-- What a successful parse has passed.
use nx_lite.Base.{
  ℕ, ◌+◌, ◌-◌, ◌≤◌, ◌≡◌, refl, inl, inr, true, some, List, [], ltb, take, drop, Bytes, strstr,
  arith, Bool-cases, Option-cases, ltb-false,
}
use nx_lite.Http.Parse.{
  Header, Request, parsed, RequestLine, crlf, scan_request_line, valid_version, valid_method,
  Headers, done, rejected, no_fuel, parse_headers, parsed_keep_alive, header_fuel, finish_request,
  parse_line, http_parse_request,
}

abbrev pub finished : RequestLine → List Header → Request
finished l hs = record {
  method = take 15 l.method;
  uri = take 2047 l.uri;
  version = take 15 l.version;
  headers = hs;
  keep_alive = parsed_keep_alive (take 15 l.version) hs;
}

finish_request_cases :
    (l : RequestLine) (hs : Headers) (r : Request)
    → finish_request l hs ≡ parsed r
    → (hs' : List Header) × (hs ≡ done hs') × (r ≡ finished l hs')
unfolding finish_request
finish_request_cases l (done hs) r h = (hs, refl, ground arith)
finish_request_cases l rejected r h = cc
finish_request_cases l no_fuel r h = cc

-- A parsed request is one that all the tests let through.
pub parsed_cases :
    (buffer : Bytes) (size : ℕ) (r : Request)
    → http_parse_request buffer size ≡ parsed r
    → (n : ℕ) × (l : RequestLine) × (hs : List Header) × (size ≤ 65536)
      × (scan_request_line buffer ≡ some l)
      × (valid_version l.version ≡ true)
      × (valid_method l.method ≡ true)
      × (parse_headers (header_fuel buffer) (size - (n + 2)) (drop (n + 2) buffer) [] ≡ done hs)
      × (r ≡ finished l hs)
unfolding http_parse_request parse_line
parsed_cases buffer size r h = elim (Bool-cases (ltb 65536 size)) [
  | inl large ↦ absurd (ground (arith, large))
  | inr small ↦ elim (Option-cases (strstr buffer crlf)) [
    | inl e ↦ absurd (ground (arith, small, e))
    | inr (n, e) ↦ elim (Option-cases (scan_request_line buffer)) [
      | inl e1 ↦ absurd (ground (arith, small, e, e1))
      | inr (l, e1) ↦ elim (Bool-cases (valid_version l.version)) [
        | inr bad ↦ absurd (ground (arith, small, e, e1, bad))
        | inl v ↦ elim (Bool-cases (valid_method l.method)) [
          | inr bad ↦ absurd (ground (arith, small, e, e1, v, bad))
          | inl m ↦
              let (hs, loop, same) =
                finish_request_cases l _ r (ground (arith, small, e, e1, v, m)) in
              (n, l, hs, ltb-false 65536 size small, e1, v, m, loop, same)
        ]
      ]
    ]
  ]
]
