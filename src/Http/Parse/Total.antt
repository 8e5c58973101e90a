-- ===== src/Http/Parse/Total.antt =====
-- About the header loop of http_parse_request of src/http.c.
use nx_lite.Base.{
  ℕ, zero, suc, ◌+◌, ◌-◌, ◌<◌, ◌≡◌, refl, inl, inr, ◌≢◌, ◌&&◌, some, List, [], ◌∷◌, ltb, length,
  drop, Bytes, has_prefix, strstr, arith, Bool-cases, Option-cases, length-drop,
}
use nx_lite.Http.Parse.{
  Header, out_of_fuel, RequestLine, crlf, scan_request_line, take_line, Headers, done, rejected,
  no_fuel, parse_headers, finish_request, parse_line, header_fuel, http_parse_request,
}

strstr-nonempty : (s : Bytes) (n : ℕ) → strstr s crlf ≡ some n → 0 < length s
unfolding strstr has_prefix
strstr-nonempty [] n h = ground arith
strstr-nonempty (x ∷ s) n h = omega arith

parse_headers_total :
    (fuel left : ℕ) (s : Bytes) (hs : List Header)
    → length s < fuel
    → parse_headers fuel left s hs ≢ no_fuel
unfolding parse_headers
parse_headers_total zero left s hs h e = absurd (omega arith)
parse_headers_total (suc fuel) left s hs h e =
    elim (Bool-cases (ltb 0 left && ltb (length hs) 32)) [
      | inr stop ↦ ground (arith, stop)
      | inl more ↦ elim (Option-cases (strstr s crlf)) [
        | inl e1 ↦ ground (arith, more, e1)
        | inr (zero, e1) ↦ ground (arith, more, e1)
        | inr (suc n, e1) ↦ elim (Option-cases (take_line s (suc n) hs)) [
          | inl e2 ↦ ground (arith, more, e1, e2)
          | inr (hs1, e2) ↦
              parse_headers_total fuel (left - (n + 3)) (drop (n + 3) s) hs1
                (omega (arith, length-drop (n + 3) s, strstr-nonempty s (suc n) e1))
                (ground (arith, more, e1, e2))
        ]
      ]
    ]

finish_request_total :
    (l : RequestLine) (hs : Headers) → hs ≢ no_fuel → finish_request l hs ≢ out_of_fuel
unfolding finish_request
finish_request_total l (done hs) h e = cc
finish_request_total l rejected h e = cc
finish_request_total l no_fuel h e = h refl

-- Parsing ends for every buffer: the rounds given to the header loop are enough.
pub http_parse_request_total :
    (buffer : Bytes) (size : ℕ) → http_parse_request buffer size ≢ out_of_fuel
unfolding http_parse_request parse_line
http_parse_request_total buffer size e = elim (Option-cases (strstr buffer crlf)) [
  | inl e1 ↦ ground (arith, e1)
  | inr (n, e1) ↦ elim (Option-cases (scan_request_line buffer)) [
    | inl e2 ↦ ground (arith, e1, e2)
    | inr (l, e2) ↦
        finish_request_total l _
          (parse_headers_total (header_fuel buffer) (size - (n + 2)) (drop (n + 2) buffer) []
            (unfold header_fuel in omega (arith, length-drop (n + 2) buffer)))
          (ground (arith, e1, e2))
  ]
]
