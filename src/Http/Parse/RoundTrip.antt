-- ===== src/Http/Parse/RoundTrip.antt =====
-- Parsing a request that is printed in the usual form.
use nx_lite.Base.{
  has_byte, ℕ, zero, suc, ◌+◌, ◌-◌, ◌≤◌, ◌≡◌, refl, sym, subst, ◌∙◌, ap, true, false, some, List,
  [], ◌∷◌, ◌++◌, length, drop, Bytes, codes, strcmp_eq, isspace, strstr, All, arith, length-append,
  take_all, append_assoc,
}
use nx_lite.Http.Parse.Cases.{finished}
use nx_lite.Http.Parse.WellFormed.{IsWord, IsLine}
use nx_lite.Http.Parse.KeepAlive.{keep_alive_by_version}
use nx_lite.Http.Parse.{
  Header, Request, parsed, RequestLine, crlf, skip_whitespace, read_word, scan_word,
  scan_request_line, valid_version, valid_method, done, parse_headers, parsed_keep_alive,
  finish_request, parse_line, header_fuel, http_parse_request,
}
use nx_lite.Http.Parse.Print.{
  print_headers, print_request, IsSendable, run_on, strstr-line, has_byte-append, drop-line,
  parse_headers-sent,
}

skip_whitespace-word :
    (n : ℕ) (w rest : Bytes) → IsWord n w → skip_whitespace (w ++ rest) ≡ w ++ rest
unfolding skip_whitespace
skip_whitespace-word n [] rest w = absurd (w.0 refl)
skip_whitespace-word n (c ∷ w) rest h = ground (arith, h.2.0)

read_word-word :
    (n c : ℕ) (w rest : Bytes)
    → length w ≤ n
    → All (λ x. isspace x ≡ false) w
    → isspace c ≡ true
    → read_word n (w ++ (c ∷ rest)) ≡ (w, c ∷ rest)
unfolding read_word
read_word-word zero c [] rest l a e = refl
read_word-word zero c (x ∷ w) rest l a e = absurd (omega arith)
read_word-word (suc n) c [] rest l a e = rw e
read_word-word (suc n) c (x ∷ w) rest l a e =
    ground (arith, a.0, read_word-word n c w rest (omega arith) a.1 e)

-- A word before a white-space byte is scanned whole, after blanks or at once.
scan_word-word :
    (n c : ℕ) (w rest : Bytes)
    → IsWord n w
    → isspace c ≡ true
    → (scan_word n (w ++ (c ∷ rest)) ≡ some (w, c ∷ rest))
      × (scan_word n (32 ∷ (w ++ (c ∷ rest))) ≡ some (w, c ∷ rest))
scan_word-word n c [] rest w e = absurd (w.0 refl)
scan_word-word n c (x ∷ w) rest h e = (here, unfold scan_word skip_whitespace in here)
  where
    read : read_word n (skip_whitespace ((x ∷ w) ++ (c ∷ rest))) ≡ (x ∷ w, c ∷ rest)
    read =
        ap (read_word n) (skip_whitespace-word n (x ∷ w) (c ∷ rest) h)
        ∙ read_word-word n c (x ∷ w) rest h.1 h.2 e

    here : scan_word n ((x ∷ w) ++ (c ∷ rest)) ≡ some (x ∷ w, c ∷ rest)
    here = unfold scan_word in ground (arith, read)

word-has_byte : (w : Bytes) → All (λ x. isspace x ≡ false) w → has_byte 13 w ≡ false
unfolding has_byte isspace
word-has_byte [] a = refl
word-has_byte (c ∷ w) a = ground (arith, a.0, word-has_byte w a.1)

abbrev line_of : RequestLine → Bytes
line_of l = l.method ++ (32 ∷ l.uri ++ (32 ∷ l.version))

line_of-has_byte : (l : RequestLine) → IsLine l → has_byte 13 (line_of l) ≡ false
line_of-has_byte l w = has_byte-append 13 l.method _ (word-has_byte l.method w.method.2) (
    unfold has_byte in
    has_byte-append 13 l.uri _ (word-has_byte l.uri w.uri.2)
      (unfold has_byte in word-has_byte l.version w.version.2))

line_of-append :
    (l : RequestLine) (x : Bytes)
    → line_of l ++ x ≡ l.method ++ (32 ∷ (l.uri ++ (32 ∷ (l.version ++ x))))
line_of-append l x =
    append_assoc l.method (32 ∷ l.uri ++ (32 ∷ l.version)) x
    ∙ ap (λ t. l.method ++ (32 ∷ t)) (append_assoc l.uri (32 ∷ l.version) x)

scan_request_line-line :
    (l : RequestLine) (t : Bytes) → IsLine l → scan_request_line (line_of l ++ (crlf ++ t)) ≡ some l
unfolding isspace
scan_request_line-line l t w = rw (line_of-append l (crlf ++ t)) scanned
  where
    version : scan_word 15 (32 ∷ (l.version ++ (crlf ++ t))) ≡ some (l.version, crlf ++ t)
    version = (scan_word-word 15 13 l.version (10 ∷ t) w.version refl).1

    uri :
        scan_word 2047 (32 ∷ (l.uri ++ (32 ∷ (l.version ++ (crlf ++ t)))))
        ≡ some (l.uri, 32 ∷ (l.version ++ (crlf ++ t)))
    uri = (scan_word-word 2047 32 l.uri (l.version ++ (crlf ++ t)) w.uri refl).1

    method :
        scan_word 15 (l.method ++ (32 ∷ (l.uri ++ (32 ∷ (l.version ++ (crlf ++ t))))))
        ≡ some (l.method, 32 ∷ (l.uri ++ (32 ∷ (l.version ++ (crlf ++ t)))))
    method =
        (scan_word-word 15 32 l.method (l.uri ++ (32 ∷ (l.version ++ (crlf ++ t)))) w.method refl).0

    scanned :
        scan_request_line (l.method ++ (32 ∷ (l.uri ++ (32 ∷ (l.version ++ (crlf ++ t)))))) ≡ some l
    scanned = unfold scan_request_line in ground (arith, method, uri, version)

-- The header loop over the rest of a printed request.
loop-sent :
    (l : RequestLine) (hs : List Header)
    → All IsSendable hs
    → length hs ≤ 32
    → parse_headers
        (header_fuel (print_request l hs))
        (length (print_request l hs) - (length (line_of l) + 2))
        (drop (length (line_of l) + 2) (print_request l hs))
        []
      ≡ done (run_on hs)
loop-sent l hs a few =
    subst
      (λ s.
        parse_headers (header_fuel (print_request l hs))
          (length (print_request l hs) - (length (line_of l) + 2)) s []
        ≡ done (run_on hs))
      (sym rest)
      (parse_headers-sent (header_fuel (print_request l hs))
        (length (print_request l hs) - (length (line_of l) + 2)) hs [] a (omega (arith, size))
        (unfold header_fuel in omega (arith, size)) (omega arith))
  where
    rest : drop (length (line_of l) + 2) (print_request l hs) ≡ print_headers hs
    rest =
        unfold print_request in
        subst (λ k. drop k (line_of l ++ (crlf ++ print_headers hs)) ≡ print_headers hs) two
          (drop-line (line_of l) (print_headers hs))
      where
        two : suc (suc (length (line_of l))) ≡ length (line_of l) + 2
        two = omega arith

    size : length (print_request l hs) ≡ length (line_of l) + 2 + length (print_headers hs)
    size =
        unfold print_request in omega (arith, length-append (line_of l) (crlf ++ print_headers hs))

finished-line :
    (l : RequestLine) (hs : List Header)
    → IsLine l
    → finished l hs ≡ record {
      method = l.method;
      uri = l.uri;
      version = l.version;
      headers = hs;
      keep_alive = parsed_keep_alive l.version hs;
    }
finished-line l hs w = ground (
  arith,
  take_all 15 l.method w.method.1,
  take_all 2047 l.uri w.uri.1,
  take_all 15 l.version w.version.1,
)

parsed-sent :
    (l : RequestLine) (hs : List Header)
    → IsLine l
    → valid_version l.version ≡ true
    → valid_method l.method ≡ true
    → All IsSendable hs
    → length hs ≤ 32
    → length (print_request l hs) ≤ 65536
    → http_parse_request (print_request l hs) (length (print_request l hs))
      ≡ parsed (finished l (run_on hs))
unfolding http_parse_request parse_line finish_request
parsed-sent l hs w v m a few fits = ground (arith, ends, scanned, v, m, loop-sent l hs a few)
  where
    ends : strstr (print_request l hs) crlf ≡ some (length (line_of l))
    ends = unfold print_request in strstr-line (line_of l) (print_headers hs) (line_of-has_byte l w)

    scanned : scan_request_line (print_request l hs) ≡ some l
    scanned = unfold print_request in scan_request_line-line l (print_headers hs) w

-- A printed request with a valid method and version, at most 32 sendable headers and at most 65536
-- bytes is parsed: method, URI, version and the header names come back in order, and each value
-- comes back cut to 1023 bytes of itself and all that is printed behind it.
pub http_parse_request-print_request :
    (l : RequestLine) (hs : List Header)
    → IsLine l
    → valid_version l.version ≡ true
    → valid_method l.method ≡ true
    → All IsSendable hs
    → length hs ≤ 32
    → length (print_request l hs) ≤ 65536
    → http_parse_request (print_request l hs) (length (print_request l hs))
      ≡ parsed (record {
        method = l.method;
        uri = l.uri;
        version = l.version;
        headers = run_on hs;
        keep_alive = strcmp_eq l.version (codes "HTTP/1.1");
      })
http_parse_request-print_request l hs w v m a few fits =
    let r : Request = finished l (run_on hs) in
    let p : http_parse_request (print_request l hs) (length (print_request l hs)) ≡ parsed r =
      parsed-sent l hs w v m a few fits in
    p ∙ ap parsed (ground (arith, finished-line l (run_on hs) w, (keep_alive_by_version _ _ r p).0))
