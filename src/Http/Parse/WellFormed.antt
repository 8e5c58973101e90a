-- ===== src/Http/Parse/WellFormed.antt =====
-- About the requests that http_parse_request of src/http.c accepts.
use nx_lite.Base.{
  ℕ, zero, suc, ◌+◌, ◌-◌, ◌≤◌, ◌<◌, ◌≡◌, refl, sym, subst, ◌∙◌, ap, inl, inr, ◌≢◌, true, false,
  ◌&&◌, some, List, [], ◌∷◌, ◌++◌, ltb, leb, length, take, drop, Bytes, isspace, strstr, strchr,
  All, All-append, arith, Bool-cases, Option-cases, length-take, length-take-le, length-append,
  leb-false, ltb→lt, take_all, &&-true,
}
use nx_lite.Http.Parse.Cases.{parsed_cases}
use nx_lite.Http.Parse.{
  Header, Request, parsed, RequestLine, crlf, skip_whitespace, read_word, scan_word,
  scan_request_line, valid_version, valid_method, valid_name, header_at, take_line, done,
  parse_headers, header_fuel, http_parse_request,
}

-- A word of one to n bytes.
abbrev pub IsWord : ℕ → Bytes → Type 0
IsWord n w = (w ≢ []) × (length w ≤ n) × All (λ c. isspace c ≡ false) w

read_word-short :
    (n : ℕ) (s : Bytes)
    → (length (read_word n s).0 ≤ n) × All (λ c. isspace c ≡ false) (read_word n s).0
unfolding read_word
read_word-short zero s = (omega arith, tt)
read_word-short (suc n) [] = (omega arith, tt)
read_word-short (suc n) (c ∷ s) = elim (Bool-cases (isspace c)) [
  | inl e ↦ rw e (omega arith, tt)
  | inr e ↦ let (short, clean) = read_word-short n s in rw e (omega (arith, short), (e, clean))
]

scan_word-IsWord : (n : ℕ) (s w rest : Bytes) → scan_word n s ≡ some (w, rest) → IsWord n w
unfolding scan_word
scan_word-IsWord n s w rest h =
    let (short, clean) = read_word-short n (skip_whitespace s) in
    let r : Bytes × Bytes = read_word n (skip_whitespace s) in go r.0 refl (short) (clean)
  where
    go :
        (x : Bytes)
        → (read_word n (skip_whitespace s)).0 ≡ x
        → length (read_word n (skip_whitespace s)).0 ≤ n
        → All (λ c. isspace c ≡ false) (read_word n (skip_whitespace s)).0
        → IsWord n w
    go [] e short clean = absurd (ground (arith, e, h))
    go (c ∷ x) e short clean =
        let same : (read_word n (skip_whitespace s)).0 ≡ w = ground (arith, e, h) in
        (
          (λ p. ground (arith, e, same, p)),
          subst (λ v. length v ≤ n) same short,
          subst (All (λ c. isspace c ≡ false)) same clean,
        )

-- The three words of a request line.
pub record IsLine (l : RequestLine) : Type 0 where
  pub method : IsWord 15 l.method
  pub uri : IsWord 2047 l.uri
  pub version : IsWord 15 l.version

scan_request_line-IsLine : (s : Bytes) (l : RequestLine) → scan_request_line s ≡ some l → IsLine l
unfolding scan_request_line
scan_request_line-IsLine s l h = elim (Option-cases (scan_word 15 s)) [
  | inl e ↦ absurd (ground (arith, e))
  | inr ((m, s1), e) ↦ elim (Option-cases (scan_word 2047 s1)) [
    | inl e1 ↦ absurd (ground (arith, e, e1))
    | inr ((u, s2), e1) ↦ elim (Option-cases (scan_word 15 s2)) [
      | inl e2 ↦ absurd (ground (arith, e, e1, e2))
      | inr ((v, s3), e2) ↦
          let same : record { method = m; uri = u; version = v } ≡ l = ground (arith, e, e1, e2) in
          subst IsLine same (record {
            method = scan_word-IsWord 15 s m s1 e;
            uri = scan_word-IsWord 2047 s1 u s2 e1;
            version = scan_word-IsWord 15 s2 v s3 e2;
          })
    ]
  ]
]

-- A header whose name is printable, and whose fields hold at most 1023 bytes.
pub record IsHeader (h : Header) : Type 0 where
  pub printable : valid_name h.name ≡ true
  pub name_fits : length h.name ≤ 1023
  pub value_fits : length h.value ≤ 1023

header_at-IsHeader :
    (s : Bytes) (k : ℕ) → k < 1024 → valid_name (take k s) ≡ true → IsHeader (header_at s k)
unfolding header_at
header_at-IsHeader s k small v =
    let whole : take 1023 (take k s) ≡ take k s =
      take_all 1023 (take k s) (omega (arith, length-take k s)) in
    record {
      printable = ap valid_name whole ∙ v;
      name_fits = omega (arith, length-take 1023 (take k s));
      value_fits = length-take-le 1023 _;
    }

-- One line adds at most one header, which is well formed.
take_line-IsHeader :
    (s : Bytes) (n : ℕ) (hs hs' : List Header)
    → take_line s n hs ≡ some hs'
    → All IsHeader hs
    → All IsHeader hs' × (length hs' ≤ length hs + 1)
unfolding take_line
take_line-IsHeader s n hs hs' e a = elim (Option-cases (strchr s b':')) [
  | inl missing ↦
      let same : hs ≡ hs' = ground (arith, missing) in
      subst (λ x. All IsHeader x × (length x ≤ length hs + 1)) same (a, omega arith)
  | inr (k, found) ↦ elim (Bool-cases (leb 1024 k)) [
    | inl large ↦ absurd (ground (arith, found, large))
    | inr small ↦ elim (Bool-cases (valid_name (take k s))) [
      | inl ok ↦
          let same : hs ++ header_at s k ∷ [] ≡ hs' = ground (arith, found, small, ok) in
          subst (λ x. All IsHeader x × (length x ≤ length hs + 1)) same
            (
              All-append IsHeader hs (header_at s k ∷ []) a
                  (header_at-IsHeader s k (leb-false _ _ small) ok, tt),
              omega (arith, length-append hs (header_at s k ∷ [])),
            )
      | inr bad ↦ absurd (ground (arith, found, small, bad))
    ]
  ]
]

parse_headers-IsHeader :
    (fuel left : ℕ) (s : Bytes) (hs hs' : List Header)
    → parse_headers fuel left s hs ≡ done hs'
    → All IsHeader hs
    → length hs ≤ 32
    → All IsHeader hs' × (length hs' ≤ 32)
unfolding parse_headers
parse_headers-IsHeader zero left s hs hs' e a b = cc
parse_headers-IsHeader (suc fuel) left s hs hs' e a b =
    elim (Bool-cases (ltb 0 left && ltb (length hs) 32)) [
      | inr stop ↦ kept (ground (arith, stop))
      | inl more ↦ elim (Option-cases (strstr s crlf)) [
        | inl e1 ↦ kept (ground (arith, more, e1))
        | inr (zero, e1) ↦ kept (ground (arith, more, e1))
        | inr (suc n, e1) ↦ elim (Option-cases (take_line s (suc n) hs)) [
          | inl e2 ↦ absurd (ground (arith, more, e1, e2))
          | inr (hs1, e2) ↦
              let (a1, b1) = take_line-IsHeader s (suc n) hs hs1 e2 a in
              let room : length hs < 32 =
                ltb→lt _ _ (&&-true (ltb 0 left) (ltb (length hs) 32) more).1 in
              parse_headers-IsHeader fuel (left - (n + 3)) (drop (n + 3) s) hs1 hs'
                (ground (arith, more, e1, e2)) a1 (omega (arith, b1, room))
        ]
      ]
    ]
  where
    kept : hs ≡ hs' → All IsHeader hs' × (length hs' ≤ 32)
    kept same = subst (λ x. All IsHeader x × (length x ≤ 32)) same (a, b)

-- A parsed request: one of the eight methods, one of the two versions, a URI of 1 to 2047 bytes
-- without white space, and at most 32 headers, each with a printable name and with name and value
-- of at most 1023 bytes.
pub record IsRequest (r : Request) : Type 0 where
  pub method : valid_method r.method ≡ true
  pub version : valid_version r.version ≡ true
  pub uri : IsWord 2047 r.uri
  pub headers : All IsHeader r.headers
  pub header_count : length r.headers ≤ 32

-- Every parsed request has one of the eight methods, one of the two versions, a URI of 1 to 2047
-- bytes without white space, and at most 32 headers, each with a printable name and with name and
-- value of at most 1023 bytes.
pub http_parse_request-IsRequest :
    (buffer : Bytes) (size : ℕ) (r : Request)
    → http_parse_request buffer size ≡ parsed r
    → IsRequest r
http_parse_request-IsRequest buffer size r h =
    let (n, l, hs, fits, line, version, method, loop, e) = parsed_cases buffer size r h in
    let w : IsLine l = scan_request_line-IsLine buffer l line in
    let (a, b) =
      parse_headers-IsHeader (header_fuel buffer) (size - (n + 2)) (drop (n + 2) buffer) [] hs loop
        tt (omega arith) in
    subst IsRequest (sym e) (record {
      method = ap valid_method (take_all 15 l.method w.method.1) ∙ method;
      version = ap valid_version (take_all 15 l.version w.version.1) ∙ version;
      uri = subst (IsWord 2047) (sym (take_all 2047 l.uri w.uri.1)) w.uri;
      headers = a;
      header_count = b;
    })
