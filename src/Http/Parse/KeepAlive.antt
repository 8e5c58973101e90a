-- ===== src/Http/Parse/KeepAlive.antt =====
-- About the Connection header in http_parse_request and http_should_keep_alive of src/http.c.
use nx_lite.Base.{
  has_byte, ℕ, zero, suc, ◌+◌, ◌-◌, ◌≤◌, ◌<◌, ◌≡◌, refl, subst, ◌∙◌, ap, ◌⊎◌, inl, inr, true, false,
  ◌&&◌, some, List, [], ◌∷◌, ltb, ◌==◌, length, take, drop, Bytes, codes, strcmp_eq, strcasecmp_eq,
  strstr, strchr, All, All-append, arith, Bool-cases, Option-cases, length-take, take_all,
  ltb-false, ltb→lt,
}
use nx_lite.Http.Parse.Cases.{parsed_cases, finished}
use nx_lite.Http.Parse.{
  Header, Request, parsed, crlf, valid_name, skip_blanks, header_at, take_line, done, parse_headers,
  find_header, parsed_keep_alive, http_parse_request, http_should_keep_alive,
}

strcasecmp_eq-length : (s t : Bytes) → strcasecmp_eq s t ≡ true → length s ≡ length t
unfolding strcasecmp_eq
strcasecmp_eq-length [] [] h = refl
strcasecmp_eq-length [] (y ∷ t) h = ground arith
strcasecmp_eq-length (x ∷ s) [] h = ground arith
strcasecmp_eq-length (x ∷ s) (y ∷ t) h = ground (arith, strcasecmp_eq-length s t)

strcasecmp_eq-has_byte :
    (s t : Bytes) → strcasecmp_eq s t ≡ true → has_byte 13 s ≡ true → has_byte 13 t ≡ true
unfolding strcasecmp_eq has_byte
strcasecmp_eq-has_byte [] t h b = ground arith
strcasecmp_eq-has_byte (x ∷ s) [] h b = ground arith
strcasecmp_eq-has_byte (x ∷ s) (y ∷ t) h b = ground (arith, strcasecmp_eq-has_byte s t)

-- A value that holds a carriage return, or fills its field.
abbrev pub IsOverlong : Bytes → Type 0
IsOverlong v = (has_byte 13 v ≡ true) ⊎ (length v ≡ 1023)

IsOverlong-ne :
    (v t : Bytes)
    → IsOverlong v
    → has_byte 13 t ≡ false
    → length t < 1023
    → strcasecmp_eq v t ≡ false
IsOverlong-ne v t o clean short = elim (Bool-cases (strcasecmp_eq v t)) [
  | inl e ↦ absurd (ground (arith, strcasecmp_eq-has_byte v t e, strcasecmp_eq-length v t e))
  | inr e ↦ e
]

strstr-has_byte : (s : Bytes) (n : ℕ) → strstr s crlf ≡ some n → has_byte 13 s ≡ true
unfolding strstr has_byte
strstr-has_byte [] n h = ground arith
strstr-has_byte (x ∷ s) n h = elim (Option-cases (strstr s crlf)) [
  | inl e ↦ ground (arith, e)
  | inr (m, e) ↦ ground (arith, strstr-has_byte s m e)
]

strchr-suc :
    (x c k : ℕ) (s : Bytes)
    → strchr (x ∷ s) c ≡ some (suc k)
    → ((x == c) ≡ false) × (strchr s c ≡ some k)
unfolding strchr
strchr-suc x c k s h = elim (Option-cases (strchr s c)) [
  | inl e ↦ ground (arith, e)
  | inr (m, e) ↦ ground (arith, e)
]

strchr-zero : (x c : ℕ) (s : Bytes) → strchr (x ∷ s) c ≡ some 0 → (x == c) ≡ true
unfolding strchr
strchr-zero x c s h = elim (Option-cases (strchr s c)) [
  | inl e ↦ ground (arith, e)
  | inr (m, e) ↦ ground (arith, e)
]

valid_name-cons :
    (x : ℕ) (s : Bytes) → valid_name (x ∷ s) ≡ true → (32 ≤ x) × (x ≤ 126) × (valid_name s ≡ true)
unfolding valid_name
valid_name-cons x s h = ground arith

-- The colon stands before the end of its line, since a name holds no carriage return.
after_colon :
    (s : Bytes) (k : ℕ)
    → strchr s b':' ≡ some k
    → valid_name (take k s) ≡ true
    → has_byte 13 s ≡ true
    → has_byte 13 (drop (suc k) s) ≡ true
unfolding has_byte
after_colon [] k h v b = ground arith
after_colon (x ∷ s) zero h v b = ground (arith, strchr-zero x b':' s h)
after_colon (x ∷ s) (suc k) h v b =
    let head : (32 ≤ x) × (x ≤ 126) × (valid_name (take k s) ≡ true) =
      valid_name-cons x (take k s) v in
    after_colon s k (strchr-suc x b':' k s h).1 head.2 (ground (arith, head))

skip_blanks-has_byte : (s : Bytes) → has_byte 13 s ≡ true → has_byte 13 (skip_blanks s) ≡ true
unfolding skip_blanks has_byte
skip_blanks-has_byte [] b = b
skip_blanks-has_byte (x ∷ s) b = ground (arith, skip_blanks-has_byte s)

take-IsOverlong : (s : Bytes) → has_byte 13 s ≡ true → IsOverlong (take 1023 s)
take-IsOverlong s b = elim (Bool-cases (ltb (length s) 1023)) [
  | inl e ↦ inl (ap (has_byte 13) (take_all 1023 s (omega (arith, ltb→lt (length s) 1023 e))) ∙ b)
  | inr e ↦ inr (omega (arith, length-take 1023 s, ltb-false (length s) 1023 e))
]

IsOverlong-header_at :
    (s : Bytes) (k : ℕ)
    → strchr s b':' ≡ some k
    → valid_name (take k s) ≡ true
    → has_byte 13 s ≡ true
    → IsOverlong (header_at s k).value
unfolding header_at
IsOverlong-header_at s k h v b = take-IsOverlong _ (skip_blanks-has_byte _ (after_colon s k h v b))

abbrev pub AllOverlong : List Header → Type 0
AllOverlong hs = All (λ h. IsOverlong h.value) hs

take_line-AllOverlong :
    (s : Bytes) (n : ℕ) (hs hs' : List Header)
    → has_byte 13 s ≡ true
    → AllOverlong hs
    → take_line s n hs ≡ some hs'
    → AllOverlong hs'
unfolding take_line
take_line-AllOverlong s n hs hs' b a e = elim (Option-cases (strchr s b':')) [
  | inl none_found ↦ subst AllOverlong (ground (arith, none_found)) a
  | inr (k, found) ↦ elim (Bool-cases (valid_name (take k s))) [
    | inl ok ↦ subst AllOverlong (ground (arith, found, ok)) (
        All-append (λ h. IsOverlong h.value) hs (header_at s k ∷ []) a
          (IsOverlong-header_at s k found ok b, tt))
    | inr bad ↦ absurd (ground (arith, found, bad))
  ]
]

parse_headers-AllOverlong :
    (fuel left : ℕ) (s : Bytes) (hs hs' : List Header)
    → AllOverlong hs
    → parse_headers fuel left s hs ≡ done hs'
    → AllOverlong hs'
unfolding parse_headers
parse_headers-AllOverlong zero left s hs hs' a e = cc
parse_headers-AllOverlong (suc fuel) left s hs hs' a e =
    elim (Bool-cases (ltb 0 left && ltb (length hs) 32)) [
      | inr stop ↦ subst AllOverlong (ground (arith, stop)) a
      | inl more ↦ elim (Option-cases (strstr s crlf)) [
        | inl e1 ↦ subst AllOverlong (ground (arith, more, e1)) a
        | inr (zero, e1) ↦ subst AllOverlong (ground (arith, more, e1)) a
        | inr (suc n, e1) ↦ elim (Option-cases (take_line s (suc n) hs)) [
          | inl e2 ↦ absurd (ground (arith, more, e1, e2))
          | inr (hs1, e2) ↦
              parse_headers-AllOverlong fuel (left - (n + 3)) (drop (n + 3) s) hs1 hs'
                (take_line-AllOverlong s (suc n) hs hs1 (strstr-has_byte s (suc n) e1) a e2)
                (ground (arith, more, e1, e2))
        ]
      ]
    ]

find_header-IsOverlong :
    (name : Bytes) (hs : List Header) (v : Bytes)
    → AllOverlong hs
    → find_header name hs ≡ some v
    → IsOverlong v
unfolding find_header
find_header-IsOverlong name [] v a e = absurd (ground arith)
find_header-IsOverlong name (h ∷ hs) v a e = elim (Bool-cases (strcasecmp_eq h.name name)) [
  | inl hit ↦ subst IsOverlong (ground (arith, hit)) a.0
  | inr miss ↦ find_header-IsOverlong name hs v a.1 (ground (arith, miss))
]

ne-close : (v : Bytes) → IsOverlong v → strcasecmp_eq v (codes "close") ≡ false
unfolding has_byte
ne-close v o = IsOverlong-ne v (codes "close") o refl (omega arith)

ne-keep_alive : (v : Bytes) → IsOverlong v → strcasecmp_eq v (codes "keep-alive") ≡ false
unfolding has_byte
ne-keep_alive v o = IsOverlong-ne v (codes "keep-alive") o refl (omega arith)

parsed_keep_alive-AllOverlong :
    (version : Bytes) (hs : List Header)
    → AllOverlong hs
    → parsed_keep_alive version hs ≡ strcmp_eq version (codes "HTTP/1.1")
unfolding parsed_keep_alive
parsed_keep_alive-AllOverlong version hs a =
    elim (Option-cases (find_header (codes "Connection") hs)) [
      | inl e ↦ ground (arith, e)
      | inr (v, e) ↦
          let o : IsOverlong v = find_header-IsOverlong (codes "Connection") hs v a e in
          ground (arith, e, ne-close v o, ne-keep_alive v o)
    ]

http_should_keep_alive-AllOverlong :
    (r : Request)
    → AllOverlong r.headers
    → http_should_keep_alive r ≡ strcmp_eq r.version (codes "HTTP/1.1")
unfolding http_should_keep_alive
http_should_keep_alive-AllOverlong r a =
    elim (Option-cases (find_header (codes "Connection") r.headers)) [
      | inl e ↦ ground (arith, e)
      | inr (v, e) ↦
          let o : IsOverlong v = find_header-IsOverlong (codes "Connection") r.headers v a e in
          ground (arith, e, ne-close v o, ne-keep_alive v o)
    ]

-- Whatever its Connection header says, a parsed request is kept alive exactly if its version is
-- HTTP/1.1: by the field that the parser sets, and by http_should_keep_alive.
pub keep_alive_by_version :
    (buffer : Bytes) (size : ℕ) (r : Request)
    → http_parse_request buffer size ≡ parsed r
    → (r.keep_alive ≡ strcmp_eq r.version (codes "HTTP/1.1"))
      × (http_should_keep_alive r ≡ strcmp_eq r.version (codes "HTTP/1.1"))
keep_alive_by_version buffer size r h =
    let (n, l, hs, fits, line, version, method, loop, e) = parsed_cases buffer size r h in
    let a : AllOverlong hs = parse_headers-AllOverlong _ _ _ [] hs tt loop in
    rw e (
      parsed_keep_alive-AllOverlong (take 15 l.version) hs a,
      http_should_keep_alive-AllOverlong (finished l hs) a,
    )
