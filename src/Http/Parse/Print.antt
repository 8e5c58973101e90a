-- ===== src/Http/Parse/Print.antt =====
-- The usual printed form of a request, and the header loop over it.
use nx_lite.Base.{
  has_byte, drop-append_cons, ℕ, zero, suc, ◌+◌, ◌-◌, ◌≤◌, ◌<◌, ◌≡◌, refl, sym, subst, ◌∙◌, ap,
  true, false, some, List, [], ◌∷◌, ◌++◌, length, take, drop, Bytes, has_prefix, strstr, strchr,
  All, arith, length-append, take_all, take-append, append_assoc, append-nil,
}
use nx_lite.Http.Parse.{
  Header, RequestLine, crlf, valid_name, skip_blanks, header_at, take_line, done, parse_headers,
}

-- name: value CR LF
abbrev pub header_line : Header → Bytes
header_line h = h.name ++ (58 ∷ 32 ∷ h.value)

unfoldable pub print_headers : List Header → Bytes
print_headers [] = crlf
print_headers (h ∷ hs) = header_line h ++ (crlf ++ print_headers hs)

-- The request line, the headers, and an empty line.
unfoldable pub print_request : RequestLine → List Header → Bytes
print_request l hs = (l.method ++ (32 ∷ l.uri ++ (32 ∷ l.version))) ++ (crlf ++ print_headers hs)

-- A header as a client sends it: a printable name with no colon, a value with no carriage return,
-- and a line of at most 8192 bytes.
pub record IsSendable (h : Header) : Type 0 where
  pub printable : valid_name h.name ≡ true
  pub no_colon : has_byte 58 h.name ≡ false
  pub name_fits : length h.name ≤ 1023
  pub one_line : has_byte 13 h.value ≡ false
  pub line_fits : length (header_line h) ≤ 8192

-- What the parser takes for the headers: each value runs on to the end of the buffer.
unfoldable pub run_on : List Header → List Header
run_on [] = []
run_on (h ∷ hs) =
    record {
      name = h.name;
      value = take 1023 (skip_blanks (h.value ++ (crlf ++ print_headers hs)));
    }
    ∷ run_on hs

pub has_byte-append :
    (b : ℕ) (s t : Bytes)
    → has_byte b s ≡ false
    → has_byte b t ≡ false
    → has_byte b (s ++ t) ≡ false
unfolding has_byte
has_byte-append b [] t h k = k
has_byte-append b (c ∷ s) t h k = ground (arith, has_byte-append b s t)

-- A line that holds no carriage return ends where it is printed to end.
pub strstr-line :
    (s t : Bytes) → has_byte 13 s ≡ false → strstr (s ++ (crlf ++ t)) crlf ≡ some (length s)
unfolding strstr has_byte has_prefix
strstr-line [] t h = refl
strstr-line (c ∷ s) t h = ground (arith, strstr-line s t)

strchr-line : (s t : Bytes) → has_byte 58 s ≡ false → strchr (s ++ (58 ∷ t)) 58 ≡ some (length s)
unfolding strchr has_byte
strchr-line [] t h = refl
strchr-line (c ∷ s) t h = ground (arith, strchr-line s t)

valid_name-has_byte : (s : Bytes) → valid_name s ≡ true → has_byte 13 s ≡ false
unfolding valid_name has_byte
valid_name-has_byte [] h = refl
valid_name-has_byte (c ∷ s) h = ground (arith, valid_name-has_byte s)

header_line-has_byte : (h : Header) → IsSendable h → has_byte 13 (header_line h) ≡ false
header_line-has_byte h s =
    has_byte-append 13 h.name (58 ∷ 32 ∷ h.value) (valid_name-has_byte h.name s.printable)
      (unfold has_byte in s.one_line)

header_at-name :
    (name rest : Bytes)
    → length name ≤ 1023
    → header_at (name ++ (58 ∷ 32 ∷ rest)) (length name)
      ≡ record { name = name; value = take 1023 (skip_blanks rest) }
unfolding header_at skip_blanks
header_at-name name rest fits = rw (
  take-append name (58 ∷ 32 ∷ rest),
  drop-append_cons name 58 (32 ∷ rest),
  take_all 1023 name fits,
)

take_line_at :
    (name rest : Bytes) (n : ℕ) (acc : List Header)
    → valid_name name ≡ true
    → has_byte 58 name ≡ false
    → length name ≤ 1023
    → n ≤ 8192
    → take_line (name ++ (58 ∷ 32 ∷ rest)) n acc
      ≡ some (acc ++ record { name = name; value = take 1023 (skip_blanks rest) } ∷ [])
unfolding take_line
take_line_at name rest n acc v c fits short = ground (
  arith,
  strchr-line name (32 ∷ rest) c,
  take-append name (58 ∷ 32 ∷ rest),
  header_at-name name rest fits,
  v,
)

-- The line of a sendable header is taken as that header.
take_line-sent :
    (h : Header) (rest : Bytes) (acc : List Header)
    → IsSendable h
    → take_line (header_line h ++ (crlf ++ rest)) (length (header_line h)) acc
      ≡ some (
          acc
          ++ record { name = h.name; value = take 1023 (skip_blanks (h.value ++ (crlf ++ rest))) }
            ∷ [])
take_line-sent h rest acc s = rw (append_assoc h.name (58 ∷ 32 ∷ h.value) (crlf ++ rest)) (
    take_line_at h.name (h.value ++ (crlf ++ rest)) (length (header_line h)) acc s.printable
      s.no_colon s.name_fits s.line_fits)

pub drop-line : (s t : Bytes) → drop (suc (suc (length s))) (s ++ (crlf ++ t)) ≡ t
drop-line [] t = refl
drop-line (c ∷ s) t = drop-line s t

-- One round that takes a header.
parse_headers_round :
    (fuel left n : ℕ) (s rest : Bytes) (acc acc' : List Header)
    → 0 < left
    → length acc < 32
    → strstr s crlf ≡ some (suc n)
    → take_line s (suc n) acc ≡ some acc'
    → drop (n + 3) s ≡ rest
    → parse_headers (suc fuel) left s acc ≡ parse_headers fuel (left - (n + 3)) rest acc'
unfolding parse_headers
parse_headers_round fuel left n s rest acc acc' pos room line taken next =
    ground (arith, pos, room, line, taken, next)

parse_headers_stop :
    (fuel left : ℕ) (acc : List Header) → parse_headers (suc fuel) left crlf acc ≡ done acc
unfolding parse_headers strstr has_prefix
parse_headers_stop fuel left acc = ground arith

sent : Header → List Header → Header
sent h hs = record {
  name = h.name;
  value = take 1023 (skip_blanks (h.value ++ (crlf ++ print_headers hs)));
}

-- The loop over printed headers.
pub parse_headers-sent :
    (fuel left : ℕ) (hs acc : List Header)
    → All IsSendable hs
    → length (print_headers hs) ≤ left
    → length (print_headers hs) < fuel
    → length acc + length hs ≤ 32
    → parse_headers fuel left (print_headers hs) acc ≡ done (acc ++ run_on hs)
unfolding print_headers run_on
parse_headers-sent zero left hs acc a l f b = absurd (omega arith)
parse_headers-sent (suc fuel) left [] acc a l f b =
    parse_headers_stop fuel left acc ∙ ap done (sym (append-nil acc))
parse_headers-sent (suc fuel) left (h ∷ hs) acc a l f b =
    parse_headers_round fuel left n (header_line h ++ (crlf ++ print_headers hs)) (print_headers hs)
      acc (acc ++ sent h hs ∷ []) (omega (arith, size, total)) (omega arith)
      (strstr-line (header_line h) (print_headers hs) (header_line-has_byte h a.0) ∙ ap some size)
      (subst
        (λ k.
          take_line (header_line h ++ (crlf ++ print_headers hs)) k acc
          ≡ some (acc ++ sent h hs ∷ []))
        size (unfold sent in take_line-sent h (print_headers hs) acc a.0))
      (subst (λ k. drop k (header_line h ++ (crlf ++ print_headers hs)) ≡ print_headers hs) next
        (drop-line (header_line h) (print_headers hs)))
    ∙ parse_headers-sent fuel (left - (n + 3)) hs (acc ++ sent h hs ∷ []) a.1
        (omega (arith, size, total)) (omega (arith, size, total))
        (omega (arith, length-append acc (sent h hs ∷ [])))
    ∙ ap done (append_assoc acc (sent h hs ∷ []) (run_on hs) ∙ unfold sent in refl)
  where
    n : ℕ
    n = length h.name + suc (length h.value)

    size : length (header_line h) ≡ suc n
    size = omega (arith, length-append h.name (58 ∷ 32 ∷ h.value))

    total :
        length (header_line h ++ (crlf ++ print_headers hs))
        ≡ length (header_line h) + (2 + length (print_headers hs))
    total = omega (arith, length-append (header_line h) (crlf ++ print_headers hs))

    next : suc (suc (length (header_line h))) ≡ n + 3
    next = omega (arith, size)
