-- ===== src/Http/Response/Headers.antt =====
-- The headers of a response: how many there are, and those that it begins with.
use nx_lite.Base.{
  ℕ, ◌+◌, ◌≤◌, ◌≡◌, refl, sym, ◌∙◌, ap, inl, inr, List, [], ◌∷◌, ◌++◌, ltb, length, take,
  length-append, arith, Bool-cases, Bytes, append_assoc, append-nil, ltb→lt, ltb-false,
}
use Prim.Native.Nat.{min}
use nx_lite.Http.Parse.{Header}
use nx_lite.Http.Response.{
  Response, http_add_header, add_headers, http_create_response, security_headers,
}

-- One more header, up to 32.
length-http_add_header :
    (r : Response) (name value : Bytes)
    → length r.headers ≤ 32
    → length (http_add_header r name value).headers ≡ min 32 (length r.headers + 1)
unfolding http_add_header
length-http_add_header r name value h = elim (Bool-cases (ltb (length r.headers) 32)) [
  | inl room ↦ rw room (
      omega (
        arith,
        ltb→lt (length r.headers) 32 room,
        length-append r.headers (record { name = take 1023 name; value = take 1023 value } ∷ []),
      ))
  | inr full ↦ rw full (omega (arith, ltb-false (length r.headers) 32 full))
]

length-add_headers :
    (r : Response) (hs : List Header)
    → length r.headers ≤ 32
    → length (add_headers r hs).headers ≡ min 32 (length r.headers + length hs)
unfolding add_headers
length-add_headers r [] h = omega arith
length-add_headers r (x ∷ hs) h = omega (
  arith,
  length-http_add_header r x.name x.value h,
  length-add_headers (http_add_header r x.name x.value) hs
      (omega (arith, length-http_add_header r x.name x.value h)),
)

StartsWith : List Header → Response → Type 0
StartsWith hs r = (rest : List Header) × (r.headers ≡ hs ++ rest)

http_add_header-StartsWith :
    (hs : List Header) (r : Response) (name value : Bytes)
    → StartsWith hs r
    → StartsWith hs (http_add_header r name value)
unfolding http_add_header StartsWith
http_add_header-StartsWith hs r name value (rest, e) =
    elim (Bool-cases (ltb (length r.headers) 32)) [
      | inl room ↦
          let h : Header = record { name = take 1023 name; value = take 1023 value } in
          (rest ++ h ∷ [], rw room (ap (λ x. x ++ h ∷ []) e ∙ append_assoc hs rest (h ∷ [])))
      | inr full ↦ (rest, rw full e)
    ]

add_headers-StartsWith :
    (hs : List Header) (r : Response) (more : List Header)
    → StartsWith hs r
    → StartsWith hs (add_headers r more)
unfolding add_headers
add_headers-StartsWith hs r [] s = s
add_headers-StartsWith hs r (h ∷ more) s =
    add_headers-StartsWith hs (http_add_header r h.name h.value) more
      (http_add_header-StartsWith hs r h.name h.value s)

headers-http_create_response : (code : ℕ) → (http_create_response code).headers ≡ security_headers
unfolding http_create_response
headers-http_create_response code = refl

-- A created response, whatever headers are added to it, begins with the five security headers, and
-- has five headers and one for each that was added, up to 32; the rest is dropped.
http_create_response-headers :
    (code : ℕ) (more : List Header)
    → ((rest : List Header) × ((add_headers (http_create_response code) more).headers
          ≡ security_headers ++ rest))
      × (length (add_headers (http_create_response code) more).headers ≡ min 32 (5 + length more))
http_create_response-headers code more = (
  unfold StartsWith in
      add_headers-StartsWith security_headers (http_create_response code) more
        ([], headers-http_create_response code ∙ sym (append-nil security_headers)),
  omega (
    arith,
    ap length (headers-http_create_response code),
    length-add_headers (http_create_response code) more
        (omega (arith, ap length (headers-http_create_response code))),
  ),
)
