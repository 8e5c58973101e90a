-- ===== src/Http/Response/Content.antt =====
-- The content type of a path, and the compression that a request asks for.
use nx_lite.Base.{
  ℕ, ◌≡◌, refl, subst, ◌⊎◌, inl, inr, true, false, none, some, List, [], ◌∷◌, All, arith,
  Bool-cases, Option-cases, Bytes, codes, strcmp_eq, strcasecmp_eq, strstr, strrchr, drop,
}
use nx_lite.Http.Parse.{Header}
use nx_lite.Http.Response.{
  no_compression, gzip, deflate, mime_types, find_mime_type, http_get_mime_type, negotiate,
}

abbrev octet_stream : Bytes
octet_stream = codes "application/octet-stream"

abbrev NoOctets : List (Bytes × Bytes) → Type 0
NoOctets table = All (λ (p : Bytes × Bytes). strcmp_eq p.1 octet_stream ≡ false) table

find_mime_type-NoOctets :
    (ext : Bytes) (table : List (Bytes × Bytes)) (type : Bytes)
    → NoOctets table
    → find_mime_type ext table ≡ some type
    → strcmp_eq type octet_stream ≡ false
unfolding find_mime_type
find_mime_type-NoOctets ext [] type a h = absurd (ground arith)
find_mime_type-NoOctets ext ((e, t) ∷ table) type a h = elim (Bool-cases (strcasecmp_eq ext e)) [
  | inl hit ↦ subst (λ x. strcmp_eq x octet_stream ≡ false) (ground (arith, hit)) a.0
  | inr miss ↦ find_mime_type-NoOctets ext table type a.1 (ground (arith, miss))
]

mime_types-NoOctets : NoOctets mime_types
unfolding strcmp_eq
mime_types-NoOctets = (
  refl,
  (refl, (refl, (refl, (refl, (refl, (refl, (refl, (refl, (refl, (refl, (refl, tt))))))))))),
)

-- No path has the type application/octet-stream, not even one of an unknown extension, which is
-- text/html.
http_get_mime_type-unknown :
    (path : Bytes)
    → (strcmp_eq (http_get_mime_type path) (codes "application/octet-stream") ≡ false)
      × ((dot : ℕ)
          → strrchr path 46 ≡ some dot
          → find_mime_type (drop dot path) mime_types ≡ none
          → http_get_mime_type path ≡ codes "text/html")
unfolding http_get_mime_type
http_get_mime_type-unknown path = (never, λ dot e miss. ground (arith, e, miss))
  where
    html : strcmp_eq (codes "text/html") octet_stream ≡ false
    html = unfold strcmp_eq in refl

    never : strcmp_eq (http_get_mime_type path) (codes "application/octet-stream") ≡ false
    never = elim (Option-cases (strrchr path 46)) [
      | inl e ↦ rw (e, http_get_mime_type) html
      | inr (dot, e) ↦ elim (Option-cases (find_mime_type (drop dot path) mime_types)) [
        | inl miss ↦ rw (e, miss, http_get_mime_type) html
        | inr (type, hit) ↦
            rw (e, hit, http_get_mime_type)
              (find_mime_type-NoOctets (drop dot path) mime_types type mime_types-NoOctets hit)
      ]
    ]

-- A header that names an encoding.
abbrev pub Names : Bytes → Header → Type 0
Names encoding h =
    (strcasecmp_eq h.name (codes "Accept-Encoding") ≡ true)
    × ((n : ℕ) × (strstr h.value encoding ≡ some n))

-- One of the headers names the encoding.
abbrev pub SomeNames : Bytes → List Header → Type 0
SomeNames encoding [] = ⊥
SomeNames encoding (h ∷ hs) = Names encoding h ⊎ SomeNames encoding hs

-- An encoding that is chosen is named by an Accept-Encoding header of the request; where none is
-- chosen, no such header names gzip or deflate.
negotiate_lem :
    (hs : List Header)
    → (negotiate hs ≡ gzip → SomeNames (codes "gzip") hs)
      × (negotiate hs ≡ deflate → SomeNames (codes "deflate") hs)
      × (negotiate hs ≡ no_compression
          → All (λ h. ¬ Names (codes "gzip") h × ¬ Names (codes "deflate") h) hs)
unfolding negotiate
negotiate_lem [] = ((λ e. cc), (λ e. cc), λ e. tt)
negotiate_lem (h ∷ hs) =
    let (g, d, n) = negotiate_lem hs in
    elim (Bool-cases (strcasecmp_eq h.name (codes "Accept-Encoding"))) [
      | inr other ↦ (
        (λ p. inr (g (ground (arith, other, p)))),
        (λ p. inr (d (ground (arith, other, p)))),
        λ p. (
          ((λ x. ground (arith, other, x.0)), λ x. ground (arith, other, x.0)),
          n (ground (arith, other, p)),
        ),
      )
      | inl accept ↦ elim (Option-cases (strstr h.value (codes "gzip"))) [
        | inr (k, e) ↦ (
          (λ p. inl (accept, (k, e))),
          (λ p. absurd (ground (arith, accept, e, p))),
          λ p. absurd (ground (arith, accept, e, p)),
        )
        | inl e ↦ elim (Option-cases (strstr h.value (codes "deflate"))) [
          | inr (k, e1) ↦ (
            (λ p. absurd (ground (arith, accept, e, e1, p))),
            (λ p. inl (accept, (k, e1))),
            λ p. absurd (ground (arith, accept, e, e1, p)),
          )
          | inl e1 ↦ (
            (λ p. inr (g (ground (arith, accept, e, e1, p)))),
            (λ p. inr (d (ground (arith, accept, e, e1, p)))),
            λ p. (
              ((λ x. ground (arith, e, x.1.1)), λ x. ground (arith, e1, x.1.1)),
              n (ground (arith, accept, e, e1, p)),
            ),
          )
        ]
      ]
    ]
