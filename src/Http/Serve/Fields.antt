-- ===== src/Http/Serve/Fields.antt =====
-- About http_serve_file of src/http.c: which fields of a response it sets.
use nx_lite.Base.{
  ℕ, ◌-◌, ◌≡◌, refl, sym, subst, ◌∙◌, ap, inl, inr, Bool, true, false, Option, some, List, [], ◌∷◌,
  ◌++◌, ltb, if◌then◌else◌, length, take, Bytes, codes, strrchr, Bool-cases, Option-cases,
}
use nx_lite.Http.Parse.{Header, Request, max_headers, max_header_size}
use nx_lite.Http.Response.{
  Response, no_compression, http_add_header, http_get_mime_type, http_should_compress_mime_type,
}
use nx_lite.Http.Cache.{Cache}
use nx_lite.Http.Etag.{Stat}
use nx_lite.Http.Serve.{
  Library, serve_descriptor, serve_content, validators, finish_file, serve_regular,
}

-- The second response is the first with other headers.
abbrev pub OnlyHeaders : Response → Response → Type 0
OnlyHeaders r r' = (hs : List Header) × (r' ≡ record r { headers = hs })

pub http_add_header-OnlyHeaders :
    (r : Response) (name value : Bytes) → OnlyHeaders r (http_add_header r name value)
unfolding http_add_header
http_add_header-OnlyHeaders r name value = elim (Bool-cases (ltb (length r.headers) max_headers)) [
  | inl room ↦ (
    r.headers
        ++ record {
          name = take (max_header_size - 1) name;
          value = take (max_header_size - 1) value;
        }
          ∷ [],
    simp (http_add_header, room) refl,
  )
  | inr full ↦ (r.headers, simp (http_add_header, full) refl)
]

OnlyHeaders-trans : (r s t : Response) → OnlyHeaders r s → OnlyHeaders s t → OnlyHeaders r t
OnlyHeaders-trans r s t (hs, e) (hs', e') =
    (hs', e' ∙ ap (λ (x : Response). record x { headers = hs' }) e)

pub OnlyHeaders-if :
    (b : Bool) (r s : Response) → OnlyHeaders r s → OnlyHeaders r (if b then s else r)
OnlyHeaders-if true r s h = h
OnlyHeaders-if false r s h = (r.headers, refl)

add_another-OnlyHeaders :
    (r s : Response) (name value : Bytes)
    → OnlyHeaders r s
    → OnlyHeaders r (http_add_header s name value)
add_another-OnlyHeaders r s name value h =
    OnlyHeaders-trans r s (http_add_header s name value) h
      (http_add_header-OnlyHeaders s name value)

validators-OnlyHeaders :
    (lib : Library) (path : Bytes) (st : Stat) (r : Response)
    → OnlyHeaders r (validators lib path st r)
unfolding validators
validators-OnlyHeaders lib path st r =
    add_another-OnlyHeaders r _ _ _
      (add_another-OnlyHeaders r _ _ _ (http_add_header-OnlyHeaders r _ _))

finish_file-OnlyHeaders :
    (lib : Library) (path : Bytes) (st : Stat) (q : Option Request) (was_closed : Bool)
    (r : Response) (c : Cache)
    → OnlyHeaders r (finish_file lib path st q was_closed r c).0
unfolding finish_file
finish_file-OnlyHeaders lib path st q was_closed r c = elim (Option-cases (strrchr path b'.')) [
  | inl e ↦
      simp (finish_file, e) (add_another-OnlyHeaders r _ _ _ (validators-OnlyHeaders lib path st r))
  | inr (dot, e) ↦
      simp (finish_file, e) (add_another-OnlyHeaders r _ _ _ (validators-OnlyHeaders lib path st r))
]

-- The fields of a response whose body sendfile reads.
abbrev pub descriptor_fields : ℕ → Stat → Response → Response
descriptor_fields fd st r = record r { body_length = st.size; file_fd = fd; is_file = true }

serve_descriptor-OnlyHeaders :
    (fd : ℕ) (st : Stat) (r : Response)
    → OnlyHeaders (descriptor_fields fd st r) (serve_descriptor fd st r)
unfolding serve_descriptor
serve_descriptor-OnlyHeaders fd st r = http_add_header-OnlyHeaders _ _ _

descriptor_fields-OnlyHeaders :
    (fd : ℕ) (st : Stat) (r s : Response)
    → OnlyHeaders r s
    → OnlyHeaders (descriptor_fields fd st r) (descriptor_fields fd st s)
descriptor_fields-OnlyHeaders fd st r s (hs, e) = (hs, ap (descriptor_fields fd st) e)

serve_content-descriptor :
    (lib : Library) (path : Bytes) (fd : ℕ) (st : Stat) (r : Response)
    → r.compression_type ≡ no_compression
    → serve_content lib path fd st r ≡ (
      serve_descriptor fd st (http_add_header r (codes "Content-Type") (http_get_mime_type path)),
      false,
    )
unfolding serve_content
serve_content-descriptor lib path fd st r e =
    elim (Bool-cases (http_should_compress_mime_type (some (http_get_mime_type path)))) [
      | inl text ↦ simp (serve_content, text, e) refl
      | inr other ↦ simp (serve_content, other) refl
    ]

-- Without a content coding the file is served through its descriptor, which stays open.
serve_content_plain :
    (lib : Library) (path : Bytes) (fd : ℕ) (st : Stat) (r : Response)
    → r.compression_type ≡ no_compression
    → OnlyHeaders (descriptor_fields fd st r) (serve_content lib path fd st r).0
      × ((serve_content lib path fd st r).1 ≡ false)
serve_content_plain lib path fd st r e =
    subst (λ x. OnlyHeaders (descriptor_fields fd st r) x.0 × (x.1 ≡ false))
      (sym (serve_content-descriptor lib path fd st r e))
      (
        OnlyHeaders-trans (descriptor_fields fd st r) (descriptor_fields fd st typed) _
            (descriptor_fields-OnlyHeaders fd st r _ (http_add_header-OnlyHeaders r _ _))
            (serve_descriptor-OnlyHeaders fd st typed),
        refl,
      )
  where
    typed : Response
    typed = http_add_header r (codes "Content-Type") (http_get_mime_type path)

pub serve_regular_plain :
    (lib : Library) (path : Bytes) (fd : ℕ) (st : Stat) (r : Response) (q : Option Request)
    (c : Cache)
    → r.compression_type ≡ no_compression
    → OnlyHeaders (descriptor_fields fd st r) (serve_regular lib path fd st r q c).response
      × ((serve_regular lib path fd st r q c).opened ≡ path ∷ [])
      × ((serve_regular lib path fd st r q c).closed ≡ [])
unfolding serve_regular
serve_regular_plain lib path fd st r q c e =
    let (fields, open_still) = serve_content_plain lib path fd st r e in
    (
      OnlyHeaders-trans (descriptor_fields fd st r) (serve_content lib path fd st r).0 _ fields
          (finish_file-OnlyHeaders lib path st q _ _ c),
      refl,
      rw open_still refl,
    )
