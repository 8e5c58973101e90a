-- ===== src/Http/Cache/Store.antt =====
-- About cache_response of src/http.c, and a lookup after it.
use nx_lite.Base.{
  ℕ, false≢true, ◌+◌, ◌-◌, ◌≤◌, ◌<◌, ◌≡◌, refl, sym, subst, ◌∙◌, ap, ◌≢◌, ◌⊎◌, inl, inr, Bool, true,
  false, ◌&&◌, Option, none, some, [], ◌∷◌, ◌++◌, ltb, length, take, Bytes, codes, strcmp_eq,
  strcmp_eq_refl, arith, Bool-cases, Option-cases, length-set, get_or-set_self, length-append,
  length-take-le, take_all,
}
use nx_lite.Http.Parse.{Request, find_header}
use nx_lite.Http.Cache.{
  cache_size, path_max, vary_key_size, hash_key, CacheEntry, zero_cache_entry, Cache, encoding_name,
  encoding_key, ends_with_colon, generate_vary_key, matches, find_cached_response, choose_entry,
  filled_entry, cache_response,
}
use nx_lite.Http.Cache.Lookup.{IsValid, entry_at, find_cached_response_lem}

hash_key-lt : (key : Bytes) → hash_key key < cache_size
unfolding hash_key
hash_key-lt key = omega arith

choose_entry-lt :
    (path key : Bytes) (c : Cache)
    → IsValid c
    → ((choose_entry path key c).0 < cache_size) × ((choose_entry path key c).1 < cache_size)
unfolding choose_entry
choose_entry-lt path key c v = ground (arith, v.index, hash_key-lt key)

encoding_key-le : (path : Bytes) (r : Request) → length (encoding_key vary_key_size path r) ≤ 255
unfolding encoding_key
encoding_key-le path r = elim (Option-cases (find_header (codes "Accept-Encoding") r.headers)) [
  | inl e ↦ rw (e, encoding_key) (length-take-le 255 _)
  | inr (v, e) ↦
      let k : Bytes = take 255 (path ++ 58 ∷ []) in
      rw (e, encoding_key)
        (omega (
          arith,
          length-append k (take (256 - length k - 1) (encoding_name v)),
          length-take-le 255 (path ++ 58 ∷ []),
          length-take-le (256 - length k - 1) (encoding_name v),
        ))
]

pub generate_vary_key-le :
    (path : Bytes) (r : Option Request) → length (generate_vary_key vary_key_size path r) ≤ 255
unfolding generate_vary_key
generate_vary_key-le path none = length-take-le 255 path
generate_vary_key-le path (some r) =
    elim (Bool-cases (ends_with_colon k && ltb (length k + 4) 256)) [
      | inl room ↦ rw room (
          omega (
            arith,
            length-append k (take (256 - length k - 1) (codes "none")),
            encoding_key-le path r,
            length-take-le (256 - length k - 1) (codes "none"),
          ))
      | inr full ↦ rw full (encoding_key-le path r)
    ]
  where
    k : Bytes
    k = encoding_key vary_key_size path r

-- A stored response keeps the table valid, whether or not there was memory for it.
cache_response-IsValid :
    (memory : Bool) (now : ℕ) (path response : Bytes) (request : Option Request) (etag : Bytes)
    (c : Cache)
    → IsValid c
    → IsValid (cache_response memory now path response request etag c)
unfolding cache_response
cache_response-IsValid memory now path response request etag c v = record {
  size = length-set c.entries _ _ ∙ v.size;
  index = (choose_entry-lt path (generate_vary_key vary_key_size path request) c v).1;
}

strcmp_eq-nil : (s : Bytes) → s ≢ [] → strcmp_eq s [] ≡ false
unfolding strcmp_eq
strcmp_eq-nil [] n = absurd (n refl)
strcmp_eq-nil (c ∷ s) n = refl

module _ (now : ℕ) (path response : Bytes) (request : Option Request) (etag : Bytes) (c : Cache)
    (v : IsValid c) (named : path ≢ []) (short : length path < path_max) where
  abbrev key : Bytes
  key = generate_vary_key vary_key_size path request

  abbrev slot : ℕ
  slot = (choose_entry path key c).0

  abbrev stored : Bool → Cache
  stored memory = cache_response memory now path response request etag c

  slot-filled :
      (memory : Bool)
      → entry_at (stored memory) slot
        ≡ filled_entry memory now path key response etag (entry_at c slot)
  unfolding cache_response
  slot-filled memory =
      get_or-set_self c.entries slot _ zero_cache_entry
        (omega (arith, (choose_entry-lt path key c v).0, v.size))

  filled-matches :
      (memory : Bool) (later : ℕ) (e : CacheEntry)
      → later - (filled_entry memory now path key response etag e).timestamp < 3600
      → matches later path key (filled_entry memory now path key response etag e) ≡ true
  unfolding matches filled_entry
  filled-matches memory later e fresh =
      rw
        (
          take_all 4095 path (omega arith),
          take_all 255 key (generate_vary_key-le path request),
          strcmp_eq_refl path,
          strcmp_eq_refl key,
        )
        (ground (arith, fresh, strcmp_eq-nil path named))

  -- A response that is stored for a named path of less than 4096 bytes, where there is memory for it,
  -- is in an entry of the table, and until an hour has passed a lookup for the same path and request
  -- finds an entry.
  found_again :
      (later : ℕ)
      → later - now < 3600
      → ((i : ℕ) × ((entry_at (cache_response true now path response request etag c) i).response
            ≡ some response)
          × (matches later path
                (generate_vary_key vary_key_size path request)
                (entry_at (cache_response true now path response request etag c) i)
              ≡ true))
        × (find_cached_response later path request
              (cache_response true now path response request etag c)
            ≢ none)
  found_again later fresh = (
    (slot, unfold filled_entry in ap (λ (e : CacheEntry). e.response) (slot-filled true), hit),
    λ e.
        false≢true
          (sym ((find_cached_response_lem later path request (stored true)).1 e slot) ∙ hit),
  )
    where
      hit : matches later path key (entry_at (stored true) slot) ≡ true
      hit =
          ap (matches later path key) (slot-filled true)
          ∙ filled-matches true later (entry_at c slot) (unfold filled_entry in fresh)

  -- A response is stored for a named path of less than 4096 bytes, where there is memory for it, and the
  -- entry of the key's hash is empty or has the same path and key: then until an hour has passed a
  -- lookup for the same path and request finds an entry that holds this response.
  pub found_in_place :
      (later : ℕ)
      → later - now < 3600
      → ((entry_at c (hash_key (generate_vary_key vary_key_size path request))).path ≡ [])
        ⊎ ((entry_at c (hash_key (generate_vary_key vary_key_size path request))).path ≡ path)
          × ((entry_at c (hash_key (generate_vary_key vary_key_size path request))).vary_key
              ≡ generate_vary_key vary_key_size path request)
      → (i : ℕ) × (find_cached_response later path request
            (cache_response true now path response request etag c)
          ≡ some i)
        × ((entry_at (cache_response true now path response request etag c) i).response
            ≡ some response)
  found_in_place later fresh at = (
    slot,
    unfold find_cached_response in
        rw place (
          let hit' : matches later path key (entry_at (stored true) (hash_key key)) ≡ true =
            subst (λ j. matches later path key (entry_at (stored true) j) ≡ true) place hit in
          rw hit'),
    unfold filled_entry in ap (λ (e : CacheEntry). e.response) (slot-filled true),
  )
    where
      place : slot ≡ hash_key key
      place =
          unfold choose_entry in
          elim at [
            | inl e ↦ ground (arith, ap (λ x. strcmp_eq x []) e ∙ strcmp_eq_refl [])
            | inr (e, e1) ↦ ground (
              arith,
              ap (λ x. strcmp_eq x path) e ∙ strcmp_eq_refl path,
              ap (λ x. strcmp_eq x key) e1 ∙ strcmp_eq_refl key,
            )
          ]

      hit : matches later path key (entry_at (stored true) slot) ≡ true
      hit =
          ap (matches later path key) (slot-filled true)
          ∙ filled-matches true later (entry_at c slot) (unfold filled_entry in fresh)

  -- Where there is no memory for the response, the chosen entry takes the path and the key, keeps its
  -- old time, and holds no response: while that time is less than an hour ago, the entry matches.
  failed_store_matches :
      (later : ℕ)
      → later
          - (entry_at c
              (choose_entry path (generate_vary_key vary_key_size path request) c).0).timestamp
        < 3600
      → (i : ℕ) × (matches later path
            (generate_vary_key vary_key_size path request)
            (entry_at (cache_response false now path response request etag c) i)
          ≡ true)
        × ((entry_at (cache_response false now path response request etag c) i).response ≡ none)
  failed_store_matches later fresh = (
    slot,
    ap (matches later path key) (slot-filled false)
        ∙ filled-matches false later (entry_at c slot) (unfold filled_entry in fresh),
    unfold filled_entry in ap (λ (e : CacheEntry). e.response) (slot-filled false),
  )
