-- ===== src/Http/Cache/History.antt =====
-- What is in the response cache of src/http.c after any responses were stored.
use nx_lite.Base.{
  ℕ, ◌-◌, ◌<◌, ◌≡◌, refl, sym, subst, ◌∙◌, ◌⊎◌, inl, inr, Bool, true, false, Option, none, some,
  List, [], ◌∷◌, length, take, Bytes, arith, All, All-set, All-get_or, All-replicate, Among, here,
  there, strcmp_eq_sound, take_all,
}
use nx_lite.Http.Parse.{Request}
use nx_lite.Http.Cache.{
  path_max, vary_key_size, cache_size, CacheEntry, zero_cache_entry, zero_cache, Cache,
  generate_vary_key, matches, find_cached_response, choose_entry, filled_entry, cache_response,
}
use nx_lite.Http.Cache.Lookup.{entry_at, find_cached_response_lem}
use nx_lite.Http.Cache.Store.{generate_vary_key-le}

-- A call of cache_response.
pub record Stored : Type 0 where
  pub memory : Bool
  pub now : ℕ
  pub path : Bytes
  pub response : Bytes
  pub request : Option Request
  pub etag : Bytes

abbrev pub key_of : Stored → Bytes
key_of s = generate_vary_key vary_key_size s.path s.request

abbrev pub store : Stored → Cache → Cache
store s c = cache_response s.memory s.now s.path s.response s.request s.etag c

-- The calls in their order, from the first on.
abbrev pub store_all : List Stored → Cache → Cache
store_all [] c = c
store_all (s ∷ ss) c = store_all ss (store s c)

-- An entry without a response, or with that of a call.
abbrev IsFrom : List Stored → CacheEntry → Type 0
IsFrom all e =
    (e.response ≡ none)
    ⊎ ((s : Stored) × Among s all
        × (e.path ≡ take 4095 s.path)
        × (e.vary_key ≡ take 255 (key_of s))
        × (e.response ≡ some s.response)
        × (e.timestamp ≡ s.now))

filled_entry-IsFrom :
    (all : List Stored) (s : Stored) (memory : Bool) (e : CacheEntry)
    → Among s all
    → IsFrom all (filled_entry memory s.now s.path (key_of s) s.response s.etag e)
unfolding filled_entry
filled_entry-IsFrom all s true e h = inr (s, h, refl, refl, refl, refl)
filled_entry-IsFrom all s false e h = inl refl

store-IsFrom :
    (all : List Stored) (s : Stored) (c : Cache)
    → Among s all
    → All (IsFrom all) c.entries
    → All (IsFrom all) (store s c).entries
unfolding cache_response
store-IsFrom all s c h v =
    let (i, index) = choose_entry s.path (key_of s) c in
    All-set (IsFrom all) c.entries i _ v (filled_entry-IsFrom all s s.memory (entry_at c i) h)

store_all-IsFrom :
    (all : List Stored) (ss : List Stored) (c : Cache)
    → All (λ s. Among s all) ss
    → All (IsFrom all) c.entries
    → All (IsFrom all) (store_all ss c).entries
store_all-IsFrom all [] c h v = v
store_all-IsFrom all (s ∷ ss) c (here_first, h) v =
    store_all-IsFrom all ss (store s c) h (store-IsFrom all s c here_first v)

All-there {ℓ} :
    {A : Type ℓ} (y : A) (xs ys : List A)
    → All (λ x. Among x ys) xs
    → All (λ x. Among x (y ∷ ys)) xs
All-there y [] ys h = tt
All-there y (x ∷ xs) ys (a, h) = (there a, All-there y xs ys h)

All-Among {ℓ} : {A : Type ℓ} (xs : List A) → All (λ x. Among x xs) xs
All-Among [] = tt
All-Among (x ∷ xs) = (here refl, All-there x xs xs (All-Among xs))

-- The test of an entry, part by part.
matches-parts :
    (now : ℕ) (path key : Bytes) (e : CacheEntry)
    → matches now path key e ≡ true
    → (e.path ≡ path) × (e.vary_key ≡ key) × (now - e.timestamp < 3600)
unfolding matches
matches-parts now path key e h =
    ground (arith, h, strcmp_eq_sound e.path path, strcmp_eq_sound e.vary_key key)

All-Among_at {ℓ κ} :
    {A : Type ℓ} (P : A → Type κ) (x : A) (xs : List A) → All P xs → Among x xs → P x
All-Among_at P x [] all h = elim h [ ]
All-Among_at P x (y ∷ xs) (p, all) (here e) = subst P (sym e) p
All-Among_at P x (y ∷ xs) (p, all) (there h) = All-Among_at P x xs all h

-- What a lookup finds after any responses were stored in an empty cache, where no path is longer than
-- an entry has room for: if the entry that it returns has a response, it is one that was stored for the
-- same path and the same key, less than an hour before.
pub found-Stored :
    (ss : List Stored) (now : ℕ) (path : Bytes) (request : Option Request) (i : ℕ)
    (response : Bytes)
    → All (λ s. length s.path < path_max) ss
    → find_cached_response now path request (store_all ss zero_cache) ≡ some i
    → (entry_at (store_all ss zero_cache) i).response ≡ some response
    → (s : Stored) × Among s ss
      × (s.path ≡ path)
      × (generate_vary_key vary_key_size s.path s.request
          ≡ generate_vary_key vary_key_size path request)
      × (s.response ≡ response)
      × (now - s.now < 3600)
found-Stored ss now path request i response short found held =
    let c = store_all ss zero_cache in
    let e = entry_at c i in
    let (same_path, same_key, recent) =
      matches-parts now path (generate_vary_key vary_key_size path request) e
        ((find_cached_response_lem now path request c).0 i found) in
    let from =
      All-get_or (IsFrom ss) c.entries i zero_cache_entry
        (store_all-IsFrom ss ss zero_cache (All-Among ss)
          (unfold zero_cache in All-replicate (IsFrom ss) cache_size zero_cache_entry (inl refl)))
        (inl refl) in
    elim from [
      | inl no_response ↦
          let clash : none ≡ some response = sym no_response ∙ held in
          absurd (ground (arith, clash))
      | inr (s, called, path_at, key_at, response_at, time_at) ↦
          let fits = All-Among_at (λ x. length x.path < path_max) s ss short called in
          let whole_path : s.path ≡ path =
            sym (take_all 4095 s.path (omega (arith, fits))) ∙ sym path_at ∙ same_path in
          let whole_key : key_of s ≡ generate_vary_key vary_key_size path request =
            sym (take_all 255 (key_of s) (generate_vary_key-le s.path s.request))
            ∙ sym key_at
            ∙ same_key in
          let same_response : some s.response ≡ some response = sym response_at ∙ held in
          (s, called, whole_path, whole_key, cc, omega (arith, recent, time_at))
    ]
