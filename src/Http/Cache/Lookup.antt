-- ===== src/Http/Cache/Lookup.antt =====
-- About find_cached_response of src/http.c.
use nx_lite.Base.{
  ℕ, zero, suc, ◌+◌, ◌<◌, ◌≡◌, refl, sym, subst, ◌≢◌, inl, inr, true, false, Option, none, some,
  List, [], ◌∷◌, ◌==◌, length, get_or, Bytes, strcmp_eq, arith, Bool-cases, Option-cases, replicate,
  ap, ◌∙◌, ==_iff,
}
use nx_lite.Http.Parse.{Request}
use nx_lite.Http.Cache.{
  cache_size, vary_key_size, hash_key, CacheEntry, zero_cache_entry, zero_cache, Cache,
  generate_vary_key, matches, scan_entries, find_cached_response,
}

-- The table has its 10000 entries, and the index of the next victim is one of them.
pub record IsValid (c : Cache) : Type 0 where
  pub size : length c.entries ≡ cache_size
  pub index : c.cache_index < cache_size

abbrev pub entry_at : Cache → ℕ → CacheEntry
entry_at c i = get_or c.entries i zero_cache_entry

get_or-replicate : {A : Type 0} (n i : ℕ) (a : A) → get_or (replicate n a) i a ≡ a
get_or-replicate zero i a = refl
get_or-replicate (suc n) zero a = refl
get_or-replicate (suc n) (suc i) a = get_or-replicate n i a

pub entry_at-zero_cache : (i : ℕ) → entry_at zero_cache i ≡ zero_cache_entry
unfolding zero_cache
entry_at-zero_cache i = get_or-replicate cache_size i zero_cache_entry

zero_cache_entry-matches :
    (now : ℕ) (path key : Bytes) → matches now path key zero_cache_entry ≡ false
unfolding matches strcmp_eq
zero_cache_entry-matches now path key = refl

-- The entry number j, counted from number i at the head of the list, matches.
abbrev MatchesAt : ℕ → Bytes → Bytes → ℕ → ℕ → List CacheEntry → Type 0
MatchesAt now path key i j es =
    (k : ℕ) × (j ≡ i + k) × (matches now path key (get_or es k zero_cache_entry) ≡ true)

MatchesAt-cons :
    (now : ℕ) (path key : Bytes) (i j : ℕ) (e : CacheEntry) (es : List CacheEntry)
    → MatchesAt now path key (i + 1) j es
    → MatchesAt now path key i j (e ∷ es)
MatchesAt-cons now path key i j e es (k, same, hit) = (suc k, omega (arith, same), hit)

scan_entries-matches :
    (now : ℕ) (path key : Bytes) (h i j : ℕ) (es : List CacheEntry)
    → scan_entries now path key h i es ≡ some j
    → MatchesAt now path key i j es
unfolding scan_entries
scan_entries-matches now path key h i j [] e = absurd (ground arith)
scan_entries-matches now path key h i j (x ∷ es) e = elim (Bool-cases (i == h)) [
  | inl same ↦
      MatchesAt-cons now path key i j x es
        (scan_entries-matches now path key h (i + 1) j es (ground (arith, e, same)))
  | inr other ↦ elim (Bool-cases (matches now path key x)) [
    | inl hit ↦ (0, ground (arith, e, other, hit), hit)
    | inr miss ↦
        MatchesAt-cons now path key i j x es
          (scan_entries-matches now path key h (i + 1) j es (ground (arith, e, other, miss)))
  ]
]

scan_entries-none :
    (now : ℕ) (path key : Bytes) (h i k : ℕ) (es : List CacheEntry)
    → scan_entries now path key h i es ≡ none
    → i + k ≢ h
    → matches now path key (get_or es k zero_cache_entry) ≡ false
unfolding scan_entries
scan_entries-none now path key h i k [] e n = zero_cache_entry-matches now path key
scan_entries-none now path key h i zero (x ∷ es) e n =
    let m : i ≢ h = λ (p : i ≡ h). n (omega (arith, p)) in ground (arith, e, m)
scan_entries-none now path key h i (suc k) (x ∷ es) e n =
    scan_entries-none now path key h (i + 1) k es
      (elim (Bool-cases (i == h)) [
        | inl same ↦ ground (arith, e, same)
        | inr other ↦ elim (Bool-cases (matches now path key x)) [
          | inl hit ↦ absurd (ground (arith, e, other, hit))
          | inr miss ↦ ground (arith, e, other, miss)
        ]
      ])
      (λ p. n (omega (arith, p)))

module _ (now : ℕ) (path : Bytes) (request : Option Request) (c : Cache) where
  abbrev key : Bytes
  key = generate_vary_key vary_key_size path request

  -- A lookup returns the index of an entry that has the path and the key and is less than an hour
  -- old; and it returns none only if no entry of the table is such.
  pub find_cached_response_lem :
      ((i : ℕ)
        → find_cached_response now path request c ≡ some i
        → matches now path (generate_vary_key vary_key_size path request) (entry_at c i) ≡ true)
      × (find_cached_response now path request c ≡ none
          → (i : ℕ)
          → matches now path (generate_vary_key vary_key_size path request) (entry_at c i) ≡ false)
  unfolding find_cached_response
  find_cached_response_lem = (sound, complete)
    where
      sound :
          (i : ℕ)
          → find_cached_response now path request c ≡ some i
          → matches now path (generate_vary_key vary_key_size path request) (entry_at c i) ≡ true
      sound i e = elim (Bool-cases (matches now path key (entry_at c (hash_key key)))) [
        | inl hit ↦
            let same : hash_key key ≡ i = ground (arith, e, hit) in
            subst (λ j. matches now path key (entry_at c j) ≡ true) same hit
        | inr miss ↦
            let (k, e1, hit) =
              scan_entries-matches now path key (hash_key key) 0 i c.entries
                (ground (arith, e, miss)) in
            subst (λ j. matches now path key (entry_at c j) ≡ true) (omega (arith, e1)) hit
      ]

      complete :
          find_cached_response now path request c ≡ none
          → (i : ℕ)
          → matches now path (generate_vary_key vary_key_size path request) (entry_at c i) ≡ false
      complete e i = elim (Bool-cases (matches now path key (entry_at c (hash_key key)))) [
        | inl hit ↦ absurd (ground (arith, e, hit))
        | inr miss ↦ elim (Bool-cases (i == hash_key key)) [
          | inl same ↦
              subst (λ j. matches now path key (entry_at c j) ≡ false)
                (sym ((==_iff i (hash_key key)).0 same)) miss
          | inr other ↦
              scan_entries-none now path key (hash_key key) 0 i c.entries (ground (arith, e, miss))
                (ground (arith, other))
        ]
      ]

-- Nothing is found in an empty table.
pub find_cached_response-zero_cache :
    (now : ℕ) (path : Bytes) (request : Option Request)
    → find_cached_response now path request zero_cache ≡ none
find_cached_response-zero_cache now path request =
    elim (Option-cases (find_cached_response now path request zero_cache)) [
      | inl e ↦ e
      | inr (i, e) ↦
          let clash : false ≡ true =
            sym (zero_cache_entry-matches now path (generate_vary_key vary_key_size path request))
            ∙ ap (matches now path (generate_vary_key vary_key_size path request))
                (sym (entry_at-zero_cache i))
            ∙ (find_cached_response_lem now path request zero_cache).0 i e in
          absurd (ground (arith, clash))
    ]
