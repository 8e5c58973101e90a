-- ===== src/Http/Cache/Tests.antt =====
-- The response cache at concrete inputs, from an empty table.
use nx_lite.Base.{
  ◌∷◌, ◌-◌, ◌<◌, ap, inl, Among, ℕ, ◌≡◌, true, none, some, [], length-replicate, Bytes, codes,
  arith,
}
use nx_lite.Http.Cache.{
  zero_cache, zero_cache_entry, cache_size, vary_key_size, generate_vary_key, find_cached_response,
  cache_response,
}
use nx_lite.Http.Cache.Lookup.{IsValid, entry_at, entry_at-zero_cache}
use nx_lite.Http.Cache.Store.{found_in_place}
use nx_lite.Http.Cache.History.{Stored, store_all, found-Stored}

abbrev page_path : Bytes
page_path = codes "/index.html"

abbrev page : Bytes
page = codes "HTTP/1.1 200 OK"

abbrev page_key : Bytes
page_key = generate_vary_key vary_key_size page_path none

zero_cache-IsValid : IsValid zero_cache
unfolding zero_cache
zero_cache-IsValid = record {
  size = length-replicate cache_size zero_cache_entry;
  index = omega arith;
}

abbrev page_stored : Stored
page_stored = record {
  memory = true;
  now = 5;
  path = page_path;
  response = page;
  request = none;
  etag = [];
}

page_found :
    (i : ℕ) × (find_cached_response 9 page_path none (store_all (page_stored ∷ []) zero_cache)
      ≡ some i)
    × ((entry_at (store_all (page_stored ∷ []) zero_cache) i).response ≡ some page)
page_found =
    found_in_place 5 page_path page none [] zero_cache zero_cache-IsValid (λ e. cc) (omega arith) 9
      (omega arith) (inl (ap (λ e. e.path) (entry_at-zero_cache _)))

found_in_place_example :
    (i : ℕ) × (find_cached_response 9 page_path none
        (cache_response true 5 page_path page none [] zero_cache)
      ≡ some i)
    × ((entry_at (cache_response true 5 page_path page none [] zero_cache) i).response ≡ some page)
found_in_place_example =
    found_in_place 5 page_path page none [] zero_cache zero_cache-IsValid (λ e. cc) (omega arith) 9
      (omega arith) (inl (ap (λ e. e.path) (entry_at-zero_cache _)))

found-Stored_example :
    (s : Stored) × Among s (page_stored ∷ [])
    × (s.path ≡ page_path)
    × (generate_vary_key vary_key_size s.path s.request ≡ page_key)
    × (s.response ≡ page)
    × (9 - s.now < 3600)
found-Stored_example =
    found-Stored (page_stored ∷ []) 9 page_path none page_found.0 page (omega arith, tt)
      page_found.1 page_found.2
