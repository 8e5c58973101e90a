-- ===== src/Http/Cache.antt =====
-- The response cache of src/http.c: hash_key, generate_vary_key, find_cached_response and
-- cache_response. The time is an argument; malloc answers by an argument.
pub mod Lookup
pub mod Store
pub mod History
mod Tests
use nx_lite.Base.{
  ℕ, zero, suc, ◌+◌, ◌-◌, ◌%◌, ◌^◌, Bool, true, false, not, ◌&&◌, ◌||◌, Option, none, some, List,
  [], ◌∷◌, ◌++◌, ltb, leb, ◌==◌, if◌then◌else◌, length, take, drop, get_or, set, replicate, Bytes,
  codes, strcmp_eq, strstr, strchr, djb2,
}
use nx_lite.Http.Parse.{Request, find_header}

abbrev pub cache_size : ℕ
cache_size = 10000

abbrev pub cache_timeout : ℕ
cache_timeout = 3600

abbrev pub path_max : ℕ
path_max = 4096

abbrev pub vary_key_size : ℕ
vary_key_size = 256

unfoldable pub hash_key : Bytes → ℕ
unfolding djb2
hash_key key = djb2 (2 ^ 32) 5381 key % cache_size

pub record CacheEntry : Type 0 where
  pub path : Bytes
  pub response : Option Bytes
  pub response_len : ℕ
  pub timestamp : ℕ
  pub vary_key : Bytes
  pub etag : Bytes

abbrev pub zero_cache_entry : CacheEntry
zero_cache_entry = record {
  path = [];
  response = none;
  response_len = 0;
  timestamp = 0;
  vary_key = [];
  etag = [];
}

pub record Cache : Type 0 where
  pub entries : List CacheEntry
  pub cache_index : ℕ

unfoldable pub zero_cache : Cache
zero_cache = record { entries = replicate cache_size zero_cache_entry; cache_index = 0 }

abbrev pub encoding_name : Bytes → Bytes
encoding_name encoding = elim (strstr encoding (codes "gzip")) [
  | some n ↦ codes "gzip"
  | none ↦ elim (strstr encoding (codes "deflate")) [
    | some n ↦ codes "deflate"
    | none ↦ codes "none"
  ]
]

-- snprintf(key, key_size, "%s:", path), then the encoding that the request accepts, each cut to the
-- room that is left.
unfoldable pub encoding_key : ℕ → Bytes → Request → Bytes
unfolding find_header
encoding_key key_size path r =
    let key = take (key_size - 1) (path ++ b':' ∷ []) in
    elim (find_header (codes "Accept-Encoding") r.headers) [
      | none ↦ key
      | some encoding ↦ key ++ take (key_size - length key - 1) (encoding_name encoding)
    ]

abbrev pub ends_with_colon : Bytes → Bool
ends_with_colon [] = false
ends_with_colon (c ∷ []) = c == b':'
ends_with_colon (c ∷ d ∷ s) = ends_with_colon (d ∷ s)

unfoldable pub generate_vary_key : ℕ → Bytes → Option Request → Bytes
unfolding encoding_key
generate_vary_key key_size path none = take (key_size - 1) path
generate_vary_key key_size path (some r) =
    let key = encoding_key key_size path r in
    if ends_with_colon key && ltb (length key + 4) key_size
    then key ++ take (key_size - length key - 1) (codes "none")
    else key

unfoldable pub matches : ℕ → Bytes → Bytes → CacheEntry → Bool
matches now path vary_key e =
    not (strcmp_eq e.path [])
    && strcmp_eq e.path path
    && strcmp_eq e.vary_key vary_key
    && ltb (now - e.timestamp) cache_timeout

-- for (i = 0; i < CACHE_SIZE; i++) without the entry of the hash: its index
unfoldable pub scan_entries : ℕ → Bytes → Bytes → ℕ → ℕ → List CacheEntry → Option ℕ
scan_entries now path vary_key hash_idx i [] = none
scan_entries now path vary_key hash_idx i (e ∷ es) =
    let rest = scan_entries now path vary_key hash_idx (i + 1) es in
    if i == hash_idx then rest else if matches now path vary_key e then some i else rest

-- The index of the entry that is returned.
unfoldable pub find_cached_response : ℕ → Bytes → Option Request → Cache → Option ℕ
unfolding scan_entries
find_cached_response now path request c =
    let vary_key = generate_vary_key vary_key_size path request in
    let hash_idx = hash_key vary_key in
    if matches now path vary_key (get_or c.entries hash_idx zero_cache_entry)
    then some hash_idx
    else scan_entries now path vary_key hash_idx 0 c.entries

-- The entry that a response is written to, and the cache index behind it.
unfoldable pub choose_entry : Bytes → Bytes → Cache → ℕ × ℕ
choose_entry path vary_key c =
    let hash_idx = hash_key vary_key in
    let e = get_or c.entries hash_idx zero_cache_entry in
    if not (strcmp_eq e.path [])
      && (not (strcmp_eq e.path path) || not (strcmp_eq e.vary_key vary_key))
    then (c.cache_index, (c.cache_index + 1) % cache_size)
    else (hash_idx, c.cache_index)

-- Where malloc fails, the old length and time stay beside the new path.
unfoldable pub filled_entry : Bool → ℕ → Bytes → Bytes → Bytes → Bytes → CacheEntry → CacheEntry
filled_entry memory now path vary_key response etag e = record {
  path = take (path_max - 1) path;
  response = if memory then some response else none;
  response_len = if memory then length response else e.response_len;
  timestamp = if memory then now else e.timestamp;
  vary_key = take 255 vary_key;
  etag = take 63 etag;
}

unfoldable pub cache_response : Bool → ℕ → Bytes → Bytes → Option Request → Bytes → Cache → Cache
unfolding choose_entry filled_entry
cache_response memory now path response request etag c =
    let vary_key = generate_vary_key vary_key_size path request in
    let (i, index) = choose_entry path vary_key c in
    record {
      entries = set c.entries i (
          filled_entry memory now path vary_key response etag
            (get_or c.entries i zero_cache_entry));
      cache_index = index;
    }
