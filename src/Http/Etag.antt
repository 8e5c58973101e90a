-- ===== src/Http/Etag.antt =====
-- Entity tags in http_handle_request and http_serve_file of src/http.c: the tag of a file, and the
-- comparison with the tags of an If-None-Match header, which the C code has twice.
pub mod Tokens
pub mod RoundTrip
mod Tests
use nx_lite.Base.{
  ℕ, zero, suc, ◌+◌, ◌-◌, ◌*◌, ◌/◌, ◌%◌, ◌^◌, Bool, true, false, not, ◌&&◌, ◌||◌, Option, none,
  some, List, [], ◌∷◌, ◌++◌, ltb, leb, ◌==◌, if◌then◌else◌, length, take, drop, Bytes, codes,
  strcmp_eq, strrchr, isspace, djb2,
}
use nx_lite.Http.Parse.{skip_whitespace}
use nx_lite.Http.Send.{decimal}

-- What stat says of a file.
pub record Stat : Type 0 where
  pub is_regular : Bool
  pub ino : ℕ
  pub size : ℕ
  pub mtime : ℕ

abbrev pub hex_digit : ℕ → ℕ
hex_digit d = if ltb d 10 then 48 + d else 87 + d

-- snprintf of %lx, with rounds for the digits
unfoldable pub hex : ℕ → ℕ → Bytes
hex zero n = hex_digit (n % 16) ∷ []
hex (suc fuel) n =
    let rest = hex fuel (n / 16) in
    if ltb n 16 then hex_digit n ∷ [] else rest ++ hex_digit (n % 16) ∷ []

-- snprintf(etag_input, PATH_MAX + 128, "%s:%lu:%lu:%lu", path, ino, size, mtime)
unfoldable pub etag_input : Bytes → Stat → Bytes
unfolding decimal
etag_input path st = take (4096 + 127) (
    path
    ++ (b':'
        ∷ (decimal 20 st.ino ++ (b':' ∷ (decimal 20 st.size ++ (b':' ∷ decimal 20 st.mtime))))))

-- The tag of a file, in its quotes.
unfoldable pub make_etag : Bytes → Stat → Bytes
make_etag path st = b'"' ∷ (hex 16 (djb2 (2 ^ 64) 5381 (etag_input path st)) ++ b'"' ∷ [])

abbrev pub push_byte : ℕ → List Bytes → List Bytes
push_byte c [] = (c ∷ []) ∷ []
push_byte c (t ∷ ts) = (c ∷ t) ∷ ts

-- The pieces between the commas.
unfoldable pub split_commas : Bytes → List Bytes
split_commas [] = [] ∷ []
split_commas (c ∷ s) =
    let rest = split_commas s in if c == b',' then [] ∷ rest else push_byte c rest

abbrev pub drop_empty : List Bytes → List Bytes
drop_empty [] = []
drop_empty ([] ∷ ts) = drop_empty ts
drop_empty ((c ∷ t) ∷ ts) = (c ∷ t) ∷ drop_empty ts

-- The tokens that strtok(s, ",") gives one after the other.
unfoldable pub strtok_commas : Bytes → List Bytes
unfolding split_commas
strtok_commas s = drop_empty (split_commas s)

-- W/ in front of a tag is skipped.
unfoldable pub skip_weak : Bytes → Bytes
skip_weak (c ∷ d ∷ s) = if c == b'W' && d == b'/' then s else c ∷ d ∷ s
skip_weak s = s

unfoldable pub trim_end : Bytes → Bytes
unfolding isspace
trim_end [] = []
trim_end (c ∷ s) =
    let rest = trim_end s in elim rest [ [] ↦ if isspace c then [] else c ∷ [] | d ∷ t ↦ c ∷ d ∷ t ]

-- The text of a quoted tag is copied whole; none where it does not fit the 256 bytes of
-- clean_token with its NUL, and the copy writes behind them.
unfoldable pub unquote : Bytes → Option Bytes
unquote [] = some []
unquote (c ∷ s) =
    if c == b'"'
    then elim (strrchr s b'"') [
      | some len ↦ if ltb len 256 then some (take len s) else none
      | none ↦ some (take 255 s)
    ]
    else some (take 255 (c ∷ s))

unfoldable pub clean_token : Bytes → Option Bytes
clean_token s = elim (unquote (skip_weak s)) [ none ↦ none | some t ↦ some (trim_end t) ]

-- The tag of the file without its quotes.
unfoldable pub bare_etag : Bytes → Bytes
bare_etag [] = []
bare_etag (c ∷ s) =
    if c == b'"'
    then elim (strrchr s b'"') [ some len ↦ take len s | none ↦ [] ]
    else take 63 (c ∷ s)

-- The copy of a tag may write behind its buffer.
pub data EtagMatch : Type 0 where
  matched unmatched overrun : EtagMatch

unfoldable pub match_tokens : Bytes → List Bytes → EtagMatch
match_tokens etag [] = unmatched
match_tokens etag (token ∷ tokens) =
    let rest = match_tokens etag tokens in
    let s = skip_whitespace token in
    if strcmp_eq s (codes "*") then matched else elim (clean_token s) [
      | none ↦ overrun
      | some t ↦ if strcmp_eq t (bare_etag etag) then matched else rest
    ]

-- The value of the header is copied to 1024 bytes first.
unfoldable pub if_none_match : Bytes → Bytes → EtagMatch
if_none_match etag value = match_tokens etag (strtok_commas (take 1023 value))
