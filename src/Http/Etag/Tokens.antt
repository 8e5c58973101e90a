-- ===== src/Http/Etag/Tokens.antt =====
-- About the comparison of entity tags in http_handle_request of src/http.c.
use nx_lite.Base.{
  ℕ, ◌<◌, ◌≤◌, ◌≡◌, refl, sym, ◌∙◌, ap, Bool, true, false, ◌||◌, none, some, List, [], ◌∷◌, ◌++◌,
  ltb, if◌then◌else◌, length, Bytes, codes, strcmp_eq, strrchr, has_byte, All, arith, take_all,
  take-append, lt→ltb, le→ltb_false, append_assoc,
}
use nx_lite.Http.Parse.{skip_whitespace}
use nx_lite.Http.Etag.{
  split_commas, drop_empty, strtok_commas, skip_weak, trim_end, unquote, clean_token, bare_etag,
  matched, unmatched, overrun, match_tokens, if_none_match,
}

-- A tag in its quotes, with what follows it.
abbrev pub quoted : Bytes → Bytes → Bytes
quoted t rest = b'"' ∷ (t ++ b'"' ∷ rest)

-- The usual form of the header: quoted tags with a comma and a space between them, and then `rest`.
unfoldable pub print_tags : Bytes → List Bytes → Bytes → Bytes
print_tags t [] rest = quoted t rest
print_tags t (u ∷ us) rest = quoted t (b',' ∷ b' ' ∷ print_tags u us rest)

-- A tag has no comma in it and no white space at its end, and fits the buffer.
pub record IsTag (t : Bytes) : Type 0 where
  pub no_comma : has_byte b',' t ≡ false
  pub trimmed : trim_end t ≡ t
  pub fits : length t < 256

unfoldable pub has_tag : Bytes → List Bytes → Bool
has_tag e [] = false
has_tag e (t ∷ ts) = strcmp_eq t e || has_tag e ts

strrchr-none : (b : ℕ) (s : Bytes) → has_byte b s ≡ false → strrchr s b ≡ none
unfolding strrchr has_byte
strrchr-none b [] h = refl
strrchr-none b (c ∷ s) h = ground (arith, strrchr-none b s)

strrchr_last :
    (b : ℕ) (t rest : Bytes) → has_byte b rest ≡ false → strrchr (t ++ b ∷ rest) b ≡ some (length t)
unfolding strrchr
strrchr_last b [] rest h = ground (arith, strrchr-none b rest h)
strrchr_last b (c ∷ t) rest h = rw (strrchr_last b t rest h)

split_commas_one : (s : Bytes) → has_byte b',' s ≡ false → split_commas s ≡ s ∷ []
unfolding split_commas has_byte
split_commas_one [] h = refl
split_commas_one (c ∷ s) h = ground (arith, split_commas_one s)

split_commas_more :
    (s rest : Bytes)
    → has_byte b',' s ≡ false
    → split_commas (s ++ b',' ∷ rest) ≡ s ∷ split_commas rest
unfolding split_commas has_byte
split_commas_more [] rest h = refl
split_commas_more (c ∷ s) rest h = ground (arith, split_commas_more s rest)

has_byte-append :
    (b : ℕ) (s t : Bytes)
    → has_byte b s ≡ false
    → has_byte b t ≡ false
    → has_byte b (s ++ t) ≡ false
unfolding has_byte
has_byte-append b [] t h k = k
has_byte-append b (c ∷ s) t h k = ground (arith, has_byte-append b s t)

quoted_no_comma :
    (t rest : Bytes)
    → has_byte b',' t ≡ false
    → has_byte b',' rest ≡ false
    → has_byte b',' (quoted t rest) ≡ false
unfolding has_byte
quoted_no_comma t rest h k = has_byte-append b',' t (b'"' ∷ rest) h k

-- A quoted tag is cleaned to itself, whether or not a space stands in front of it.
unquote-quoted :
    (t rest : Bytes)
    → has_byte b'"' rest ≡ false
    → unquote (quoted t rest) ≡ (if ltb (length t) 256 then some t else none)
unfolding unquote
unquote-quoted t rest h = rw (strrchr_last b'"' t rest h, take-append t (b'"' ∷ rest)) refl

skip_weak-quoted : (t rest : Bytes) → skip_weak (quoted t rest) ≡ quoted t rest
unfolding skip_weak
skip_weak-quoted [] rest = refl
skip_weak-quoted (c ∷ t) rest = refl

bare_etag-quoted : (e : Bytes) → bare_etag (quoted e []) ≡ e
unfolding bare_etag
bare_etag-quoted e =
    rw (strrchr_last b'"' e [] (unfold has_byte in refl)) (take-append e (b'"' ∷ []))

clean_token-quoted :
    (t rest : Bytes) → IsTag t → has_byte b'"' rest ≡ false → clean_token (quoted t rest) ≡ some t
unfolding clean_token
clean_token-quoted t rest v h =
    rw
      (
        clean_token,
        skip_weak-quoted t rest,
        unquote-quoted t rest h,
        lt→ltb (length t) 256 v.fits,
        v.trimmed,
      )
      refl

-- A space or nothing in front of a token.
abbrev spaced : Bool → Bytes → Bytes
spaced true s = b' ' ∷ s
spaced false s = s

skip_whitespace-quoted :
    (space : Bool) (t rest : Bytes) → skip_whitespace (spaced space (quoted t rest)) ≡ quoted t rest
unfolding skip_whitespace
skip_whitespace-quoted true t rest = refl
skip_whitespace-quoted false t rest = refl

quoted-ne_star : (t rest : Bytes) → strcmp_eq (quoted t rest) (codes "*") ≡ false
unfolding strcmp_eq
quoted-ne_star t rest = refl

match_tokens-quoted :
    (space : Bool) (e t rest : Bytes) (tokens : List Bytes)
    → IsTag t
    → has_byte b'"' rest ≡ false
    → match_tokens (quoted e []) (spaced space (quoted t rest) ∷ tokens)
      ≡ (if strcmp_eq t e then matched else match_tokens (quoted e []) tokens)
unfolding match_tokens
match_tokens-quoted space e t rest tokens v h =
    rw
      (
        skip_whitespace-quoted space t rest,
        quoted-ne_star t rest,
        clean_token-quoted t rest v h,
        bare_etag-quoted e,
      )
      refl

spaced_no_comma :
    (space : Bool) (s : Bytes) → has_byte b',' s ≡ false → has_byte b',' (spaced space s) ≡ false
unfolding has_byte
spaced_no_comma true s h = h
spaced_no_comma false s h = h

drop_empty-quoted :
    (space : Bool) (t rest : Bytes) (tokens : List Bytes)
    → drop_empty (spaced space (quoted t rest) ∷ tokens)
      ≡ spaced space (quoted t rest) ∷ drop_empty tokens
drop_empty-quoted true t rest tokens = refl
drop_empty-quoted false t rest tokens = refl

spaced-append :
    (space : Bool) (t rest : Bytes)
    → spaced space (quoted t rest) ≡ spaced space (quoted t []) ++ rest
spaced-append true t rest = ap (λ s. b' ' ∷ (b'"' ∷ s)) (sym (append_assoc t (b'"' ∷ []) rest))
spaced-append false t rest = ap (λ s. b'"' ∷ s) (sym (append_assoc t (b'"' ∷ []) rest))

strtok_commas_one :
    (space : Bool) (t rest : Bytes)
    → has_byte b',' t ≡ false
    → has_byte b',' rest ≡ false
    → strtok_commas (spaced space (quoted t rest)) ≡ spaced space (quoted t rest) ∷ []
unfolding strtok_commas
strtok_commas_one space t rest h k =
    ap drop_empty (
      split_commas_one (spaced space (quoted t rest))
        (spaced_no_comma space (quoted t rest) (quoted_no_comma t rest h k)))
    ∙ drop_empty-quoted space t rest []

strtok_commas_more :
    (space : Bool) (t s : Bytes)
    → has_byte b',' t ≡ false
    → strtok_commas (spaced space (quoted t (b',' ∷ s)))
      ≡ spaced space (quoted t []) ∷ strtok_commas s
unfolding strtok_commas
strtok_commas_more space t s h =
    ap (λ x. drop_empty (split_commas x)) (spaced-append space t (b',' ∷ s))
    ∙ ap drop_empty (
        split_commas_more (spaced space (quoted t [])) s
          (spaced_no_comma space (quoted t []) (quoted_no_comma t [] h (unfold has_byte in refl))))
    ∙ drop_empty-quoted space t [] (split_commas s)

match_tokens-print_tags :
    (space : Bool) (e t : Bytes) (ts : List Bytes) (rest : Bytes)
    → All IsTag (t ∷ ts)
    → has_byte b',' rest ≡ false
    → has_byte b'"' rest ≡ false
    → match_tokens (quoted e []) (strtok_commas (spaced space (print_tags t ts rest)))
      ≡ (if has_tag e (t ∷ ts) then matched else unmatched)
unfolding print_tags has_tag
match_tokens-print_tags space e t [] rest v h k =
    ap (match_tokens (quoted e [])) (strtok_commas_one space t rest v.0.no_comma h)
    ∙ match_tokens-quoted space e t rest [] v.0 k
    ∙ (unfold match_tokens in ground arith)
match_tokens-print_tags space e t (u ∷ us) rest v h k =
    ap (match_tokens (quoted e []))
      (strtok_commas_more space t (spaced true (print_tags u us rest)) v.0.no_comma)
    ∙ match_tokens-quoted space e t [] _ v.0 (unfold has_byte in refl)
    ∙ ap (λ m. if strcmp_eq t e then matched else m)
        (match_tokens-print_tags true e u us rest v.1 h k)
    ∙ ground arith

-- Against the tags of a header in its usual form, each without a comma or white space at its end
-- and of at most 255 bytes, with what follows them free of commas and quotes and 1023 bytes in all,
-- the tag of the file matches exactly if it is one of them.
pub if_none_match-print_tags :
    (e t : Bytes) (ts : List Bytes) (rest : Bytes)
    → All IsTag (t ∷ ts)
    → has_byte b',' rest ≡ false
    → has_byte b'"' rest ≡ false
    → length (print_tags t ts rest) ≤ 1023
    → if_none_match (quoted e []) (print_tags t ts rest)
      ≡ (if has_tag e (t ∷ ts) then matched else unmatched)
unfolding if_none_match
if_none_match-print_tags e t ts rest v h k small =
    rw (take_all 1023 (print_tags t ts rest) small)
      (match_tokens-print_tags false e t ts rest v h k)

-- A quoted tag of 256 bytes or more in front, with no comma in it nor quotes behind it, in a value
-- of at most 1023 bytes, is copied behind the end of its buffer, whatever the tag of the file.
pub if_none_match-overrun :
    (e t rest : Bytes)
    → has_byte b',' t ≡ false
    → has_byte b',' rest ≡ false
    → has_byte b'"' rest ≡ false
    → 256 ≤ length t
    → length (quoted t rest) ≤ 1023
    → if_none_match e (quoted t rest) ≡ overrun
unfolding if_none_match match_tokens clean_token
if_none_match-overrun e t rest h k q long small =
    rw
      (
        take_all 1023 (quoted t rest) small,
        strtok_commas_one false t rest h k,
        match_tokens,
        skip_whitespace-quoted false t rest,
        quoted-ne_star t rest,
        clean_token,
        skip_weak-quoted t rest,
        unquote-quoted t rest q,
        le→ltb_false (length t) 256 long,
      )
      refl
