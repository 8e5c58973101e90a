-- ===== src/Http/Etag/RoundTrip.antt =====
-- About the tags that http_serve_file of src/http.c makes, when a client sends them back.
use nx_lite.Base.{
  ℕ, zero, suc, ◌+◌, ◌/◌, ◌%◌, ◌^◌, ◌≤◌, ◌≡◌, refl, ◌∙◌, ap, ◌≢◌, inl, inr, append_assoc, false, [],
  ◌∷◌, ◌++◌, ltb, length, Bytes, strcmp_eq_refl, isspace, has_byte, All, All-append, arith,
  Bool-cases, length-append, djb2,
}
use nx_lite.Http.Etag.{
  Stat, hex_digit, hex, make_etag, etag_input, trim_end, matched, if_none_match,
}
use nx_lite.Http.Etag.Tokens.{quoted, print_tags, IsTag, has_tag, if_none_match-print_tags}

-- Neither a comma nor white space.
abbrev IsPlain : ℕ → Type 0
IsPlain c = (c ≢ b',') × (isspace c ≡ false)

hex_digit-IsPlain : (n : ℕ) → IsPlain (hex_digit (n % 16))
unfolding isspace
hex_digit-IsPlain n = ground arith

All-IsPlain-hex : (fuel n : ℕ) → All IsPlain (hex fuel n)
unfolding hex
All-IsPlain-hex zero n = (hex_digit-IsPlain n, tt)
All-IsPlain-hex (suc fuel) n = elim (Bool-cases (ltb n 16)) [
  | inl small ↦ rw small (unfold isspace in ground arith, tt)
  | inr large ↦ rw large (
      All-append IsPlain (hex fuel (n / 16)) _ (All-IsPlain-hex fuel (n / 16))
        (hex_digit-IsPlain n, tt))
]

length-hex : (fuel n : ℕ) → length (hex fuel n) ≤ fuel + 1
unfolding hex
length-hex zero n = omega arith
length-hex (suc fuel) n = elim (Bool-cases (ltb n 16)) [
  | inl small ↦ rw small (omega arith)
  | inr large ↦ rw large (
      omega (
        arith,
        length-append (hex fuel (n / 16)) (hex_digit (n % 16) ∷ []),
        length-hex fuel (n / 16),
      ))
]

has_byte-IsPlain : (s : Bytes) → All IsPlain s → has_byte b',' s ≡ false
unfolding has_byte
has_byte-IsPlain [] p = refl
has_byte-IsPlain (c ∷ s) (p, ps) = ground (arith, p.0, has_byte-IsPlain s ps)

trim_end-cons : (c d : ℕ) (s t : Bytes) → trim_end s ≡ d ∷ t → trim_end (c ∷ s) ≡ c ∷ d ∷ t
unfolding trim_end
trim_end-cons c d s t h = rw h

trim_end-IsPlain : (s : Bytes) → All IsPlain s → trim_end s ≡ s
unfolding trim_end
trim_end-IsPlain [] p = refl
trim_end-IsPlain (c ∷ []) (p, ps) = rw (trim_end, p.1)
trim_end-IsPlain (c ∷ d ∷ s) (p, ps) = trim_end-cons c d (d ∷ s) s (trim_end-IsPlain (d ∷ s) ps)

hex-IsTag : (n : ℕ) → IsTag (hex 16 n)
hex-IsTag n = record {
  no_comma = has_byte-IsPlain (hex 16 n) (All-IsPlain-hex 16 n);
  trimmed = trim_end-IsPlain (hex 16 n) (All-IsPlain-hex 16 n);
  fits = omega (arith, length-hex 16 n);
}

-- The tag that the server gave for a file, sent back with the rest of the buffer behind it, free of
-- commas and quotes, matches the tag of the unchanged file.
pub if_none_match-make_etag :
    (path : Bytes) (st : Stat) (rest : Bytes)
    → has_byte b',' rest ≡ false
    → has_byte b'"' rest ≡ false
    → length rest ≤ 1000
    → if_none_match (make_etag path st) (make_etag path st ++ rest) ≡ matched
unfolding make_etag print_tags
if_none_match-make_etag path st rest h k small =
    ap (if_none_match (quoted tag [])) (ap (λ s. b'"' ∷ s) (append_assoc tag (b'"' ∷ []) rest))
    ∙ if_none_match-print_tags tag tag [] rest (hex-IsTag n, tt) h k
        (unfold print_tags in
          omega (arith, length-append tag (b'"' ∷ rest), length-hex 16 n, small))
    ∙ (unfold has_tag in rw (strcmp_eq_refl tag))
  where
    n : ℕ
    n = djb2 (2 ^ 64) 5381 (etag_input path st)

    tag : Bytes
    tag = hex 16 n
