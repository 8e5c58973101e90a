-- ===== src/Http/Etag/Tests.antt =====
-- Entity tags compared by evaluation, and the theorems at concrete headers.
use nx_lite.Base.{
  true, ◌≡◌, refl, [], ◌∷◌, ◌++◌, Bytes, codes, arith, replicate, isspace, strcmp_eq, strrchr,
  has_byte, djb2, if◌then◌else◌,
}
use nx_lite.Http.Etag.{
  Stat, make_etag, hex, etag_input, if_none_match, matched, unmatched, overrun, trim_end,
  strtok_commas, match_tokens, clean_token, bare_etag, skip_weak, unquote,
}
use nx_lite.Http.Parse.{skip_whitespace}
use nx_lite.Http.Send.{decimal}
use nx_lite.Http.Etag.RoundTrip.{if_none_match-make_etag}
use nx_lite.Http.Etag.Tokens.{
  quoted, print_tags, has_tag, IsTag, if_none_match-print_tags, if_none_match-overrun,
}

abbrev file_stat : Stat
file_stat = record { is_regular = true; ino = 12; size = 5; mtime = 1000 }

abbrev next_line : Bytes
next_line = 13 ∷ 10 ∷ codes "Host: localhost"

-- The hash of "/a:12:5:1000".
etag_of_file : make_etag (codes "/a") file_stat ≡ codes "\"ab02e6cc290c18fc\""
unfolding make_etag hex etag_input djb2 decimal
etag_of_file = refl

weak_tag : if_none_match (codes "\"a1\"") (codes "W/\"b2\" , W/\"a1\"  ") ≡ matched
unfolding if_none_match strtok_commas match_tokens clean_token bare_etag skip_weak unquote trim_end
    skip_whitespace strcmp_eq strrchr
weak_tag = refl

a1-IsTag : IsTag (codes "a1")
a1-IsTag = record {
  no_comma = unfold has_byte in refl;
  trimmed = unfold trim_end isspace in refl;
  fits = omega arith;
}

b2-IsTag : IsTag (codes "b2")
b2-IsTag = record {
  no_comma = unfold has_byte in refl;
  trimmed = unfold trim_end isspace in refl;
  fits = omega arith;
}

if_none_match-print_tags_example :
    if_none_match (quoted (codes "b2") []) (print_tags (codes "a1") (codes "b2" ∷ []) next_line)
    ≡ (if has_tag (codes "b2") (codes "a1" ∷ codes "b2" ∷ []) then matched else unmatched)
if_none_match-print_tags_example =
    if_none_match-print_tags (codes "b2") (codes "a1") (codes "b2" ∷ []) next_line
      (a1-IsTag, (b2-IsTag, tt)) (unfold has_byte in refl) (unfold has_byte in refl)
      (unfold print_tags in omega arith)

abbrev long_tag : Bytes
long_tag = replicate 300 b'x'

if_none_match-overrun_example : if_none_match (codes "\"a1\"") (quoted long_tag next_line) ≡ overrun
if_none_match-overrun_example =
    if_none_match-overrun (codes "\"a1\"") long_tag next_line (unfold has_byte in refl)
      (unfold has_byte in refl) (unfold has_byte in refl) (omega arith) (omega arith)

if_none_match-make_etag_example :
    if_none_match (make_etag (codes "/a") file_stat) (make_etag (codes "/a") file_stat ++ next_line)
    ≡ matched
if_none_match-make_etag_example =
    if_none_match-make_etag (codes "/a") file_stat next_line (unfold has_byte in refl)
      (unfold has_byte in refl) (omega arith)
