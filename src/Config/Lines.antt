-- ===== src/Config/Lines.antt =====
-- About parse_config_line of src/config.c.
use nx_lite.Base.{
  ℕ, zero, suc, ◌<◌, ◌≤◌, ◌≡◌, refl, ◌∙◌, ap, inl, inr, false, not, ◌&&◌, none, some, [], ◌∷◌, ◌++◌,
  ◌==◌, if◌then◌else◌, length, Bytes, has_byte, arith, Bool-cases,
}
use nx_lite.Config.{
  Settings, trim_whitespace, scan_until, scan_value, scan_line, set_value, is_skipped,
  parse_config_line,
}

scan_until-append :
    (n stop : ℕ) (s rest : Bytes)
    → has_byte stop s ≡ false
    → length s ≤ n
    → scan_until n stop (s ++ stop ∷ rest) ≡ (s, stop ∷ rest)
unfolding scan_until has_byte
scan_until-append zero stop [] rest clean room = refl
scan_until-append zero stop (c ∷ s) rest clean room = absurd (omega (arith, room))
scan_until-append (suc n) stop [] rest clean room = ground arith
scan_until-append (suc n) stop (c ∷ s) rest clean room = elim (Bool-cases (c == stop)) [
  | inl same ↦ absurd (ground (arith, clean, same))
  | inr other ↦
      let later =
        scan_until-append n stop s rest (ground (arith, clean, other)) (omega (arith, room)) in
      rw (other, later) refl
]

scan_value-assignment :
    (key value rest : Bytes)
    → has_byte 10 value ≡ false
    → 0 < length key
    → 0 < length value
    → length value ≤ 255
    → scan_value key (b'=' ∷ (value ++ 10 ∷ rest)) ≡ some (key, value)
unfolding scan_value
scan_value-assignment key value rest no_end k1 v1 v2 =
    let some_key : (length key == 0) ≡ false = ground (arith, k1) in
    let some_value : (length value == 0) ≡ false = ground (arith, v1) in
    ap
      (λ (p : Bytes × Bytes).
        if not (length key == 0) && not (length p.0 == 0) then some (key, p.0) else none)
      (scan_until-append 255 10 value rest no_end v2)
    ∙ rw (some_key, some_value) refl

scan_line-assignment :
    (key value rest : Bytes)
    → has_byte b'=' key ≡ false
    → has_byte 10 value ≡ false
    → 0 < length key
    → length key ≤ 63
    → 0 < length value
    → length value ≤ 255
    → scan_line (key ++ b'=' ∷ (value ++ 10 ∷ rest)) ≡ some (key, value)
unfolding scan_line
scan_line-assignment key value rest no_equals no_end k1 k2 v1 v2 =
    ap (λ p. scan_value p.0 p.1) (scan_until-append 63 b'=' key (value ++ 10 ∷ rest) no_equals k2)
    ∙ scan_value-assignment key value rest no_end k1 v1 v2

-- A line that gives a key of 1 to 63 bytes, which does not begin as a comment or an empty line, a
-- value of 1 to 255 bytes sets what the key stands for to the value, both without the blanks at their
-- ends; blanks in front of them stay.
pub parse_config_line-assignment :
    (c : ℕ) (key value rest : Bytes) (s : Settings)
    → is_skipped (c ∷ []) ≡ false
    → has_byte b'=' (c ∷ key) ≡ false
    → has_byte 10 value ≡ false
    → length key < 63
    → 0 < length value
    → length value ≤ 255
    → parse_config_line (c ∷ key ++ b'=' ∷ (value ++ 10 ∷ rest)) s
      ≡ set_value (trim_whitespace (c ∷ key)) (trim_whitespace value) s
unfolding parse_config_line
parse_config_line-assignment c key value rest s starts no_equals no_end k v1 v2 =
    rw
      (
        starts,
        scan_line-assignment (c ∷ key) value rest no_equals no_end (omega arith) (omega (arith, k))
            v1 v2,
      )
      refl
