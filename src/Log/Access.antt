-- ===== src/Log/Access.antt =====
-- About log_access of src/log.c.
use nx_lite.Base.{
  ℕ, zero, suc, ◌/◌, ◌≤◌, ◌≡◌, refl, sym, subst, inl, inr, false, Option, some, [], ◌∷◌, ◌++◌, map,
  ltb, take, drop, Bytes, codes, has_byte, All, All-append, arith, Bool-cases,
}
use nx_lite.Http.Send.{decimal}
use nx_lite.Log.{Log, safe_byte, sanitize_for_log, or_dash, access_line, log_access}

-- A printable byte, which is no control byte.
abbrev pub IsPrintable : ℕ → Type 0
IsPrintable c = (32 ≤ c) × (c ≤ 126)

safe_byte-IsPrintable : (c : ℕ) → IsPrintable (safe_byte c)
safe_byte-IsPrintable c = ground arith

sanitized-IsPrintable : (s : Bytes) → All IsPrintable (map safe_byte s)
sanitized-IsPrintable [] = tt
sanitized-IsPrintable (c ∷ s) = (safe_byte-IsPrintable c, sanitized-IsPrintable s)

drop-take : (n m : ℕ) (s : Bytes) → n ≤ m → drop m (take n s) ≡ []
drop-take zero zero s h = refl
drop-take zero (suc m) s h = refl
drop-take (suc n) zero s h = absurd (omega (arith, h))
drop-take (suc n) (suc m) [] h = refl
drop-take (suc n) (suc m) (c ∷ s) h = drop-take n m s (omega (arith, h))

-- A text that is cut to its buffer is sanitized whole.
sanitize_for_log-IsPrintable :
    (n m : ℕ) (s : Bytes) → n ≤ m → All IsPrintable (sanitize_for_log (take n s) m)
unfolding sanitize_for_log
sanitize_for_log-IsPrintable n m s h =
    All-append IsPrintable _ _ (sanitized-IsPrintable (take m (take n s)))
      (subst (All IsPrintable) (sym (drop-take n m s h)) tt)

decimal-IsPrintable : (fuel n : ℕ) → All IsPrintable (decimal fuel n)
unfolding decimal
decimal-IsPrintable zero n = (omega arith, tt)
decimal-IsPrintable (suc fuel) n = elim (Bool-cases (ltb n 10)) [
  | inl small ↦ rw small (ground (arith, small))
  | inr large ↦ rw large (
      All-append IsPrintable (decimal fuel (n / 10)) _ (decimal-IsPrintable fuel (n / 10))
        (omega arith, tt))
]

IsPrintable-no_end : (s : Bytes) → All IsPrintable s → has_byte 10 s ≡ false
unfolding has_byte
IsPrintable-no_end [] v = refl
IsPrintable-no_end (c ∷ s) (v, vs) = ground (arith, v, IsPrintable-no_end s vs)

literal-IsPrintable :
    (s t : Bytes) → All IsPrintable s → All IsPrintable t → All IsPrintable (s ++ t)
literal-IsPrintable s t v w = All-append IsPrintable s t v w

access_line-IsPrintable :
    (timestamp : Bytes) (client_ip method uri : Option Bytes) (status size : ℕ)
    → All IsPrintable timestamp
    → All IsPrintable (or_dash client_ip)
    → All IsPrintable (access_line timestamp client_ip method uri status size)
unfolding access_line
access_line-IsPrintable timestamp client_ip method uri status size time ip =
    All-append IsPrintable (or_dash client_ip) _ ip (
      All-append IsPrintable (codes " - - [") _ (omega arith) (
        All-append IsPrintable timestamp _ time (
          All-append IsPrintable (codes "] \"") _ (omega arith) (
            All-append IsPrintable (sanitize_for_log (take 31 (or_dash method)) 32) _
              (sanitize_for_log-IsPrintable 31 32 (or_dash method) (omega arith))
              (
                (omega arith),
                All-append IsPrintable (sanitize_for_log (take 511 (or_dash uri)) 512) _
                    (sanitize_for_log-IsPrintable 511 512 (or_dash uri) (omega arith))
                    (All-append IsPrintable (codes "\" ") _ (omega arith) (
                      All-append IsPrintable (decimal 20 status) _ (decimal-IsPrintable 20 status)
                        ((omega arith), decimal-IsPrintable 20 size))),
              )))))

-- Whatever method and URI a client sends, log_access appends one line of printable bytes to the open
-- log file, and so no line end but the one at its end, if the time and the address of the client are
-- printable.
pub log_access_one_line :
    (timestamp text : Bytes) (client_ip method uri : Option Bytes) (status size : ℕ) (l : Log)
    → All IsPrintable timestamp
    → All IsPrintable (or_dash client_ip)
    → l.log_file ≡ some text
    → (line : Bytes) × ((log_access timestamp client_ip method uri status size l).log_file
        ≡ some (text ++ (line ++ 10 ∷ [])))
      × All IsPrintable line
      × (has_byte 10 line ≡ false)
unfolding log_access
log_access_one_line timestamp text client_ip method uri status size l time ip e =
    let line = access_line timestamp client_ip method uri status size in
    let printable = access_line-IsPrintable timestamp client_ip method uri status size time ip in
    (line, rw e refl, printable, IsPrintable-no_end line printable)
