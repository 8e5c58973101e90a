-- ===== src/Worker/Data/Cases.antt =====
-- Case lemmas and lengths of texts for worker_handle_client_data of src/worker.c.
use nx_lite.Base.{
  ℕ, ◌≤◌, ◌≡◌, refl, ◌≢◌, ◌⊎◌, inl, inr, true, some, [], ◌∷◌, ◌==◌, length, Bytes, strstr,
  has_prefix, arith, Bool-cases, Option-cases,
}
use nx_lite.Http.Parse.{
  ParseResult, Request, parsed, oversized, unsupported, malformed, out_of_fuel,
}
use nx_lite.Http.Send.{SendCode, complete, blocked, failure, overflow, stuck}
use nx_lite.Worker.Data.{
  ReadEnd, full, drained, closed, slow, endless, Handled, DataResult, Progress, returned, continued,
  c_string,
}

has_prefix-length : (s t : Bytes) → has_prefix s t ≡ true → length t ≤ length s
unfolding has_prefix
has_prefix-length s [] h = omega arith
has_prefix-length [] (d ∷ t) h = absurd (ground (arith, h))
has_prefix-length (c ∷ s) (d ∷ t) h = elim (Bool-cases (c == d)) [
  | inl same ↦ omega (arith, has_prefix-length s t (ground (arith, h, same)))
  | inr other ↦ absurd (ground (arith, h, other))
]

pub strstr-length : (s t : Bytes) (n : ℕ) → strstr s t ≡ some n → length t ≤ length s
unfolding strstr
strstr-length [] t n h = elim (Bool-cases (has_prefix [] t)) [
  | inl here ↦ has_prefix-length [] t here
  | inr there ↦ absurd (ground (arith, h, there))
]
strstr-length (c ∷ s) t n h = elim (Bool-cases (has_prefix (c ∷ s) t)) [
  | inl here ↦ has_prefix-length (c ∷ s) t here
  | inr there ↦ elim (Option-cases (strstr s t)) [
    | inl e ↦ absurd (ground (arith, h, there, e))
    | inr (k, e) ↦ omega (arith, strstr-length s t k e)
  ]
]

pub c_string-length : (s : Bytes) → length (c_string s) ≤ length s
unfolding c_string
c_string-length [] = omega arith
c_string-length (c ∷ s) = ground (arith, c_string-length s)

pub SendCode-cases :
    (c : SendCode) → c ≢ stuck → ((c ≡ failure) ⊎ (c ≡ blocked)) ⊎ ((c ≡ complete) ⊎ (c ≡ overflow))
SendCode-cases failure n = inl (inl refl)
SendCode-cases blocked n = inl (inr refl)
SendCode-cases complete n = inr (inl refl)
SendCode-cases overflow n = inr (inr refl)
SendCode-cases stuck n = absurd (n refl)

pub ParseResult-cases :
    (p : ParseResult)
    → p ≢ out_of_fuel
    → ((q : Request) × (p ≡ parsed q)) ⊎ (p ≡ oversized) ⊎ (p ≡ unsupported) ⊎ (p ≡ malformed)
ParseResult-cases (parsed q) n = inl (q, refl)
ParseResult-cases oversized n = inr (inl refl)
ParseResult-cases unsupported n = inr (inr (inl refl))
ParseResult-cases malformed n = inr (inr (inr refl))
ParseResult-cases out_of_fuel n = absurd (n refl)

pub Progress-cases :
    (p : Progress)
    → ((r : DataResult) × (p ≡ returned r))
      ⊎ ((h : Handled) × (rest : Bytes) × (p ≡ continued h rest))
Progress-cases (returned r) = inl (r, refl)
Progress-cases (continued h rest) = inr (h, rest, refl)

pub List-cases : (s : Bytes) → (s ≡ []) ⊎ ((b : ℕ) × (t : Bytes) × (s ≡ b ∷ t))
List-cases [] = inl refl
List-cases (b ∷ t) = inr (b, t, refl)

pub ReadEnd-cases :
    (e : ReadEnd) → e ≢ endless → (e ≡ slow) ⊎ (e ≡ closed) ⊎ ((e ≡ full) ⊎ (e ≡ drained))
ReadEnd-cases full n = inr (inr (inl refl))
ReadEnd-cases drained n = inr (inr (inr refl))
ReadEnd-cases closed n = inr (inl refl)
ReadEnd-cases slow n = inl refl
ReadEnd-cases endless n = absurd (n refl)
