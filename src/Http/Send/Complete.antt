-- ===== src/Http/Send/Complete.antt =====
-- About http_send_response of src/http.c, over a socket that makes progress.
use nx_lite.Base.{
  ℕ, zero, suc, ◌+◌, ◌-◌, ◌≤◌, ◌<◌, ◌≡◌, refl, sym, ◌∙◌, ap, true, false, none, some, List, [], ◌∷◌,
  ◌++◌, ltb, if◌then◌else◌, length, take, drop, Bytes, arith, take_all, append-nil,
}
use nx_lite.Http.Response.{Response}
use nx_lite.Http.Send.{
  Errno, IoResult, wrote, SendCode, complete, Socket, header_block, send_loop, chunk_size,
  file_remaining, sendfile_loop, send_whole, send_body, send_file, send_cached, send_fresh,
  http_send_response,
}

-- Every call takes some of what it is asked to take.
abbrev pub Progresses : Socket → Type 0
Progresses io = (k n : ℕ) → 0 < n → (m : ℕ) × (e : Errno) × (io k n ≡ wrote m e) × (0 < m) × (m ≤ n)

take-nil : {A : Type 0} (k : ℕ) → take {A = A} k [] ≡ []
take-nil zero = refl
take-nil (suc k) = refl

take-drop-append :
    {A : Type 0} (m n : ℕ) (xs : List A) → m ≤ n → take m xs ++ take (n - m) (drop m xs) ≡ take n xs
take-drop-append zero n xs h = ap (λ k. take k xs) (omega arith)
take-drop-append (suc m) zero xs h = absurd (omega arith)
take-drop-append (suc m) (suc n) [] h = take-nil (suc n - suc m)
take-drop-append (suc m) (suc n) (x ∷ xs) h = ap (◌∷◌ x) (
    ap (λ k. take m xs ++ take k (drop m xs)) (let e : suc n - suc m ≡ n - m = omega arith in e)
    ∙ take-drop-append m n xs (omega arith))

send_loop_lem :
    (fuel k remaining : ℕ) (io : Socket) (text : Bytes)
    → Progresses io
    → remaining ≤ fuel
    → send_loop fuel io k text remaining ≡ (complete, take remaining text)
unfolding send_loop
send_loop_lem fuel k zero io text p h = refl
send_loop_lem zero k (suc remaining) io text p h = absurd (omega arith)
send_loop_lem (suc fuel) k (suc remaining) io text p h =
    go (p k (suc remaining) (omega arith)) (λ m.
      send_loop_lem fuel (k + 1) (suc remaining - suc m) io (drop (suc m) text) p (omega arith))
  where
    go :
        (m : ℕ) × (e : Errno) × (io k (suc remaining) ≡ wrote m e) × (0 < m) × (m ≤ suc remaining)
        → ((m : ℕ)
            → send_loop fuel io (k + 1) (drop (suc m) text) (suc remaining - suc m)
              ≡ (complete, take (suc remaining - suc m) (drop (suc m) text)))
        → send_loop (suc fuel) io k text (suc remaining) ≡ (complete, take (suc remaining) text)
    go (zero, e, q, pos, small) ih = absurd (omega arith)
    go (suc m, e, q, pos, small) ih =
        rw (q, send_loop)
          (rw (ih m)
            (ap (λ s. (complete, s)) (take-drop-append (suc m) (suc remaining) text small)))

drop-nil : {A : Type 0} (k : ℕ) → drop {A = A} k [] ≡ []
drop-nil zero = refl
drop-nil (suc k) = refl

drop-drop : {A : Type 0} (m n : ℕ) (xs : List A) → drop m (drop n xs) ≡ drop (n + m) xs
drop-drop m zero xs = ap (λ k. drop k xs) (let e : m ≡ 0 + m = omega arith in e)
drop-drop m (suc n) [] = drop-nil m ∙ sym (drop-nil (suc n + m))
drop-drop m (suc n) (x ∷ xs) =
    drop-drop m n xs
    ∙ ap (λ k. drop k (x ∷ xs)) (let e : suc (n + m) ≡ suc n + m = omega arith in e)

chunk : ℕ → ℕ
chunk remaining = if ltb chunk_size remaining then chunk_size else remaining

chunk_bounds : (r : ℕ) → (0 < chunk (suc r)) × (chunk (suc r) ≤ suc r)
unfolding chunk
chunk_bounds r = ground arith

sendfile_loop_lem :
    (fuel k remaining offset : ℕ) (io : Socket) (file : Bytes)
    → Progresses io
    → remaining ≤ fuel
    → sendfile_loop fuel io k file offset remaining
      ≡ (complete, take remaining (drop offset file), offset + remaining)
unfolding sendfile_loop
sendfile_loop_lem fuel k zero offset io file p h =
    λ i. (complete, [], (let e : offset ≡ offset + 0 = omega arith in e) i)
sendfile_loop_lem zero k (suc remaining) offset io file p h = absurd (omega arith)
sendfile_loop_lem (suc fuel) k (suc remaining) offset io file p h =
    go (p k (chunk (suc remaining)) (chunk_bounds remaining).0) (λ m.
      sendfile_loop_lem fuel (k + 1) (suc remaining - suc m) (offset + suc m) io file p
        (omega arith))
  where
    go :
        (m : ℕ) × (e : Errno) × (io k (chunk (suc remaining)) ≡ wrote m e)
          × (0 < m)
          × (m ≤ chunk (suc remaining))
        → ((m : ℕ)
            → sendfile_loop fuel io (k + 1) file (offset + suc m) (suc remaining - suc m) ≡ (
              complete,
              take (suc remaining - suc m) (drop (offset + suc m) file),
              offset + suc m + (suc remaining - suc m),
            ))
        → sendfile_loop (suc fuel) io k file offset (suc remaining)
          ≡ (complete, take (suc remaining) (drop offset file), offset + suc remaining)
    go (zero, e, q, pos, small) ih = absurd (omega arith)
    go (suc m, e, q, pos, small) ih =
        let q' : io k (if ltb chunk_size (suc remaining) then chunk_size else suc remaining)
            ≡ wrote (suc m) e =
          unfold chunk in q in
        rw (q', sendfile_loop)
          (rw (ih m) (λ i. (
            complete,
            text i,
            (let e : offset + suc m + (suc remaining - suc m) ≡ offset + suc remaining =
                    omega (arith, small, (chunk_bounds remaining).1) in
                  e)
                i,
          )))
      where
        text :
            take (suc m) (drop offset file)
              ++ take (suc remaining - suc m) (drop (offset + suc m) file)
            ≡ take (suc remaining) (drop offset file)
        text =
            ap (λ s. take (suc m) (drop offset file) ++ take (suc remaining - suc m) s)
              (sym (drop-drop (suc m) offset file))
            ∙ take-drop-append (suc m) (suc remaining) (drop offset file)
                (omega (arith, small, (chunk_bounds remaining).1))

-- A cached text is sent whole and alone, over a socket that makes progress.
pub send_cached-complete :
    (io : Socket) (file text : Bytes) (r : Response)
    → Progresses io
    → r.is_cached ≡ true
    → r.cached_response ≡ some text
    → http_send_response io file r
      ≡ record { code = complete; output = take r.body_length text; response = r }
unfolding http_send_response send_cached
send_cached-complete io file text r p cached stored =
    ground
      (arith, cached, stored, send_loop_lem r.body_length 0 r.body_length io text p (omega arith))

send_whole-all :
    (r : IoResult) (text : Bytes) (next : SendCode × Bytes) (e : Errno)
    → r ≡ wrote (length text) e
    → send_whole r text next ≡ (next.0, text ++ next.1)
unfolding send_whole
send_whole-all r text next e h = ground (arith, h)

-- A file is sent behind the header block, from the offset of the response on, over a socket that
-- takes the header block at once and makes progress.
pub send_file-complete :
    (io : Socket) (file : Bytes) (r : Response) (e : Errno)
    → Progresses io
    → r.is_cached ≡ false
    → r.is_file ≡ true
    → length (header_block r) < 8192
    → io 0 (length (header_block r)) ≡ wrote (length (header_block r)) e
    → http_send_response io file r ≡ record {
      code = complete;
      output = header_block r ++ take (file_remaining r) (drop r.file_offset file);
      response = r;
    }
unfolding http_send_response send_fresh send_file
send_file-complete io file r e p cached isfile small header = ground (
  arith,
  cached,
  isfile,
  small,
  header,
  sendfile_loop_lem (file_remaining r) 1 (file_remaining r) r.file_offset io file p (omega arith),
)

-- A body in memory, which is not compressed, is sent behind the header block over a socket that takes
-- both at once.
send_body-complete :
    (io : Socket) (file text : Bytes) (r : Response) (e e' : Errno)
    → r.is_cached ≡ false
    → r.is_file ≡ false
    → r.compressed_body ≡ none
    → r.body ≡ some text
    → r.body_length ≡ length text
    → 0 < length text
    → length (header_block r) < 8192
    → io 0 (length (header_block r)) ≡ wrote (length (header_block r)) e
    → io 1 (length text) ≡ wrote (length text) e'
    → http_send_response io file r
      ≡ record { code = complete; output = header_block r ++ text; response = r }
unfolding http_send_response send_fresh send_body
send_body-complete io file text r e e' cached isfile plain body size pos small header second =
    ground (
      arith,
      cached,
      isfile,
      plain,
      body,
      size,
      pos,
      small,
      header,
      second,
      take_all (length text) text (omega arith),
      append-nil text,
    )

-- A compressed body is sent behind the header block over a socket that takes both at once.
pub send_compressed-complete :
    (io : Socket) (file out : Bytes) (r : Response) (e e' : Errno)
    → r.is_cached ≡ false
    → r.is_file ≡ false
    → r.compressed_body ≡ some out
    → r.compressed_length ≡ length out
    → 0 < length out
    → length (header_block r) < 8192
    → io 0 (length (header_block r)) ≡ wrote (length (header_block r)) e
    → io 1 (length out) ≡ wrote (length out) e'
    → http_send_response io file r
      ≡ record { code = complete; output = header_block r ++ out; response = r }
unfolding http_send_response send_fresh send_body
send_compressed-complete io file out r e e' cached isfile body size pos small header second =
    ground (
      arith,
      cached,
      isfile,
      body,
      size,
      pos,
      small,
      header,
      second,
      take_all (length out) out (omega arith),
      append-nil out,
    )
