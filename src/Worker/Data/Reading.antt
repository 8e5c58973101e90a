-- ===== src/Worker/Data/Reading.antt =====
-- About the loop of recv in worker_handle_client_data of src/worker.c.
use nx_lite.Base.{
  ℕ, zero, suc, ◌+◌, ◌-◌, ◌<◌, ◌≤◌, ◌≡◌, refl, ◌≢◌, ◌⊎◌, inl, inr, [], ◌∷◌, ◌++◌, leb, length,
  length-append, Bytes, arith, Bool-cases, leb-false,
}
use nx_lite.Worker.{Client}
use nx_lite.Worker.Data.{
  Received, bytes, end_of_stream, would_block, reset, Incoming, endless, ReadResult, is_dripping,
  read_loop,
}

Received-cases :
    (x : Received)
    → ((x ≡ end_of_stream) ⊎ (x ≡ reset))
      ⊎ (x ≡ would_block)
      ⊎ ((b : ℕ) × (more : Bytes) × (x ≡ bytes b more))
Received-cases end_of_stream = inl (inl refl)
Received-cases reset = inl (inr refl)
Received-cases would_block = inr (inl refl)
Received-cases (bytes b more) = inr (inr (b, more, refl))

-- The client that is read has its descriptors and its buffer still, and the loop has ended.
pub record ReadsFor (c : Client) (r : ReadResult) : Type 0 where
  pub fd : r.client.fd ≡ c.fd
  pub timer_fd : r.client.timer_fd ≡ c.timer_fd
  pub buffer : r.client.buffer ≡ c.buffer
  pub ended : r.end ≢ endless

read_loop-ReadsFor :
    (fuel : ℕ) (io : Incoming) (now k : ℕ) (c : Client) (text : Bytes)
    → length text < 8191
    → 8191 ≤ fuel + length text
    → ReadsFor c (read_loop fuel io now k c text)
unfolding read_loop
read_loop-ReadsFor zero io now k c text room rounds = absurd (omega arith)
read_loop-ReadsFor (suc fuel) io now k c text room rounds =
    elim (Received-cases (io k (8192 - length text - 1))) [
      | inl (inl e) ↦
          simp (read_loop, e)
            (record { fd = refl; timer_fd = refl; buffer = refl; ended = λ q. cc })
      | inl (inr e) ↦
          simp (read_loop, e)
            (record { fd = refl; timer_fd = refl; buffer = refl; ended = λ q. cc })
      | inr (inl e) ↦
          simp (read_loop, e)
            (record { fd = refl; timer_fd = refl; buffer = refl; ended = λ q. cc })
      | inr (inr (b, more, e)) ↦
          let c' : Client = record c { bytes_received = c.bytes_received + suc (length more) } in
          elim (Bool-cases (leb 8191 (length (text ++ b ∷ more)))) [
            | inl filled ↦
                simp (read_loop, e, filled)
                  (record { fd = refl; timer_fd = refl; buffer = refl; ended = λ q. cc })
            | inr short ↦ elim (Bool-cases (is_dripping now more c')) [
              | inl slow ↦
                  simp (read_loop, e, short, slow)
                    (record { fd = refl; timer_fd = refl; buffer = refl; ended = λ q. cc })
              | inr fast ↦
                  let rest =
                    read_loop-ReadsFor fuel io now (k + 1) c' (text ++ b ∷ more)
                      (leb-false _ _ short)
                      (omega (arith, length-append text (b ∷ more), rounds)) in
                  simp (read_loop, e, short, fast)
                    (record {
                      fd = rest.fd;
                      timer_fd = rest.timer_fd;
                      buffer = rest.buffer;
                      ended = rest.ended;
                    })
            ]
          ]
    ]

-- The rounds of the handler are enough for its buffer.
pub read_client-ReadsFor :
    (io : Incoming) (now : ℕ) (c : Client) → ReadsFor c (read_loop 8192 io now 0 c [])
read_client-ReadsFor io now c = read_loop-ReadsFor 8192 io now 0 c [] (omega arith) (omega arith)
