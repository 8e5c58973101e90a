-- ===== src/Mempool/Layout.antt =====
-- Where the blocks of src/mempool.c lie: a header, its address, and back.
use nx_lite.Base.{
  ℕ, ◌+◌, ◌-◌, ◌*◌, ◌/◌, ◌<◌, ◌≤◌, ◌≡◌, refl, subst, ◌∙◌, ap, ◌⊎◌, inl, inr, true, false, ◌&&◌,
  none, some, List, [], ◌∷◌, ◌++◌, length, length-append, All, arith, Bool-cases, leb, ltb,
  if◌then◌else◌,
}
use nx_lite.Mempool.{Pool, add_blocks, add_chunk, find_block}
use nx_lite.Mempool.Growth.{
  fresh_blocks, add_blocks-Chain, add_blocks-address_old, add_blocks-address_new, add_blocks-Grown,
}
use nx_lite.Mempool.Flush.{Chain}

-- A new chunk that shares no byte with another.
abbrev pub IsApart : Pool → ℕ → Type 0
IsApart p start =
    All
      (λ s.
        (s + p.block_size * p.blocks_per_pool ≤ start)
        ⊎ (start + p.block_size * p.blocks_per_pool ≤ s))
      p.memory_blocks

find_block-append :
    (p : Pool) (c : ℕ) (xs ys : List ℕ) (pointer b : ℕ)
    → find_block p c xs pointer ≡ some b
    → find_block p c (xs ++ ys) pointer ≡ some b
unfolding find_block
find_block-append p c [] ys pointer b h = absurd (ground (arith, h))
find_block-append p c (s ∷ xs) ys pointer b h =
    (elim (leb s pointer && ltb pointer (s + p.block_size * p.blocks_per_pool))
        as (λ t.
          (if t
              then some (c * p.blocks_per_pool + (pointer - s) / p.block_size)
              else find_block p (c + 1) xs pointer)
            ≡ some b
          → (if t
              then some (c * p.blocks_per_pool + (pointer - s) / p.block_size)
              else find_block p (c + 1) (xs ++ ys) pointer)
            ≡ some b) [ true ↦ (λ e. e) | false ↦ find_block-append p (c + 1) xs ys pointer b ])
      h

pub suc_mul : (a k : ℕ) → (a + 1) * k ≡ a * k + k
suc_mul a k = grind arith

mul_lt : (a b k : ℕ) → a < b → 0 < k → a * k < k * b
mul_lt a b k h pos = grind arith

mul_div : (a k : ℕ) → 0 < k → a * k / k ≡ a
mul_div a k pos = grind arith

-- A pointer into the new chunk lies in none of the others.
find_block-miss :
    (p : Pool) (c start pointer : ℕ) (xs ys : List ℕ)
    → All
        (λ s.
          (s + p.block_size * p.blocks_per_pool ≤ start)
          ⊎ (start + p.block_size * p.blocks_per_pool ≤ s))
        xs
    → start ≤ pointer
    → pointer < start + p.block_size * p.blocks_per_pool
    → find_block p c (xs ++ ys) pointer ≡ find_block p (c + length xs) ys pointer
unfolding find_block
find_block-miss p c start pointer [] ys apart low high =
    ap (λ k. find_block p k ys pointer) (omega arith)
find_block-miss p c start pointer (s ∷ xs) ys (a, apart) low high =
    let outside : (leb s pointer && ltb pointer (s + p.block_size * p.blocks_per_pool)) ≡ false =
      ground (arith, a, low, high) in
    rw outside (
      find_block-miss p (c + 1) start pointer xs ys apart low high
      ∙ ap (λ k. find_block p k ys pointer) (omega arith))

find_block-hit :
    (p : Pool) (c start j : ℕ)
    → 0 < p.block_size
    → j < p.blocks_per_pool
    → find_block p c (start ∷ []) (start + j * p.block_size) ≡ some (c * p.blocks_per_pool + j)
unfolding find_block
find_block-hit p c start j pos below =
    let short = mul_lt j p.blocks_per_pool p.block_size below pos in
    let inside : (leb start (start + j * p.block_size)
          && ltb (start + j * p.block_size) (start + p.block_size * p.blocks_per_pool))
        ≡ true =
      ground (arith, short) in
    let offset : start + j * p.block_size - start ≡ j * p.block_size = omega arith in
    rw (inside, offset, mul_div j p.block_size pos) refl

pub find_block-Same :
    (p q : Pool) (c : ℕ) (xs : List ℕ) (pointer : ℕ)
    → q.block_size ≡ p.block_size
    → q.blocks_per_pool ≡ p.blocks_per_pool
    → find_block q c xs pointer ≡ find_block p c xs pointer
unfolding find_block
find_block-Same p q c [] pointer size per = refl
find_block-Same p q c (s ∷ xs) pointer size per =
    rw (size, per, find_block-Same p q (c + 1) xs pointer size per) refl

-- The address of a header leads back to it.
pub record IsLaidOut (p : Pool) : Type 0 where
  pub size : 0 < p.block_size
  pub per : 0 < p.blocks_per_pool
  pub found :
      (b : ℕ)
      → b < length p.memory_blocks * p.blocks_per_pool
      → find_block p 0 p.memory_blocks (p.address b) ≡ some b

-- A new chunk apart from the others.
add_chunk-found :
    (start : ℕ) (p : Pool)
    → 0 < p.block_size
    → IsApart p start
    → ((b : ℕ)
        → b < length p.memory_blocks * p.blocks_per_pool
        → find_block p 0 p.memory_blocks (p.address b) ≡ some b)
    → (b : ℕ) → b < (length p.memory_blocks + 1) * p.blocks_per_pool
    → find_block p 0 (p.memory_blocks ++ start ∷ []) ((add_chunk start p).address b) ≡ some b
unfolding add_chunk
add_chunk-found start p pos apart old b below =
    let total = length p.memory_blocks * p.blocks_per_pool in
    let q : Pool = record p { memory_blocks = p.memory_blocks ++ start ∷ [] } in
    elim (Bool-cases (ltb b total)) [
      | inl before ↦
          let lt : b < total + 0 = ground (arith, before) in
          rw (add_blocks-address_old p.blocks_per_pool total 0 start q b lt) (
            find_block-append p 0 p.memory_blocks (start ∷ []) (p.address b) b
              (old b (omega (arith, lt))))
      | inr after ↦
          let j = b - total in
          let low : total ≤ b = ground (arith, after) in
          let room : j < p.blocks_per_pool =
            omega (arith, low, below, suc_mul (length p.memory_blocks) p.blocks_per_pool) in
          let same : total + (0 + j) ≡ b = omega (arith, low) in
          let placed : (add_blocks p.blocks_per_pool total 0 start q).address b
              ≡ start + j * p.block_size =
            subst
              (λ x.
                (add_blocks p.blocks_per_pool total 0 start q).address x ≡ start + j * p.block_size)
              same
              (add_blocks-address_new p.blocks_per_pool total 0 start q j room
                ∙ ap (λ x. start + x * p.block_size) (omega arith)) in
          rw placed (
            find_block-miss p 0 start (start + j * p.block_size) p.memory_blocks (start ∷ []) apart
              (omega arith) (omega (arith, mul_lt j p.blocks_per_pool p.block_size room pos))
            ∙ ap (λ c. find_block p c (start ∷ []) (start + j * p.block_size)) (omega arith)
            ∙ find_block-hit p (length p.memory_blocks) start j pos room
            ∙ ap some (omega (arith, low)))
    ]

pub add_chunk-memory_blocks :
    (start : ℕ) (p : Pool) → (add_chunk start p).memory_blocks ≡ p.memory_blocks ++ start ∷ []
unfolding add_chunk
add_chunk-memory_blocks start p =
    (add_blocks-Grown p.blocks_per_pool (length p.memory_blocks * p.blocks_per_pool) 0 start
      _).memory_blocks

pub add_chunk-Grown :
    (start : ℕ) (p : Pool)
    → ((add_chunk start p).block_size ≡ p.block_size)
      × ((add_chunk start p).blocks_per_pool ≡ p.blocks_per_pool)
      × ((add_chunk start p).local_free_list ≡ p.local_free_list)
      × ((add_chunk start p).local_free_count ≡ p.local_free_count)
unfolding add_chunk
add_chunk-Grown start p =
    let g =
      add_blocks-Grown p.blocks_per_pool (length p.memory_blocks * p.blocks_per_pool) 0 start _ in
    (g.block_size, g.blocks_per_pool, g.local_free_list, g.local_free_count)

pub add_chunk-total :
    (start : ℕ) (p : Pool)
    → length (add_chunk start p).memory_blocks * (add_chunk start p).blocks_per_pool
      ≡ (length p.memory_blocks + 1) * p.blocks_per_pool
add_chunk-total start p =
    ap (λ xs. length xs * (add_chunk start p).blocks_per_pool) (add_chunk-memory_blocks start p)
    ∙ ap (λ k. length (p.memory_blocks ++ start ∷ []) * k) (add_chunk-Grown start p).1
    ∙ ap (λ n. n * p.blocks_per_pool) (length-append p.memory_blocks (start ∷ []))

-- A chunk that is apart from the others keeps every address tied to its header.
pub add_chunk-IsLaidOut :
    (start : ℕ) (p : Pool)
    → 0 < p.block_size
    → 0 < p.blocks_per_pool
    → IsApart p start
    → ((b : ℕ)
        → b < length p.memory_blocks * p.blocks_per_pool
        → find_block p 0 p.memory_blocks (p.address b) ≡ some b)
    → IsLaidOut (add_chunk start p)
add_chunk-IsLaidOut start p pos per apart old =
    let (size, count, l, c) = add_chunk-Grown start p in
    let chunks = add_chunk-memory_blocks start p in
    record {
      size = omega (arith, size, pos);
      per = omega (arith, count, per);
      found = λ b below.
          find_block-Same p (add_chunk start p) 0 (add_chunk start p).memory_blocks
            ((add_chunk start p).address b) size count
          ∙ ap (λ xs. find_block p 0 xs ((add_chunk start p).address b)) chunks
          ∙ add_chunk-found start p pos apart old b
              (subst (λ n. b < n) (add_chunk-total start p) below);
    }

-- The blocks of a new chunk are free, and the others stay as they are.
pub add_chunk-Chain :
    (start : ℕ) (p : Pool)
    → p.free_list ≡ none
    → Chain
        (add_chunk start p).next
        (add_chunk start p).free_list
        (fresh_blocks p.blocks_per_pool (length p.memory_blocks * p.blocks_per_pool) [])
unfolding add_chunk Chain
add_chunk-Chain start p empty =
    let total = length p.memory_blocks * p.blocks_per_pool in
    let q : Pool = record p { memory_blocks = p.memory_blocks ++ start ∷ [] } in
    let grown = add_blocks p.blocks_per_pool total 0 start q in
    subst (λ k. Chain grown.next grown.free_list (fresh_blocks p.blocks_per_pool k []))
      (omega arith) (add_blocks-Chain p.blocks_per_pool total 0 start q [] tt empty)

pub add_chunk-address_old :
    (start : ℕ) (p : Pool) (b : ℕ)
    → b < length p.memory_blocks * p.blocks_per_pool
    → (add_chunk start p).address b ≡ p.address b
unfolding add_chunk
add_chunk-address_old start p b below =
    add_blocks-address_old p.blocks_per_pool (length p.memory_blocks * p.blocks_per_pool) 0 start _
      b (omega (arith, below))
