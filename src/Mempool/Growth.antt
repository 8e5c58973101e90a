-- ===== src/Mempool/Growth.antt =====
-- The headers that a new chunk of src/mempool.c puts on the shared list, and their addresses.
use nx_lite.Base.{
  ℕ, zero, suc, ◌+◌, ◌*◌, ◌<◌, ◌≡◌, refl, sym, subst, ◌∙◌, ◌≢◌, some, List, [], ◌∷◌, All, arith,
  ==_iff,
}
use nx_lite.Mempool.{Pool, update, add_blocks}
use nx_lite.Mempool.Flush.{Chain, Distinct, Chain-update, update_self}

-- The headers of a chunk in front of a list: the last one first.
abbrev pub fresh_blocks : ℕ → ℕ → List ℕ → List ℕ
fresh_blocks zero k bs = bs
fresh_blocks (suc n) k bs = fresh_blocks n (k + 1) (k ∷ bs)

All-lt-ne : (k : ℕ) (bs : List ℕ) → All (λ c. c < k) bs → All (λ c. k ≢ c) bs
All-lt-ne k [] h = tt
All-lt-ne k (b ∷ bs) (lt, h) = ((λ e. omega (arith, e, lt)), All-lt-ne k bs h)

All-lt-suc : (k : ℕ) (bs : List ℕ) → All (λ c. c < k) bs → All (λ c. c < k + 1) bs
All-lt-suc k [] h = tt
All-lt-suc k (b ∷ bs) (lt, h) = (omega (arith, lt), All-lt-suc k bs h)

pub fresh_blocks-Distinct :
    (n k : ℕ) (bs : List ℕ)
    → All (λ c. c < k) bs
    → Distinct bs
    → Distinct (fresh_blocks n k bs) × All (λ c. c < k + n) (fresh_blocks n k bs)
unfolding Distinct
fresh_blocks-Distinct zero k bs low d = (d, subst (λ m. All (λ c. c < m) bs) (omega arith) low)
fresh_blocks-Distinct (suc n) k bs low d =
    let (d', low') =
      fresh_blocks-Distinct n (k + 1) (k ∷ bs) (omega arith, All-lt-suc k bs low)
        (All-lt-ne k bs low, d) in
    (d', subst (λ m. All (λ c. c < m) (fresh_blocks n (k + 1) (k ∷ bs))) (omega arith) low')

pub add_blocks-Chain :
    (n first i start : ℕ) (p : Pool) (bs : List ℕ)
    → All (λ c. c < first + i) bs
    → Chain p.next p.free_list bs
    → Chain
        (add_blocks n first i start p).next
        (add_blocks n first i start p).free_list
        (fresh_blocks n (first + i) bs)
unfolding add_blocks Chain
add_blocks-Chain zero first i start p bs low h = h
add_blocks-Chain (suc n) first i start p bs low h =
    let q : Pool = record p {
      next = update p.next (first + i) p.free_list;
      address = update p.address (first + i) (start + i * p.block_size);
      free_list = some (first + i);
    } in
    let next_one : first + (i + 1) ≡ first + i + 1 = omega arith in
    let longer : Chain q.next q.free_list ((first + i) ∷ bs) = (
      refl,
      subst (λ x. Chain q.next x bs) (sym (update_self p.next (first + i) p.free_list))
          (Chain-update p.next p.free_list (first + i) p.free_list bs (All-lt-ne (first + i) bs low)
            h),
    ) in
    subst
      (λ k.
        Chain (add_blocks n first (i + 1) start q).next
          (add_blocks n first (i + 1) start q).free_list (fresh_blocks n k ((first + i) ∷ bs)))
      next_one
      (add_blocks-Chain n first (i + 1) start q ((first + i) ∷ bs)
        (
          omega arith,
          subst (λ k. All (λ c. c < k) bs) (sym next_one) (All-lt-suc (first + i) bs low),
        )
        longer)

address_self : (f : ℕ → ℕ) (b v : ℕ) → update f b v b ≡ v
address_self f b v = rw ((==_iff b b).1 refl) refl

-- The addresses of the blocks before a new chunk, and of those in it.
pub add_blocks-address_old :
    (n first i start : ℕ) (p : Pool) (b : ℕ)
    → b < first + i
    → (add_blocks n first i start p).address b ≡ p.address b
unfolding add_blocks
add_blocks-address_old zero first i start p b h = refl
add_blocks-address_old (suc n) first i start p b h =
    let ne : first + i ≢ b = λ e. omega (arith, e, h) in
    add_blocks-address_old n first (i + 1) start _ b (omega (arith, h)) ∙ ground (arith, ne)

pub add_blocks-address_new :
    (n first i start : ℕ) (p : Pool) (j : ℕ)
    → j < n
    → (add_blocks n first i start p).address (first + (i + j)) ≡ start + (i + j) * p.block_size
unfolding add_blocks
add_blocks-address_new zero first i start p j h = absurd (omega (arith, h))
add_blocks-address_new (suc n) first i start p zero h =
    let here : i + 0 ≡ i = omega arith in
    rw here (
      add_blocks-address_old n first (i + 1) start _ (first + i) (omega arith)
      ∙ address_self p.address (first + i) (start + i * p.block_size))
add_blocks-address_new (suc n) first i start p (suc j) h =
    let later : i + suc j ≡ i + 1 + j = omega arith in
    rw later (add_blocks-address_new n first (i + 1) start _ j (omega (arith, h)))

-- All else that a new chunk leaves.
pub record Grown (p q : Pool) : Type 0 where
  pub memory_blocks : q.memory_blocks ≡ p.memory_blocks
  pub block_size : q.block_size ≡ p.block_size
  pub blocks_per_pool : q.blocks_per_pool ≡ p.blocks_per_pool
  pub local_free_list : q.local_free_list ≡ p.local_free_list
  pub local_free_count : q.local_free_count ≡ p.local_free_count

pub add_blocks-Grown : (n first i start : ℕ) (p : Pool) → Grown p (add_blocks n first i start p)
unfolding add_blocks
add_blocks-Grown zero first i start p = record {
  memory_blocks = refl;
  block_size = refl;
  blocks_per_pool = refl;
  local_free_list = refl;
  local_free_count = refl;
}
add_blocks-Grown (suc n) first i start p =
    let rest = add_blocks-Grown n first (i + 1) start _ in
    record {
      memory_blocks = rest.memory_blocks;
      block_size = rest.block_size;
      blocks_per_pool = rest.blocks_per_pool;
      local_free_list = rest.local_free_list;
      local_free_count = rest.local_free_count;
    }
