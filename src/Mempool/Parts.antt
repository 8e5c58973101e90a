-- ===== src/Mempool/Parts.antt =====
-- The blocks of the pool of src/mempool.c that are held, and those that are free.
use nx_lite.Base.{
  ℕ, ◌*◌, ◌<◌, ◌≡◌, sym, subst, ◌∙◌, ap, ◌≢◌, List, [], ◌∷◌, ◌++◌, map, length, All, arith,
}
use nx_lite.Mempool.{Pool, AllocResult, allocated, find_block}
use nx_lite.Mempool.Flush.{Distinct}
use nx_lite.Mempool.Stack.{FreeStack, SameBlocks, Pops}
use nx_lite.Mempool.Layout.{IsLaidOut, find_block-Same}

pub All-middle {ℓ κ} :
    {A : Type ℓ} (P : A → Type κ) (xs ys : List A) (b : A)
    → All P (xs ++ b ∷ ys)
    → P b × All P (xs ++ ys)
All-middle P [] ys b h = h
All-middle P (x ∷ xs) ys b (p, h) = let (pb, rest) = All-middle P xs ys b h in (pb, (p, rest))

pub All-insert {ℓ κ} :
    {A : Type ℓ} (P : A → Type κ) (xs ys : List A) (b : A)
    → P b
    → All P (xs ++ ys)
    → All P (xs ++ b ∷ ys)
All-insert P [] ys b pb h = (pb, h)
All-insert P (x ∷ xs) ys b pb (p, h) = (p, All-insert P xs ys b pb h)

pub Distinct-middle :
    (xs ys : List ℕ) (b : ℕ)
    → Distinct (xs ++ b ∷ ys)
    → All (λ c. b ≢ c) (xs ++ ys) × Distinct (xs ++ ys)
unfolding Distinct
Distinct-middle [] ys b d = d
Distinct-middle (x ∷ xs) ys b (n, d) =
    let (nx, others) = All-middle (λ c. x ≢ c) xs ys b n in
    let (nb, d') = Distinct-middle xs ys b d in (((λ e. nx (sym e)), nb), (others, d'))

pub Distinct-insert :
    (xs ys : List ℕ) (b : ℕ)
    → All (λ c. b ≢ c) (xs ++ ys)
    → Distinct (xs ++ ys)
    → Distinct (xs ++ b ∷ ys)
unfolding Distinct
Distinct-insert [] ys b n d = (n, d)
Distinct-insert (x ∷ xs) ys b (nx, n) (others, d) =
    (All-insert (λ c. x ≢ c) xs ys b (λ e. nx (sym e)) others, Distinct-insert xs ys b n d)

abbrev pub total : Pool → ℕ
total p = length p.memory_blocks * p.blocks_per_pool

-- The blocks that are held, by their addresses, and the free ones: each block at most once.
pub record Parts (p : Pool) (held owned free : List ℕ) : Type 0 where
  pub stack : FreeStack p free
  pub addresses : held ≡ map p.address owned
  pub distinct : Distinct (owned ++ free)
  pub low : All (λ b. b < total p) (owned ++ free)
  pub laid : IsLaidOut p

pub record IsOwned (p : Pool) (held : List ℕ) : Type 0 where
  pub owned : List ℕ
  pub free : List ℕ
  pub parts : Parts p held owned free

pub SameBlocks-total : (p q : Pool) → SameBlocks p q → total q ≡ total p
SameBlocks-total p q s =
    ap (λ xs. length xs * q.blocks_per_pool) s.memory_blocks
    ∙ ap (λ k. length p.memory_blocks * k) s.blocks_per_pool

pub SameBlocks-IsLaidOut : (p q : Pool) → SameBlocks p q → IsLaidOut p → IsLaidOut q
SameBlocks-IsLaidOut p q s v = record {
  size = omega (arith, s.block_size, v.size);
  per = omega (arith, s.blocks_per_pool, v.per);
  found = λ b below.
      find_block-Same p q 0 q.memory_blocks (q.address b) s.block_size s.blocks_per_pool
      ∙ ap (λ xs. find_block p 0 xs (q.address b)) s.memory_blocks
      ∙ ap (λ f. find_block p 0 p.memory_blocks (f b)) s.address
      ∙ v.found b (subst (λ n. b < n) (SameBlocks-total p q s) below);
}

-- An allocation that takes the first free block hands it over.
pub Pops-IsOwned :
    (p q : Pool) (held owned free : List ℕ) (b a : ℕ) (r : AllocResult)
    → Parts p held owned (b ∷ free)
    → Pops p b free r
    → r ≡ allocated a q
    → IsOwned q (a ∷ held)
Pops-IsOwned p q held owned free b a r v (q', popped, stack, same) e =
    let (new, distinct) = Distinct-middle owned free b v.distinct in
    let both : allocated (p.address b) q' ≡ allocated a q = sym popped ∙ e in
    let at : p.address b ≡ a = cc in
    let pool : q' ≡ q = cc in
    subst (λ x. IsOwned x (a ∷ held)) pool
      (record {
        owned = b ∷ owned;
        free = free;
        parts = record {
          stack = stack;
          addresses =
              ap (λ x. x ∷ held) (sym at)
              ∙ ap (λ xs. p.address b ∷ xs) v.addresses
              ∙ ap (λ f. map f (b ∷ owned)) (sym same.address);
          distinct = unfold Distinct in (new, distinct);
          low =
              subst (λ n. All (λ c. c < n) (b ∷ owned ++ free)) (sym (SameBlocks-total p q' same))
                (All-middle (λ c. c < total p) owned free b v.low);
          laid = SameBlocks-IsLaidOut p q' same v.laid;
        };
      })
