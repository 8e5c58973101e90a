-- ===== src/Mempool/Stack.antt =====
-- mempool_alloc and mempool_free of src/mempool.c over the stack of free blocks.
use nx_lite.Base.{
  ℕ, suc, ◌+◌, ◌-◌, ◌%◌, ◌^◌, ◌≡◌, refl, sym, subst, ◌∙◌, ap, ◌≢◌, true, false, none, some, List,
  [], ◌∷◌, ◌++◌, take, drop, length, All, arith, leb, if◌then◌else◌,
}
use nx_lite.Mempool.{
  Pool, Memory, AllocResult, allocated, update, take_batch, pop_local, refill_and_pop,
  mempool_alloc, find_block, push_local, mempool_free, flush_local_cache,
}
use nx_lite.Mempool.Flush.{
  Chain, Distinct, last_of, Chain-update, update_self, flush_local_cache-Chain,
  flush_local_cache-last_of,
}
use nx_lite.Mempool.Chains.{
  All-split, Distinct-split, Distinct-last_of, take-drop, walk-Chain, Chain-cut,
}

-- The free blocks, first those of the thread's list and then those of the shared one: the next block to
-- be given out is the first.
pub record FreeStack (p : Pool) (free : List ℕ) : Type 0 where
  pub local : List ℕ
  pub shared : List ℕ
  pub parts : local ++ shared ≡ free
  pub local_chain : Chain p.next p.local_free_list local
  pub shared_chain : Chain p.next p.free_list shared
  pub count : p.local_free_count ≡ length local
  pub distinct : Distinct (local ++ shared)

-- What allocations and frees leave as it is.
pub record SameBlocks (p q : Pool) : Type 0 where
  pub address : q.address ≡ p.address
  pub memory_blocks : q.memory_blocks ≡ p.memory_blocks
  pub block_size : q.block_size ≡ p.block_size
  pub blocks_per_pool : q.blocks_per_pool ≡ p.blocks_per_pool

pub SameBlocks-trans : {p q r : Pool} → SameBlocks p q → SameBlocks q r → SameBlocks p r
SameBlocks-trans a b = record {
  address = b.address ∙ a.address;
  memory_blocks = b.memory_blocks ∙ a.memory_blocks;
  block_size = b.block_size ∙ a.block_size;
  blocks_per_pool = b.blocks_per_pool ∙ a.blocks_per_pool;
}

-- An allocation that took the first block.
abbrev pub Pops : Pool → ℕ → List ℕ → AllocResult → Type 0
Pops p b free r = (q : Pool) × (r ≡ allocated (p.address b) q) × FreeStack q free × SameBlocks p q

Pops-SameBlocks :
    (p q : Pool) (b : ℕ) (free : List ℕ) (r : AllocResult)
    → SameBlocks p q
    → Pops q b free r
    → Pops p b free r
Pops-SameBlocks p q b free r same (q', e, stack, later) =
    (q', e ∙ ap (λ f. allocated (f b) q') same.address, stack, SameBlocks-trans same later)

pop_local-Pops :
    (p : Pool) (b : ℕ) (local shared : List ℕ)
    → Chain p.next p.local_free_list (b ∷ local)
    → Chain p.next p.free_list shared
    → p.local_free_count ≡ suc (length local)
    → Distinct ((b ∷ local) ++ shared)
    → Pops p b (local ++ shared) (pop_local p)
unfolding Chain Distinct pop_local
pop_local-Pops p b local shared (e, l) s count (n, d) = (
  record p {
    local_free_list = p.next b;
    local_free_count = p.local_free_count - 1;
    used_blocks = (p.used_blocks + 1) % 2 ^ 64;
  },
  simp (pop_local, e) refl,
  record {
    local = local;
    shared = shared;
    parts = refl;
    local_chain = l;
    shared_chain = s;
    count = omega (arith, count);
    distinct = d;
  },
  record { address = refl; memory_blocks = refl; block_size = refl; blocks_per_pool = refl },
)

pub refill_and_pop-Pops :
    (p : Pool) (b : ℕ) (shared : List ℕ)
    → Chain p.next p.free_list (b ∷ shared)
    → Distinct (b ∷ shared)
    → Pops p b shared (refill_and_pop p)
unfolding Chain refill_and_pop
refill_and_pop-Pops p b shared (e, s) d =
    let batch = take 63 shared in
    let rest = drop 63 shared in
    let (at_last, count, behind) = walk-Chain 63 shared p.next b 1 s in
    let last = last_of b batch in
    let whole : (b ∷ batch) ++ rest ≡ b ∷ shared = ap (◌∷◌ b) (take-drop 63 shared) in
    let d' : Distinct ((b ∷ batch) ++ rest) = subst Distinct (sym whole) d in
    let q : Pool = record p {
      free_list = p.next last;
      next = update p.next last none;
      local_free_list = some b;
      local_free_count = 1 + length batch;
    } in
    let cut : take_batch b p ≡ q = unfold take_batch in rw (at_last, count) refl in
    let filled : refill_and_pop p ≡ pop_local q =
      simp (refill_and_pop, e) refl ∙ ap pop_local cut in
    let popped : Pops q b (batch ++ rest) (pop_local q) =
      pop_local-Pops q b batch rest
        (
          refl,
          Chain-cut p.next b batch rest (Distinct-split (b ∷ batch) rest d').0
              (subst (Chain p.next (p.next b)) (sym (take-drop 63 shared)) s),
        )
        (Chain-update p.next (p.next last) last none rest (Distinct-last_of b batch rest d') behind)
        (omega arith) d' in
    subst (Pops p b shared) (sym filled) (
      Pops-SameBlocks p q b shared (pop_local q)
        (record { address = refl; memory_blocks = refl; block_size = refl; blocks_per_pool = refl })
        (subst (λ bs. Pops q b bs (pop_local q)) (take-drop 63 shared) popped))

mempool_alloc-parts :
    (m : Memory) (p : Pool) (b : ℕ) (free local shared : List ℕ)
    → local ++ shared ≡ b ∷ free
    → Chain p.next p.local_free_list local
    → Chain p.next p.free_list shared
    → p.local_free_count ≡ length local
    → Distinct (local ++ shared)
    → Pops p b free (mempool_alloc m p)
unfolding Chain mempool_alloc
mempool_alloc-parts m p b free [] [] parts l s count d = absurd (ground (arith, parts))
mempool_alloc-parts m p b free [] (c ∷ shared) parts l s count d =
    let first : c ≡ b = cc in
    let others : shared ≡ free = cc in
    let filled : mempool_alloc m p ≡ refill_and_pop p = simp (mempool_alloc, l, s.0) refl in
    subst (Pops p b free) (sym filled) (
      subst (λ x. Pops p x free (refill_and_pop p)) first
        (subst (λ bs. Pops p c bs (refill_and_pop p)) others (refill_and_pop-Pops p c shared s d)))
mempool_alloc-parts m p b free (c ∷ local) shared parts l s count d =
    let first : c ≡ b = cc in
    let others : local ++ shared ≡ free = cc in
    let popped : mempool_alloc m p ≡ pop_local p = simp (mempool_alloc, l.0) refl in
    subst (Pops p b free) (sym popped) (
      subst (λ x. Pops p x free (pop_local p)) first
        (subst (λ bs. Pops p c bs (pop_local p)) others
          (pop_local-Pops p c local shared l s count d)))

-- An allocation takes the first free block, wherever it is, and leaves the others in their order.
pub mempool_alloc-Pops :
    (m : Memory) (p : Pool) (b : ℕ) (free : List ℕ)
    → FreeStack p (b ∷ free)
    → Pops p b free (mempool_alloc m p)
mempool_alloc-Pops m p b free v =
    mempool_alloc-parts m p b free v.local v.shared v.parts v.local_chain v.shared_chain v.count
      v.distinct

flush_local_cache-parts :
    (p : Pool) (local shared : List ℕ)
    → Chain p.next p.local_free_list local
    → Chain p.next p.free_list shared
    → p.local_free_count ≡ length local
    → Distinct (local ++ shared)
    → FreeStack (flush_local_cache p) (local ++ shared) × SameBlocks p (flush_local_cache p)
unfolding Chain
flush_local_cache-parts p [] shared l s count d =
    let same : flush_local_cache p ≡ p = unfold flush_local_cache in rw l refl in
    subst (λ q. FreeStack q shared × SameBlocks p q) (sym same)
      (
        record {
          local = [];
          shared = shared;
          parts = refl;
          local_chain = l;
          shared_chain = s;
          count = count;
          distinct = d;
        },
        record { address = refl; memory_blocks = refl; block_size = refl; blocks_per_pool = refl },
      )
flush_local_cache-parts p (b ∷ local) shared l s count d =
    let (chain, empty, zero_count) =
      flush_local_cache-Chain p b local shared l s count (Distinct-split (b ∷ local) shared d).0
        (Distinct-last_of b local shared d) in
    let flushed = flush_local_cache-last_of p b local l.0 l.1 count in
    (
      record {
        local = [];
        shared = (b ∷ local) ++ shared;
        parts = refl;
        local_chain = empty;
        shared_chain = chain;
        count = zero_count;
        distinct = d;
      },
      subst (SameBlocks p) (sym flushed) (record {
        address = refl;
        memory_blocks = refl;
        block_size = refl;
        blocks_per_pool = refl;
      }),
    )

-- Flushing changes nothing about the stack.
flush_local_cache-FreeStack :
    (p : Pool) (free : List ℕ)
    → FreeStack p free
    → FreeStack (flush_local_cache p) free × SameBlocks p (flush_local_cache p)
flush_local_cache-FreeStack p free v =
    subst (λ bs. FreeStack (flush_local_cache p) bs × SameBlocks p (flush_local_cache p)) v.parts
      (flush_local_cache-parts p v.local v.shared v.local_chain v.shared_chain v.count v.distinct)

push_local-FreeStack :
    (p : Pool) (b : ℕ) (free : List ℕ)
    → All (λ c. b ≢ c) free
    → FreeStack p free
    → FreeStack (push_local b p) (b ∷ free)
unfolding push_local Chain Distinct
push_local-FreeStack p b free new v =
    let apart = subst (All (λ c. b ≢ c)) (sym v.parts) new in
    let (not_local, not_shared) = All-split (λ c. b ≢ c) v.local v.shared apart in
    record {
      local = b ∷ v.local;
      shared = v.shared;
      parts = ap (◌∷◌ b) v.parts;
      local_chain = (
        refl,
        subst (λ x. Chain (update p.next b p.local_free_list) x v.local)
            (sym (update_self p.next b p.local_free_list))
            (Chain-update p.next p.local_free_list b p.local_free_list v.local not_local
              v.local_chain),
      );
      shared_chain =
          Chain-update p.next p.free_list b p.local_free_list v.shared not_shared v.shared_chain;
      count = omega (arith, v.count);
      distinct = (apart, v.distinct);
    }

-- A free puts the block in front of the stack, whether or not the thread's list is flushed.
pub mempool_free-pushes :
    (p : Pool) (pointer b : ℕ) (free : List ℕ)
    → find_block p 0 p.memory_blocks pointer ≡ some b
    → All (λ c. b ≢ c) free
    → FreeStack p free
    → FreeStack (mempool_free (some pointer) p) (b ∷ free)
      × SameBlocks p (mempool_free (some pointer) p)
unfolding mempool_free
mempool_free-pushes p pointer b free found new v =
    let q = push_local b p in
    let freed : mempool_free (some pointer) p
        ≡ (if leb 128 q.local_free_count then flush_local_cache q else q) =
      simp (mempool_free, found) refl in
    let pushed = push_local-FreeStack p b free new v in
    let same : SameBlocks p q =
      unfold push_local in
      record { address = refl; memory_blocks = refl; block_size = refl; blocks_per_pool = refl } in
    subst (λ r. FreeStack r (b ∷ free) × SameBlocks p r) (sym freed)
      (elim (leb 128 q.local_free_count)
        as (λ t.
          FreeStack (if t then flush_local_cache q else q) (b ∷ free)
          × SameBlocks p (if t then flush_local_cache q else q)) [
            | true ↦
                let (stack, flushed) = flush_local_cache-FreeStack q (b ∷ free) pushed in
                (stack, SameBlocks-trans same flushed)
            | false ↦ (pushed, same)
          ])
