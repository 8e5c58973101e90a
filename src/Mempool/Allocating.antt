-- ===== src/Mempool/Allocating.antt =====
-- mempool_alloc of src/mempool.c over the blocks that are held and those that are free.
use nx_lite.Base.{
  ℕ, zero, suc, ◌+◌, ◌-◌, ◌<◌, ◌≤◌, ◌≡◌, refl, sym, subst, ◌∙◌, ap, ◌≢◌, ◌⊎◌, inl, inr, Option,
  none, some, List, [], ◌∷◌, ◌++◌, map, length, All, All-append, arith, append-nil, Option-cases,
  Bool-cases,
}
use nx_lite.Mempool.{
  Pool, Memory, AllocResult, allocated, failed, crashed, add_chunk, grow, refill_and_pop,
  mempool_alloc,
}
use nx_lite.Mempool.Flush.{Chain, Distinct}
use nx_lite.Mempool.Stack.{Pops, refill_and_pop-Pops, mempool_alloc-Pops}
use nx_lite.Mempool.Growth.{fresh_blocks, fresh_blocks-Distinct}
use nx_lite.Mempool.Layout.{
  IsApart, add_chunk-IsLaidOut, add_chunk-Chain, add_chunk-Grown, add_chunk-total,
  add_chunk-address_old, suc_mul,
}
use nx_lite.Mempool.Parts.{Parts, IsOwned, total, Pops-IsOwned}

-- What the system gives to the pool, if anything, shares no byte with what it gave before.
abbrev pub Fits : Pool → Option ℕ → Type 0
Fits p none = Unit
Fits p (some start) = IsApart p start

fresh_blocks-cons :
    (n k : ℕ) (bs : List ℕ) → fresh_blocks (suc n) k bs ≡ (k + n) ∷ fresh_blocks n k bs
fresh_blocks-cons zero k bs = ap (λ x. x ∷ bs) (omega arith)
fresh_blocks-cons (suc n) k bs =
    fresh_blocks-cons n (k + 1) (k ∷ bs)
    ∙ ap (λ x. x ∷ fresh_blocks n (k + 1) (k ∷ bs)) (omega arith)

fresh_blocks-ge :
    (n k m : ℕ) (bs : List ℕ) → m ≤ k → All (λ c. m ≤ c) bs → All (λ c. m ≤ c) (fresh_blocks n k bs)
fresh_blocks-ge zero k m bs h all = all
fresh_blocks-ge (suc n) k m bs h all =
    fresh_blocks-ge n (k + 1) m (k ∷ bs) (omega (arith, h)) (h, all)

All-ge-ne : (x m : ℕ) (ys : List ℕ) → x < m → All (λ c. m ≤ c) ys → All (λ c. x ≢ c) ys
All-ge-ne x m [] h all = tt
All-ge-ne x m (y ∷ ys) h (ge, all) = ((λ e. omega (arith, e, h, ge)), All-ge-ne x m ys h all)

Distinct-append :
    (m : ℕ) (xs ys : List ℕ)
    → All (λ c. c < m) xs
    → All (λ c. m ≤ c) ys
    → Distinct xs
    → Distinct ys
    → Distinct (xs ++ ys)
unfolding Distinct
Distinct-append m [] ys low high d d' = d'
Distinct-append m (x ∷ xs) ys (lt, low) high (n, d) d' = (
  All-append (λ c. x ≢ c) xs ys n (All-ge-ne x m ys lt high),
  Distinct-append m xs ys low high d d',
)

All-lt-le : (m n : ℕ) (xs : List ℕ) → m ≤ n → All (λ c. c < m) xs → All (λ c. c < n) xs
All-lt-le m n [] h all = tt
All-lt-le m n (x ∷ xs) h (lt, all) = (omega (arith, h, lt), All-lt-le m n xs h all)

add_chunk-addresses :
    (start : ℕ) (p : Pool) (owned : List ℕ)
    → All (λ b. b < total p) owned
    → map p.address owned ≡ map (add_chunk start p).address owned
add_chunk-addresses start p [] low = refl
add_chunk-addresses start p (b ∷ owned) (lt, low) =
    ap (λ x. x ∷ map p.address owned) (sym (add_chunk-address_old start p b lt))
    ∙ ap (λ xs. (add_chunk start p).address b ∷ xs) (add_chunk-addresses start p owned low)

-- A pool without a free block, after it has grown.
pub add_chunk-Parts :
    (start : ℕ) (p : Pool) (held owned : List ℕ)
    → IsApart p start
    → p.local_free_list ≡ none
    → p.local_free_count ≡ 0
    → p.free_list ≡ none
    → Parts p held owned []
    → Parts (add_chunk start p) held owned (fresh_blocks p.blocks_per_pool (total p) [])
add_chunk-Parts start p held owned apart no_local zero_local no_shared v =
    let fresh = fresh_blocks p.blocks_per_pool (total p) [] in
    let (d, high) =
      fresh_blocks-Distinct p.blocks_per_pool (total p) [] tt (unfold Distinct in tt) in
    let (size, per, l, c) = add_chunk-Grown start p in
    let low = subst (All (λ b. b < total p)) (append-nil owned) v.low in
    let more : total p + p.blocks_per_pool ≡ total (add_chunk start p) =
      sym (add_chunk-total start p ∙ suc_mul (length p.memory_blocks) p.blocks_per_pool) in
    record {
      stack = record {
        local = [];
        shared = fresh;
        parts = refl;
        local_chain = unfold Chain in (l ∙ no_local);
        shared_chain = add_chunk-Chain start p no_shared;
        count = c ∙ zero_local;
        distinct = d;
      };
      addresses = v.addresses ∙ add_chunk-addresses start p owned low;
      distinct =
          Distinct-append (total p) owned fresh low
            (fresh_blocks-ge p.blocks_per_pool (total p) (total p) [] (omega arith) tt)
            (subst Distinct (append-nil owned) v.distinct) d;
      low =
          subst (λ n. All (λ b. b < n) (owned ++ fresh)) more
            (All-append (λ b. b < total p + p.blocks_per_pool) owned fresh
              (All-lt-le (total p) (total p + p.blocks_per_pool) owned (omega arith) low) high);
      laid = add_chunk-IsLaidOut start p v.laid.size v.laid.per apart v.laid.found;
    }

-- A stack without blocks.
FreeStack-nil :
    (p : Pool) (local shared : List ℕ)
    → local ++ shared ≡ []
    → Chain p.next p.local_free_list local
    → Chain p.next p.free_list shared
    → p.local_free_count ≡ length local
    → (p.local_free_list ≡ none) × (p.local_free_count ≡ 0) × (p.free_list ≡ none)
unfolding Chain
FreeStack-nil p [] [] e l s c = (l, c, s)
FreeStack-nil p [] (b ∷ shared) e l s c = absurd (ground (arith, e))
FreeStack-nil p (b ∷ local) shared e l s c = absurd (ground (arith, e))

-- What an allocation may give.
abbrev pub Allocates : List ℕ → AllocResult → Type 0
Allocates held (allocated a q) = IsOwned q (a ∷ held)
Allocates held failed = Unit
Allocates held crashed = ⊥

Pops-Allocates :
    (p : Pool) (held owned free : List ℕ) (b : ℕ) (r : AllocResult)
    → Parts p held owned (b ∷ free)
    → Pops p b free r
    → Allocates held r
Pops-Allocates p held owned free b (allocated a q) v pops =
    Pops-IsOwned p q held owned free b a (allocated a q) v pops refl
Pops-Allocates p held owned free b failed v (q, e, stack, same) = absurd (ground (arith, e))
Pops-Allocates p held owned free b crashed v (q, e, stack, same) = absurd (ground (arith, e))

refill_and_pop-Allocates :
    (p : Pool) (held owned : List ℕ) (k n : ℕ)
    → Chain p.next p.free_list (fresh_blocks (suc n) k [])
    → Distinct (fresh_blocks (suc n) k [])
    → Parts p held owned (fresh_blocks (suc n) k [])
    → Allocates held (refill_and_pop p)
refill_and_pop-Allocates p held owned k n chain distinct v =
    let first = fresh_blocks-cons n k [] in
    let rest = fresh_blocks n k [] in
    Pops-Allocates p held owned rest (k + n) (refill_and_pop p) (subst (Parts p held owned) first v)
      (refill_and_pop-Pops p (k + n) rest (subst (Chain p.next p.free_list) first chain)
        (subst Distinct first distinct))

-- The allocation from a pool that is empty.
mempool_alloc-empty :
    (m : Memory) (p : Pool)
    → p.local_free_list ≡ none
    → p.free_list ≡ none
    → (mempool_alloc m p ≡ failed)
      ⊎ ((start : ℕ) × (m.blocks ≡ some start)
          × (mempool_alloc m p ≡ refill_and_pop (add_chunk start p)))
unfolding mempool_alloc
mempool_alloc-empty m p no_local no_shared = elim (Option-cases m.blocks) [
  | inl e ↦ inl (simp (mempool_alloc, grow, no_local, no_shared, e) refl)
  | inr (start, e) ↦ elim (Bool-cases m.headers) [
    | inr f ↦ inl (simp (mempool_alloc, grow, no_local, no_shared, e, f) refl)
    | inl t ↦ elim (Bool-cases m.array) [
      | inr f ↦ inl (simp (mempool_alloc, grow, no_local, no_shared, e, t, f) refl)
      | inl t' ↦ inr (start, e, simp (mempool_alloc, grow, no_local, no_shared, e, t, t') refl)
    ]
  ]
]

mempool_alloc-Parts :
    (m : Memory) (p : Pool) (held owned free : List ℕ)
    → Fits p m.blocks
    → Parts p held owned free
    → Allocates held (mempool_alloc m p)
mempool_alloc-Parts m p held owned (b ∷ free) fits v =
    Pops-Allocates p held owned free b (mempool_alloc m p) v (mempool_alloc-Pops m p b free v.stack)
mempool_alloc-Parts m p held owned [] fits v =
    let (no_local, zero_local, no_shared) =
      FreeStack-nil p v.stack.local v.stack.shared v.stack.parts v.stack.local_chain
        v.stack.shared_chain v.stack.count in
    elim (mempool_alloc-empty m p no_local no_shared) [
      | inl e ↦ subst (Allocates held) (sym e) tt
      | inr (start, given, e) ↦
          let apart : IsApart p start = subst (Fits p) given fits in
          let n = p.blocks_per_pool - 1 in
          let per : p.blocks_per_pool ≡ suc n = omega (arith, v.laid.per) in
          let fresh : fresh_blocks p.blocks_per_pool (total p) []
              ≡ fresh_blocks (suc n) (total p) [] =
            ap (λ k. fresh_blocks k (total p) []) per in
          let q = add_chunk start p in
          subst (Allocates held) (sym e) (
            refill_and_pop-Allocates q held owned (total p) n
              (subst (Chain q.next q.free_list) fresh (add_chunk-Chain start p no_shared))
              (subst Distinct fresh
                (fresh_blocks-Distinct p.blocks_per_pool (total p) [] tt (unfold Distinct in tt)).0)
              (subst (Parts q held owned) fresh
                (add_chunk-Parts start p held owned apart no_local zero_local no_shared v)))
    ]

-- An allocation of an owned pool never reads through a null pointer; and if it gives an address, the
-- pool is owned with that address held, too.
pub mempool_alloc-Allocates :
    (m : Memory) (p : Pool) (held : List ℕ)
    → IsOwned p held
    → Fits p m.blocks
    → Allocates held (mempool_alloc m p)
mempool_alloc-Allocates m p held v fits = mempool_alloc-Parts m p held v.owned v.free fits v.parts
