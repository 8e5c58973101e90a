-- ===== src/Mempool/Ownership.antt =====
-- Who holds which block of the pool of src/mempool.c.
use nx_lite.Base.{
  ℕ, ◌<◌, ◌≡◌, refl, sym, subst, ◌∙◌, ap, ◌≢◌, inl, inr, none, some, List, [], ◌∷◌, ◌++◌, map, All,
  arith, append_assoc, Option-cases, Bool-cases, Bool, ◌||◌, ◌==◌,
}
use nx_lite.Mempool.{
  Pool, Memory, Thread, allocated, crashed, add_chunk, empty_pool, mempool_alloc, mempool_free,
  mempool_init, find_block,
}
use nx_lite.Mempool.Flush.{Chain, Distinct}
use nx_lite.Mempool.Chains.{All-split, Distinct-split}
use nx_lite.Mempool.Stack.{mempool_free-pushes}
use nx_lite.Mempool.Growth.{fresh_blocks}
use nx_lite.Mempool.Layout.{IsLaidOut}
use nx_lite.Mempool.Parts.{
  All-middle, Distinct-middle, Distinct-insert, All-insert, Parts, IsOwned, total, SameBlocks-total,
  SameBlocks-IsLaidOut,
}
use nx_lite.Mempool.Allocating.{add_chunk-Parts, Fits, Allocates, mempool_alloc-Allocates}

-- A held address among others, and the block that has it.
map-split :
    (f : ℕ → ℕ) (before after owned : List ℕ) (a : ℕ)
    → before ++ a ∷ after ≡ map f owned
    → (b : ℕ) × (os : List ℕ) × (os' : List ℕ) × (owned ≡ os ++ b ∷ os')
      × (f b ≡ a)
      × (before ++ after ≡ map f (os ++ os'))
map-split f [] after [] a e = absurd (ground (arith, e))
map-split f [] after (b ∷ os) a e =
    let first : f b ≡ a = cc in
    let others : after ≡ map f os = cc in (b, [], os, refl, first, others)
map-split f (x ∷ before) after [] a e = absurd (ground (arith, e))
map-split f (x ∷ before) after (o ∷ owned) a e =
    let first : x ≡ f o = cc in
    let others : before ++ a ∷ after ≡ map f owned = cc in
    let (b, os, os', split, at, rest) = map-split f before after owned a others in
    (
      b,
      o ∷ os,
      os',
      ap (◌∷◌ o) split,
      at,
      ap (λ y. y ∷ (before ++ after)) first ∙ ap (◌∷◌ (f o)) rest,
    )

-- A held address that is freed is free again, and the others are held.
pub mempool_free-IsOwned :
    (p : Pool) (before after : List ℕ) (a : ℕ)
    → IsOwned p (before ++ a ∷ after)
    → IsOwned (mempool_free (some a) p) (before ++ after)
mempool_free-IsOwned p before after a v =
    let w = v.parts in
    let (b, os, os', split, at, rest) = map-split p.address before after v.owned a w.addresses in
    let flat : v.owned ++ v.free ≡ os ++ b ∷ (os' ++ v.free) =
      ap (λ xs. xs ++ v.free) split ∙ append_assoc os (b ∷ os') v.free in
    let (new, distinct) = Distinct-middle os (os' ++ v.free) b (subst Distinct flat w.distinct) in
    let (below, low) =
      All-middle (λ c. c < total p) os (os' ++ v.free) b
        (subst (All (λ c. c < total p)) flat w.low) in
    let back : (os ++ os') ++ v.free ≡ os ++ (os' ++ v.free) = append_assoc os os' v.free in
    let new' = subst (All (λ c. b ≢ c)) (sym back) new in
    let found : find_block p 0 p.memory_blocks a ≡ some b =
      subst (λ x. find_block p 0 p.memory_blocks x ≡ some b) at (w.laid.found b below) in
    let (stack, same) =
      mempool_free-pushes p a b v.free found (All-split (λ c. b ≢ c) (os ++ os') v.free new').1
        w.stack in
    record {
      owned = os ++ os';
      free = b ∷ v.free;
      parts = record {
        stack = stack;
        addresses = rest ∙ ap (λ f. map f (os ++ os')) (sym same.address);
        distinct = Distinct-insert (os ++ os') v.free b new' (subst Distinct (sym back) distinct);
        low =
            subst (λ n. All (λ c. c < n) ((os ++ os') ++ b ∷ v.free))
              (sym (SameBlocks-total p (mempool_free (some a) p) same))
              (All-insert (λ c. c < total p) (os ++ os') v.free b below
                (subst (All (λ c. c < total p)) (sym back) low));
        laid = SameBlocks-IsLaidOut p (mempool_free (some a) p) same w.laid;
      };
    }

-- The pool and the addresses that its users hold: an allocation, where what the system gives fits, and
-- a free of an address that is held.
pub data PoolStep : Pool → List ℕ → Pool → List ℕ → Type 0 where
  takes :
      {p q : Pool} {held : List ℕ} (m : Memory) (a : ℕ)
      → Fits p m.blocks
      → mempool_alloc m p ≡ allocated a q
      → PoolStep p held q (a ∷ held)
  gives :
      {p : Pool} (before after : List ℕ) (a : ℕ)
      → PoolStep p (before ++ a ∷ after) (mempool_free (some a) p) (before ++ after)

pub data PoolSteps : Pool → List ℕ → Pool → List ℕ → Type 0 where
  begin : {p : Pool} {held : List ℕ} → PoolSteps p held p held
  then_step :
      {p q r : Pool} {held held' held'' : List ℕ}
      → PoolSteps p held q held'
      → PoolStep q held' r held''
      → PoolSteps p held r held''

PoolStep-IsOwned :
    {p q : Pool} {held held' : List ℕ} → PoolStep p held q held' → IsOwned p held → IsOwned q held'
PoolStep-IsOwned {p} {q} {held} (takes m a fits e) v =
    subst (Allocates held) e (mempool_alloc-Allocates m p held v fits)
PoolStep-IsOwned {p} (gives before after a) v = mempool_free-IsOwned p before after a v

PoolSteps-IsOwned :
    {p q : Pool} {held held' : List ℕ} → PoolSteps p held q held' → IsOwned p held → IsOwned q held'
PoolSteps-IsOwned begin v = v
PoolSteps-IsOwned (then_step before step) v = PoolStep-IsOwned step (PoolSteps-IsOwned before v)

-- Two blocks have two addresses.
address-apart :
    (p : Pool) (b : ℕ) (bs : List ℕ)
    → IsLaidOut p
    → b < total p
    → All (λ c. c < total p) bs
    → All (λ c. b ≢ c) bs
    → All (λ x. p.address b ≢ x) (map p.address bs)
address-apart p b [] v below low n = tt
address-apart p b (c ∷ bs) v below (lt, low) (ne, n) = (
  (λ e.
      let same : some b ≡ some c =
        sym (v.found b below) ∙ ap (find_block p 0 p.memory_blocks) e ∙ v.found c lt in
      ne cc),
  address-apart p b bs v below low n,
)

addresses-Distinct :
    (p : Pool) (bs : List ℕ)
    → IsLaidOut p
    → All (λ c. c < total p) bs
    → Distinct bs
    → Distinct (map p.address bs)
unfolding Distinct
addresses-Distinct p [] v low d = tt
addresses-Distinct p (b ∷ bs) v (below, low) (n, d) =
    (address-apart p b bs v below low n, addresses-Distinct p bs v low d)

pub IsOwned-Distinct : (p : Pool) (held : List ℕ) → IsOwned p held → Distinct held
IsOwned-Distinct p held v = subst Distinct (sym v.parts.addresses) (
    addresses-Distinct p v.owned v.parts.laid
      (All-split (λ c. c < total p) v.owned v.free v.parts.low).0
      (Distinct-split v.owned v.free v.parts.distinct).0)

-- With a pool in order, no allocation reads through a null pointer.
pub mempool_alloc-ne_crashed :
    (m : Memory) (p : Pool) (held : List ℕ)
    → IsOwned p held
    → Fits p m.blocks
    → mempool_alloc m p ≢ crashed
mempool_alloc-ne_crashed m p held v fits e =
    subst (Allocates held) e (mempool_alloc-Allocates m p held v fits)

-- A pool that was made has one chunk, of blocks that hold at least a byte.
pub mempool_init-cases :
    (t : Thread) (mutex : Bool) (m : Memory) (size n : ℕ) (p : Pool)
    → mempool_init t mutex m size n ≡ some p
    → (start : ℕ) × (m.blocks ≡ some start)
      × (p ≡ add_chunk start (empty_pool t size n))
      × (0 < size)
      × (0 < n)
unfolding mempool_init
mempool_init-cases t mutex m size n p e = elim (Bool-cases (size == 0 || n == 0)) [
  | inl no_size ↦ absurd (none-some (simp (mempool_init, no_size) refl))
  | inr sized ↦ elim (Bool-cases mutex) [
    | inr no_mutex ↦ absurd (none-some (simp (mempool_init, sized, no_mutex) refl))
    | inl has_mutex ↦ elim (Option-cases m.blocks) [
      | inl no_blocks ↦ absurd (none-some (simp (mempool_init, sized, has_mutex, no_blocks) refl))
      | inr (start, given) ↦ elim (Bool-cases m.headers) [
        | inr no_headers ↦
            absurd (none-some (simp (mempool_init, sized, has_mutex, given, no_headers) refl))
        | inl has_headers ↦ elim (Bool-cases m.array) [
          | inr no_array ↦
              absurd (
                none-some
                  (simp (mempool_init, sized, has_mutex, given, has_headers, no_array) refl))
          | inl has_array ↦
              let made : mempool_init t mutex m size n
                  ≡ some (add_chunk start (empty_pool t size n)) =
                simp (mempool_init, sized, has_mutex, given, has_headers, has_array) refl in
              (start, given, cc, ground (arith, sized), ground (arith, sized))
        ]
      ]
    ]
  ]
]
  where
    none-some : ¬ (mempool_init t mutex m size n ≡ none)
    none-some none_made = let clash : none ≡ some p = sym none_made ∙ e in ground (arith, clash)

-- A thread without blocks of an earlier pool.
abbrev pub IsFresh : Thread → Type 0
IsFresh t = (t.list ≡ none) × (t.count ≡ 0)

empty_pool-Parts :
    (t : Thread) (size n : ℕ) → IsFresh t → 0 < size → 0 < n → Parts (empty_pool t size n) [] [] []
unfolding empty_pool Chain Distinct
empty_pool-Parts t size n (list, count) pos per = record {
  stack = record {
    local = [];
    shared = [];
    parts = refl;
    local_chain = list;
    shared_chain = refl;
    count = count;
    distinct = tt;
  };
  addresses = refl;
  distinct = tt;
  low = tt;
  laid = record { size = omega arith; per = per; found = λ b below. absurd (omega (arith, below)) };
}

pub mempool_init-IsOwned :
    (t : Thread) (mutex : Bool) (m : Memory) (size n : ℕ) (p : Pool)
    → IsFresh t
    → mempool_init t mutex m size n ≡ some p
    → IsOwned p []
mempool_init-IsOwned t mutex m size n p f e =
    let (start, given, made, pos, per) = mempool_init-cases t mutex m size n p e in
    let empty = empty_pool-Parts t size n f pos per in
    subst (λ q. IsOwned q []) (sym made)
      (record {
        owned = [];
        free = fresh_blocks (empty_pool t size n).blocks_per_pool (total (empty_pool t size n)) [];
        parts =
            unfold empty_pool in
            add_chunk-Parts start (empty_pool t size n) [] [] tt f.0 f.1 refl empty;
      })

-- Through any allocations and frees of a pool that was made for a thread without blocks, where what the
-- system gives never overlaps and only what is held is freed, no two of the addresses that are held
-- are the same, and no allocation reads through a null pointer.
pub held_blocks-Distinct :
    (t : Thread) (mutex : Bool) (m m' : Memory) (size n : ℕ) (p q : Pool) (held : List ℕ)
    → IsFresh t
    → mempool_init t mutex m size n ≡ some p
    → PoolSteps p [] q held
    → Fits q m'.blocks
    → Distinct held × (mempool_alloc m' q ≢ crashed)
held_blocks-Distinct t mutex m m' size n p q held f made steps fits =
    let v = PoolSteps-IsOwned steps (mempool_init-IsOwned t mutex m size n p f made) in
    (IsOwned-Distinct q held v, mempool_alloc-ne_crashed m' q held v fits)
