-- ===== src/Mempool.antt =====
-- src/mempool.c and include/mempool.h: the pool of fixed-size buffers, with the thread's free list.
-- A worker process has one thread that uses one pool, so the mutex, the atomics and the prefetch
-- hints are left out. A block header is named by its number: header i of chunk c is c * n + i for
-- n blocks to a chunk. The fields `next` and `data` of all headers are two maps of the state.
pub mod Cleanup
pub mod Flush
pub mod Free
pub mod Chains
pub mod Stack
pub mod Growth
pub mod Layout
pub mod Parts
pub mod Allocating
pub mod Ownership
pub mod Reorder
mod Tests
use nx_lite.Base.{
  ℕ, zero, suc, ◌+◌, ◌-◌, ◌*◌, ◌/◌, ◌%◌, ◌^◌, Bool, true, false, not, ◌&&◌, ◌||◌, Option, none,
  some, List, [], ◌∷◌, ◌++◌, ltb, leb, ◌==◌, if◌then◌else◌, length,
}

abbrev pub local_batch_size : ℕ
local_batch_size = 64

abbrev pub cache_line_size : ℕ
cache_line_size = 64

-- The size that allocate_memory asks for: rounded up to whole pages.
unfoldable pub aligned_size : ℕ → ℕ → ℕ
aligned_size page_size size = (size + page_size - 1) / page_size * page_size

-- Where memory comes from, and how it is given back.
pub data Source : Type 0 where
  heap mapped : Source

-- posix_memalign below 4096 bytes, mmap from there on; and free_memory takes the same test.
unfoldable pub allocate_memory_source : ℕ → ℕ → Source
unfolding aligned_size
allocate_memory_source page_size size =
    if ltb (aligned_size page_size size) 4096 then heap else mapped

-- A chunk: the start of its data. (Its headers are the numbers from n times its index.)
pub record Pool : Type 0 where
  pub block_size : ℕ
  pub blocks_per_pool : ℕ
  pub free_list : Option ℕ
  pub memory_blocks : List ℕ
  pub total_blocks : ℕ
  pub used_blocks : ℕ
  -- local_free_list and local_free_count of the thread
  pub local_free_list : Option ℕ
  pub local_free_count : ℕ
  -- the headers
  pub next : ℕ → Option ℕ
  pub address : ℕ → ℕ

abbrev pub update {ℓ} : {A : Type ℓ} → (ℕ → A) → ℕ → A → ℕ → A
update f p v q = if p == q then v else f q

-- What the system answers when the pool asks for memory: the start of the blocks, whether there is
-- memory for their headers, and whether the array of chunks could be made or grown.
pub record Memory : Type 0 where
  pub blocks : Option ℕ
  pub headers : Bool
  pub array : Bool

-- for (i = 0; i < n; i++) from header number `first + i`: the block goes to the front of the list.
unfoldable pub add_blocks : ℕ → ℕ → ℕ → ℕ → Pool → Pool
add_blocks zero first i start p = p
add_blocks (suc n) first i start p = add_blocks n first (i + 1) start (record p {
  next = update p.next (first + i) p.free_list;
  address = update p.address (first + i) (start + i * p.block_size);
  free_list = some (first + i);
})

-- A new chunk at `start`, whose headers follow those of the chunks before it.
unfoldable pub add_chunk : ℕ → Pool → Pool
unfolding add_blocks
add_chunk start p =
    let q =
      add_blocks p.blocks_per_pool (length p.memory_blocks * p.blocks_per_pool) 0 start
        (record p { memory_blocks = p.memory_blocks ++ start ∷ [] }) in
    record q { total_blocks = q.total_blocks + q.blocks_per_pool }

-- The thread's list as an earlier pool of the same thread left it.
pub record Thread : Type 0 where
  pub list : Option ℕ
  pub count : ℕ
  pub next : ℕ → Option ℕ
  pub address : ℕ → ℕ

unfoldable pub empty_pool : Thread → ℕ → ℕ → Pool
empty_pool t block_size blocks_per_pool = record {
  block_size = (block_size + cache_line_size - 1) / cache_line_size * cache_line_size;
  blocks_per_pool = blocks_per_pool;
  free_list = none;
  memory_blocks = [];
  total_blocks = 0;
  used_blocks = 0;
  local_free_list = t.list;
  local_free_count = t.count;
  next = t.next;
  address = t.address;
}

-- The return value -1 is none. `mutex` says whether the mutex could be made.
unfoldable pub mempool_init : Thread → Bool → Memory → ℕ → ℕ → Option Pool
unfolding empty_pool add_chunk
mempool_init t mutex m block_size blocks_per_pool =
    if block_size == 0 || blocks_per_pool == 0
    then none
    else if not mutex
    then none
    else elim m.blocks [
      | none ↦ none
      | some start ↦
          if not m.headers
          then none
          else if not m.array
          then none
          else some (add_chunk start (empty_pool t block_size blocks_per_pool))
    ]

-- while (count < bound && last->next) { last = last->next; count++; } with bound - count rounds.
unfoldable pub walk : ℕ → (ℕ → Option ℕ) → ℕ → ℕ → ℕ × ℕ
walk zero next last count = (last, count)
walk (suc rounds) next last count = elim (next last) [
  | none ↦ (last, count)
  | some following ↦ walk rounds next following (count + 1)
]

-- The whole local list goes to the front of the shared one.
unfoldable pub flush_local_cache : Pool → Pool
unfolding walk
flush_local_cache p = elim p.local_free_list [
  | none ↦ p
  | some first ↦
      let last = (walk (p.local_free_count - 1) p.next first 1).0 in
      record p {
        next = update p.next last p.free_list;
        free_list = some first;
        local_free_list = none;
        local_free_count = 0;
      }
]

-- Up to 64 blocks from the front of the shared list, which has `first` in front.
unfoldable pub take_batch : ℕ → Pool → Pool
unfolding walk
take_batch first p =
    let r = walk (local_batch_size - 1) p.next first 1 in
    record p {
      free_list = p.next r.0;
      next = update p.next r.0 none;
      local_free_list = some first;
      local_free_count = r.1;
    }

-- The growth of an empty pool; none is the return value -1.
unfoldable pub grow : Memory → Pool → Option Pool
unfolding add_chunk
grow m p = elim m.blocks [
  | none ↦ none
  | some start ↦
      if not m.headers then none else if not m.array then none else some (add_chunk start p)
]

-- An address and the pool, a failure that leaves the pool as it was, or a read through a null
-- pointer.
pub data AllocResult : Type 0 where
  allocated : ℕ → Pool → AllocResult
  failed crashed : AllocResult

-- used_blocks is a size_t.
unfoldable pub pop_local : Pool → AllocResult
pop_local p = elim p.local_free_list [
  | none ↦ failed
  | some block ↦ allocated (p.address block) (record p {
    local_free_list = p.next block;
    local_free_count = p.local_free_count - 1;
    used_blocks = (p.used_blocks + 1) % 2 ^ 64;
  })
]

unfoldable pub refill_and_pop : Pool → AllocResult
unfolding take_batch pop_local
refill_and_pop p = elim p.free_list [ none ↦ crashed | some first ↦ pop_local (take_batch first p) ]

unfoldable pub mempool_alloc : Memory → Pool → AllocResult
unfolding pop_local refill_and_pop grow
mempool_alloc m p = elim p.local_free_list [
  | some block ↦ pop_local p
  | none ↦ elim p.free_list [
    | some first ↦ refill_and_pop p
    | none ↦ elim (grow m p) [ none ↦ failed | some q ↦ refill_and_pop q ]
  ]
]

-- The number of the header of the block that holds the address, over the chunks from number c on.
unfoldable pub find_block : Pool → ℕ → List ℕ → ℕ → Option ℕ
find_block p c [] pointer = none
find_block p c (start ∷ chunks) pointer =
    if leb start pointer && ltb pointer (start + p.block_size * p.blocks_per_pool)
    then some (c * p.blocks_per_pool + (pointer - start) / p.block_size)
    else find_block p (c + 1) chunks pointer

unfoldable pub push_local : ℕ → Pool → Pool
push_local block p = record p {
  next = update p.next block p.local_free_list;
  local_free_list = some block;
  local_free_count = p.local_free_count + 1;
  used_blocks = (p.used_blocks + 2 ^ 64 - 1) % 2 ^ 64;
}

-- A null pointer is none.
unfoldable pub mempool_free : Option ℕ → Pool → Pool
unfolding push_local find_block flush_local_cache
mempool_free none p = p
mempool_free (some pointer) p = elim (find_block p 0 p.memory_blocks pointer) [
  | none ↦ p
  | some block ↦
      let q = push_local block p in
      if leb (local_batch_size * 2) q.local_free_count then flush_local_cache q else q
]

-- The call that gives a piece of memory back: free_memory picks the source by the size, and the
-- headers go to free.
pub data Release : Type 0 where
  free_memory : ℕ → ℕ → Release
  free_headers : ℕ → Release

unfoldable pub release_chunks : Pool → ℕ → List ℕ → List Release
release_chunks p c [] = []
release_chunks p c (start ∷ chunks) =
    free_memory start (p.block_size * p.blocks_per_pool)
    ∷ free_headers c
    ∷ release_chunks p (c + 1) chunks

unfoldable pub mempool_cleanup : Pool → Pool × List Release
unfolding flush_local_cache release_chunks
mempool_cleanup p =
    let q = flush_local_cache p in
    (
      record q { memory_blocks = []; free_list = none; total_blocks = 0; used_blocks = 0 },
      release_chunks q 0 q.memory_blocks,
    )
