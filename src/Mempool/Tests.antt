-- ===== src/Mempool/Tests.antt =====
-- A small pool, and the theorems on it.
use nx_lite.Base.{◌+◌, ◌*◌, ◌≡◌, refl, ◌≢◌, true, none, some, [], ◌∷◌, arith}
use nx_lite.Mempool.{
  Pool, Memory, Thread, allocated, empty_pool, add_chunk, mempool_alloc, find_block, update,
  AllocResult, failed, crashed, mempool_init, mempool_free,
}
use nx_lite.Mempool.Flush.{Chain, Distinct}
use nx_lite.Mempool.Stack.{Pops, mempool_alloc-Pops}
use nx_lite.Mempool.Ownership.{PoolSteps, begin, then_step, takes, gives, held_blocks-Distinct}

abbrev new_thread : Thread
new_thread = record { list = none; count = 0; next = λ i. none; address = λ i. 0 }

abbrev no_memory : Memory
no_memory = record { blocks = none; headers = true; array = true }

-- Three blocks of 128 bytes from address 4096 on.
abbrev small_pool : Pool
small_pool = add_chunk 4096 (empty_pool new_thread 100 3)

first_alloc : (q : Pool) × (mempool_alloc no_memory small_pool ≡ allocated (4096 + 2 * 128) q)
unfolding mempool_alloc add_chunk empty_pool
first_alloc = (_, refl)

small_pool-find_block : find_block small_pool 0 small_pool.memory_blocks 4300 ≡ some 1
unfolding find_block add_chunk empty_pool
small_pool-find_block = refl

-- Blocks 3 and 2 are on the thread's list, blocks 1 and 0 on the shared one.
abbrev shared_pool : Pool
shared_pool = record {
  block_size = 128;
  blocks_per_pool = 4;
  free_list = some 1;
  memory_blocks = 4096 ∷ [];
  total_blocks = 4;
  used_blocks = 0;
  local_free_list = some 3;
  local_free_count = 2;
  next = update (update (λ i. none) 3 (some 2)) 1 (some 0);
  address = λ i. 4096 + i * 128;
}

abbrev pool_of : AllocResult → Pool
pool_of (allocated a q) = q
pool_of failed = small_pool
pool_of crashed = small_pool

abbrev one_held : Pool
one_held = pool_of (mempool_alloc no_memory small_pool)

abbrev two_held : Pool
two_held = pool_of (mempool_alloc no_memory one_held)

small_pool-made :
    mempool_init new_thread true (record { blocks = some 4096; headers = true; array = true }) 100 3
    ≡ some small_pool
unfolding mempool_init
small_pool-made = refl

one_taken : mempool_alloc no_memory small_pool ≡ allocated 4352 one_held
unfolding mempool_alloc add_chunk empty_pool
one_taken = refl

two_taken : mempool_alloc no_memory one_held ≡ allocated 4224 two_held
unfolding mempool_alloc add_chunk empty_pool
two_taken = refl

-- Two blocks are taken, and the first is given back.
small_steps : PoolSteps small_pool [] (mempool_free (some 4352) two_held) (4224 ∷ [])
small_steps =
    then_step
      (then_step (then_step begin (takes no_memory 4352 tt one_taken))
        (takes no_memory 4224 tt two_taken))
      (gives (4224 ∷ []) [] 4352)

held_blocks-Distinct_example :
    Distinct (4224 ∷ []) × (mempool_alloc no_memory (mempool_free (some 4352) two_held) ≢ crashed)
held_blocks-Distinct_example =
    held_blocks-Distinct new_thread true
      (record { blocks = some 4096; headers = true; array = true }) no_memory 100 3 small_pool
      (mempool_free (some 4352) two_held) (4224 ∷ []) (refl, refl) small_pool-made small_steps tt

mempool_alloc-Pops_example :
    Pops shared_pool 3 (2 ∷ 1 ∷ 0 ∷ []) (mempool_alloc no_memory shared_pool)
mempool_alloc-Pops_example = mempool_alloc-Pops no_memory shared_pool 3 (2 ∷ 1 ∷ 0 ∷ []) (record {
  local = 3 ∷ 2 ∷ [];
  shared = 1 ∷ 0 ∷ [];
  parts = refl;
  local_chain = unfold Chain in (refl, (refl, refl));
  shared_chain = unfold Chain in (refl, (refl, refl));
  count = refl;
  distinct = unfold Distinct in omega arith;
})
