-- ===== src/Mempool/Cleanup.antt =====
-- About mempool_cleanup of src/mempool.c.
use nx_lite.Base.{
  ℕ, zero, suc, ◌+◌, ◌-◌, ◌*◌, ◌<◌, ◌≡◌, refl, ◌∙◌, ap, none, some, List, [], ◌∷◌, ◌==◌,
  if◌then◌else◌, arith, sym, subst, Bool, ◌/◌, ◌++◌,
}
use nx_lite.Mempool.{
  Pool, mapped, allocate_memory_source, add_blocks, mempool_cleanup, release_chunks,
  flush_local_cache, walk, Thread, Memory, free_memory, free_headers, add_chunk, empty_pool,
  mempool_init,
}
use nx_lite.Mempool.Ownership.{mempool_init-cases}

-- The fields of a pool that say how its memory is laid out.
abbrev Layout : Type 0
Layout = ℕ × ℕ × List ℕ

abbrev layout : Pool → Layout
layout p = (p.block_size, p.blocks_per_pool, p.memory_blocks)

layout-add_blocks :
    (n first i start : ℕ) (p : Pool) → layout (add_blocks n first i start p) ≡ layout p
unfolding add_blocks
layout-add_blocks zero first i start p = refl
layout-add_blocks (suc n) first i start p = layout-add_blocks n first (i + 1) start _

layout-flush_local_cache : (p : Pool) → layout (flush_local_cache p) ≡ layout p
unfolding flush_local_cache
layout-flush_local_cache p =
    elim p.local_free_list
      as (λ l.
        layout (elim l [
          | none ↦ p
          | some first ↦
              let last = (walk (p.local_free_count - 1) p.next first 1).0 in
              record p {
                next = λ q. if last == q then p.free_list else p.next q;
                free_list = some first;
                local_free_list = none;
                local_free_count = 0;
              }
        ])
        ≡ layout p) [ none ↦ refl | some first ↦ refl ]

release_chunks-layout :
    (p q : Pool) (c : ℕ) (chunks : List ℕ)
    → q.block_size ≡ p.block_size
    → q.blocks_per_pool ≡ p.blocks_per_pool
    → release_chunks q c chunks ≡ release_chunks p c chunks
unfolding release_chunks
release_chunks-layout p q c [] size blocks = refl
release_chunks-layout p q c (start ∷ chunks) size blocks =
    let sizes : q.block_size * q.blocks_per_pool ≡ p.block_size * p.blocks_per_pool =
      λ i. size i * blocks i in
    rw (sizes, release_chunks-layout p q (c + 1) chunks size blocks) refl

-- Cleaning up gives back every chunk of the pool, its blocks by free_memory and its headers by free,
-- and leaves no chunk. With pages of 4096 bytes the headers, 16 bytes each, came from mmap.
mempool_cleanup-release :
    (p : Pool)
    → 0 < p.blocks_per_pool
    → ((mempool_cleanup p).1 ≡ release_chunks p 0 p.memory_blocks)
      × ((mempool_cleanup p).0.memory_blocks ≡ [])
      × (allocate_memory_source 4096 (16 * p.blocks_per_pool) ≡ mapped)
unfolding mempool_cleanup allocate_memory_source
mempool_cleanup-release p some_blocks = (
  ap (release_chunks (flush_local_cache p) 0)
        (ap (λ (l : Layout). l.2) (layout-flush_local_cache p))
      ∙ release_chunks-layout p (flush_local_cache p) 0 p.memory_blocks
          (ap (λ (l : Layout). l.0) (layout-flush_local_cache p))
          (ap (λ (l : Layout). l.1) (layout-flush_local_cache p)),
  refl,
  ground arith,
)

layout-add_chunk :
    (start : ℕ) (p : Pool)
    → layout (add_chunk start p) ≡ (p.block_size, p.blocks_per_pool, p.memory_blocks ++ start ∷ [])
unfolding add_chunk
layout-add_chunk start p = layout-add_blocks p.blocks_per_pool _ 0 start _

-- The one chunk of a pool that was made is given back, with its headers.
pub mempool_cleanup-mempool_init :
    (t : Thread) (mutex : Bool) (m : Memory) (size n : ℕ) (p : Pool)
    → mempool_init t mutex m size n ≡ some p
    → (start : ℕ) × (m.blocks ≡ some start)
      × ((mempool_cleanup p).1
          ≡ free_memory start ((size + 64 - 1) / 64 * 64 * n) ∷ free_headers 0 ∷ [])
unfolding empty_pool release_chunks
mempool_cleanup-mempool_init t mutex m size n p e =
    let (start, given, made, pos, per) = mempool_init-cases t mutex m size n p e in
    let before : Pool = record (empty_pool t size n) { memory_blocks = start ∷ [] } in
    let laid : layout p ≡ layout before =
      ap layout made ∙ layout-add_chunk start (empty_pool t size n) in
    (
      start,
      given,
      (mempool_cleanup-release p (subst (λ k. 0 < k) (sym (ap (λ (l : Layout). l.1) laid)) per)).0
          ∙ ap (release_chunks p 0) (ap (λ (l : Layout). l.2) laid)
          ∙ release_chunks-layout before p 0 (start ∷ []) (ap (λ (l : Layout). l.0) laid)
              (ap (λ (l : Layout). l.1) laid),
    )
