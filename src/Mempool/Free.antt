-- ===== src/Mempool/Free.antt =====
-- About mempool_free of src/mempool.c and the allocations after it.
use nx_lite.Base.{
  ℕ, ◌+◌, ◌-◌, ◌%◌, ◌^◌, ◌<◌, ◌≡◌, refl, ◌∙◌, ap, some, List, [], ◌∷◌, ==_iff, arith,
}
use nx_lite.Mempool.{
  Pool, Memory, allocated, update, mempool_alloc, mempool_free, find_block, push_local, pop_local,
}

update_self : {A : Type 0} (f : ℕ → A) (p : ℕ) (v : A) → update f p v p ≡ v
update_self f p v = rw ((==_iff p p).1 refl) refl

-- A pointer into a block, with room in the thread's list for one more.
pub mempool_free-push_local :
    (p : Pool) (pointer block : ℕ)
    → find_block p 0 p.memory_blocks pointer ≡ some block
    → p.local_free_count + 1 < 128
    → mempool_free (some pointer) p ≡ push_local block p
unfolding mempool_free
mempool_free-push_local p pointer block found room = ground (arith, found, room)

pub mempool_alloc-local :
    (m : Memory) (p : Pool) (block : ℕ)
    → p.local_free_list ≡ some block
    → mempool_alloc m p
      ≡ allocated (p.address block) (record p {
        local_free_list = p.next block;
        local_free_count = p.local_free_count - 1;
        used_blocks = (p.used_blocks + 1) % 2 ^ 64;
      })
unfolding mempool_alloc
mempool_alloc-local m p block e = simp (mempool_alloc, pop_local, e) refl

pub find_block-push_local :
    (p : Pool) (b c : ℕ) (chunks : List ℕ) (pointer : ℕ)
    → find_block (push_local b p) c chunks pointer ≡ find_block p c chunks pointer
unfolding find_block push_local
find_block-push_local p b c [] pointer = refl
find_block-push_local p b c (start ∷ chunks) pointer =
    rw (find_block-push_local p b (c + 1) chunks pointer) refl

-- A block that was freed, with room in the thread's list, is the one that the next allocation
-- returns; the thread's list is then what it was before.
freed_block_returns :
    (m : Memory) (p : Pool) (pointer block : ℕ)
    → find_block p 0 p.memory_blocks pointer ≡ some block
    → p.local_free_count + 1 < 128
    → (q : Pool) × (mempool_alloc m (mempool_free (some pointer) p) ≡ allocated (p.address block) q)
      × (q.local_free_list ≡ p.local_free_list)
      × (q.local_free_count ≡ p.local_free_count)
unfolding push_local
freed_block_returns m p pointer block found room = (
  _,
  ap (mempool_alloc m) (mempool_free-push_local p pointer block found room)
      ∙ mempool_alloc-local m (push_local block p) block (refl),
  update_self p.next block p.local_free_list,
  omega arith,
)

mempool_free-twice :
    (p : Pool) (pointer block : ℕ)
    → find_block p 0 p.memory_blocks pointer ≡ some block
    → p.local_free_count + 2 < 128
    → mempool_free (some pointer) (mempool_free (some pointer) p)
      ≡ push_local block (push_local block p)
unfolding push_local
mempool_free-twice p pointer block found room =
    ap (mempool_free (some pointer)) (mempool_free-push_local p pointer block found (omega arith))
    ∙ mempool_free-push_local (push_local block p) pointer block
        (find_block-push_local p block 0 p.memory_blocks pointer ∙ found) (omega arith)

-- A block that was freed twice, with room in the thread's list, is returned by the next allocation
-- and by the one after it: two owners hold the same block.
double_free_aliases :
    (m m' : Memory) (p : Pool) (pointer block : ℕ)
    → find_block p 0 p.memory_blocks pointer ≡ some block
    → p.local_free_count + 2 < 128
    → (q q' : Pool) × (mempool_alloc m (mempool_free (some pointer) (mempool_free (some pointer) p))
        ≡ allocated (p.address block) q)
      × (mempool_alloc m' q ≡ allocated (p.address block) q')
unfolding push_local
double_free_aliases m m' p pointer block found room = (
  _,
  _,
  ap (mempool_alloc m) (mempool_free-twice p pointer block found room)
      ∙ mempool_alloc-local m (push_local block (push_local block p)) block (refl),
  mempool_alloc-local m' _ block (update_self (push_local block p).next block (some block)),
)
