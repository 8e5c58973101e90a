-- ===== src/Mempool/Flush.antt =====
-- About flush_local_cache of src/mempool.c and the blocks on its two lists.
use nx_lite.Base.{
  ℕ, ◌+◌, ◌-◌, ◌≡◌, refl, sym, subst, ◌∙◌, ◌≢◌, Option, none, some, List, [], ◌∷◌, ◌++◌, length,
  All, arith, ==_iff,
}
use nx_lite.Mempool.{Pool, update, walk, flush_local_cache}

-- The blocks on a list, from its head on.
unfoldable pub Chain : (ℕ → Option ℕ) → Option ℕ → List ℕ → Type 0
Chain next head [] = head ≡ none
Chain next head (b ∷ bs) = (head ≡ some b) × Chain next (next b) bs

unfoldable pub Distinct : List ℕ → Type 0
Distinct [] = Unit
Distinct (b ∷ bs) = All (λ c. b ≢ c) bs × Distinct bs

unfoldable pub last_of : ℕ → List ℕ → ℕ
last_of b [] = b
last_of b (c ∷ cs) = last_of c cs

pub walk-last_of :
    (bs : List ℕ) (next : ℕ → Option ℕ) (first count : ℕ)
    → Chain next (next first) bs
    → (walk (length bs) next first count).0 ≡ last_of first bs
unfolding walk Chain last_of
walk-last_of [] next first count h = refl
walk-last_of (b ∷ bs) next first count (e, rest) =
    rw (e, walk) (walk-last_of bs next b (count + 1) rest)

pub update_other :
    (next : ℕ → Option ℕ) (b c : ℕ) (v : Option ℕ) → b ≢ c → update next b v c ≡ next c
update_other next b c v n = ground (arith, n)

pub update_self : (next : ℕ → Option ℕ) (b : ℕ) (v : Option ℕ) → update next b v b ≡ v
update_self next b v = rw ((==_iff b b).1 refl) refl

pub Chain-update :
    (next : ℕ → Option ℕ) (head : Option ℕ) (b : ℕ) (v : Option ℕ) (cs : List ℕ)
    → All (λ c. b ≢ c) cs
    → Chain next head cs
    → Chain (update next b v) head cs
unfolding Chain
Chain-update next head b v [] n h = h
Chain-update next head b v (c ∷ cs) (n, ns) (e, rest) = (
  e,
  subst (λ x. Chain (update next b v) x cs) (sym (update_other next b c v n))
      (Chain-update next (next c) b v cs ns rest),
)

pub All-last_of : (P : ℕ → Type 0) (b : ℕ) (bs : List ℕ) → All P (b ∷ bs) → P (last_of b bs)
unfolding last_of
All-last_of P b [] (p, rest) = p
All-last_of P b (c ∷ cs) (p, rest) = All-last_of P c cs rest

pub Chain-append :
    (next : ℕ → Option ℕ) (b : ℕ) (bs cs : List ℕ) (head : Option ℕ)
    → Distinct (b ∷ bs)
    → All (λ c. last_of b bs ≢ c) cs
    → Chain next (next b) bs
    → Chain next head cs
    → Chain (update next (last_of b bs) head) (update next (last_of b bs) head b) (bs ++ cs)
unfolding Chain Distinct last_of
Chain-append next b [] cs head d n h h' =
    subst (λ x. Chain (update next b head) x cs) (sym (update_self next b head))
      (Chain-update next head b head cs n h')
Chain-append next b (c ∷ bs) cs head (ns, d) n (e, rest) h' = (
  update_other next (last_of c bs) b head (λ p. All-last_of (λ x. b ≢ x) c bs ns (sym p)) ∙ e,
  Chain-append next c bs cs head d n rest h',
)

pub flush_local_cache-last_of :
    (p : Pool) (b : ℕ) (bs : List ℕ)
    → p.local_free_list ≡ some b
    → Chain p.next (p.next b) bs
    → p.local_free_count ≡ length (b ∷ bs)
    → flush_local_cache p ≡ record p {
      next = update p.next (last_of b bs) p.free_list;
      free_list = some b;
      local_free_list = none;
      local_free_count = 0;
    }
unfolding flush_local_cache
flush_local_cache-last_of p b bs e local count =
    let rounds : p.local_free_count - 1 ≡ length bs = omega (arith, count) in
    simp (flush_local_cache, e, rounds, walk-last_of bs p.next b 1 local) refl

-- Flushing puts the blocks of the thread's list, in their order, in front of those of the shared list,
-- and leaves the thread's list empty, where the thread counts its blocks right, none of them is twice
-- on its list, and its last block is not on the shared list.
pub flush_local_cache-Chain :
    (p : Pool) (b : ℕ) (bs cs : List ℕ)
    → Chain p.next p.local_free_list (b ∷ bs)
    → Chain p.next p.free_list cs
    → p.local_free_count ≡ length (b ∷ bs)
    → Distinct (b ∷ bs)
    → All (λ c. last_of b bs ≢ c) cs
    → Chain (flush_local_cache p).next (flush_local_cache p).free_list ((b ∷ bs) ++ cs)
      × ((flush_local_cache p).local_free_list ≡ none)
      × ((flush_local_cache p).local_free_count ≡ 0)
unfolding Chain
flush_local_cache-Chain p b bs cs (e, local) shared count d n =
    subst
      (λ q.
        Chain q.next q.free_list ((b ∷ bs) ++ cs)
        × (q.local_free_list ≡ none)
        × (q.local_free_count ≡ 0))
      (sym (flush_local_cache-last_of p b bs e local count))
      ((refl, Chain-append p.next b bs cs p.free_list d n local shared), refl, refl)
