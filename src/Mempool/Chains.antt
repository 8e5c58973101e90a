-- ===== src/Mempool/Chains.antt =====
-- Lists of blocks without repetition, and their parts.
use nx_lite.Base.{
  ℕ, zero, suc, ◌+◌, ◌≡◌, refl, sym, ◌≢◌, ◌∙◌, ap, Option, none, List, [], ◌∷◌, ◌++◌, take, drop,
  length, All, arith,
}
use nx_lite.Mempool.{update, walk}
use nx_lite.Mempool.Flush.{Chain, Distinct, last_of, update_other, update_self, All-last_of}

pub All-split {ℓ κ} :
    {A : Type ℓ} (P : A → Type κ) (xs ys : List A) → All P (xs ++ ys) → All P xs × All P ys
All-split P [] ys h = (tt, h)
All-split P (x ∷ xs) ys (p, h) = let (a, b) = All-split P xs ys h in ((p, a), b)

pub Distinct-split : (xs ys : List ℕ) → Distinct (xs ++ ys) → Distinct xs × Distinct ys
unfolding Distinct
Distinct-split [] ys d = (tt, d)
Distinct-split (x ∷ xs) ys (n, d) =
    let (a, b) = Distinct-split xs ys d in (((All-split (λ c. x ≢ c) xs ys n).0, a), b)

pub Distinct-last_of :
    (b : ℕ) (bs cs : List ℕ) → Distinct ((b ∷ bs) ++ cs) → All (λ c. last_of b bs ≢ c) cs
unfolding Distinct last_of
Distinct-last_of b [] cs (n, d) = n
Distinct-last_of b (c ∷ bs) cs (n, d) = Distinct-last_of c bs cs d

pub take-drop {ℓ} : {A : Type ℓ} (n : ℕ) (xs : List A) → take n xs ++ drop n xs ≡ xs
take-drop zero xs = refl
take-drop (suc n) [] = refl
take-drop (suc n) (x ∷ xs) = ap (◌∷◌ x) (take-drop n xs)

-- The last block that a walk reaches, how many it counts, and the chain behind it.
pub walk-Chain :
    (n : ℕ) (bs : List ℕ) (next : ℕ → Option ℕ) (first count : ℕ)
    → Chain next (next first) bs
    → ((walk n next first count).0 ≡ last_of first (take n bs))
      × ((walk n next first count).1 ≡ count + length (take n bs))
      × Chain next (next (last_of first (take n bs))) (drop n bs)
unfolding walk Chain last_of
walk-Chain zero bs next first count h = (refl, omega arith, h)
walk-Chain (suc n) [] next first count h = rw (h, walk) (refl, omega arith, refl)
walk-Chain (suc n) (b ∷ bs) next first count (e, h) =
    let (a, b', c) = walk-Chain n bs next b (count + 1) h in rw (e, walk) (a, omega (arith, b'), c)

-- The chain up to a block that is made the last one.
pub Chain-cut :
    (next : ℕ → Option ℕ) (b : ℕ) (bs cs : List ℕ)
    → Distinct (b ∷ bs)
    → Chain next (next b) (bs ++ cs)
    → Chain (update next (last_of b bs) none) (update next (last_of b bs) none b) bs
unfolding Chain Distinct last_of
Chain-cut next b [] cs d h = update_self next b none
Chain-cut next b (c ∷ bs) cs (n, d) (e, h) = (
  update_other next (last_of c bs) b none (λ p. All-last_of (λ x. b ≢ x) c bs n (sym p)) ∙ e,
  Chain-cut next c bs cs d h,
)
