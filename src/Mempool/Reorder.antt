-- ===== src/Mempool/Reorder.antt =====
-- The order in which the held addresses of the pool of src/mempool.c are listed does not matter.
use nx_lite.Base.{ℕ, ◌<◌, ◌≡◌, refl, sym, subst, ap, ◌∙◌, ◌≢◌, List, [], ◌∷◌, map, All, arith}
use mathlib.Core.List.{Permᴰ}
use mathlib.Core.List.Permᴰ
use nx_lite.Mempool.{Pool}
use nx_lite.Mempool.Flush.{Distinct}
use nx_lite.Mempool.Parts.{IsOwned, total}

All-reorder : (P : ℕ → Type 0) {xs ys : List ℕ} → Permᴰ xs ys → All P xs → All P ys
All-reorder P Permᴰ.nil a = a
All-reorder P (Permᴰ.cons e d) (p, a) = (subst P e p, All-reorder P d a)
All-reorder P (Permᴰ.swap e e') (p, (q, a)) = (subst P e' q, (subst P e p, a))
All-reorder P (Permᴰ.trans d d') a = All-reorder P d' (All-reorder P d a)

Distinct-reorder : {xs ys : List ℕ} → Permᴰ xs ys → Distinct xs → Distinct ys
unfolding Distinct
Distinct-reorder Permᴰ.nil d = d
Distinct-reorder (Permᴰ.cons {a} {b} {l₁} e p) (new, d) =
    (All-reorder (λ c. b ≢ c) p (subst (λ x. All (λ c. x ≢ c) l₁) e new), Distinct-reorder p d)
Distinct-reorder (Permᴰ.swap {a} {b} {a'} {b'} {l} e e') ((ne, new), (new', d)) = (
  (λ q. ne (e ∙ sym q ∙ sym e'), subst (λ x. All (λ c. x ≢ c) l) e' new'),
  (subst (λ x. All (λ c. x ≢ c) l) e new, d),
)
Distinct-reorder (Permᴰ.trans p p') d = Distinct-reorder p' (Distinct-reorder p d)

-- The blocks of the addresses in another order.
map-reorder :
    (f : ℕ → ℕ) (owned : List ℕ) {xs ys : List ℕ}
    → Permᴰ xs ys
    → xs ≡ map f owned
    → (owned' : List ℕ) × Permᴰ owned owned' × (ys ≡ map f owned')
map-reorder f owned Permᴰ.nil e = (owned, Permᴰ.refl owned, e)
map-reorder f [] (Permᴰ.cons same d) e = absurd (ground (arith, e))
map-reorder f (o ∷ owned) (Permᴰ.cons {a} {b} {l₁} {l₂} same d) e =
    let first : a ≡ f o = cc in
    let others : l₁ ≡ map f owned = cc in
    let (owned', p, e') = map-reorder f owned d others in
    (o ∷ owned', Permᴰ.cons refl p, ap (λ x. x ∷ l₂) (sym same ∙ first) ∙ ap (◌∷◌ (f o)) e')
map-reorder f [] (Permᴰ.swap same same') e = absurd (ground (arith, e))
map-reorder f (o ∷ []) (Permᴰ.swap {a} {b} {l = l} same same') e =
    let others : b ∷ l ≡ [] = cc in absurd (ground (arith, others))
map-reorder f (o ∷ o' ∷ owned) (Permᴰ.swap {a} {b} {a'} {b'} {l} same same') e =
    let first : b' ≡ f o = cc in
    let rest : b ∷ l ≡ f o' ∷ map f owned = cc in
    let second : a' ≡ f o' = cc in
    let others : l ≡ map f owned = cc in
    (
      o' ∷ o ∷ owned,
      Permᴰ.swap refl refl,
      ap (λ x. x ∷ b' ∷ l) second ∙ ap (λ x. f o' ∷ x ∷ l) first ∙ ap (λ x. f o' ∷ f o ∷ x) others,
    )
map-reorder f owned (Permᴰ.trans d d') e =
    let (owned', p, e') = map-reorder f owned d e in
    let (owned'', p', e'') = map-reorder f owned' d' e' in (owned'', Permᴰ.trans p p', e'')

pub IsOwned-reorder :
    (p : Pool) {held held' : List ℕ} → Permᴰ held held' → IsOwned p held → IsOwned p held'
IsOwned-reorder p d v =
    let w = v.parts in
    let (owned', same, addresses) = map-reorder p.address v.owned d w.addresses in
    let all = Permᴰ.append_right v.free same in
    record {
      owned = owned';
      free = v.free;
      parts = record {
        stack = w.stack;
        addresses = addresses;
        distinct = Distinct-reorder all w.distinct;
        low = All-reorder (λ b. b < total p) all w.low;
        laid = w.laid;
      };
    }
