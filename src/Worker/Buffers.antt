-- ===== src/Worker/Buffers.antt =====
-- The buffers of the clients of src/worker.c, which belong to the pool of the worker.
use nx_lite.Base.{
  ℕ, zero, suc, ◌≡◌, refl, sym, subst, ap, ◌∙◌, inl, inr, Option, none, some, List, [], ◌∷◌, ◌++◌,
  get_or, set, Option-cases, append-nil,
}
use mathlib.Core.List.{Permᴰ}
use mathlib.Core.List.Permᴰ
use nx_lite.Mempool.{Pool, allocated, mempool_alloc, mempool_free}
use nx_lite.Mempool.Parts.{IsOwned}
use nx_lite.Mempool.Allocating.{Fits, Allocates, mempool_alloc-Allocates}
use nx_lite.Mempool.Ownership.{mempool_free-IsOwned}
use nx_lite.Mempool.Reorder.{IsOwned-reorder}
use nx_lite.Worker.{
  Client, zero_client, Worker, Setup, find_client, swap_remove, remove_client_at,
  worker_remove_client, set_client, worker_handle_connection,
}
use nx_lite.Worker.Remove.{find_client_sound, swap_remove-reorder}
use nx_lite.Worker.Connection.{Outcome, worker_handle_connection_lem}
use nx_lite.Worker.Data.Total.{Ends, worker_handle_client_data-Ends}
use nx_lite.Worker.Keeping.{
  KeepsIfSome, worker_handle_timeout-keeps, worker_handle_client_write-keeps,
}
use nx_lite.Worker.Steps.{Step, connected, removed, timed, writable, readable, Steps, start, next}

abbrev pub with_buffer : Option ℕ → List ℕ → List ℕ
with_buffer none rest = rest
with_buffer (some b) rest = b ∷ rest

-- The buffers that the clients have.
unfoldable pub buffers : List Client → List ℕ
buffers [] = []
buffers (c ∷ cs) = with_buffer c.buffer (buffers cs)

buffers-append :
    (cs : List Client) (c : Client) (b : ℕ)
    → c.buffer ≡ some b
    → buffers (cs ++ c ∷ []) ≡ buffers cs ++ b ∷ []
unfolding buffers
buffers-append [] c b e = rw e refl
buffers-append (d ∷ cs) c b e = elim (Option-cases d.buffer) [
  | inl none_ ↦ rw none_ (buffers-append cs c b e)
  | inr (x, has) ↦ rw has (ap (◌∷◌ x) (buffers-append cs c b e))
]

with_buffer-reorder :
    (o : Option ℕ) {xs ys : List ℕ} → Permᴰ xs ys → Permᴰ (with_buffer o xs) (with_buffer o ys)
with_buffer-reorder none p = p
with_buffer-reorder (some b) p = Permᴰ.cons refl p

with_buffer-swap :
    (o o' : Option ℕ) (xs : List ℕ)
    → Permᴰ (with_buffer o (with_buffer o' xs)) (with_buffer o' (with_buffer o xs))
with_buffer-swap none o' xs = Permᴰ.refl _
with_buffer-swap (some b) none xs = Permᴰ.refl _
with_buffer-swap (some b) (some c) xs = Permᴰ.swap refl refl

buffers-reorder : {cs ds : List Client} → Permᴰ cs ds → Permᴰ (buffers cs) (buffers ds)
unfolding buffers
buffers-reorder Permᴰ.nil = Permᴰ.nil
buffers-reorder (Permᴰ.cons {a} {b} {l₁} {l₂} e d) =
    subst (λ x. Permᴰ (with_buffer a.buffer (buffers l₁)) (with_buffer x.buffer (buffers l₂))) e
      (with_buffer-reorder a.buffer (buffers-reorder d))
buffers-reorder (Permᴰ.swap {a} {b} {a'} {b'} {l} e e') =
    subst
      (λ x.
        Permᴰ (with_buffer a.buffer (with_buffer b.buffer (buffers l)))
          (with_buffer x.buffer (with_buffer b'.buffer (buffers l))))
      e'
      (subst
        (λ x.
          Permᴰ (with_buffer a.buffer (with_buffer b.buffer (buffers l)))
            (with_buffer b.buffer (with_buffer x.buffer (buffers l))))
        e (with_buffer-swap a.buffer b.buffer (buffers l)))
buffers-reorder (Permᴰ.trans d d') = Permᴰ.trans (buffers-reorder d) (buffers-reorder d')

-- The buffers of the clients are those that are allocated from the pool, each for one client.
abbrev pub OwnsBuffers : Worker → Type 0
OwnsBuffers w = IsOwned w.buffer_pool (buffers w.clients)

freed-IsOwned :
    (o : Option ℕ) (p : Pool) (xs : List ℕ)
    → IsOwned p (with_buffer o xs)
    → IsOwned (mempool_free o p) xs
freed-IsOwned none p xs v = unfold mempool_free in v
freed-IsOwned (some b) p xs v = mempool_free-IsOwned p [] xs b v

worker_remove_client-OwnsBuffers :
    (fd : ℕ) (w : Worker) → OwnsBuffers w → OwnsBuffers (worker_remove_client fd w)
unfolding worker_remove_client remove_client_at
worker_remove_client-OwnsBuffers fd w v = elim (Option-cases (find_client fd w.clients)) [
  | inl e ↦ simp (worker_remove_client, e) v
  | inr (i, e) ↦
      let c = get_or w.clients i zero_client in
      let moved : IsOwned w.buffer_pool (with_buffer c.buffer (buffers (swap_remove i w.clients))) =
        unfold buffers in
        IsOwned-reorder w.buffer_pool
          (buffers-reorder (swap_remove-reorder i w.clients (find_client_sound fd i w.clients e).0))
          v in
      simp (worker_remove_client, e)
        (freed-IsOwned c.buffer w.buffer_pool (buffers (swap_remove i w.clients)) moved)
]

buffers-set :
    (cs : List Client) (i : ℕ) (c : Client)
    → c.buffer ≡ (get_or cs i zero_client).buffer
    → buffers (set cs i c) ≡ buffers cs
unfolding buffers
buffers-set [] i c e = refl
buffers-set (d ∷ cs) zero c e = ap (λ o. with_buffer o (buffers cs)) e
buffers-set (d ∷ cs) (suc i) c e = ap (with_buffer d.buffer) (buffers-set cs i c e)

set_client-OwnsBuffers :
    (i : ℕ) (c : Client) (w : Worker)
    → c.buffer ≡ (get_or w.clients i zero_client).buffer
    → OwnsBuffers w
    → OwnsBuffers (set_client i c w)
unfolding set_client
set_client-OwnsBuffers i c w e v =
    subst (IsOwned w.buffer_pool) (sym (buffers-set w.clients i c e)) v

worker_handle_connection-OwnsBuffers :
    (now : ℕ) (s : Setup) (fd : ℕ) (w w' : Worker)
    → Fits w.buffer_pool s.memory.blocks
    → worker_handle_connection now s fd w ≡ some w'
    → OwnsBuffers w
    → OwnsBuffers w'
worker_handle_connection-OwnsBuffers now s fd w w' fits e v =
    elim (subst (Outcome s fd w) e (worker_handle_connection_lem now s fd w)) [
      | inl a ↦
          let taken : IsOwned w'.buffer_pool (a.block ∷ buffers w.clients) = after a.pool in
          let listed : buffers w'.clients ≡ buffers w.clients ++ a.block ∷ [] =
            ap buffers a.clients ∙ buffers-append w.clients a.client a.block a.buffer in
          let moved : Permᴰ (a.block ∷ buffers w.clients) (buffers w.clients ++ a.block ∷ []) =
            Permᴰ.symm (
              subst (λ xs. Permᴰ (buffers w.clients ++ a.block ∷ []) (a.block ∷ xs))
                (append-nil (buffers w.clients)) (Permᴰ.middle a.block (buffers w.clients) [])) in
          subst (IsOwned w'.buffer_pool) (sym listed) (IsOwned-reorder w'.buffer_pool moved taken)
      | inr r ↦
          let same : IsOwned w'.buffer_pool (buffers w.clients) = elim r.pool [
            | inl kept ↦ subst (λ p. IsOwned p (buffers w.clients)) (sym kept) v
            | inr (b, p, given, back) ↦
                subst (λ q. IsOwned q (buffers w.clients)) (sym back)
                  (mempool_free-IsOwned p [] (buffers w.clients) b (after given))
          ] in
          subst (λ cs. IsOwned w'.buffer_pool (buffers cs)) (sym r.clients) same
    ]
  where
    after :
        {b : ℕ} {p : Pool}
        → mempool_alloc s.memory w.buffer_pool ≡ allocated b p
        → IsOwned p (b ∷ buffers w.clients)
    after given =
        subst (Allocates (buffers w.clients)) given
          (mempool_alloc-Allocates s.memory w.buffer_pool (buffers w.clients) v fits)

-- The memory that the system gives for a connection overlaps none of the pool.
abbrev pub StepFits : {w w' : Worker} → Step w w' → Type 0
StepFits (connected {w} now s fd new new_timer e) = Fits w.buffer_pool s.memory.blocks
StepFits (removed fd) = Unit
StepFits (timed now t) = Unit
StepFits (writable now io file modified fd e) = Unit
StepFits (readable sys io now fd cache e) = Unit

unfoldable pub StepsFit : {w w' : Worker} → Steps w w' → Type 0
StepsFit start = Unit
StepsFit (next before step) = StepsFit before × StepFits step

OwnsBuffers-sets :
    (i : ℕ) (c : Client) (w : Worker)
    → c.fd ≡ (get_or w.clients i zero_client).fd
    → c.timer_fd ≡ (get_or w.clients i zero_client).timer_fd
    → c.buffer ≡ (get_or w.clients i zero_client).buffer
    → OwnsBuffers w
    → OwnsBuffers (set_client i c w)
OwnsBuffers-sets i c w same same_timer same_buffer v = set_client-OwnsBuffers i c w same_buffer v

Step-OwnsBuffers :
    {w w' : Worker} (step : Step w w') → StepFits step → OwnsBuffers w → OwnsBuffers w'
Step-OwnsBuffers (connected now s fd new new_timer e) fits v =
    worker_handle_connection-OwnsBuffers now s fd _ _ fits e v
Step-OwnsBuffers (removed fd) fits v = worker_remove_client-OwnsBuffers fd _ v
Step-OwnsBuffers (timed now t) fits v =
    worker_handle_timeout-keeps OwnsBuffers worker_remove_client-OwnsBuffers (λ more x u. u)
      OwnsBuffers-sets now t _ v
Step-OwnsBuffers (writable now io file modified fd e) fits v = subst (KeepsIfSome OwnsBuffers) e (
    worker_handle_client_write-keeps OwnsBuffers worker_remove_client-OwnsBuffers (λ more x u. u)
      OwnsBuffers-sets now io file modified fd _ v)
Step-OwnsBuffers (readable sys io now fd cache e) fits v = subst (Ends OwnsBuffers) e (
    worker_handle_client_data-Ends OwnsBuffers worker_remove_client-OwnsBuffers (λ more x u. u)
      OwnsBuffers-sets sys io now fd _ cache v)

pub Steps-OwnsBuffers :
    {w w' : Worker} (steps : Steps w w') → StepsFit steps → OwnsBuffers w → OwnsBuffers w'
unfolding StepsFit
Steps-OwnsBuffers start fits v = v
Steps-OwnsBuffers (next before step) (fits, fit) v =
    Step-OwnsBuffers step fit (Steps-OwnsBuffers before fits v)
