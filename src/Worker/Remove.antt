-- ===== src/Worker/Remove.antt =====
-- About worker_remove_client of src/worker.c.
use nx_lite.Base.{
  Option, ℕ, zero, suc, ◌-◌, ◌<◌, ◌≤◌, ◌≡◌, refl, sym, subst, ap, ◌⊎◌, inl, inr, true, false, none,
  some, List, [], ◌∷◌, ◌++◌, ltb, ◌==◌, if◌then◌else◌, length, take, get_or, set, arith, Bool-cases,
  Option-cases, ==_iff, append-nil, length-take-le,
}
use mathlib.Core.List.{Perm, Permᴰ, Nodup, Nodup-cons, map}
use mathlib.Core.List.Perm
use mathlib.Core.List.Permᴰ
use nx_lite.Http.Response.{Response, http_free_response}
use nx_lite.Mempool.{mempool_free}
use nx_lite.RateLimit.Entries.{decrement_connection_count}
use nx_lite.Worker.{
  Client, zero_client, Worker, SystemCall, epoll_del, close_fd, find_client, swap_remove,
  release_calls, remove_client_at, worker_remove_client,
}

-- The client of that index has the descriptor.
pub find_client_sound :
    (fd i : ℕ) (cs : List Client)
    → find_client fd cs ≡ some i
    → (i < length cs) × ((get_or cs i zero_client).fd ≡ fd)
unfolding find_client
find_client_sound fd i [] e = absurd (ground arith)
find_client_sound fd i (c ∷ cs) e = elim (Bool-cases (c.fd == fd)) [
  | inl same ↦
      let at : 0 ≡ i = ground (arith, e, same) in
      subst (λ j. (j < length (c ∷ cs)) × ((get_or (c ∷ cs) j zero_client).fd ≡ fd)) at
        (omega arith, (==_iff c.fd fd).0 same)
  | inr other ↦ elim (Option-cases (find_client fd cs)) [
    | inl none_left ↦ absurd (ground (arith, e, other, none_left))
    | inr (k, found) ↦
        let at : suc k ≡ i = ground (arith, e, other, found) in
        let (small, same) = find_client_sound fd k cs found in
        subst (λ j. (j < length (c ∷ cs)) × ((get_or (c ∷ cs) j zero_client).fd ≡ fd)) at
          (omega (arith, small), same)
  ]
]

take-last :
    (c : Client) (cs : List Client)
    → take (length cs) (c ∷ cs) ++ get_or (c ∷ cs) (length cs) zero_client ∷ [] ≡ c ∷ cs
take-last c [] = refl
take-last c (d ∷ cs) = ap (◌∷◌ c) (take-last d cs)

last-reorder :
    (c : Client) (cs : List Client)
    → Permᴰ (c ∷ cs) (get_or (c ∷ cs) (length cs) zero_client ∷ take (length cs) (c ∷ cs))
last-reorder c cs =
    let l = get_or (c ∷ cs) (length cs) zero_client in
    let front = take (length cs) (c ∷ cs) in
    subst (λ xs. Permᴰ xs (l ∷ front)) (take-last c cs)
      (subst (λ xs. Permᴰ (front ++ l ∷ []) (l ∷ xs)) (append-nil front) (Permᴰ.middle l front []))

swap_remove-zero :
    (c d : Client) (ds : List Client)
    → swap_remove 0 (c ∷ d ∷ ds)
      ≡ get_or (d ∷ ds) (length ds) zero_client ∷ take (length ds) (d ∷ ds)
unfolding swap_remove
swap_remove-zero c d ds =
    let last : length (c ∷ d ∷ ds) - 1 ≡ suc (length ds) = omega arith in
    let pos : ltb 0 (suc (length ds)) ≡ true = ground arith in rw (last, pos) refl

swap_remove-suc :
    (i : ℕ) (c d : Client) (ds : List Client)
    → swap_remove (suc i) (c ∷ d ∷ ds) ≡ c ∷ swap_remove i (d ∷ ds)
unfolding swap_remove
swap_remove-suc i c d ds =
    let last : length (c ∷ d ∷ ds) - 1 ≡ suc (length ds) = omega arith in
    let last' : length (d ∷ ds) - 1 ≡ length ds = omega arith in
    rw (last, last')
      (elim (Bool-cases (ltb i (length ds))) [
        | inl inner ↦
            let inner' : ltb (suc i) (suc (length ds)) ≡ true = ground (arith, inner) in
            rw (inner, inner') refl
        | inr outer ↦
            let outer' : ltb (suc i) (suc (length ds)) ≡ false = ground (arith, outer) in
            rw (outer, outer') refl
      ])

pub swap_remove-reorder :
    (i : ℕ) (cs : List Client)
    → i < length cs
    → Permᴰ cs (get_or cs i zero_client ∷ swap_remove i cs)
swap_remove-reorder i [] small = absurd (omega arith)
swap_remove-reorder zero (c ∷ []) small = unfold swap_remove in Permᴰ.refl (c ∷ [])
swap_remove-reorder (suc i) (c ∷ []) small = absurd (omega arith)
swap_remove-reorder zero (c ∷ d ∷ ds) small =
    rw (swap_remove-zero c d ds) (Permᴰ.cons refl (last-reorder d ds))
swap_remove-reorder (suc i) (c ∷ d ∷ ds) small = rw (swap_remove-suc i c d ds) (
    Permᴰ.trans (Permᴰ.cons refl (swap_remove-reorder i (d ∷ ds) (omega arith)))
      (Permᴰ.swap refl refl))

pub swap_remove-Perm :
    (i : ℕ) (cs : List Client)
    → i < length cs
    → Perm cs (get_or cs i zero_client ∷ swap_remove i cs)
swap_remove-Perm i cs small = ∣ swap_remove-reorder i cs small ∣₁

-- The file of a response that is sent from a file is closed, and nothing else.
abbrev pub ClosesFile : Option Response → List SystemCall → Type 0
ClosesFile none files = files ≡ []
ClosesFile (some r) files =
    ((r.is_file ≡ true) × (files ≡ close_fd r.file_fd ∷ [])) ⊎ ((r.is_file ≡ false) × (files ≡ []))

abbrev Released : Client → ℕ → Worker → List SystemCall → Type 0
Released c fd w calls =
    (files : List SystemCall) × (calls
      ≡ w.calls
        ++ epoll_del fd ∷ epoll_del c.timer_fd ∷ (files ++ close_fd fd ∷ close_fd c.timer_fd ∷ []))
    × ClosesFile c.pending_response files

pending_file :
    (r : Response)
    → (files : List SystemCall) × ((elim (http_free_response r).1 as (λ x. List SystemCall) [
      | none ↦ []
      | some f ↦ close_fd f ∷ []
    ])
        ≡ files)
      × ClosesFile (some r) files
unfolding http_free_response
pending_file r = elim (Bool-cases r.is_file) [
  | inl t ↦ (close_fd r.file_fd ∷ [], rw t refl, inl (t, refl))
  | inr f ↦ ([], rw f refl, inr (f, refl))
]

remove_client_at-Released :
    (i : ℕ) (w : Worker)
    → Released
        (get_or w.clients i zero_client)
        (get_or w.clients i zero_client).fd
        w
        (remove_client_at i w).calls
unfolding remove_client_at release_calls
remove_client_at-Released i w =
    let c = get_or w.clients i zero_client in
    elim (Option-cases c.pending_response) [
      | inl e ↦ rw e ([], refl, refl)
      | inr (r, e) ↦
          let (files, same, closes) = pending_file r in
          rw e (
            files,
            ap
                (λ xs.
                  w.calls
                  ++ epoll_del c.fd
                    ∷ epoll_del c.timer_fd
                    ∷ (xs ++ close_fd c.fd ∷ close_fd c.timer_fd ∷ []))
                same,
            closes,
          )
    ]

-- Where a client has the descriptor, one such client is taken out and the others stay, in some order;
-- its descriptor and its timer are taken out of epoll and then closed, and between that the file of its
-- pending response, if there is one, is closed; its buffer goes back to the pool, and its address has
-- one connection less. Where none has it, nothing changes.
pub worker_remove_client_lem :
    (fd : ℕ) (w : Worker)
    → ((find_client fd w.clients ≡ none) × (worker_remove_client fd w ≡ w))
      ⊎ ((c : Client) × (c.fd ≡ fd)
          × Perm w.clients (c ∷ (worker_remove_client fd w).clients)
          × ((files : List SystemCall) × ((worker_remove_client fd w).calls
                ≡ w.calls
                  ++ epoll_del fd
                    ∷ epoll_del c.timer_fd
                    ∷ (files ++ close_fd fd ∷ close_fd c.timer_fd ∷ []))
              × ClosesFile c.pending_response files)
          × ((worker_remove_client fd w).buffer_pool ≡ mempool_free c.buffer w.buffer_pool)
          × ((worker_remove_client fd w).rate_limits
              ≡ decrement_connection_count (some c.client_ip) w.rate_limits))
unfolding worker_remove_client remove_client_at
worker_remove_client_lem fd w = elim (Option-cases (find_client fd w.clients)) [
  | inl e ↦ inl (e, simp (worker_remove_client, e) refl)
  | inr (i, e) ↦
      let (small, same) = find_client_sound fd i w.clients e in
      inr (
        get_or w.clients i zero_client,
        same,
        simp (worker_remove_client, e) (swap_remove-Perm i w.clients small),
        simp (worker_remove_client, e)
            (subst (λ n. Released (get_or w.clients i zero_client) n w (remove_client_at i w).calls)
              same (remove_client_at-Released i w)),
        simp (worker_remove_client, e) refl,
        simp (worker_remove_client, e) refl,
      )
]

worker_remove_client-length :
    (fd : ℕ) (w : Worker)
    → length w.clients ≤ 100000
    → length (worker_remove_client fd w).clients ≤ 100000
unfolding worker_remove_client remove_client_at swap_remove
worker_remove_client-length fd w room = elim (Option-cases (find_client fd w.clients)) [
  | inl e ↦ simp (worker_remove_client, e) room
  | inr (i, e) ↦
      let last = length w.clients - 1 in
      simp (worker_remove_client, e)
        (omega (
          arith,
          room,
          length-take-le last (
              if ltb i last
              then set w.clients i (get_or w.clients last zero_client)
              else w.clients),
        ))
]

-- The descriptors of the clients, and those of their timers, are different, and there is room for
-- each client.
pub record IsValid (w : Worker) : Type 0 where
  pub room : length w.clients ≤ 100000
  pub fds : Nodup (map (λ (c : Client). c.fd) w.clients)
  pub timers : Nodup (map (λ (c : Client). c.timer_fd) w.clients)

-- Removing a client keeps the clients valid.
pub worker_remove_client-IsValid :
    (fd : ℕ) (w : Worker) → IsValid w → IsValid (worker_remove_client fd w)
worker_remove_client-IsValid fd w v = elim (worker_remove_client_lem fd w) [
  | inl (e, same) ↦ subst IsValid (sym same) v
  | inr (c, same, perm, sent, pool, limits) ↦ record {
    room = worker_remove_client-length fd w v.room;
    fds = (Nodup-cons.0 (Perm.nodup (Perm.map (λ (x : Client). x.fd) perm) v.fds)).1;
    timers = (Nodup-cons.0 (Perm.nodup (Perm.map (λ (x : Client). x.timer_fd) perm) v.timers)).1;
  }
]
