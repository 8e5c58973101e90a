-- ===== src/Worker/Events/Accepting.antt =====
-- About the loop of accept4 in worker_run of src/worker.c.
use nx_lite.Base.{
  ℕ, zero, suc, ◌+◌, ◌-◌, ◌<◌, ◌≤◌, ◌≡◌, refl, subst, ap, ◌≢◌, ◌⊎◌, inl, inr, Bool, ◌&&◌, some,
  Bytes, ltb, leb, [], ◌∷◌, if◌then◌else◌, length, length-append, get_or, arith, Bool-cases,
  Option-cases, leb-false, ltb→lt, &&-true, ==_iff, ◌==◌, List, set, length-take-le,
}
use nx_lite.RateLimit.Entries.{check_rate_limit}
use nx_lite.Worker.{
  Client, zero_client, Worker, Setup, close_fd, call, find_client, remove_client_at, swap_remove,
  worker_remove_client, worker_handle_connection,
}
use nx_lite.Worker.Remove.{find_client_sound}
use nx_lite.Worker.Connection.{Outcome, worker_handle_connection_lem}
use nx_lite.Worker.Events.{
  AcceptResult, connection, nothing, too_many, accept_error, short, close_idle, admit, accept_loop,
  accept_rounds,
}

AcceptResult-cases :
    (x : AcceptResult)
    → ((x ≡ nothing) ⊎ (x ≡ accept_error))
      ⊎ (x ≡ too_many)
      ⊎ ((fd : ℕ) × (ip : Bytes) × (s : Setup) × (x ≡ connection fd ip s))
AcceptResult-cases nothing = inl (inl refl)
AcceptResult-cases accept_error = inl (inr refl)
AcceptResult-cases too_many = inr (inl refl)
AcceptResult-cases (connection fd ip s) = inr (inr (fd, ip, s, refl))

ℕ-cases : (n : ℕ) → (n ≡ 0) ⊎ ((k : ℕ) × (n ≡ suc k))
ℕ-cases zero = inl refl
ℕ-cases (suc k) = inr (k, refl)

worker_handle_connection-length :
    (now : ℕ) (s : Setup) (fd : ℕ) (w w' : Worker)
    → worker_handle_connection now s fd w ≡ some w'
    → length w'.clients ≤ suc (length w.clients)
worker_handle_connection-length now s fd w w' e =
    elim (subst (Outcome s fd w) e (worker_handle_connection_lem now s fd w)) [
      | inl a ↦ omega (arith, ap length a.clients, length-append w.clients (a.client ∷ []))
      | inr r ↦ omega (arith, ap length r.clients)
    ]

-- A connection adds one client at most.
admit-length :
    (dev : Bool) (now fd : ℕ) (ip : Bytes) (s : Setup) (w w' : Worker)
    → admit dev now fd ip s w ≡ some w'
    → length w'.clients ≤ suc (length w.clients)
unfolding admit
admit-length dev now fd ip s w w' e =
    elim (Bool-cases (check_rate_limit dev now (some ip) w.rate_limits).1) [
      | inl allowed ↦
          worker_handle_connection-length now s fd
            (record w { rate_limits = (check_rate_limit dev now (some ip) w.rate_limits).0 }) w'
            (ground (arith, e, allowed))
      | inr refused ↦
          let same : call (close_fd fd ∷ [])
                (record w { rate_limits = (check_rate_limit dev now (some ip) w.rate_limits).0 })
              ≡ w' =
            ground (arith, e, refused) in
          omega (arith, ap (λ (x : Worker). length x.clients) same)
    ]

find_client_complete :
    (cs : List Client) (i : ℕ)
    → i < length cs
    → (k : ℕ) × (find_client (get_or cs i zero_client).fd cs ≡ some k)
unfolding find_client
find_client_complete [] i small = absurd (omega (arith, small))
find_client_complete (c ∷ cs) zero small = (0, ground (arith, (==_iff c.fd c.fd).1 refl))
find_client_complete (c ∷ cs) (suc i) small =
    let (k, e) = find_client_complete cs i (omega (arith, small)) in
    elim (Bool-cases (c.fd == (get_or cs i zero_client).fd)) [
      | inl same ↦ (0, ground (arith, same))
      | inr other ↦ (suc k, ground (arith, other, e))
    ]

worker_remove_client-fewer :
    (fd : ℕ) (w : Worker) (k : ℕ)
    → find_client fd w.clients ≡ some k
    → suc (length (worker_remove_client fd w).clients) ≤ length w.clients
unfolding worker_remove_client remove_client_at swap_remove
worker_remove_client-fewer fd w k e =
    let last = length w.clients - 1 in
    simp (worker_remove_client, e)
      (omega (
        arith,
        (find_client_sound fd k w.clients e).0,
        length-take-le last
            (if ltb k last then set w.clients k (get_or w.clients last zero_client) else w.clients),
      ))

-- Each client that is closed is one less.
close_idle-length :
    (fuel now j closed : ℕ) (w : Worker)
    → length (close_idle fuel now j closed w).0.clients + (close_idle fuel now j closed w).1
      ≤ length w.clients + closed
unfolding close_idle
close_idle-length zero now j closed w = omega arith
close_idle-length (suc fuel) now j closed w =
    elim (Bool-cases (ltb j (length w.clients) && ltb closed 10)) [
      | inr stop ↦ simp (close_idle, stop) (omega arith)
      | inl more ↦
          elim (Bool-cases (ltb 5 (now - (get_or w.clients j zero_client).last_activity))) [
            | inr busy ↦ simp (close_idle, more, busy) (close_idle-length fuel now (j + 1) closed w)
            | inl idle ↦
                let small = ltb→lt j (length w.clients) (&&-true _ _ more).0 in
                let (k, found) = find_client_complete w.clients j small in
                let fd = (get_or w.clients j zero_client).fd in
                let fewer = worker_remove_client-fewer fd w k found in
                let rest =
                  close_idle-length fuel now (j + 1) (closed + 1) (worker_remove_client fd w) in
                simp (close_idle, more, idle) (omega (arith, fewer, rest))
          ]
    ]

-- However many connections arrive, and however often descriptors run out, the loop ends.
pub accept_loop_total :
    (fuel k count : ℕ) (accepts : ℕ → AcceptResult) (dev : Bool) (now : ℕ) (w : Worker)
    → accept_rounds count w ≤ fuel
    → accept_loop fuel accepts dev now k count w ≢ short
unfolding accept_loop
accept_loop_total zero k count accepts dev now w h = absurd (omega (arith, h))
accept_loop_total (suc fuel) k count accepts dev now w h = elim (Bool-cases (leb 2000 count)) [
  | inl many ↦ simp (accept_loop, many) (λ e. cc)
  | inr room ↦
      let below = leb-false 2000 count room in
      elim (AcceptResult-cases (accepts k)) [
        | inl (inl e) ↦ simp (accept_loop, room, e) (λ q. cc)
        | inl (inr e) ↦ simp (accept_loop, room, e) (λ q. cc)
        | inr (inl e) ↦
            let fewer = close_idle-length (length w.clients) now 0 0 w in
            elim (ℕ-cases (close_idle (length w.clients) now 0 0 w).1) [
              | inl e1 ↦ simp (accept_loop, room, e, e1) (λ q. cc)
              | inr (n, e1) ↦
                  simp (accept_loop, room, e, e1)
                    (accept_loop_total fuel (k + 1) count accepts dev now
                      (close_idle (length w.clients) now 0 0 w).0 (omega (arith, h, fewer, e1)))
            ]
        | inr (inr (fd, ip, s, e)) ↦ elim (Option-cases (admit dev now fd ip s w)) [
          | inl e1 ↦ simp (accept_loop, room, e, e1) (λ q. cc)
          | inr (w', e1) ↦
              simp (accept_loop, room, e, e1)
                (accept_loop_total fuel (k + 1) (count + 1) accepts dev now w'
                  (omega (arith, h, below, admit-length dev now fd ip s w w' e1)))
        ]
      ]
]
