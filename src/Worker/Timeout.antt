-- ===== src/Worker/Timeout.antt =====
-- About worker_handle_timeout of src/worker.c.
use nx_lite.Base.{
  ℕ, zero, suc, ◌<◌, ◌≡◌, refl, sym, subst, ◌∙◌, ap, ◌≢◌, ◌⊎◌, inl, inr, Bool, true, false, ◌||◌,
  none, some, List, [], ◌∷◌, ◌++◌, ◌==◌, if◌then◌else◌, length, get_or, arith, Bool-cases,
  Option-cases, ==_iff,
}
use mathlib.Core.List.{Mem, Nodup, Nodup-cons, mem-cons_self, mem-cons_of_mem, Perm, map}
use nx_lite.Worker.{
  Client, zero_client, Worker, release_calls, find_client, find_timer, remove_client_at,
  worker_remove_client, worker_handle_timeout, is_slow_loris, is_idle,
}
use nx_lite.Worker.Remove.{IsValid, swap_remove-Perm}

get_or-Mem :
    (cs : List Client) (i : ℕ)
    → i < length cs
    → Mem (get_or cs i zero_client).fd (map (λ (c : Client). c.fd) cs)
get_or-Mem [] i h = absurd (omega arith)
get_or-Mem (c ∷ cs) zero h = mem-cons_self
get_or-Mem (c ∷ cs) (suc i) h = mem-cons_of_mem c.fd (get_or-Mem cs i (omega arith))

-- Where no two clients have the same descriptor, each is found by its own.
find_client-own :
    (cs : List Client) (i : ℕ)
    → Nodup (map (λ (c : Client). c.fd) cs)
    → i < length cs
    → find_client (get_or cs i zero_client).fd cs ≡ some i
unfolding find_client
find_client-own [] i d h = absurd (omega arith)
find_client-own (c ∷ cs) zero d h = ground (arith, (==_iff c.fd c.fd).1 refl)
find_client-own (c ∷ cs) (suc i) d h =
    let (new, rest) = Nodup-cons.0 d in
    let other : c.fd ≢ (get_or cs i zero_client).fd = λ e. new (
      subst (λ x. Mem x (map (λ (y : Client). y.fd) cs)) (sym e) (get_or-Mem cs i (omega arith))) in
    ground (arith, other, find_client-own cs i rest (omega arith))

find_timer_sound :
    (t i : ℕ) (cs : List Client)
    → find_timer t cs ≡ some i
    → (i < length cs) × ((get_or cs i zero_client).timer_fd ≡ t)
unfolding find_timer
find_timer_sound t i [] e = absurd (ground arith)
find_timer_sound t i (c ∷ cs) e = elim (Bool-cases (c.timer_fd == t)) [
  | inl same ↦
      let at : 0 ≡ i = ground (arith, e, same) in
      subst (λ j. (j < length (c ∷ cs)) × ((get_or (c ∷ cs) j zero_client).timer_fd ≡ t)) at
        (omega arith, (==_iff c.timer_fd t).0 same)
  | inr other ↦ elim (Option-cases (find_timer t cs)) [
    | inl none_left ↦ absurd (ground (arith, e, other, none_left))
    | inr (k, found) ↦
        let at : suc k ≡ i = ground (arith, e, other, found) in
        let (small, same) = find_timer_sound t k cs found in
        subst (λ j. (j < length (c ∷ cs)) × ((get_or (c ∷ cs) j zero_client).timer_fd ≡ t)) at
          (omega (arith, small), same)
  ]
]

own_removed :
    (i : ℕ) (w : Worker)
    → IsValid w
    → i < length w.clients
    → worker_remove_client (get_or w.clients i zero_client).fd w ≡ remove_client_at i w
unfolding worker_remove_client
own_removed i w v small = simp (worker_remove_client, find_client-own w.clients i v.fds small)

-- It sent too little since it connected, or nothing for too long.
abbrev pub overdue : ℕ → Worker → Client → Bool
overdue now w c = is_slow_loris now c || is_idle now w.keep_alive_timeout c

abbrev pub client_at : Worker → ℕ → Client
client_at w i = get_or w.clients i zero_client

worker_handle_timeout-found :
    (now t i : ℕ) (w : Worker)
    → find_timer t w.clients ≡ some i
    → worker_handle_timeout now t w
      ≡ (if overdue now w (client_at w i) then worker_remove_client (client_at w i).fd w else w)
unfolding worker_handle_timeout
worker_handle_timeout-found now t i w e = elim (Bool-cases (is_slow_loris now (client_at w i))) [
  | inl slow ↦ simp (worker_handle_timeout, e, slow) refl
  | inr fast ↦ simp (worker_handle_timeout, e, fast) refl
]

-- A timer of a valid worker whose client is overdue removes just that client and gives back what it
-- holds; the timer of any other client, or of none, changes nothing.
worker_handle_timeout_lem :
    (now t : ℕ) (w : Worker)
    → IsValid w
    → ((find_timer t w.clients ≡ none) × (worker_handle_timeout now t w ≡ w))
      ⊎ ((i : ℕ) × (find_timer t w.clients ≡ some i)
          × ((client_at w i).timer_fd ≡ t)
          × (((overdue now w (client_at w i) ≡ false) × (worker_handle_timeout now t w ≡ w))
              ⊎ ((overdue now w (client_at w i) ≡ true)
                  × Perm w.clients (client_at w i ∷ (worker_handle_timeout now t w).clients)
                  × ((worker_handle_timeout now t w).calls
                      ≡ w.calls ++ release_calls (client_at w i)))))
worker_handle_timeout_lem now t w v = elim (Option-cases (find_timer t w.clients)) [
  | inl e ↦ inl (e, unfold worker_handle_timeout in simp (worker_handle_timeout, e) refl)
  | inr (i, e) ↦
      let (small, same) = find_timer_sound t i w.clients e in
      let result = worker_handle_timeout-found now t i w e in
      inr (
        i,
        e,
        same,
        elim (Bool-cases (overdue now w (client_at w i))) [
          | inr early ↦ inl (early, result ∙ simp early refl)
          | inl late ↦
              let removed : worker_handle_timeout now t w ≡ remove_client_at i w =
                result ∙ simp late (own_removed i w v small) in
              inr (
                late,
                subst (λ x. Perm w.clients (client_at w i ∷ x.clients)) (sym removed)
                    (unfold remove_client_at in swap_remove-Perm i w.clients small),
                ap (λ (x : Worker). x.calls) removed ∙ (unfold remove_client_at in refl),
              )
        ],
      )
]
