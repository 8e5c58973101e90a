-- ===== src/Worker/Keeping.antt =====
-- What the handlers of timers and of clients that can be written to in src/worker.c keep of a worker.
use nx_lite.Base.{
  ℕ, ◌≡◌, refl, ◌⊎◌, inl, inr, Bool, true, false, Option, none, some, List, if◌then◌else◌, get_or,
  Bool-cases, Option-cases, Bytes, ◌∷◌, [],
}
use nx_lite.Http.Response.{Response}
use nx_lite.Http.Send.{
  Socket, complete, blocked, failure, overflow, stuck, SendCode, http_send_response,
}
use nx_lite.Worker.{
  Client, zero_client, Worker, SystemCall, epoll_mod, call, worker_remove_client,
  worker_handle_timeout, is_slow_loris, is_idle, find_timer, find_client,
  worker_handle_client_write, write_client, set_client, finish_pending, resume_reading,
}

SendCode-cases :
    (c : SendCode) → (c ≡ failure) ⊎ (c ≡ blocked) ⊎ (c ≡ complete) ⊎ (c ≡ overflow) ⊎ (c ≡ stuck)
SendCode-cases failure = inl refl
SendCode-cases blocked = inr (inl refl)
SendCode-cases complete = inr (inr (inl refl))
SendCode-cases overflow = inr (inr (inr (inl refl)))
SendCode-cases stuck = inr (inr (inr (inr refl)))

abbrev pub KeepsIfSome : (Worker → Type 0) → Option Worker → Type 0
KeepsIfSome Q none = Unit
KeepsIfSome Q (some w) = Q w

KeepsIfSome-if :
    (Q : Worker → Type 0) (b : Bool) (x y : Worker)
    → Q x
    → Q y
    → KeepsIfSome Q (if b then some x else some y)
KeepsIfSome-if Q true x y vx vy = vx
KeepsIfSome-if Q false x y vx vy = vy

-- What removing a client, a call and a change of a client keep, the handlers keep.
module _ (Q : Worker → Type 0)
    (removes : (fd : ℕ) (w : Worker) → Q w → Q (worker_remove_client fd w))
    (calls : (more : List SystemCall) (w : Worker) → Q w → Q (call more w))
    (sets : (i : ℕ) (c : Client) (w : Worker)
      → c.fd ≡ (get_or w.clients i zero_client).fd
      → c.timer_fd ≡ (get_or w.clients i zero_client).timer_fd
      → c.buffer ≡ (get_or w.clients i zero_client).buffer
      → Q w
      → Q (set_client i c w)) where
  pub worker_handle_timeout-keeps :
      (now t : ℕ) (w : Worker) → Q w → Q (worker_handle_timeout now t w)
  unfolding worker_handle_timeout
  worker_handle_timeout-keeps now t w v = elim (Option-cases (find_timer t w.clients)) [
    | inl e ↦ simp (worker_handle_timeout, e) v
    | inr (i, e) ↦
        let c = get_or w.clients i zero_client in
        let removed = removes c.fd w v in
        elim (Bool-cases (is_slow_loris now c)) [
          | inl slow ↦ simp (worker_handle_timeout, e, slow) removed
          | inr fast ↦ elim (Bool-cases (is_idle now w.keep_alive_timeout c)) [
            | inl idle ↦ simp (worker_handle_timeout, e, fast, idle) removed
            | inr busy ↦ simp (worker_handle_timeout, e, fast, busy) v
          ]
        ]
  ]

  resume_reading-keeps :
      (modified : Bool) (fd : ℕ) (w : Worker) → Q w → Q (resume_reading modified fd w)
  unfolding resume_reading
  resume_reading-keeps true fd w v = calls (epoll_mod fd ∷ []) w v
  resume_reading-keeps false fd w v = removes fd _ (calls (epoll_mod fd ∷ []) w v)

  finish_pending-keeps :
      (i : ℕ) (c : Client) (r : Response) (w : Worker)
      → Q (set_client i (record c { pending_response = none }) w)
      → Q (finish_pending i c r w)
  unfolding finish_pending
  finish_pending-keeps i c r w v = calls _ (set_client i (record c { pending_response = none }) w) v

  write_client-keeps :
      (io : Socket) (file : Bytes) (modified : Bool) (fd i : ℕ) (c : Client)
      (pending : Option Response) (w : Worker)
      → c.fd ≡ (get_or w.clients i zero_client).fd
      → c.timer_fd ≡ (get_or w.clients i zero_client).timer_fd
      → c.buffer ≡ (get_or w.clients i zero_client).buffer
      → Q w
      → KeepsIfSome Q (write_client io file modified fd i c pending w)
  unfolding write_client
  write_client-keeps io file modified fd i c none w same same_timer same_buffer v =
      resume_reading-keeps modified fd _ (sets i c w same same_timer same_buffer v)
  write_client-keeps io file modified fd i c (some r) w same same_timer same_buffer v =
      elim (SendCode-cases (http_send_response io file r).code) [
        | inl q ↦ simp (write_client, q) (removes fd _ kept)
        | inr (inl q) ↦ simp (write_client, q) kept
        | inr (inr (inl q)) ↦
            simp (write_client, q)
              (KeepsIfSome-if Q c.keep_alive _ _ (resume_reading-keeps modified fd _ finished)
                (removes fd _ finished))
        | inr (inr (inr (inl q))) ↦ simp (write_client, q) tt
        | inr (inr (inr (inr q))) ↦ simp (write_client, q) tt
      ]
    where
      kept : Q (
          set_client i
            (record c { pending_response = some (http_send_response io file r).response })
            w)
      kept =
          sets i (record c { pending_response = some (http_send_response io file r).response }) w
            same same_timer same_buffer v

      finished : Q (finish_pending i c (http_send_response io file r).response w)
      finished =
          finish_pending-keeps i c (http_send_response io file r).response w
            (sets i (record c { pending_response = none }) w same same_timer same_buffer v)

  pub worker_handle_client_write-keeps :
      (now : ℕ) (io : Socket) (file : Bytes) (modified : Bool) (fd : ℕ) (w : Worker)
      → Q w
      → KeepsIfSome Q (worker_handle_client_write now io file modified fd w)
  unfolding worker_handle_client_write
  worker_handle_client_write-keeps now io file modified fd w v =
      elim (Option-cases (find_client fd w.clients)) [
        | inl e ↦ simp (worker_handle_client_write, e) v
        | inr (i, e) ↦
            let c : Client = record (get_or w.clients i zero_client) { last_activity = now } in
            simp (worker_handle_client_write, e)
              (write_client-keeps io file modified fd i c c.pending_response w refl refl refl v)
      ]
