-- ===== src/Worker/Steps.antt =====
-- The handlers of src/worker.c that change the clients, as steps of a worker.
use nx_lite.Base.{
  ℕ, zero, suc, ◌≤◌, ◌≡◌, refl, sym, subst, ap, inl, inr, Bool, some, List, [], ◌∷◌, ◌++◌, length,
  get_or, set, length-set, arith, append-nil, length-append, Bytes,
}
use mathlib.Core.List.{Mem, Nodup, Nodup-cons, perm_middle, map}
use mathlib.Core.List.Perm
use nx_lite.Http.Send.{Socket}
use nx_lite.Worker.{
  Client, zero_client, Worker, Setup, worker_handle_connection, worker_remove_client,
  worker_handle_timeout, worker_handle_client_write, set_client, SystemCall, call,
}
use nx_lite.Http.Cache.{Cache}
use nx_lite.Worker.Data.{Incoming, System, Handled, handled, worker_handle_client_data}
use nx_lite.Worker.Data.Total.{Ends, worker_handle_client_data-Ends}
use nx_lite.Worker.Remove.{IsValid, worker_remove_client-IsValid}
use nx_lite.Worker.Keeping.{
  KeepsIfSome, worker_handle_timeout-keeps, worker_handle_client_write-keeps,
}
use nx_lite.Worker.Connection.{Outcome, worker_handle_connection_lem}

append-Nodup :
    (f : Client → ℕ) (cs : List Client) (c : Client)
    → Nodup (map f cs)
    → ¬ Mem (f c) (map f cs)
    → Nodup (map f (cs ++ c ∷ []))
append-Nodup f cs c distinct new =
    Perm.nodup (Perm.symm (Perm.map f (perm_middle cs [])))
      (rw (append-nil cs) (Nodup-cons.1 (new, distinct)))

-- Where the system gives a descriptor and a timer that no client has, the clients are valid after a
-- connection is handled, however that ends.
worker_handle_connection-IsValid :
    (now : ℕ) (s : Setup) (fd : ℕ) (w w' : Worker)
    → IsValid w
    → ¬ Mem fd (map (λ (c : Client). c.fd) w.clients)
    → ((t : ℕ) → s.timer ≡ some t → ¬ Mem t (map (λ (c : Client). c.timer_fd) w.clients))
    → worker_handle_connection now s fd w ≡ some w'
    → IsValid w'
worker_handle_connection-IsValid now s fd w w' v new new_timer e =
    elim (subst (Outcome s fd w) e (worker_handle_connection_lem now s fd w)) [
      | inl a ↦ record {
        room = omega (arith, ap length a.clients, length-append w.clients (a.client ∷ []), a.room);
        fds =
            subst (λ cs. Nodup (map (λ (c : Client). c.fd) cs)) (sym a.clients)
              (append-Nodup (λ (c : Client). c.fd) w.clients a.client v.fds
                (subst (λ x. ¬ Mem x (map (λ (c : Client). c.fd) w.clients)) (sym a.client_fd)
                  new));
        timers =
            subst (λ cs. Nodup (map (λ (c : Client). c.timer_fd) cs)) (sym a.clients)
              (append-Nodup (λ (c : Client). c.timer_fd) w.clients a.client v.timers
                (new_timer a.client.timer_fd a.timer));
      }
      | inr r ↦ record {
        room = subst (λ cs. length cs ≤ 100000) (sym r.clients) v.room;
        fds = subst (λ cs. Nodup (map (λ (c : Client). c.fd) cs)) (sym r.clients) v.fds;
        timers = subst (λ cs. Nodup (map (λ (c : Client). c.timer_fd) cs)) (sym r.clients) v.timers;
      }
    ]

map-set :
    (f : Client → ℕ) (cs : List Client) (i : ℕ) (c : Client)
    → f c ≡ f (get_or cs i zero_client)
    → map f (set cs i c) ≡ map f cs
map-set f [] i c e = refl
map-set f (d ∷ cs) zero c e = ap (λ x. x ∷ map f cs) e
map-set f (d ∷ cs) (suc i) c e = ap (◌∷◌ (f d)) (map-set f cs i c e)

-- Another record for client i with the same descriptors.
set_client-IsValid :
    (i : ℕ) (c : Client) (w : Worker)
    → c.fd ≡ (get_or w.clients i zero_client).fd
    → c.timer_fd ≡ (get_or w.clients i zero_client).timer_fd
    → IsValid w
    → IsValid (set_client i c w)
unfolding set_client
set_client-IsValid i c w same same_timer v = record {
  room = omega (arith, length-set w.clients i c, v.room);
  fds = subst Nodup (sym (map-set (λ (x : Client). x.fd) w.clients i c same)) v.fds;
  timers =
      subst Nodup (sym (map-set (λ (x : Client). x.timer_fd) w.clients i c same_timer)) v.timers;
}

IsValid-call : (more : List SystemCall) (w : Worker) → IsValid w → IsValid (call more w)
IsValid-call more w v = record { room = v.room; fds = v.fds; timers = v.timers }

IsValid-sets :
    (i : ℕ) (c : Client) (w : Worker)
    → c.fd ≡ (get_or w.clients i zero_client).fd
    → c.timer_fd ≡ (get_or w.clients i zero_client).timer_fd
    → c.buffer ≡ (get_or w.clients i zero_client).buffer
    → IsValid w
    → IsValid (set_client i c w)
IsValid-sets i c w same same_timer same_buffer v = set_client-IsValid i c w same same_timer v

-- What happens to the clients of a worker: a new connection, for which the system gives descriptors
-- that no client has; a client that is removed; a timer; a client that can be written to; and one
-- that sent data.
pub data Step : Worker → Worker → Type 0 where
  connected :
      {w w' : Worker} (now : ℕ) (s : Setup) (fd : ℕ)
      → ¬ Mem fd (map (λ (c : Client). c.fd) w.clients)
      → ((t : ℕ) → s.timer ≡ some t → ¬ Mem t (map (λ (c : Client). c.timer_fd) w.clients))
      → worker_handle_connection now s fd w ≡ some w'
      → Step w w'
  removed : {w : Worker} (fd : ℕ) → Step w (worker_remove_client fd w)
  timed : {w : Worker} (now t : ℕ) → Step w (worker_handle_timeout now t w)
  writable :
      {w w' : Worker} (now : ℕ) (io : Socket) (file : Bytes) (modified : Bool) (fd : ℕ)
      → worker_handle_client_write now io file modified fd w ≡ some w'
      → Step w w'
  readable :
      {w : Worker} {h : Handled} (sys : System) (io : Incoming) (now fd : ℕ) (cache : Cache)
      → worker_handle_client_data sys io now fd w cache ≡ handled h
      → Step w h.worker

pub data Steps : Worker → Worker → Type 0 where
  start : {w : Worker} → Steps w w
  next : {w w' w'' : Worker} → Steps w w' → Step w' w'' → Steps w w''

Step-IsValid : {w w' : Worker} → Step w w' → IsValid w → IsValid w'
Step-IsValid (connected now s fd new new_timer e) v =
    worker_handle_connection-IsValid now s fd _ _ v new new_timer e
Step-IsValid (removed fd) v = worker_remove_client-IsValid fd _ v
Step-IsValid (timed now t) v =
    worker_handle_timeout-keeps IsValid worker_remove_client-IsValid IsValid-call IsValid-sets now t
      _ v
Step-IsValid (writable now io file modified fd e) v = subst (KeepsIfSome IsValid) e (
    worker_handle_client_write-keeps IsValid worker_remove_client-IsValid IsValid-call IsValid-sets
      now io file modified fd _ v)
Step-IsValid (readable sys io now fd cache e) v = subst (Ends IsValid) e (
    worker_handle_client_data-Ends IsValid worker_remove_client-IsValid IsValid-call IsValid-sets
      sys io now fd _ cache v)

-- Through any sequence of connections, removals, timers, writes and reads, no two clients have the same
-- descriptor or the same timer, and there are at most 100000 of them.
pub Steps-IsValid : {w w' : Worker} → Steps w w' → IsValid w → IsValid w'
Steps-IsValid start v = v
Steps-IsValid (next before step) v = Step-IsValid step (Steps-IsValid before v)
