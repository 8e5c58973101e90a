-- ===== src/Worker/Start/Sharing/Tests.antt =====
-- A worker of src/worker.c that was started and took two connections.
use nx_lite.Base.{
  ℕ, ◌≡◌, ◌≢◌, refl, sym, subst, inl, inr, true, Option, none, some, [], ◌∷◌, codes, arith,
}
use mathlib.Core.List.{Mem, map, eq-or-mem_of_mem-cons, not-mem-nil}
use mathlib.Core.HLevel.{⊥_prop}
use mathlib.Core.Logic.Or
use nx_lite.Mempool.{mempool_init, add_chunk, empty_pool}
use nx_lite.Mempool.Flush.{Distinct}
use nx_lite.Worker.{Client, Worker, Setup, worker_handle_connection}
use nx_lite.Worker.Connection.{Outcome, worker_handle_connection_lem}
use nx_lite.Worker.Steps.{Steps, start, next, connected}
use nx_lite.Worker.Buffers.{buffers, StepsFit}
use nx_lite.Worker.Start.{Startup, started, new_worker, open_worker, make_arrays, worker_init}
use nx_lite.Worker.Start.Sharing.{client_buffers-Distinct}

abbrev working : Startup
working = record {
  handlers = true ∷ true ∷ true ∷ [];
  affinity = true;
  thread = record { list = none; count = 0; next = λ p. none; address = λ p. 0 };
  mutex = true;
  memory = record { blocks = some 4096; headers = true; array = true };
  epoll_fd = some 5;
  nonblocking = true;
  epoll = true;
  arrays = λ a. true;
}

-- The system gives that timer, and no memory.
abbrev setup : ℕ → Setup
setup timer_fd = record {
  options = true ∷ true ∷ [];
  nonblocking = true;
  epoll = true;
  timer = some timer_fd;
  timer_set = true;
  timer_epoll = true;
  memory = record { blocks = none; headers = true; array = true };
  peer = some (codes "10.0.0.9");
}

abbrev first_worker : Worker
first_worker = new_worker 3 (add_chunk 4096 (empty_pool working.thread 8192 10000))

starts : worker_init working 3 ≡ started first_worker 5
unfolding worker_init open_worker make_arrays mempool_init
starts = refl

-- The worker after a connection that is handled.
abbrev or_same : Worker → Option Worker → Worker
or_same w none = w
or_same w (some w') = w'

or_same-some : (w : Worker) (o : Option Worker) → o ≢ none → o ≡ some (or_same w o)
or_same-some w none ne = absurd (ne refl)
or_same-some w (some w') ne = refl

abbrev connect : ℕ → ℕ → Worker → Worker
connect fd timer_fd w = or_same w (worker_handle_connection 100 (setup timer_fd) fd w)

abbrev one_client : Worker
one_client = connect 7 8 first_worker

first_connection : worker_handle_connection 100 (setup 8) 7 first_worker ≡ some one_client
unfolding StepsFit
first_connection =
    or_same-some first_worker (worker_handle_connection 100 (setup 8) 7 first_worker)
      (client_buffers-Distinct working 3 5 first_worker first_worker 100 (setup 8) 7 (refl, refl)
        starts start tt tt).1

not-mem-singleton : (x y : ℕ) → x ≢ y → ¬ Mem x (y ∷ [])
not-mem-singleton x y ne m = Or.elim ⊥_prop (eq-or-mem_of_mem-cons m) ne not-mem-nil

abbrev first_step : Steps first_worker one_client
first_step =
    next start (connected 100 (setup 8) 7 not-mem-nil (λ t e. not-mem-nil) first_connection)

second_fd : ¬ Mem 9 (map (λ (c : Client). c.fd) one_client.clients)
second_fd =
    elim (subst (Outcome (setup 8) 7 first_worker) first_connection
      (worker_handle_connection_lem 100 (setup 8) 7 first_worker)) [
        | inl a ↦
            subst (λ cs. ¬ Mem 9 (map (λ (c : Client). c.fd) cs)) (sym a.clients)
              (not-mem-singleton 9 a.client.fd (ground (arith, a.client_fd)))
        | inr r ↦ subst (λ cs. ¬ Mem 9 (map (λ (c : Client). c.fd) cs)) (sym r.clients) not-mem-nil
      ]

second_timer :
    (t : ℕ) → some 10 ≡ some t → ¬ Mem t (map (λ (c : Client). c.timer_fd) one_client.clients)
second_timer t e =
    elim (subst (Outcome (setup 8) 7 first_worker) first_connection
      (worker_handle_connection_lem 100 (setup 8) 7 first_worker)) [
        | inl a ↦
            subst (λ cs. ¬ Mem t (map (λ (c : Client). c.timer_fd) cs)) (sym a.clients)
              (not-mem-singleton t a.client.timer_fd (ground (arith, a.timer, e)))
        | inr r ↦
            subst (λ cs. ¬ Mem t (map (λ (c : Client). c.timer_fd) cs)) (sym r.clients) not-mem-nil
      ]

abbrev two_clients : Worker
two_clients = connect 9 10 one_client

second_connection : worker_handle_connection 100 (setup 10) 9 one_client ≡ some two_clients
second_connection =
    or_same-some one_client (worker_handle_connection 100 (setup 10) 9 one_client)
      (client_buffers-Distinct working 3 5 first_worker one_client 100 (setup 10) 9 (refl, refl)
        starts first_step first_fits tt).1
  where
    first_fits : StepsFit first_step
    first_fits = unfold StepsFit in (tt, tt)

abbrev two_steps : Steps first_worker two_clients
two_steps = next first_step (connected 100 (setup 10) 9 second_fd second_timer second_connection)

two_steps_fit : StepsFit two_steps
unfolding StepsFit
two_steps_fit = ((tt, tt), tt)

client_buffers-Distinct_example :
    Distinct (buffers two_clients.clients)
    × (worker_handle_connection 100 (setup 12) 11 two_clients ≢ none)
client_buffers-Distinct_example =
    client_buffers-Distinct working 3 5 first_worker two_clients 100 (setup 12) 11 (refl, refl)
      starts two_steps two_steps_fit tt
