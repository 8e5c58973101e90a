-- ===== src/Worker/Start/Outcomes.antt =====
-- How worker_init of src/worker.c ends.
use nx_lite.Base.{
  true, ℕ, ◌≡◌, refl, sym, subst, ◌⊎◌, inl, inr, ◌&&◌, none, some, List, [], ◌∷◌, ◌++◌,
  if◌then◌else◌, Option-cases, Bool-cases, arith, Bool, false,
}
use mathlib.Core.List.{Nodup, Nodup-cons}
use mathlib.Mathlib.Data.List.Nodup.{Nodup-singleton}
use nx_lite.Mempool.{Pool, mempool_init, mempool_cleanup, free_memory, free_headers}
use nx_lite.Mempool.Cleanup.{mempool_cleanup-mempool_init}
use nx_lite.Worker.{Worker, SystemCall, epoll_add, close_fd, all_set}
use nx_lite.Worker.Remove.{IsValid}
use nx_lite.Worker.Steps.{Steps, Steps-IsValid}
use nx_lite.Worker.Start.{
  Startup, StartResult, WorkerArray, events, clients, connection_pool, started, refused, new_worker,
  make_arrays, open_worker, worker_init,
}

-- The arrays that were made until one could not be.
abbrev pub made_before : (WorkerArray → Bool) → List WorkerArray → List WorkerArray
made_before can_make [] = []
made_before can_make (a ∷ arrays) =
    let more = made_before can_make arrays in if can_make a then a ∷ more else []

-- The pool could not be made, or was not reached.
abbrev pub HasNoPool : Startup → Type 0
HasNoPool s =
    (all_set s.handlers && s.affinity ≡ false)
    ⊎ (mempool_init s.thread s.mutex s.memory 8192 10000 ≡ none)

-- What is left of a descriptor of epoll, and of the arrays.
abbrev pub ClosesEpoll : Startup → List SystemCall → List WorkerArray → Type 0
ClosesEpoll s calls arrays =
    ((s.epoll_fd ≡ none) × (calls ≡ []) × (arrays ≡ []))
    ⊎ ((epoll_fd : ℕ) × (before : List SystemCall) × (s.epoll_fd ≡ some epoll_fd)
        × (calls ≡ before ++ close_fd epoll_fd ∷ [])
        × (((s.nonblocking && s.epoll ≡ false) × (arrays ≡ []))
            ⊎ ((s.nonblocking && s.epoll ≡ true)
                × (arrays ≡ made_before s.arrays (events ∷ clients ∷ connection_pool ∷ [])))))

-- What is closed and given back when a worker is not started.
abbrev pub StartsOrReleases : Startup → ℕ → StartResult → Type 0
StartsOrReleases s server_fd (started w epoll_fd) =
    (s.epoll_fd ≡ some epoll_fd)
    × IsValid w
    × (w.clients ≡ [])
    × (w.calls ≡ epoll_add server_fd ∷ [])
    × (mempool_init s.thread s.mutex s.memory 8192 10000 ≡ some w.buffer_pool)
StartsOrReleases s server_fd (refused calls releases arrays) =
    (HasNoPool s × (calls ≡ []) × (releases ≡ []) × (arrays ≡ []))
    ⊎ ((start : ℕ) × (s.memory.blocks ≡ some start)
        × (releases ≡ free_memory start 81920000 ∷ free_headers 0 ∷ [])
        × ClosesEpoll s calls arrays)

none_twice : Nodup {A = ℕ} []
none_twice = (Nodup-cons.0 (Nodup-singleton 0)).1

new_worker-IsValid : (server_fd : ℕ) (pool : Pool) → IsValid (new_worker server_fd pool)
new_worker-IsValid server_fd pool = record {
  room = omega arith;
  fds = none_twice;
  timers = none_twice;
}

-- The pool's one chunk is given back by any of the ends behind it.
releases-StartsOrReleases :
    (s : Startup) (server_fd : ℕ) (pool : Pool) (calls : List SystemCall)
    (arrays : List WorkerArray)
    → mempool_init s.thread s.mutex s.memory 8192 10000 ≡ some pool
    → ClosesEpoll s calls arrays
    → StartsOrReleases s server_fd (refused calls (mempool_cleanup pool).1 arrays)
releases-StartsOrReleases s server_fd pool calls arrays made closed =
    let (start, given, released) =
      mempool_cleanup-mempool_init s.thread s.mutex s.memory 8192 10000 pool made in
    inr (start, given, released, closed)

make_arrays-StartsOrReleases :
    (s : Startup) (server_fd epoll_fd : ℕ) (pool : Pool)
    → mempool_init s.thread s.mutex s.memory 8192 10000 ≡ some pool
    → s.epoll_fd ≡ some epoll_fd
    → s.nonblocking && s.epoll ≡ true
    → StartsOrReleases s server_fd (make_arrays s server_fd epoll_fd pool)
unfolding make_arrays
make_arrays-StartsOrReleases s server_fd epoll_fd pool made opened reached =
    elim (Bool-cases (s.arrays events)) [
      | inr f ↦ rw f (refuse [] (rw f refl))
      | inl t ↦ elim (Bool-cases (s.arrays clients)) [
        | inr f ↦ rw (t, f) (refuse (events ∷ []) (rw (t, f) refl))
        | inl u ↦ elim (Bool-cases (s.arrays connection_pool)) [
          | inr f ↦ rw (t, u, f) (refuse (events ∷ clients ∷ []) (rw (t, u, f) refl))
          | inl v ↦ rw (t, u, v) (opened, new_worker-IsValid server_fd pool, refl, refl, made)
        ]
      ]
    ]
  where
    refuse :
        (arrays : List WorkerArray)
        → arrays ≡ made_before s.arrays (events ∷ clients ∷ connection_pool ∷ [])
        → StartsOrReleases s server_fd
            (refused (epoll_add server_fd ∷ close_fd epoll_fd ∷ []) (mempool_cleanup pool).1 arrays)
    refuse arrays those =
        releases-StartsOrReleases s server_fd pool _ arrays made
          (inr (epoll_fd, epoll_add server_fd ∷ [], opened, refl, inr (reached, those)))

open_worker-StartsOrReleases :
    (s : Startup) (server_fd : ℕ) (pool : Pool)
    → mempool_init s.thread s.mutex s.memory 8192 10000 ≡ some pool
    → StartsOrReleases s server_fd (open_worker s server_fd pool)
unfolding open_worker
open_worker-StartsOrReleases s server_fd pool made = elim (Option-cases s.epoll_fd) [
  | inl e ↦
      let opened : open_worker s server_fd pool ≡ refused [] (mempool_cleanup pool).1 [] =
        simp (open_worker, e) refl in
      subst (StartsOrReleases s server_fd) (sym opened)
        (releases-StartsOrReleases s server_fd pool [] [] made (inl (e, refl, refl)))
  | inr (epoll_fd, e) ↦
      let r =
        if s.nonblocking && s.epoll
        then make_arrays s server_fd epoll_fd pool
        else refused (close_fd epoll_fd ∷ []) (mempool_cleanup pool).1 [] in
      let opened : open_worker s server_fd pool ≡ r = simp (open_worker, e) refl in
      subst (StartsOrReleases s server_fd) (sym opened)
        (elim (Bool-cases (s.nonblocking && s.epoll)) [
          | inr f ↦ rw f (
              releases-StartsOrReleases s server_fd pool (close_fd epoll_fd ∷ []) [] made
                (inr (epoll_fd, [], e, refl, inl (f, refl))))
          | inl t ↦ rw t (make_arrays-StartsOrReleases s server_fd epoll_fd pool made e t)
        ])
]

pub worker_init-StartsOrReleases :
    (s : Startup) (server_fd : ℕ) → StartsOrReleases s server_fd (worker_init s server_fd)
unfolding worker_init
worker_init-StartsOrReleases s server_fd = elim (Bool-cases (all_set s.handlers && s.affinity)) [
  | inr f ↦ without_pool (inl f) (simp (worker_init, f) refl)
  | inl t ↦ elim (Option-cases (mempool_init s.thread s.mutex s.memory 8192 10000)) [
    | inl e ↦ without_pool (inr e) (simp (worker_init, t, e) refl)
    | inr (pool, e) ↦
        let opened : worker_init s server_fd ≡ open_worker s server_fd pool =
          simp (worker_init, t, e) refl in
        subst (StartsOrReleases s server_fd) (sym opened)
          (open_worker-StartsOrReleases s server_fd pool e)
  ]
]
  where
    without_pool :
        HasNoPool s
        → worker_init s server_fd ≡ refused [] [] []
        → StartsOrReleases s server_fd (worker_init s server_fd)
    without_pool no_pool e =
        subst (StartsOrReleases s server_fd) (sym e) (inl (no_pool, refl, refl, refl))

-- A worker that was started and then ran through any connections, removals, timers, writes and reads
-- has no two clients with the same descriptor or the same timer, and at most 100000 of them.
pub started_worker-IsValid :
    (s : Startup) (server_fd epoll_fd : ℕ) (w w' : Worker)
    → worker_init s server_fd ≡ started w epoll_fd
    → Steps w w'
    → IsValid w'
started_worker-IsValid s server_fd epoll_fd w w' e steps =
    Steps-IsValid steps
      (subst (StartsOrReleases s server_fd) e (worker_init-StartsOrReleases s server_fd)).1
