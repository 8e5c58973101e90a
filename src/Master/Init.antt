-- ===== src/Master/Init.antt =====
-- master_init of src/master.c: on every branch each descriptor is kept or closed.
use nx_lite.Base.{
  ℕ, suc, ◌≡◌, refl, Bool, true, false, Option, none, some, List, [], ◌∷◌, ◌++◌, replicate,
  Option-cases, inl, inr, ◌&&◌, if◌then◌else◌,
}
use nx_lite.Config.{ℤ, pos, negsuc}
use nx_lite.Master.{
  SetUp, InitResult, ready, refused, master_init, open_master, new_master, configure_tcp_socket,
  may_restart,
}

abbrev listed : Option ℕ → List ℕ
listed none = []
listed (some fd) = fd ∷ []

-- The descriptors that the master holds, and those that were closed.
abbrev pub held : InitResult → List ℕ
held (ready m) = listed m.server_fd
held (refused closed) = []

abbrev pub closed : InitResult → List ℕ
closed (ready m) = []
closed (refused fds) = fds

abbrev pub IsReady : ℕ → ℤ → InitResult → Type 0
IsReady worker_count port (ready m) =
    (m.worker_pids ≡ replicate worker_count 0) × (m.port ≡ port) × (may_restart m ≡ true)
IsReady worker_count port (refused fds) = Unit

pub open_master-holds_or_closes :
    (s : SetUp) (port : ℤ) (n : ℕ)
    → (held (open_master s port n) ++ closed (open_master s port n) ≡ listed s.socket)
      × IsReady n port (open_master s port n)
unfolding open_master
open_master-holds_or_closes s port n = elim (Option-cases s.socket) [
  | inl e ↦ simp (open_master, e) (refl, tt)
  | inr (fd, e) ↦
      let works : Bool =
        s.reuse_port
        && configure_tcp_socket s.option
        && s.bind
        && s.listen
        && s.memory
        && s.sigaction in
      let opened : open_master s port n
          ≡ (if works then ready (new_master fd port n) else refused (fd ∷ [])) =
        simp (open_master, e) refl in
      rw opened (
        rw e
          (elim works
            as (λ b.
              let r = if b then ready (new_master fd port n) else refused (fd ∷ []) in
              (held r ++ closed r ≡ fd ∷ []) × IsReady n port r) [
                | true ↦ (refl, (refl, refl, refl))
                | false ↦ (refl, tt)
              ]))
]

-- A master is set up with a positive number of workers only: for any other number -1 is returned and
-- nothing is opened. With a positive number, the socket that was opened is held by the master or
-- closed, whatever fails, and a master that is ready has that many empty slots, its port, and may
-- start workers.
master_init-holds_or_closes :
    (s : SetUp) (port : ℤ) (n : ℕ)
    → (master_init s port (negsuc n) ≡ refused [])
      × (master_init s port (pos 0) ≡ refused [])
      × (held (master_init s port (pos (suc n))) ++ closed (master_init s port (pos (suc n)))
          ≡ listed s.socket)
      × IsReady (suc n) port (master_init s port (pos (suc n)))
unfolding master_init open_master
master_init-holds_or_closes s port n = (
  refl,
  refl,
  (open_master-holds_or_closes s port (suc n)).0,
  (open_master-holds_or_closes s port (suc n)).1,
)
