-- ===== src/Master/Alive.antt =====
-- The living processes in the table of src/master.c, and the handler of SIGCHLD.
use nx_lite.Base.{
  Among, here, there, replicate, ℕ, zero, suc, ◌<◌, ◌≡◌, refl, sym, ◌∙◌, ap, subst, ◌≢◌, ◌⊎◌, inl,
  inr, true, false, Option, none, some, List, [], ◌∷◌, ◌++◌, arith, get_or, set, get_or-set_ne, All,
  Bool-cases, Option-cases, ◌==◌, if◌then◌else◌, ℕ_discrete,
}
use nx_lite.Master.{
  Master, Call, reaped, terminate, kill, reload, close_socket, call, may_restart, refill, set_pid,
  clear_slot, find_pid, reap,
}
use nx_lite.Master.Reap.{find_pid_sound}

-- No two slots have the same process, and no slot has one whose end waitpid told.
pub record LivingIn (pids : List ℕ) (calls : List Call) : Type 0 where
  pub distinct : (i j : ℕ) → i ≢ j → 0 < get_or pids i 0 → get_or pids i 0 ≢ get_or pids j 0
  pub alive : (j : ℕ) → 0 < get_or pids j 0 → ¬ Among (reaped (get_or pids j 0)) calls

abbrev pub Living : Master → Type 0
Living m = LivingIn m.worker_pids m.calls

-- A process number that no slot has.
abbrev New : ℕ → List ℕ → Type 0
New p pids = (j : ℕ) → 0 < get_or pids j 0 → p ≢ get_or pids j 0

All-New : (p : ℕ) (pids : List ℕ) → All (λ q. p ≢ q) pids → New p pids
All-New p [] a j taken = absurd (omega (arith, taken))
All-New p (q ∷ pids) (n, a) zero taken = n
All-New p (q ∷ pids) (n, a) (suc j) taken = All-New p pids a j taken

get_or-set_at :
    (pids : List ℕ) (i v : ℕ) → (get_or (set pids i v) i 0 ≡ v) ⊎ (get_or (set pids i v) i 0 ≡ 0)
get_or-set_at [] i v = inr refl
get_or-set_at (p ∷ pids) zero v = inl refl
get_or-set_at (p ∷ pids) (suc i) v = get_or-set_at pids i v

-- Another slot, or this one, which has the value or is behind the table.
get_or-set_cases :
    (pids : List ℕ) (i j v : ℕ)
    → ((i ≢ j) × (get_or (set pids i v) j 0 ≡ get_or pids j 0))
      ⊎ ((i ≡ j) × ((get_or (set pids i v) j 0 ≡ v) ⊎ (get_or (set pids i v) j 0 ≡ 0)))
get_or-set_cases pids i j v = elim (ℕ_discrete i j) [
  | no ne ↦ inl (ne, get_or-set_ne pids i j v 0 ne)
  | yes e ↦ inr (
    e,
    subst (λ k. (get_or (set pids i v) k 0 ≡ v) ⊎ (get_or (set pids i v) k 0 ≡ 0)) e
        (get_or-set_at pids i v),
  )
]

New-ne : (p : ℕ) (pids : List ℕ) → New p pids → 0 < p → (j : ℕ) → p ≢ get_or pids j 0
New-ne p pids new positive j e = new j (rw (sym e) positive) e

LivingIn-set :
    (pids : List ℕ) (calls : List Call) (i v : ℕ)
    → LivingIn pids calls
    → (v ≡ 0) ⊎ (New v pids × ¬ Among (reaped v) calls)
    → LivingIn (set pids i v) calls
LivingIn-set pids calls i v l n = record { distinct = distinct; alive = alive }
  where
    fresh : 0 < v → New v pids × ¬ Among (reaped v) calls
    fresh positive = elim n [ inl e ↦ absurd (omega (arith, e, positive)) | inr f ↦ f ]

    distinct :
        (j k : ℕ)
        → j ≢ k
        → 0 < get_or (set pids i v) j 0
        → get_or (set pids i v) j 0 ≢ get_or (set pids i v) k 0
    distinct j k ne taken same = elim (get_or-set_cases pids i j v) [
      | inl (other, e) ↦ elim (get_or-set_cases pids i k v) [
        | inl (other', e') ↦ l.distinct j k ne (rw (sym e) taken) (sym e ∙ same ∙ e')
        | inr (at, inl e') ↦
            (fresh (rw (sym e') (rw (sym same) taken))).0 j (rw (sym e) taken)
              (sym e' ∙ sym same ∙ e)
        | inr (at, inr e') ↦ omega (arith, taken, same ∙ e')
      ]
      | inr (at, inr e) ↦ omega (arith, taken, e)
      | inr (at, inl e) ↦ elim (get_or-set_cases pids i k v) [
        | inl (other', e') ↦
            let positive : 0 < v = rw (sym e) taken in
            New-ne v pids (fresh positive).0 positive k (sym e ∙ same ∙ e')
        | inr (at', e') ↦ ne (sym at ∙ at')
      ]
    ]

    alive :
        (j : ℕ) → 0 < get_or (set pids i v) j 0 → ¬ Among (reaped (get_or (set pids i v) j 0)) calls
    alive j taken h = elim (get_or-set_cases pids i j v) [
      | inl (other, e) ↦ l.alive j (rw (sym e) taken) (subst (λ p. Among (reaped p) calls) e h)
      | inr (at, inr e) ↦ omega (arith, taken, e)
      | inr (at, inl e) ↦ (fresh (rw (sym e) taken)).1 (subst (λ p. Among (reaped p) calls) e h)
    ]

abbrev whose : Call → ℕ
whose (reaped p) = p
whose (terminate p) = 0
whose (kill p) = 0
whose (reload p) = 0
whose (close_socket p) = 0

pub Among-reaped :
    (p q : ℕ) (calls : List Call)
    → Among (reaped p) (calls ++ reaped q ∷ [])
    → Among (reaped p) calls ⊎ (p ≡ q)
Among-reaped p q [] (here e) = inr (ap whose e)
Among-reaped p q [] (there h) = elim h [ ]
Among-reaped p q (c ∷ calls) (here e) = inl (here e)
Among-reaped p q (c ∷ calls) (there h) = elim (Among-reaped p q calls h) [
  | inl a ↦ inl (there a)
  | inr e ↦ inr e
]

LivingIn-reaped :
    (pids : List ℕ) (calls : List Call) (pid : ℕ)
    → LivingIn pids calls
    → New pid pids
    → LivingIn pids (calls ++ reaped pid ∷ [])
LivingIn-reaped pids calls pid l new = record {
  distinct = l.distinct;
  alive = λ j taken h. elim (Among-reaped (get_or pids j 0) pid calls h) [
    | inl before ↦ l.alive j taken before
    | inr e ↦ new j taken (sym e)
  ];
}

New-cons : (pid p : ℕ) (pids : List ℕ) → pid ≢ p → New pid pids → New pid (p ∷ pids)
New-cons pid p pids ne new zero taken = ne
New-cons pid p pids ne new (suc j) taken = new j taken

find_pid-New : (pid : ℕ) (pids : List ℕ) → find_pid pid pids ≡ none → New pid pids
unfolding find_pid
find_pid-New pid [] e = λ j taken same. omega (arith, taken)
find_pid-New pid (p ∷ pids) e = elim (Bool-cases (p == pid)) [
  | inl t ↦ ground (arith, e, t)
  | inr f ↦
      let rest : find_pid pid pids ≡ none = elim (Option-cases (find_pid pid pids)) [
        | inl none_left ↦ none_left
        | inr (k, found) ↦ absurd (ground (arith, e, f, found))
      ] in
      New-cons pid p pids (λ same. ground (arith, f, same)) (find_pid-New pid pids rest)
]

-- What fork gives is no process of the table, nor one whose end is known.
abbrev pub FreshPid : Option ℕ → Master → Type 0
FreshPid none m = Unit
FreshPid (some p) m = All (λ q. p ≢ q) m.worker_pids × ¬ Among (reaped p) m.calls

pub refill-Living :
    (i : ℕ) (forked : Option ℕ) (m : Master)
    → Living m
    → FreshPid forked m
    → Living (refill i forked m)
refill-Living i none m l f = l
refill-Living i (some p) m l f =
    LivingIn-set m.worker_pids m.calls i p l (inr (All-New p m.worker_pids f.0, f.1))

clear_slot-Living :
    (o forked : Option ℕ) (pid : ℕ) (m : Master)
    → find_pid pid m.worker_pids ≡ o
    → Living m
    → FreshPid forked (call (reaped pid) m)
    → Living (clear_slot o forked (call (reaped pid) m))
clear_slot-Living none forked pid m e l f =
    LivingIn-reaped m.worker_pids m.calls pid l (find_pid-New pid m.worker_pids e)
clear_slot-Living (some i) forked pid m e l f =
    elim (may_restart m)
      as (λ b. Living (
        if b
        then refill i forked (set_pid i 0 (call (reaped pid) m))
        else set_pid i 0 (call (reaped pid) m))) [ true ↦ refilled forked f | false ↦ cleared ]
  where
    new : New pid (set m.worker_pids i 0)
    new j taken same = elim (get_or-set_cases m.worker_pids i j 0) [
      | inl (other, at) ↦
          l.distinct j i (λ x. other (sym x)) (rw (sym at) taken)
            (sym at ∙ sym same ∙ sym (find_pid_sound pid m.worker_pids i e).0)
      | inr (at, inl z) ↦ omega (arith, taken, z)
      | inr (at, inr z) ↦ omega (arith, taken, z)
    ]

    cleared : Living (set_pid i 0 (call (reaped pid) m))
    cleared =
        LivingIn-reaped (set m.worker_pids i 0) m.calls pid
          (LivingIn-set m.worker_pids m.calls i 0 l (inl refl)) new

    still_new : (p : ℕ) → All (λ q. p ≢ q) m.worker_pids → New p (set m.worker_pids i 0)
    still_new p a j taken same = elim (get_or-set_cases m.worker_pids i j 0) [
      | inl (other, at) ↦ All-New p m.worker_pids a j (rw (sym at) taken) (same ∙ at)
      | inr (at, inl z) ↦ omega (arith, taken, z)
      | inr (at, inr z) ↦ omega (arith, taken, z)
    ]

    refilled :
        (o : Option ℕ)
        → FreshPid o (call (reaped pid) m)
        → Living (refill i o (set_pid i 0 (call (reaped pid) m)))
    refilled none g = cleared
    refilled (some p) g =
        LivingIn-set (set m.worker_pids i 0) (m.calls ++ reaped pid ∷ []) i p cleared
          (inr (still_new p g.0, g.1))

pub reap-Living :
    (pid : ℕ) (forked : Option ℕ) (m : Master)
    → Living m
    → FreshPid forked (call (reaped pid) m)
    → Living (reap pid forked m)
unfolding reap
reap-Living pid forked m l f = clear_slot-Living (find_pid pid m.worker_pids) forked pid m refl l f

get_or-replicate : (n j : ℕ) → get_or (replicate n zero) j 0 ≡ zero
get_or-replicate zero j = refl
get_or-replicate (suc n) zero = refl
get_or-replicate (suc n) (suc j) = get_or-replicate n j

-- A table without processes.
pub empty-LivingIn : (n : ℕ) (calls : List Call) → LivingIn (replicate n 0) calls
empty-LivingIn n calls = record {
  distinct = λ i j ne taken. absurd (omega (arith, taken, get_or-replicate n i));
  alive = λ j taken. absurd (omega (arith, taken, get_or-replicate n j));
}
