-- ===== src/RateLimit/Bans.antt =====
-- When a connection is admitted, and how long a ban lasts.
use nx_lite.Base.{
  ℕ, ◌+◌, ◌-◌, ◌≤◌, ◌<◌, ◌≡◌, refl, ◌∙◌, ap, ◌≢◌, ◌⊎◌, inl, inr, ◌↔◌, Bool, true, false, none, some,
  List, [], ◌∷◌, map, arith, length, get_or, set, get_or-set_self, get_or-set_ne, get_or-map,
  length-set, length-map, ℕ_discrete, set-get_or, strcmp_eq, strcmp_eq_refl, strcmp_eq_sound,
  Bool-cases, Bytes, sym, leb, if◌then◌else◌,
}
use nx_lite.RateLimit.Entries.{
  Entry, Table, zero_entry, hash_ip, rate_limit_table_size, is_stale, expire_ban, admit,
  check_entry, check_rate_limit, decrement_entry, decrement_connection_count, cleanup_entry,
  cleanup_rate_limit_table, Call, check, decrement, cleanup, step, run,
}

-- An address has the entry, or the entry is free for it to take.
abbrev pub Owns : ℕ → Bytes → Entry → Type 0
Owns now ip e = (e.ip ≢ []) × (e.ip ≡ ip) × (now - e.window_start ≤ 120)

abbrev pub Allowed : ℕ → Bytes → Entry → Type 0
Allowed now ip e =
    (e.ban_until ≤ now)
    × (Owns now ip e
        → (e.connection_count < 10) × ((60 ≤ now - e.window_start) ⊎ (e.request_count < 100)))

not_stale-Owns : (now : ℕ) (ip : Bytes) (e : Entry) → is_stale now ip e ≡ false → Owns now ip e
not_stale-Owns now ip e h = ground (arith, strcmp_eq_sound e.ip ip)

stale-not-Owns : (now : ℕ) (ip : Bytes) (e : Entry) → is_stale now ip e ≡ true → ¬ Owns now ip e
stale-not-Owns now ip e h (nonempty, same, recent) =
    ground (arith, nonempty, same, recent, strcmp_eq_refl ip, ap (strcmp_eq e.ip) same)

expire_ban_parts :
    (now : ℕ) (e : Entry)
    → ((expire_ban now e).ip ≡ e.ip)
      × ((expire_ban now e).window_start ≡ e.window_start)
      × ((expire_ban now e).connection_count ≡ e.connection_count)
      × ((expire_ban now e).request_count ≡ e.request_count)
unfolding expire_ban
expire_ban_parts now e = ground arith

-- What `admit` answers, by the tests on its entry.
admit-allows :
    (now : ℕ) (ip : Bytes) (e : Entry)
    → (Owns now ip e
        → (e.connection_count < 10) × ((60 ≤ now - e.window_start) ⊎ (e.request_count < 100)))
    → (admit now ip e).1 ≡ true
admit-allows now ip e h = elim (Bool-cases (is_stale now ip e)) [
  | inl s ↦ unfold admit in ground arith
  | inr s ↦
      let g : (e.connection_count < 10) × ((60 ≤ now - e.window_start) ⊎ (e.request_count < 100)) =
        h (not_stale-Owns now ip e s) in
      unfold admit in rw s (ground (arith, g))
]

admit-allowed :
    (now : ℕ) (ip : Bytes) (e : Entry)
    → (admit now ip e).1 ≡ true
    → Owns now ip e
    → (e.connection_count < 10) × ((60 ≤ now - e.window_start) ⊎ (e.request_count < 100))
unfolding admit
admit-allowed now ip e h o = elim (Bool-cases (is_stale now ip e)) [
  | inl s ↦ absurd (stale-not-Owns now ip e s o)
  | inr s ↦ ground (arith, s)
]

-- A connection is allowed exactly when no ban is in force and, if the address has the entry and its
-- window began 120 seconds ago or less, it has fewer than ten connections and either its window
-- began 60 seconds ago or more or it has made fewer than 100 requests in it.
pub check_entry-Allowed :
    (now : ℕ) (ip : Bytes) (e : Entry) → ((check_entry now ip e).1 ≡ true) ↔ Allowed now ip e
unfolding check_entry
check_entry-Allowed now ip e = (forth, back)
  where
    parts : Owns now ip e → Owns now ip (expire_ban now e)
    parts o = ground (arith, expire_ban_parts now e, o)

    forth : (check_entry now ip e).1 ≡ true → Allowed now ip e
    forth h = (
      ground arith,
      λ o. ground (
        arith,
        expire_ban_parts now e,
        admit-allowed now ip (expire_ban now e) (ground arith) (parts o),
      ),
    )

    back : Allowed now ip e → (check_entry now ip e).1 ≡ true
    back (late, fits) = ground (
      arith,
      late,
      admit-allows now ip (expire_ban now e) (λ o.
          ground (arith, expire_ban_parts now e, fits (ground (arith, expire_ban_parts now e, o)))),
    )

-- The time of a check, which the other calls do not limit.
abbrev pub Before : ℕ → Call → Type 0
Before b (check development_mode now ip) = now < b
Before b (decrement ip) = Unit
Before b (cleanup now) = Unit

abbrev pub AllBefore : ℕ → List Call → Type 0
AllBefore b [] = Unit
AllBefore b (c ∷ cs) = Before b c × AllBefore b cs

abbrev pub slot : Table → ℕ → Entry
slot t i = get_or t i zero_entry

pub hash_ip-lt : (ip : Bytes) → hash_ip ip < rate_limit_table_size
unfolding hash_ip
hash_ip-lt ip = omega arith

pub slot-set_self : (t : Table) (i : ℕ) (e : Entry) → i < length t → slot (set t i e) i ≡ e
slot-set_self t i e h = get_or-set_self t i e zero_entry h

length-step : (t : Table) (c : Call) → length (step t c) ≡ length t
unfolding step check_rate_limit decrement_connection_count cleanup_rate_limit_table
length-step t (check development_mode now none) = refl
length-step t (check true now (some ip)) = refl
length-step t (check false now (some ip)) = length-set t _ _
length-step t (decrement none) = refl
length-step t (decrement (some ip)) = length-set t _ _
length-step t (cleanup now) = length-map t (cleanup_entry now)

-- A write at `i` of an entry with the ban that was there keeps every ban.
set_keeps_ban :
    (t : Table) (i j b : ℕ) (e : Entry)
    → j < length t
    → (slot t j).ban_until ≡ b
    → ((slot t i).ban_until ≡ b → e.ban_until ≡ b)
    → (slot (set t i e) j).ban_until ≡ b
set_keeps_ban t i j b e size ban keep = elim (ℕ_discrete i j) [
  | yes p ↦
      ap (λ (x : Entry). x.ban_until) (ap (λ k. slot (set t k e) j) p ∙ slot-set_self t j e size)
      ∙ keep (ap (λ k. (slot t k).ban_until) p ∙ ban)
  | no p ↦ ap (λ (x : Entry). x.ban_until) (get_or-set_ne t i j e zero_entry p) ∙ ban
]

check_entry_banned :
    (now b : ℕ) (ip : Bytes) (e : Entry)
    → now < b
    → e.ban_until ≡ b
    → check_entry now ip e ≡ (e, false)
unfolding check_entry
check_entry_banned now b ip e h p = ground arith

decrement_entry_ban : (ip : Bytes) (e : Entry) → (decrement_entry ip e).ban_until ≡ e.ban_until
unfolding decrement_entry
decrement_entry_ban ip e = ground arith

step_keeps_ban :
    (t : Table) (c : Call) (j b : ℕ)
    → j < length t
    → 0 < b
    → Before b c
    → (slot t j).ban_until ≡ b
    → (slot (step t c) j).ban_until ≡ b
unfolding step check_rate_limit decrement_connection_count cleanup_rate_limit_table
step_keeps_ban t (check development_mode now none) j b size pos h ban = ban
step_keeps_ban t (check true now (some ip)) j b size pos h ban = ban
step_keeps_ban t (check false now (some ip)) j b size pos h ban =
    set_keeps_ban t (hash_ip ip) j b _ size ban
      (λ p. ap (λ (r : Entry × Bool). r.0.ban_until) (check_entry_banned now b ip _ h p) ∙ p)
step_keeps_ban t (decrement none) j b size pos h ban = ban
step_keeps_ban t (decrement (some ip)) j b size pos h ban =
    set_keeps_ban t (hash_ip ip) j b _ size ban (λ p. decrement_entry_ban ip _ ∙ p)
step_keeps_ban t (cleanup now) j b size pos h ban =
    let e : slot (map (cleanup_entry now) t) j ≡ cleanup_entry now (slot t j) = cleaned in
    rw e (unfold cleanup_entry in ground arith)
  where
    cleaned : slot (map (cleanup_entry now) t) j ≡ cleanup_entry now (slot t j)
    cleaned = get_or-map (cleanup_entry now) t j zero_entry

run_keeps_ban :
    (t : Table) (cs : List Call) (j b : ℕ)
    → j < length t
    → 0 < b
    → AllBefore b cs
    → (slot t j).ban_until ≡ b
    → (slot (run t cs) j).ban_until ≡ b
unfolding run
run_keeps_ban t [] j b size pos h ban = ban
run_keeps_ban t (c ∷ cs) j b size pos h ban =
    run_keeps_ban (step t c) cs j b (omega (arith, length-step t c)) pos h.1
      (step_keeps_ban t c j b size pos h.0 ban)

-- From a table of 1024 entries where the entry of an address is banned until `b`: after any calls
-- whose checks are made before `b`, a check of the address before `b` outside development mode
-- answers no and changes nothing.
banned_until :
    (t : Table) (cs : List Call) (ip : Bytes) (now b : ℕ)
    → length t ≡ rate_limit_table_size
    → (slot t (hash_ip ip)).ban_until ≡ b
    → AllBefore b cs
    → now < b
    → check_rate_limit false now (some ip) (run t cs) ≡ (run t cs, false)
unfolding check_rate_limit
banned_until t cs ip now b size ban h early =
    rw (check_entry_banned now b ip (slot (run t cs) (hash_ip ip)) early kept)
      (ap (λ (x : Table). (x, false)) (set-get_or (run t cs) (hash_ip ip) zero_entry))
  where
    kept : (slot (run t cs) (hash_ip ip)).ban_until ≡ b
    kept = run_keeps_ban t cs (hash_ip ip) b (omega (arith, hash_ip-lt ip)) (omega arith) h ban

-- The entry belongs to the address, its window is younger than 60 seconds, and there is room for one
-- more connection but not for one more request.
pub record Exceeds (now : ℕ) (ip : Bytes) (e : Entry) : Type 0 where
  pub owner : e.ip ≡ ip
  pub nonempty : ip ≢ []
  pub not_banned : e.ban_until ≡ 0
  pub in_window : now - e.window_start < 60
  pub room : e.connection_count < 10
  pub full : 100 ≤ e.request_count

Exceeds-not_stale :
    (now : ℕ) (ip : Bytes) (e : Entry) → Exceeds now ip e → is_stale now ip e ≡ false
Exceeds-not_stale now ip e x = elim (Bool-cases (is_stale now ip e)) [
  | inl s ↦ absurd (
      stale-not-Owns now ip e s (
        (λ n. x.nonempty (sym x.owner ∙ n)),
        x.owner,
        (let h : now - e.window_start < 60 = x.in_window in omega arith),
      ))
  | inr s ↦ s
]

-- A check that exceeds the limit is refused, counts one more violation and one more connection, and
-- from the third violation on bans the entry for 300 seconds.
check_entry-Exceeds :
    (now : ℕ) (ip : Bytes) (e : Entry)
    → Exceeds now ip e
    → ((check_entry now ip e).1 ≡ false)
      × ((check_entry now ip e).0.violation_count ≡ e.violation_count + 1)
      × ((check_entry now ip e).0.connection_count ≡ e.connection_count + 1)
      × ((check_entry now ip e).0.ban_until ≡ (if leb 2 e.violation_count then now + 300 else 0))
unfolding check_entry expire_ban admit
check_entry-Exceeds now ip e x =
    ground (arith, Exceeds-not_stale now ip e x, x.not_banned, x.in_window, x.room, x.full)

-- The third violation locks the address out: after it and any calls whose checks are made within
-- 300 seconds, a check of the address within these 300 seconds is refused.
pub third_violation_bans :
    (t : Table) (cs : List Call) (ip : Bytes) (now later : ℕ)
    → length t ≡ rate_limit_table_size
    → Exceeds now ip (slot t (hash_ip ip))
    → 2 ≤ (slot t (hash_ip ip)).violation_count
    → AllBefore (now + 300) cs
    → later < now + 300
    → (check_rate_limit false later (some ip) (run t (check false now (some ip) ∷ cs))).1 ≡ false
unfolding run
third_violation_bans t cs ip now later size x many h early =
    ap (λ (r : Table × Bool). r.1)
      (banned_until (step t (check false now (some ip))) cs ip later (now + 300)
        (length-step t (check false now (some ip)) ∙ size) banned h early)
  where
    e : Entry
    e = slot t (hash_ip ip)

    written : (check_entry now ip e).0.ban_until ≡ now + 300
    written = ground (arith, check_entry-Exceeds now ip e x)

    banned : (slot (step t (check false now (some ip))) (hash_ip ip)).ban_until ≡ now + 300
    banned =
        unfold step check_rate_limit in
        ap (λ (y : Entry). y.ban_until)
          (slot-set_self t (hash_ip ip) (check_entry now ip e).0 (omega (arith, hash_ip-lt ip)))
        ∙ written

-- An address that takes the entry of another address, where no ban is recorded, is admitted with a
-- request count of one and is charged with the violations of that other address.
takeover_keeps_violations :
    (now : ℕ) (ip : Bytes) (e : Entry)
    → e.ip ≢ ip
    → e.ban_until ≡ 0
    → ((check_entry now ip e).1 ≡ true)
      × ((check_entry now ip e).0.violation_count ≡ e.violation_count)
      × ((check_entry now ip e).0.request_count ≡ 1)
unfolding check_entry expire_ban admit
takeover_keeps_violations now ip e other free = elim (Bool-cases (is_stale now ip e)) [
  | inl s ↦ ground (arith, s, free)
  | inr s ↦ absurd (other (not_stale-Owns now ip e s).1)
]
