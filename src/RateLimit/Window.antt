-- ===== src/RateLimit/Window.antt =====
-- How many connections an address is admitted for within one window.
use nx_lite.Base.{
  ℕ, suc, ◌+◌, ◌≤◌, ◌<◌, ◌≡◌, ◌⊎◌, true, false, List, [], ◌∷◌, strcmp_eq, Bytes, if◌then◌else◌,
}
use nx_lite.RateLimit.Entries.{Entry, is_free, is_stale, expire_ban, check_entry, decrement_entry}

-- A connection attempt at a time, or the end of a connection.
pub data Event : Type 0 where
  attempt : ℕ → Event
  leave : Event

-- The number of attempts that are allowed.
unfoldable pub admitted : Bytes → Entry → List Event → ℕ
admitted ip e [] = 0
admitted ip e (attempt now ∷ es) =
    let (e', allowed) = check_entry now ip e in
    let rest = admitted ip e' es in if allowed then suc rest else rest
admitted ip e (leave ∷ es) = admitted ip (decrement_entry ip e) es

-- Every attempt is made within 60 seconds from w.
abbrev pub Within : ℕ → List Event → Type 0
Within w [] = Unit
Within w (attempt now ∷ es) = (w ≤ now) × (now < w + 60) × Within w es
Within w (leave ∷ es) = Within w es

-- The entry belongs to the address, and its window began at w.
pub record Holds (ip : Bytes) (w : ℕ) (e : Entry) : Type 0 where
  pub nonempty : is_free e ≡ false
  pub owner : strcmp_eq e.ip ip ≡ true
  pub start : e.window_start ≡ w

-- The attempt at w begins a window on the entry: it takes the entry, or the address has it, has fewer
-- than ten connections, and its window before began 60 seconds ago or more.
abbrev pub Begins : Bytes → ℕ → Entry → Type 0
Begins ip w e =
    (is_stale w ip (expire_ban w e) ≡ true)
    ⊎ ((e.connection_count < 10) × (e.window_start + 60 ≤ w))
