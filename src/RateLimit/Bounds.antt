-- ===== src/RateLimit/Bounds.antt =====
-- The bounds that every entry of the table keeps.
use nx_lite.Base.{
  ℕ, ◌≤◌, ◌<◌, ◌≡◌, true, false, none, some, List, [], ◌∷◌, map, arith, length, get_or, set, All,
  All-set, All-get_or, All-replicate, length-set, length-map, length-replicate, ◌∙◌, Bytes,
}
use nx_lite.RateLimit.Entries.{
  Entry, Table, zero_entry, zero_table, hash_ip, rate_limit_table_size, expire_ban, admit,
  check_entry, check_rate_limit, decrement_entry, decrement_connection_count, cleanup_entry,
  cleanup_rate_limit_table, Call, check, decrement, cleanup, step, run,
}

-- An entry counts at most ten connections, and a ban in force stands on three violations.
pub record IsBounded (e : Entry) : Type 0 where
  pub connections : e.connection_count ≤ 10
  pub banned : 0 < e.ban_until → 3 ≤ e.violation_count

expire_ban-IsBounded : (now : ℕ) (e : Entry) → IsBounded e → IsBounded (expire_ban now e)
unfolding expire_ban
expire_ban-IsBounded now e b = ground arith

admit-IsBounded : (now : ℕ) (ip : Bytes) (e : Entry) → IsBounded e → IsBounded (admit now ip e).0
unfolding admit
admit-IsBounded now ip e b = ground arith

check_entry-IsBounded :
    (now : ℕ) (ip : Bytes) (e : Entry) → IsBounded e → IsBounded (check_entry now ip e).0
unfolding check_entry
check_entry-IsBounded now ip e b =
    ground (arith, admit-IsBounded now ip (expire_ban now e) (expire_ban-IsBounded now e b))

decrement_entry-IsBounded :
    (ip : Bytes) (e : Entry) → IsBounded e → IsBounded (decrement_entry ip e)
unfolding decrement_entry
decrement_entry-IsBounded ip e b = ground arith

cleanup_entry-IsBounded : (now : ℕ) (e : Entry) → IsBounded e → IsBounded (cleanup_entry now e)
unfolding cleanup_entry
cleanup_entry-IsBounded now e b = ground arith

zero_entry-IsBounded : IsBounded zero_entry
zero_entry-IsBounded = omega arith

abbrev pub IsValid : Table → Type 0
IsValid t = (length t ≡ rate_limit_table_size) × All IsBounded t

zero_table-IsValid : IsValid zero_table
unfolding zero_table
zero_table-IsValid = (
  length-replicate rate_limit_table_size zero_entry,
  All-replicate IsBounded rate_limit_table_size zero_entry zero_entry-IsBounded,
)

set-IsValid : (t : Table) (i : ℕ) (e : Entry) → IsValid t → IsBounded e → IsValid (set t i e)
set-IsValid t i e v b = (length-set t i e ∙ v.0, All-set IsBounded t i e v.1 b)

slot-IsBounded : (t : Table) (i : ℕ) → IsValid t → IsBounded (get_or t i zero_entry)
slot-IsBounded t i v = All-get_or IsBounded t i zero_entry v.1 zero_entry-IsBounded

map-IsBounded : (now : ℕ) (t : Table) → All IsBounded t → All IsBounded (map (cleanup_entry now) t)
map-IsBounded now [] a = tt
map-IsBounded now (e ∷ t) a = (cleanup_entry-IsBounded now e a.0, map-IsBounded now t a.1)

step-IsValid : (t : Table) (c : Call) → IsValid t → IsValid (step t c)
unfolding step check_rate_limit decrement_connection_count cleanup_rate_limit_table
step-IsValid t (check development_mode now none) v = v
step-IsValid t (check true now (some ip)) v = v
step-IsValid t (check false now (some ip)) v =
    set-IsValid t (hash_ip ip) _ v
      (check_entry-IsBounded now ip _ (slot-IsBounded t (hash_ip ip) v))
step-IsValid t (decrement none) v = v
step-IsValid t (decrement (some ip)) v =
    set-IsValid t (hash_ip ip) _ v
      (decrement_entry-IsBounded ip _ (slot-IsBounded t (hash_ip ip) v))
step-IsValid t (cleanup now) v = (length-map t (cleanup_entry now) ∙ v.0, map-IsBounded now t v.1)

run_keeps : (t : Table) (cs : List Call) → IsValid t → IsValid (run t cs)
unfolding run
run_keeps t [] v = v
run_keeps t (c ∷ cs) v = run_keeps (step t c) cs (step-IsValid t c v)

-- After any sequence of calls from the zero table, the table has its 1024 entries, each counts at
-- most ten connections, and each with a ban recorded has three violations or more.
pub run-IsValid : (cs : List Call) → IsValid (run zero_table cs)
run-IsValid cs = run_keeps zero_table cs zero_table-IsValid
