-- ===== src/RateLimit/Entries.antt =====
-- rate_limit_entry_t, hash_ip, check_rate_limit, decrement_connection_count and
-- cleanup_rate_limit_table. A time_t is a number of seconds; `now - t > k` and `now - t >= k` are
-- false for k > 0 where now < t, and so they are with the subtraction that stops at 0.
use nx_lite.Base.{
  ℕ, ◌+◌, ◌-◌, ◌*◌, ◌^◌, ◌%◌, Bool, true, false, not, ◌&&◌, ◌||◌, Option, none, some, List, [], ◌∷◌,
  map, ltb, leb, ◌==◌, if◌then◌else◌, get_or, set, take, replicate, Bytes, strcmp_eq, djb2,
}

abbrev pub rate_limit_window : ℕ
rate_limit_window = 60

abbrev pub rate_limit_max_requests : ℕ
rate_limit_max_requests = 100

abbrev pub rate_limit_table_size : ℕ
rate_limit_table_size = 1024

abbrev pub ban_duration : ℕ
ban_duration = 300

abbrev pub max_violations_before_ban : ℕ
max_violations_before_ban = 3

abbrev pub max_concurrent_connections_per_ip : ℕ
max_concurrent_connections_per_ip = 10

-- The size of client_ip and of the ip field, with the terminating NUL.
abbrev pub inet_addrstrlen : ℕ
inet_addrstrlen = 16

pub record Entry : Type 0 where
  pub ip : Bytes
  pub window_start : ℕ
  pub request_count : ℕ
  pub last_request : ℕ
  pub violation_count : ℕ
  pub ban_until : ℕ
  pub connection_count : ℕ

abbrev pub zero_entry : Entry
zero_entry = record {
  ip = [];
  window_start = 0;
  request_count = 0;
  last_request = 0;
  violation_count = 0;
  ban_until = 0;
  connection_count = 0;
}

abbrev pub Table : Type 0
Table = List Entry

-- The static table before the first call.
unfoldable pub zero_table : Table
zero_table = replicate rate_limit_table_size zero_entry

unfoldable pub hash_ip : Bytes → ℕ
unfolding djb2
hash_ip ip = djb2 (2 ^ 32) 5381 ip % rate_limit_table_size

abbrev pub is_free : Entry → Bool
is_free e = elim e.ip [ [] ↦ true | c ∷ s ↦ false ]

abbrev pub is_banned : ℕ → Entry → Bool
is_banned now e = ltb 0 e.ban_until && ltb now e.ban_until

-- The ban that has run out is lifted.
unfoldable pub expire_ban : ℕ → Entry → Entry
expire_ban now e =
    if ltb 0 e.ban_until && leb e.ban_until now
    then record e { ban_until = 0; violation_count = 0 }
    else e

-- A new address, or one whose window is long over, takes the entry.
abbrev pub is_stale : ℕ → Bytes → Entry → Bool
is_stale now ip e =
    is_free e || not (strcmp_eq e.ip ip) || ltb (rate_limit_window * 2) (now - e.window_start)

abbrev pub take_entry : ℕ → Bytes → Entry → Entry
take_entry now ip e = record e {
  ip = take (inet_addrstrlen - 1) ip;
  window_start = now;
  request_count = 1;
  last_request = now;
  connection_count = 1;
}

abbrev pub new_window : ℕ → Entry → Entry
new_window now e = record e {
  window_start = now;
  request_count = 1;
  last_request = now;
  connection_count = e.connection_count + 1;
}

abbrev pub count_request : ℕ → Entry → Entry
count_request now e = record e {
  request_count = e.request_count + 1;
  last_request = now;
  connection_count = e.connection_count + 1;
}

abbrev pub count_violation : ℕ → Entry → Entry
count_violation now e =
    if leb max_violations_before_ban (e.violation_count + 1)
    then record e { violation_count = e.violation_count + 1; ban_until = now + ban_duration }
    else record e { violation_count = e.violation_count + 1 }

-- What check_rate_limit does below the test on a ban in force.
unfoldable pub admit : ℕ → Bytes → Entry → Entry × Bool
admit now ip e =
    if is_stale now ip e
    then (take_entry now ip e, true)
    else if leb max_concurrent_connections_per_ip e.connection_count
    then (e, false)
    else if leb rate_limit_window (now - e.window_start)
    then (new_window now e, true)
    else if ltb rate_limit_max_requests (count_request now e).request_count
    then (count_violation now (count_request now e), false)
    else (count_request now e, true)

unfoldable pub check_entry : ℕ → Bytes → Entry → Entry × Bool
check_entry now ip e = if is_banned now e then (e, false) else admit now ip (expire_ban now e)

-- The address is a null pointer or a string.
unfoldable pub check_rate_limit : Bool → ℕ → Option Bytes → Table → Table × Bool
check_rate_limit development_mode now none t = (t, false)
check_rate_limit true now (some ip) t = (t, true)
check_rate_limit false now (some ip) t =
    let i = hash_ip ip in
    let (e, allowed) = check_entry now ip (get_or t i zero_entry) in (set t i e, allowed)

unfoldable pub decrement_entry : Bytes → Entry → Entry
decrement_entry ip e =
    if not (is_free e) && strcmp_eq e.ip ip && ltb 0 e.connection_count
    then record e { connection_count = e.connection_count - 1 }
    else e

unfoldable pub decrement_connection_count : Option Bytes → Table → Table
decrement_connection_count none t = t
decrement_connection_count (some ip) t =
    set t (hash_ip ip) (decrement_entry ip (get_or t (hash_ip ip) zero_entry))

unfoldable pub cleanup_entry : ℕ → Entry → Entry
cleanup_entry now e =
    if not (is_free e) && e.ban_until == 0 && ltb (rate_limit_window * 4) (now - e.last_request)
    then zero_entry
    else e

unfoldable pub cleanup_rate_limit_table : ℕ → Table → Table
unfolding cleanup_entry
cleanup_rate_limit_table now t = map (cleanup_entry now) t

-- The calls that the worker makes, with the time of each.
pub data Call : Type 0 where
  check : Bool → ℕ → Option Bytes → Call
  decrement : Option Bytes → Call
  cleanup : ℕ → Call

unfoldable pub step : Table → Call → Table
step t (check development_mode now ip) = (check_rate_limit development_mode now ip t).0
step t (decrement ip) = decrement_connection_count ip t
step t (cleanup now) = cleanup_rate_limit_table now t

unfoldable pub run : Table → List Call → Table
run t [] = t
run t (c ∷ cs) = run (step t c) cs
