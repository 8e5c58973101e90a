-- ===== src/RateLimit/Tests.antt =====
-- Runs of the rate limiter, and the theorems at concrete inputs.
use nx_lite.Base.{
  ◌≡◌, refl, ◌↔◌, true, false, some, List, [], ◌∷◌, arith, codes, Bytes, length-replicate, set,
  length-set, ◌∙◌, subst, sym, length, strcmp_eq,
}
use nx_lite.RateLimit.Entries.{
  Entry, Table, zero_entry, zero_table, hash_ip, rate_limit_table_size, take_entry, check_entry,
  check_rate_limit, check, decrement, cleanup, run, expire_ban, admit, decrement_entry,
}
use nx_lite.RateLimit.Bounds.{IsValid, run-IsValid}
use nx_lite.RateLimit.Bans.{
  Allowed, check_entry-Allowed, slot, slot-set_self, hash_ip-lt, Exceeds, third_violation_bans,
}
use nx_lite.RateLimit.Window.{Event, attempt, leave, admitted}

abbrev localhost : Bytes
localhost = codes "127.0.0.1"

abbrev other_host : Bytes
other_host = codes "10.0.0.7"

hash_ip-localhost : hash_ip localhost ≡ 538
unfolding hash_ip
hash_ip-localhost = refl

-- An entry of `localhost` with a full window, at time 1000.
abbrev full_entry : Entry
full_entry = record (take_entry 1000 localhost zero_entry) {
  request_count = 100;
  violation_count = 2;
}

abbrev banned_entry : Entry
banned_entry = record full_entry { violation_count = 3; ban_until = 1310 }

abbrev table_with : Entry → Table
table_with e = set zero_table (hash_ip localhost) e

table_size : (e : Entry) → length (table_with e) ≡ rate_limit_table_size
unfolding zero_table
table_size e = length-set zero_table _ e ∙ length-replicate rate_limit_table_size zero_entry

slot-table_with : (e : Entry) → slot (table_with e) (hash_ip localhost) ≡ e
slot-table_with e = slot-set_self zero_table (hash_ip localhost) e (
    let n : length zero_table ≡ rate_limit_table_size =
      unfold zero_table in length-replicate rate_limit_table_size zero_entry in
    omega (arith, hash_ip-lt localhost))

full_entry-Exceeds : Exceeds 1010 localhost full_entry
full_entry-Exceeds = record {
  owner = refl;
  nonempty = λ e. cc;
  not_banned = refl;
  in_window = omega arith;
  room = omega arith;
  full = omega arith;
}

run-IsValid_example : IsValid (
    run zero_table (check false 5 (some localhost) ∷ decrement (some localhost) ∷ cleanup 400 ∷ []))
run-IsValid_example =
    run-IsValid (check false 5 (some localhost) ∷ decrement (some localhost) ∷ cleanup 400 ∷ [])

check_entry-Allowed_example :
    ((check_entry 1010 localhost full_entry).1 ≡ true) ↔ Allowed 1010 localhost full_entry
check_entry-Allowed_example = check_entry-Allowed 1010 localhost full_entry

third_violation_bans_example :
    (check_rate_limit false 1309 (some localhost) (
      run
        (table_with full_entry)
        (check false 1010 (some localhost) ∷ decrement (some localhost) ∷ []))).1
    ≡ false
third_violation_bans_example =
    third_violation_bans (table_with full_entry) (decrement (some localhost) ∷ []) localhost 1010
      1309 (table_size full_entry)
      (subst (Exceeds 1010 localhost) (sym (slot-table_with full_entry)) full_entry-Exceeds)
      (rw (slot-table_with full_entry) (omega arith)) (omega arith) (omega arith)

abbrev visits : List Event
visits = attempt 1001 ∷ leave ∷ attempt 1059 ∷ []

-- The attempts are counted, and the entry is released.
visits-admitted : admitted localhost zero_entry (attempt 1000 ∷ visits) ≡ 3
unfolding admitted check_entry expire_ban decrement_entry strcmp_eq admit
visits-admitted = refl
