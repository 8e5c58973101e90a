-- ===== src/Config/Keys.antt =====
-- What a line of the configuration sets, by the keys of parse_config_line in src/config.c.
use nx_lite.Base.{
  ◌==◌, ℕ, ◌<◌, ◌≤◌, ◌≡◌, refl, sym, ◌∙◌, ap, inl, inr, true, false, ◌||◌, [], ◌∷◌, ◌++◌, take,
  length, length-append, Bytes, codes, has_byte, strcmp_eq, isspace, All, arith, Bool-cases,
  append_assoc,
}
use nx_lite.Http.Etag.{trim_end}
use nx_lite.Http.Parse.{skip_whitespace}
use nx_lite.Config.{Settings, atoi, trim_whitespace, set_value, is_skipped, parse_config_line}
use nx_lite.Config.Lines.{parse_config_line-assignment}

pub data Key : Type 0 where
  port worker_processes root log max_connections keep_alive_timeout development_mode : Key

abbrev pub key_name : Key → Bytes
key_name port = codes "port"
key_name worker_processes = codes "worker_processes"
key_name root = codes "root"
key_name log = codes "log"
key_name max_connections = codes "max_connections"
key_name keep_alive_timeout = codes "keep_alive_timeout"
key_name development_mode = codes "development_mode"

-- The setting that a key stands for.
abbrev pub assign : Key → Bytes → Settings → Settings
assign port v s = record s { port = atoi v }
assign worker_processes v s = record s { worker_count = atoi v }
assign root v s = record s { root_dir = take 255 v }
assign log v s = record s { log_file = take 255 v }
assign max_connections v s = record s { max_connections = atoi v }
assign keep_alive_timeout v s = record s { keep_alive_timeout = atoi v }
assign development_mode v s = record s {
  development_mode = strcmp_eq v (codes "true") || strcmp_eq v (codes "1");
}

set_value-assign : (k : Key) (v : Bytes) (s : Settings) → set_value (key_name k) v s ≡ assign k v s
unfolding set_value strcmp_eq
set_value-assign port v s = refl
set_value-assign worker_processes v s = refl
set_value-assign root v s = refl
set_value-assign log v s = refl
set_value-assign max_connections v s = refl
set_value-assign keep_alive_timeout v s = refl
set_value-assign development_mode v s = refl

abbrev pub Blank : Bytes → Type 0
Blank s = All (λ c. isspace c ≡ true) s

trim_end-Blank : (s : Bytes) → Blank s → trim_end s ≡ []
unfolding trim_end
trim_end-Blank [] b = refl
trim_end-Blank (c ∷ s) (blank, b) = rw (trim_end-Blank s b, blank) refl

trim_end-last :
    (s blanks : Bytes) (d : ℕ)
    → isspace d ≡ false
    → Blank blanks
    → trim_end (s ++ d ∷ blanks) ≡ s ++ d ∷ []
unfolding trim_end
trim_end-last [] blanks d solid b = rw (trim_end-Blank blanks b, solid) refl
trim_end-last (c ∷ []) blanks d solid b = rw (trim_end-last [] blanks d solid b) refl
trim_end-last (c ∷ e ∷ s) blanks d solid b = rw (trim_end-last (e ∷ s) blanks d solid b) refl

skip_whitespace-last :
    (s blanks : Bytes) (d : ℕ)
    → isspace d ≡ false
    → (c : ℕ) × (t : Bytes) × (skip_whitespace (s ++ d ∷ blanks) ≡ c ∷ t)
unfolding skip_whitespace
skip_whitespace-last [] blanks d solid = (d, blanks, rw solid refl)
skip_whitespace-last (c ∷ s) blanks d solid = elim (Bool-cases (isspace c)) [
  | inl blank ↦ let (e, t, same) = skip_whitespace-last s blanks d solid in (e, t, rw blank same)
  | inr other ↦ (c, s ++ d ∷ blanks, rw other refl)
]

-- Where there is a byte that is no blank, the blanks at the end are cut off.
trim_whitespace-last :
    (s blanks : Bytes) (d : ℕ)
    → isspace d ≡ false
    → Blank blanks
    → trim_whitespace (s ++ d ∷ blanks) ≡ s ++ d ∷ []
unfolding trim_whitespace
trim_whitespace-last s blanks d solid b =
    let (c, t, some_left) = skip_whitespace-last s blanks d solid in
    simp (trim_whitespace, some_left) (trim_end-last s blanks d solid b)

-- The name of a key by its first byte, those behind it, and its last byte.
record IsKeyword (k : Key) : Type 0 where
  first : ℕ
  others : Bytes
  name : key_name k ≡ first ∷ others
  front : Bytes
  last : ℕ
  split : key_name k ≡ front ++ last ∷ []
  solid : isspace last ≡ false
  starts : is_skipped (first ∷ []) ≡ false
  no_equals : has_byte b'=' (first ∷ others) ≡ false

key_name-IsKeyword : (k : Key) → IsKeyword k
unfolding isspace has_byte
key_name-IsKeyword port = record {
  first = b'p';
  others = codes "ort";
  name = refl;
  front = codes "por";
  last = b't';
  split = refl;
  solid = refl;
  starts = refl;
  no_equals = refl;
}
key_name-IsKeyword worker_processes = record {
  first = b'w';
  others = codes "orker_processes";
  name = refl;
  front = codes "worker_processe";
  last = b's';
  split = refl;
  solid = refl;
  starts = refl;
  no_equals = refl;
}
key_name-IsKeyword root = record {
  first = b'r';
  others = codes "oot";
  name = refl;
  front = codes "roo";
  last = b't';
  split = refl;
  solid = refl;
  starts = refl;
  no_equals = refl;
}
key_name-IsKeyword log = record {
  first = b'l';
  others = codes "og";
  name = refl;
  front = codes "lo";
  last = b'g';
  split = refl;
  solid = refl;
  starts = refl;
  no_equals = refl;
}
key_name-IsKeyword max_connections = record {
  first = b'm';
  others = codes "ax_connections";
  name = refl;
  front = codes "max_connection";
  last = b's';
  split = refl;
  solid = refl;
  starts = refl;
  no_equals = refl;
}
key_name-IsKeyword keep_alive_timeout = record {
  first = b'k';
  others = codes "eep_alive_timeout";
  name = refl;
  front = codes "keep_alive_timeou";
  last = b't';
  split = refl;
  solid = refl;
  starts = refl;
  no_equals = refl;
}
key_name-IsKeyword development_mode = record {
  first = b'd';
  others = codes "evelopment_mode";
  name = refl;
  front = codes "development_mod";
  last = b'e';
  split = refl;
  solid = refl;
  starts = refl;
  no_equals = refl;
}

Blank-no_equals :
    (s blanks : Bytes)
    → has_byte b'=' s ≡ false
    → Blank blanks
    → has_byte b'=' (s ++ blanks) ≡ false
unfolding has_byte isspace
Blank-no_equals [] [] clean b = refl
Blank-no_equals [] (c ∷ blanks) clean (blank, b) =
    ground (arith, blank, Blank-no_equals [] blanks refl b)
Blank-no_equals (c ∷ s) blanks clean b = elim (Bool-cases (c == b'=')) [
  | inl same ↦ ground (arith, clean, same)
  | inr other ↦ ground (arith, other, Blank-no_equals s blanks (ground (arith, clean, other)) b)
]

-- A line of a key, an equals sign and a value that ends in a byte that is no blank, with blanks behind
-- the key and behind the value, sets the setting of that key to the value: the blanks are cut off, those
-- in front of the value stay. The key with its blanks has at most 63 bytes, and the value with its
-- blanks at most 255, none of which is a line end.
pub parse_config_line-assign :
    (k : Key) (value : Bytes) (d : ℕ) (blanks blanks' rest : Bytes) (s : Settings)
    → isspace d ≡ false
    → Blank blanks
    → Blank blanks'
    → has_byte 10 (value ++ d ∷ blanks') ≡ false
    → length (key_name k ++ blanks) ≤ 63
    → length (value ++ d ∷ blanks') ≤ 255
    → parse_config_line ((key_name k ++ blanks) ++ b'=' ∷ ((value ++ d ∷ blanks') ++ 10 ∷ rest)) s
      ≡ assign k (value ++ d ∷ []) s
parse_config_line-assign k value d blanks blanks' rest s solid b b' no_end room room' =
    let n = key_name-IsKeyword k in
    let named : key_name k ++ blanks ≡ n.first ∷ (n.others ++ blanks) =
      ap (λ x. x ++ blanks) n.name in
    let fits : length (n.others ++ blanks) < 63 = omega (arith, room, ap length named) in
    let some_value : 0 < length (value ++ d ∷ blanks') =
      omega (arith, length-append value (d ∷ blanks')) in
    let key_trimmed : trim_whitespace (n.first ∷ (n.others ++ blanks)) ≡ key_name k =
      ap trim_whitespace (sym named)
      ∙ ap (λ x. trim_whitespace (x ++ blanks)) n.split
      ∙ ap trim_whitespace (append_assoc n.front (n.last ∷ []) blanks)
      ∙ trim_whitespace-last n.front blanks n.last n.solid b
      ∙ sym n.split in
    ap (λ x. parse_config_line (x ++ b'=' ∷ ((value ++ d ∷ blanks') ++ 10 ∷ rest)) s) named
    ∙ parse_config_line-assignment n.first (n.others ++ blanks) (value ++ d ∷ blanks') rest s
        n.starts (Blank-no_equals (n.first ∷ n.others) blanks n.no_equals b) no_end fits some_value
        room'
    ∙ ap (λ x. set_value x (trim_whitespace (value ++ d ∷ blanks')) s) key_trimmed
    ∙ ap (λ x. set_value (key_name k) x s) (trim_whitespace-last value blanks' d solid b')
    ∙ set_value-assign k (value ++ d ∷ []) s
