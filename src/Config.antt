-- ===== src/Config.antt =====
-- src/config.c and include/config.h: the settings of the server and the file they are read from. The
-- content of the file is an argument. An int is an integer; atoi is that of a C library whose long has
-- 64 bits.
pub mod Lines
pub mod Keys
pub mod Reload
mod Tests
use nx_lite.Base.{
  ℕ, zero, suc, ◌+◌, ◌-◌, ◌*◌, ◌%◌, ◌^◌, Bool, true, false, not, ◌&&◌, ◌||◌, Option, none, some,
  List, [], ◌∷◌, ◌++◌, ltb, leb, ◌==◌, if◌then◌else◌, length, take, Bytes, codes, strcmp_eq,
  isspace,
}
use nx_lite.Http.Parse.{skip_whitespace}
use nx_lite.Http.Etag.{trim_end}

pub data ℤ : Type 0 where
  pos negsuc : ℕ → ℤ

pub record Settings : Type 0 where
  pub port : ℤ
  pub worker_count : ℤ
  pub root_dir : Bytes
  pub log_file : Bytes
  pub max_connections : ℤ
  pub keep_alive_timeout : ℤ
  pub development_mode : Bool

unfoldable pub config_init : Settings
config_init = record {
  port = pos 8080;
  worker_count = pos 4;
  root_dir = codes "./static";
  log_file = codes "./logs/access.log";
  max_connections = pos 10000;
  keep_alive_timeout = pos 60;
  development_mode = false;
}

-- Blanks at the end are cut off, unless there is nothing else. The caller keeps the pointer to the
-- blanks in front.
unfoldable pub trim_whitespace : Bytes → Bytes
trim_whitespace s = elim (skip_whitespace s) [ [] ↦ s | c ∷ t ↦ trim_end s ]

-- %n[^stop]: the bytes up to one that is `stop`, at most n, and what follows them.
unfoldable pub scan_until : ℕ → ℕ → Bytes → Bytes × Bytes
scan_until zero stop s = ([], s)
scan_until (suc n) stop [] = ([], [])
scan_until (suc n) stop (c ∷ s) =
    let rest = scan_until n stop s in if c == stop then ([], c ∷ s) else (c ∷ rest.0, rest.1)

-- The value behind a key.
unfoldable pub scan_value : Bytes → Bytes → Option (Bytes × Bytes)
unfolding scan_until
scan_value key [] = none
scan_value key (c ∷ s) =
    let value = (scan_until 255 10 s).0 in
    if not (length key == 0) && (c == b'=' && not (length value == 0))
    then some (key, value)
    else none

-- sscanf(line, "%63[^=]=%255[^\n]", key, value) == 2
unfoldable pub scan_line : Bytes → Option (Bytes × Bytes)
unfolding scan_value
scan_line line = let scanned = scan_until 63 b'=' line in scan_value scanned.0 scanned.1

unfoldable pub digits : ℕ → Bytes → ℕ
digits n [] = n
digits n (c ∷ s) =
    let rest = digits (10 * n + (c - 48)) s in if leb 48 c && leb c 57 then rest else n

-- The low 32 bits of a long, as an int.
abbrev pub to_int : ℕ → ℤ
to_int n = if ltb (n % 2 ^ 32) (2 ^ 31) then pos (n % 2 ^ 32) else negsuc (2 ^ 32 - n % 2 ^ 32 - 1)

abbrev pub at_most : ℕ → ℕ → ℕ
at_most limit n = if ltb limit n then limit else n

-- A number outside the range of a long is cut to its end.
unfoldable pub atoi : Bytes → ℤ
unfolding digits
atoi s = elim (skip_whitespace s) [
  | [] ↦ pos 0
  | c ∷ t ↦
      if c == b'-'
      then to_int (2 ^ 64 - at_most (2 ^ 63) (digits 0 t))
      else if c == b'+'
      then to_int (at_most (2 ^ 63 - 1) (digits 0 t))
      else to_int (at_most (2 ^ 63 - 1) (digits 0 (c ∷ t)))
]

unfoldable pub set_value : Bytes → Bytes → Settings → Settings
set_value key value s =
    if strcmp_eq key (codes "port")
    then record s { port = atoi value }
    else if strcmp_eq key (codes "worker_processes")
    then record s { worker_count = atoi value }
    else if strcmp_eq key (codes "root")
    then record s { root_dir = take 255 value }
    else if strcmp_eq key (codes "log")
    then record s { log_file = take 255 value }
    else if strcmp_eq key (codes "max_connections")
    then record s { max_connections = atoi value }
    else if strcmp_eq key (codes "keep_alive_timeout")
    then record s { keep_alive_timeout = atoi value }
    else if strcmp_eq key (codes "development_mode")
    then record s {
      development_mode = strcmp_eq value (codes "true") || strcmp_eq value (codes "1");
    }
    else s

-- A comment or an empty line.
abbrev pub is_skipped : Bytes → Bool
is_skipped [] = true
is_skipped (c ∷ s) = c == b'#' || c == 10

-- The settings; a line that is no setting leaves them.
unfoldable pub parse_config_line : Bytes → Settings → Settings
unfolding scan_line set_value trim_whitespace
parse_config_line line s = if is_skipped line then s else elim (scan_line line) [
  | none ↦ s
  | some (key, value) ↦ set_value (trim_whitespace key) (trim_whitespace value) s
]

-- fgets: the bytes up to and with a line end, at most n, and what follows them.
unfoldable pub fgets : ℕ → Bytes → Bytes × Bytes
fgets zero s = ([], s)
fgets (suc n) [] = ([], [])
fgets (suc n) (c ∷ s) =
    let rest = fgets n s in if c == 10 then (c ∷ [], s) else (c ∷ rest.0, rest.1)

-- One round for each byte is enough.
unfoldable pub load_lines : ℕ → Bytes → Settings → Settings
unfolding fgets parse_config_line
load_lines zero text s = s
load_lines (suc fuel) text s =
    let (line, rest) = fgets 511 text in
    elim line [ [] ↦ s | c ∷ t ↦ load_lines fuel rest (parse_config_line (c ∷ t) s) ]

-- The content of the file, without NUL bytes, or none if it cannot be opened.
unfoldable pub config_load : Option Bytes → Settings → Option Settings
unfolding load_lines
config_load none s = none
config_load (some text) s = some (load_lines (length text) text s)

unfoldable pub config_reload : Option Bytes → Settings → Option Settings
unfolding config_load
config_reload file s = elim (config_load file config_init) [
  | none ↦ none
  | some fresh ↦ some (record s {
    worker_count = fresh.worker_count;
    root_dir = take 255 fresh.root_dir;
    log_file = take 255 fresh.log_file;
    keep_alive_timeout = fresh.keep_alive_timeout;
    development_mode = fresh.development_mode;
  })
]
