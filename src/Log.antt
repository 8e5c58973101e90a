-- ===== src/Log.antt =====
-- src/log.c and include/log.h. The text of a message after vfprintf, and the time as get_timestamp
-- writes it, are arguments; the log file is what was appended to it. A call is one step: the
-- mutex is left out.
pub mod Access
pub mod Forgery
mod Tests
use nx_lite.Base.{
  ℕ, ◌-◌, Bool, true, false, ◌&&◌, Option, none, some, List, [], ◌∷◌, ◌++◌, map, ltb, leb,
  if◌then◌else◌, take, drop, Bytes, codes,
}
use nx_lite.Http.Send.{decimal}

pub data Level : Type 0 where
  debug info warn error fatal : Level

-- The numbers of the enum.
abbrev pub rank : Level → ℕ
rank debug = 0
rank info = 1
rank warn = 2
rank error = 3
rank fatal = 4

abbrev pub level_string : Level → Bytes
level_string debug = codes "DEBUG"
level_string info = codes "INFO"
level_string warn = codes "WARN"
level_string error = codes "ERROR"
level_string fatal = codes "FATAL"

-- The text in the open log file, the level, and the text on stderr.
pub record Log : Type 0 where
  pub log_file : Option Bytes
  pub current_level : Level
  pub errors : Bytes

abbrev pub initial_log : Log
initial_log = record { log_file = none; current_level = info; errors = [] }

-- The content of the file that fopen opens to append, or none; and whether 0 is returned.
unfoldable pub log_init : Option Bytes → Log → Log × Bool
log_init file l = (record l { log_file = file }, elim file [ none ↦ false | some text ↦ true ])

abbrev pub log_set_level : Level → Log → Log
log_set_level level l = record l { current_level = level }

-- "[time] [LEVEL] text\n"
unfoldable pub message_line : Level → Bytes → Bytes → Bytes
message_line level timestamp text =
    b'[' ∷ (timestamp ++ (codes "] [" ++ (level_string level ++ (codes "] " ++ (text ++ 10 ∷ [])))))

abbrev pub append_line : Bytes → Option Bytes → Option Bytes
append_line line none = none
append_line line (some text) = some (text ++ line)

unfoldable pub log_message : Level → Bytes → Bytes → Log → Log
unfolding message_line
log_message level timestamp text l =
    if ltb (rank level) (rank l.current_level) then l else record l {
      log_file = append_line (message_line level timestamp text) l.log_file;
      errors =
          if leb (rank error) (rank level)
          then l.errors ++ message_line level timestamp text
          else l.errors;
    }

-- A char outside 32 to 126, which a byte above 127 is too.
abbrev pub safe_byte : ℕ → ℕ
safe_byte c = if leb 32 c && leb c 126 then c else b'?'

unfoldable pub sanitize_for_log : Bytes → ℕ → Bytes
sanitize_for_log s max_len = map safe_byte (take max_len s) ++ drop max_len s

-- A null pointer is written as a dash.
abbrev pub or_dash : Option Bytes → Bytes
or_dash none = codes "-"
or_dash (some s) = s

-- "ip - - [time] \"method uri\" status size", without its line end.
unfoldable pub access_line : Bytes → Option Bytes → Option Bytes → Option Bytes → ℕ → ℕ → Bytes
unfolding sanitize_for_log decimal
access_line timestamp client_ip method uri status size =
    or_dash client_ip
    ++ (codes " - - ["
        ++ (timestamp
            ++ (codes "] \""
                ++ (sanitize_for_log (take 31 (or_dash method)) 32
                    ++ (b' '
                        ∷ (sanitize_for_log (take 511 (or_dash uri)) 512
                            ++ (codes "\" "
                                ++ (decimal 20 status ++ (b' ' ∷ decimal 20 size)))))))))

-- status and response_size are not negative.
unfoldable pub log_access : Bytes → Option Bytes → Option Bytes → Option Bytes → ℕ → ℕ → Log → Log
unfolding access_line
log_access timestamp client_ip method uri status size l = record l {
  log_file =
      append_line (access_line timestamp client_ip method uri status size ++ 10 ∷ []) l.log_file;
}

abbrev pub log_cleanup : Log → Log
log_cleanup l = record l { log_file = none }
