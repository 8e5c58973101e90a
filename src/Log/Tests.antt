-- ===== src/Log/Tests.antt =====
-- The log at concrete calls.
use nx_lite.Base.{◌≡◌, refl, false, none, some, [], ◌∷◌, ◌++◌, Bytes, codes, arith, All, has_byte}
use nx_lite.Http.Send.{decimal}
use nx_lite.Log.{debug, Log, initial_log, access_line, sanitize_for_log, log_message, log_access}
use nx_lite.Log.Access.{IsPrintable, log_access_one_line}

abbrev open_log : Log
open_log = record initial_log { log_file = some [] }

debug_filtered : log_message debug (codes "10:00") (codes "hidden") open_log ≡ open_log
unfolding log_message
debug_filtered = refl

line_end_replaced :
    (log_access
      (codes "10:00")
      none
      (some (codes "GET"))
      (some (47 ∷ 10 ∷ 200 ∷ []))
      200
      5
      open_log).log_file
    ≡ some (codes "- - - [10:00] \"GET /??\" 200 5\n")
unfolding log_access access_line sanitize_for_log decimal
line_end_replaced = refl

log_access_one_line_example :
    (line : Bytes) × ((log_access
        (codes "10:00")
        none
        (some (codes "GET"))
        (some (47 ∷ 10 ∷ []))
        200
        5
        open_log).log_file
      ≡ some (line ++ 10 ∷ []))
    × All IsPrintable line
    × (has_byte 10 line ≡ false)
log_access_one_line_example =
    log_access_one_line (codes "10:00") [] none (some (codes "GET")) (some (47 ∷ 10 ∷ [])) 200 5
      open_log (omega arith) (omega arith) refl
