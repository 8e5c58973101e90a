-- ===== src/Log/Forgery.antt =====
-- About log_message of src/log.c for a text with a line end in it.
use nx_lite.Base.{
  ◌≤◌, ◌≡◌, refl, sym, subst, ◌∙◌, ap, Option, none, some, ◌∷◌, ◌++◌, Bytes, codes, append_assoc,
  arith, le→ltb_false,
}
use nx_lite.Log.{Level, rank, level_string, Log, append_line, message_line, log_message}

-- A line end, and then what a message with that time and text begins with.
abbrev pub forged : Level → Bytes → Bytes → Bytes
forged level timestamp text =
    10 ∷ (b'[' ∷ (timestamp ++ (codes "] [" ++ (level_string level ++ (codes "] " ++ text)))))

message_line-forged :
    (level level' : Level) (timestamp timestamp' text text' : Bytes)
    → message_line level timestamp (text ++ forged level' timestamp' text')
      ≡ message_line level timestamp text ++ message_line level' timestamp' text'
unfolding message_line
message_line-forged level level' timestamp timestamp' text text' = simp append_assoc refl

append_line-append :
    (a b : Bytes) (file : Option Bytes)
    → append_line (a ++ b) file ≡ append_line b (append_line a file)
append_line-append a b none = refl
append_line-append a b (some text) = ap some (simp append_assoc refl)

log_message-log_file :
    (level : Level) (timestamp text : Bytes) (l : Log)
    → rank l.current_level ≤ rank level
    → (log_message level timestamp text l).log_file
      ≡ append_line (message_line level timestamp text) l.log_file
unfolding log_message
log_message-log_file level timestamp text l h =
    rw (le→ltb_false (rank level) (rank l.current_level) h) refl

log_message-current_level :
    (level : Level) (timestamp text : Bytes) (l : Log)
    → (log_message level timestamp text l).current_level ≡ l.current_level
unfolding log_message
log_message-current_level level timestamp text l = ground arith

-- A message is not sanitized: one whose text holds a line end and the beginning of a line leaves the
-- same log file as two messages, the second with a level, a time and a text of the sender's choice.
log_message-forged :
    (level level' : Level) (timestamp timestamp' text text' : Bytes) (l : Log)
    → rank l.current_level ≤ rank level
    → rank l.current_level ≤ rank level'
    → (log_message level timestamp (text ++ forged level' timestamp' text') l).log_file
      ≡ (log_message level' timestamp' text' (log_message level timestamp text l)).log_file
log_message-forged level level' timestamp timestamp' text text' l h h' =
    log_message-log_file level timestamp (text ++ forged level' timestamp' text') l h
    ∙ ap (λ s. append_line s l.log_file)
        (message_line-forged level level' timestamp timestamp' text text')
    ∙ append_line-append (message_line level timestamp text) (message_line level' timestamp' text')
        l.log_file
    ∙ ap (append_line (message_line level' timestamp' text'))
        (sym (log_message-log_file level timestamp text l h))
    ∙ sym (
        log_message-log_file level' timestamp' text' (log_message level timestamp text l) (
          subst (λ c. rank c ≤ rank level') (sym (log_message-current_level level timestamp text l))
            h'))
