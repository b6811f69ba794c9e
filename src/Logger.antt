-- ===== src/Logger.antt =====
-- src/launcherlib/logger.cpp: the log of the daemon and its boosters. The other models leave their
-- messages out, since nothing that they do depends on them.
pub mod Recorded
mod Tests
use touch_applauncherd.Common.{ℕ, Bool, true, false, if◌then◌else◌, List, [], ◌∷◌, Text, codes}
use touch_applauncherd.Common.Exits.{Run, ◌>>=◌, ◌>>◌, pure, exit, get, modify, when}

-- LOG_DEBUG, LOG_INFO, LOG_WARNING and LOG_ERR
pub data Priority : Type 0 where
  debug info warning err : Priority

-- A format and its `va_list`: the text that a print makes of them, by how many prints have read the
-- list before. The C library defines only the first.
abbrev pub Message : Type 0
Message = ℕ → Text

-- The calls of the C library.
pub data Output : Type 0 where
  openlog : Text → Output
  closelog : Output
  vprintf : Text → Output
  vsyslog : Priority → Text → Output
  vfprintf_stderr : Text → Output

-- The static members, and what was written, newest first.
pub record Logger : Type 0 where
  pub m_is_opened : Bool
  pub m_debug_mode : Bool
  pub outputs : List Output

unfoldable pub new_logger : Logger
new_logger = record { m_is_opened = false; m_debug_mode = false; outputs = [] }

abbrev put_output : Output → Run Logger (Unit {0})
put_output o = modify λ l. record l { outputs = o ∷ l.outputs }

unfoldable pub open_log : Text → Run Logger (Unit {0})
open_log prog_name = do
  put_output (openlog prog_name)
  modify (λ l. record l { m_is_opened = true })

unfoldable pub close_log : Run Logger (Unit {0})
close_log = do
  l ← get
  when l.m_is_opened (do put_output closelog; modify (λ l. record l { m_is_opened = false }))

-- The result is how many prints have read the `va_list`.
unfoldable pub write_log : Priority → Message → Run Logger ℕ
write_log priority message = do
  l ← get
  if l.m_is_opened
      then (do
        when l.m_debug_mode (do put_output (vprintf (message 0)); put_output (vprintf (codes "\n")))
        put_output (vsyslog priority (message (if l.m_debug_mode then 1 else 0)))
        pure (if l.m_debug_mode then 2 else 1))
      else pure 0

unfoldable pub log_debug : Message → Run Logger (Unit {0})
log_debug message = do l ← get; when l.m_debug_mode (do write_log debug message; pure tt)

unfoldable pub log_info : Message → Run Logger (Unit {0})
log_info message = do write_log info message; pure tt

unfoldable pub log_warning : Message → Run Logger (Unit {0})
log_warning message = do write_log warning message; pure tt

unfoldable pub log_error : Message → Run Logger (Unit {0})
log_error message = do write_log err message; pure tt

unfoldable pub log_error_and_die : ℕ → Message → Run Logger (Unit {0})
log_error_and_die code message = do
  reads ← write_log err message
  put_output (vfprintf_stderr (message reads))
  exit code

unfoldable pub set_debug_mode : Bool → Run Logger (Unit {0})
set_debug_mode enable = modify λ l. record l { m_debug_mode = enable }
