-- ===== src/Logger/Recorded.antt =====
-- The log of src/launcherlib/logger.cpp against what it is meant to record.
use touch_applauncherd.Common.{
  ℕ, ◌≡◌, refl, Bool, true, false, ◌&&◌, if◌then◌else◌, List, [], ◌∷◌, Text, arith,
}
use touch_applauncherd.Common.Exits.{Run, ◌>>◌, pure, reached}
use touch_applauncherd.Logger.{
  Priority, debug, info, warning, err, Message, Output, openlog, closelog, vprintf, vsyslog,
  vfprintf_stderr, Logger, open_log, close_log, write_log, log_debug, log_info, log_warning,
  log_error, log_error_and_die, set_debug_mode,
}

pub data Operation : Type 0 where
  opens : Text → Operation
  closes : Operation
  logs : Priority → Message → Operation
  dies : ℕ → Message → Operation
  sets_debug : Bool → Operation

unfoldable pub apply : Operation → Run Logger (Unit {0})
apply (opens prog_name) = open_log prog_name
apply closes = close_log
apply (logs debug message) = log_debug message
apply (logs info message) = log_info message
apply (logs warning message) = log_warning message
apply (logs err message) = log_error message
apply (dies code message) = log_error_and_die code message
apply (sets_debug enable) = set_debug_mode enable

unfoldable pub apply_all : List Operation → Run Logger (Unit {0})
apply_all [] = pure tt
apply_all (op ∷ ops) = do apply op; apply_all ops

-- What the system log has, newest first.
abbrev pub syslog : List Output → List (Priority × Text)
syslog [] = []
syslog (vsyslog priority text ∷ os) = (priority, text) ∷ syslog os
syslog (openlog name ∷ os) = syslog os
syslog (closelog ∷ os) = syslog os
syslog (vprintf text ∷ os) = syslog os
syslog (vfprintf_stderr text ∷ os) = syslog os

-- Only the debug mode wants the debug messages.
abbrev pub is_wanted : Bool → Priority → Bool
is_wanted debug_mode debug = debug_mode
is_wanted debug_mode info = true
is_wanted debug_mode warning = true
is_wanted debug_mode err = true

-- The message's text in the system log, where the debug mode has printed it before.
abbrev pub text_in : Bool → Message → Text
text_in debug_mode message = message (if debug_mode then 1 else 0)

-- What the system log is to have, newest first, after operations that find it with some entries, open or
-- not, and the debug mode on or not.
abbrev pub recorded :
    (opened debug_mode : Bool) → List Operation → List (Priority × Text) → List (Priority × Text)
recorded opened debug_mode [] entries = entries
recorded opened debug_mode (opens name ∷ ops) entries = recorded true debug_mode ops entries
recorded opened debug_mode (closes ∷ ops) entries = recorded false debug_mode ops entries
recorded opened debug_mode (logs priority message ∷ ops) entries = recorded opened debug_mode ops (
    if opened && is_wanted debug_mode priority
    then (priority, text_in debug_mode message) ∷ entries
    else entries)
recorded opened debug_mode (dies code message ∷ ops) entries =
    if opened then (err, text_in debug_mode message) ∷ entries else entries
recorded opened debug_mode (sets_debug enable ∷ ops) entries = recorded opened enable ops entries

abbrev logger : (opened debug_mode : Bool) → List Output → Logger
logger opened debug_mode os = record {
  m_is_opened = opened;
  m_debug_mode = debug_mode;
  outputs = os;
}

logger-recorded :
    (ops : List Operation) (opened debug_mode : Bool) (os : List Output)
    → syslog (reached (apply_all ops (logger opened debug_mode os))).outputs
      ≡ recorded opened debug_mode ops (syslog os)
unfolding apply_all apply open_log close_log write_log log_debug log_info log_warning log_error
    log_error_and_die set_debug_mode
logger-recorded [] opened debug_mode os = refl
logger-recorded (opens name ∷ ops) opened debug_mode os = logger-recorded ops true debug_mode _
logger-recorded (closes ∷ ops) true debug_mode os = logger-recorded ops false debug_mode _
logger-recorded (closes ∷ ops) false debug_mode os = logger-recorded ops false debug_mode os
logger-recorded (logs debug message ∷ ops) true true os = logger-recorded ops true true _
logger-recorded (logs debug message ∷ ops) false true os = logger-recorded ops false true os
logger-recorded (logs debug message ∷ ops) true false os = logger-recorded ops true false os
logger-recorded (logs debug message ∷ ops) false false os = logger-recorded ops false false os
logger-recorded (logs info message ∷ ops) true true os = logger-recorded ops true true _
logger-recorded (logs info message ∷ ops) true false os = logger-recorded ops true false _
logger-recorded (logs info message ∷ ops) false debug_mode os =
    logger-recorded ops false debug_mode os
logger-recorded (logs warning message ∷ ops) true true os = logger-recorded ops true true _
logger-recorded (logs warning message ∷ ops) true false os = logger-recorded ops true false _
logger-recorded (logs warning message ∷ ops) false debug_mode os =
    logger-recorded ops false debug_mode os
logger-recorded (logs err message ∷ ops) true true os = logger-recorded ops true true _
logger-recorded (logs err message ∷ ops) true false os = logger-recorded ops true false _
logger-recorded (logs err message ∷ ops) false debug_mode os =
    logger-recorded ops false debug_mode os
logger-recorded (dies code message ∷ ops) opened debug_mode os = ground arith
logger-recorded (sets_debug enable ∷ ops) opened debug_mode os =
    logger-recorded ops opened enable os

-- Whatever is done with the log and in whatever order: the system log then has, in order and after what it
-- had, one entry for each message that was logged while the log was open, the debug messages among them only
-- in the debug mode, and nothing after a message that ends the process. Out of the debug mode the entry is
-- the message itself; in the debug mode it is what a second reading of the message's arguments gives, which
-- may differ from the message.
pub apply_all-recorded :
    (ops : List Operation) (l : Logger)
    → syslog (reached (apply_all ops l)).outputs
      ≡ recorded l.m_is_opened l.m_debug_mode ops (syslog l.outputs)
apply_all-recorded ops l = logger-recorded ops l.m_is_opened l.m_debug_mode l.outputs
