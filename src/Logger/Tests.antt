-- ===== src/Logger/Tests.antt =====
-- A run of the log: a debug message out of the debug mode, one in it, and one after the end.
use touch_applauncherd.Common.{◌≡◌, zero, suc, true, List, [], ◌∷◌, Text, codes}
use touch_applauncherd.Common.Exits.{reached}
use touch_applauncherd.Logger.{debug, warning, err, Message, new_logger}
use touch_applauncherd.Logger.Recorded.{
  Operation, opens, closes, logs, dies, sets_debug, apply_all, syslog, apply_all-recorded,
}

-- A message that a second print garbles.
abbrev garbled : Text → Message
garbled text zero = text
garbled text (suc n) = codes "?"

abbrev operations : List Operation
operations =
    opens (codes "applauncherd")
    ∷ logs debug (garbled (codes "lost"))
    ∷ logs warning (garbled (codes "kept"))
    ∷ sets_debug true
    ∷ logs debug (garbled (codes "twice"))
    ∷ closes
    ∷ logs err (garbled (codes "late"))
    ∷ dies 1 (garbled (codes "end"))
    ∷ opens (codes "never")
    ∷ []

apply_all-recorded_example :
    syslog (reached (apply_all operations new_logger)).outputs
    ≡ (debug, codes "?") ∷ (warning, codes "kept") ∷ []
unfolding new_logger
apply_all-recorded_example = apply_all-recorded operations new_logger
