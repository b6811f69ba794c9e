-- ===== src/Booster/Kinds/QtBooster.antt =====
-- src/qtbooster/qtbooster.cpp: the constants of the class QtBooster, and src/qtbooster/pluginfactory.cpp.
use touch_applauncherd.Common.{ℕ, Text, codes}
use touch_applauncherd.Booster.Kinds.Exports.{Plugin, qt_booster}

unfoldable pub type : ℕ
type = b'q'

-- m_socketId, which `socketId()` and `socketName()` return.
unfoldable pub socket_id : Text
socket_id = codes "/tmp/boostq"

-- m_temporaryProcessName, which `temporaryProcessName()` returns.
unfoldable pub temporary_process_name : Text
temporary_process_name = codes "booster-q"

-- The library's functions.
unfoldable pub plugin : Plugin
plugin = record {
  create = qt_booster;
  type = type;
  socket_name = socket_id;
  temporary_process_name = temporary_process_name;
}
