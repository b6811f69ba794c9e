-- ===== src/Booster/Kinds/MBooster.antt =====
-- src/mbooster/mbooster.cpp: the constants of the class MBooster, and src/mbooster/pluginfactory.cpp.
use touch_applauncherd.Common.{ℕ, Text, codes}
use touch_applauncherd.Booster.Kinds.Exports.{Plugin, m_booster}

unfoldable pub type : ℕ
type = b'm'

-- m_socketId, which `socketId()` and `socketName()` return.
unfoldable pub socket_id : Text
socket_id = codes "/tmp/boostm"

-- m_temporaryProcessName, which `temporaryProcessName()` returns.
unfoldable pub temporary_process_name : Text
temporary_process_name = codes "booster-m"

-- The library's functions.
unfoldable pub plugin : Plugin
plugin = record {
  create = m_booster;
  type = type;
  socket_name = socket_id;
  temporary_process_name = temporary_process_name;
}
