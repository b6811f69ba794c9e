-- ===== src/Booster/Kinds/QDeclarativeBooster.antt =====
-- src/qdeclarativebooster/qdeclarativebooster.cpp: the constants of the class QDeclarativeBooster, and src/qdeclarativebooster/pluginfactory.cpp.
use touch_applauncherd.Common.{ℕ, Text, codes}
use touch_applauncherd.Booster.Kinds.Exports.{Plugin, q_declarative_booster}

unfoldable pub type : ℕ
type = b'd'

-- m_socketId, which `socketId()` and `socketName()` return.
unfoldable pub socket_id : Text
socket_id = codes "/tmp/boostd"

-- m_temporaryProcessName, which `temporaryProcessName()` returns.
unfoldable pub temporary_process_name : Text
temporary_process_name = codes "booster-d"

-- The library's functions.
unfoldable pub plugin : Plugin
plugin = record {
  create = q_declarative_booster;
  type = type;
  socket_name = socket_id;
  temporary_process_name = temporary_process_name;
}
