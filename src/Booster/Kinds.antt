-- ===== src/Booster/Kinds.antt =====
-- src/mbooster, src/qtbooster and src/qdeclarativebooster: the three boosters, by what is virtual in them.
mod Exports
pub mod MBooster
pub mod QtBooster
pub mod QDeclarativeBooster
use touch_applauncherd.Common.{ℕ, Text}
use touch_applauncherd.Booster.Kinds.MBooster
use touch_applauncherd.Booster.Kinds.QtBooster
use touch_applauncherd.Booster.Kinds.QDeclarativeBooster
pub use Exports.*

-- The library that makes boosters of a kind.
abbrev pub plugin_of : Kind → Plugin
plugin_of m_booster = MBooster.plugin
plugin_of qt_booster = QtBooster.plugin
plugin_of q_declarative_booster = QDeclarativeBooster.plugin

-- `boosterType()`
unfoldable pub booster_type : Kind → ℕ
unfolding MBooster.plugin MBooster.type QtBooster.plugin QtBooster.type QDeclarativeBooster.plugin
    QDeclarativeBooster.type
booster_type kind = (plugin_of kind).type

-- `socketId()`
unfoldable pub socket_id : Kind → Text
unfolding MBooster.plugin MBooster.socket_id QtBooster.plugin QtBooster.socket_id
    QDeclarativeBooster.plugin QDeclarativeBooster.socket_id
socket_id kind = (plugin_of kind).socket_name

-- `boosterTemporaryProcessName()`
unfoldable pub temporary_process_name : Kind → Text
unfolding MBooster.plugin MBooster.temporary_process_name QtBooster.plugin
    QtBooster.temporary_process_name QDeclarativeBooster.plugin
    QDeclarativeBooster.temporary_process_name
temporary_process_name kind = (plugin_of kind).temporary_process_name
