-- ===== src/Booster/Kinds/Exports.antt =====
-- The three boosters, and what the library of each has: src/mbooster/pluginfactory.cpp,
-- src/qtbooster/pluginfactory.cpp and src/qdeclarativebooster/pluginfactory.cpp.
use touch_applauncherd.Common.{ℕ, Text}

pub data Kind : Type 0 where
  m_booster qt_booster q_declarative_booster : Kind

-- The functions of no argument that a booster's library exports.
pub record Plugin : Type 0 where
  pub create : Kind
  pub type : ℕ
  pub socket_name : Text
  pub temporary_process_name : Text
