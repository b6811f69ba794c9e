-- ===== src/SingleInstance.antt =====
-- src/launcherlib/singleinstance.h and singleinstance.cpp: the plugin for single instances.
use touch_applauncherd.Common.{ℕ, Bool, true, false, ◌∷◌, Option, none, some, codes}
use touch_applauncherd.Os.{Os, Call, History}

pub record SingleInstancePluginEntry : Type 0 where
  pub handle : ℕ
  pub lock_func : ℕ
  pub unlock_func : ℕ
  pub activate_existing_instance_func : ℕ

-- `m_pluginEntry`; `none` is NULL.
abbrev pub SingleInstance : Type 0
SingleInstance = Option SingleInstancePluginEntry

unfoldable pub validate_and_register_plugin : Os → ℕ → SingleInstance → Bool × SingleInstance
validate_and_register_plugin os handle entry = elim (os.dlsym handle (codes "lock")) [
  | none ↦ (false, entry)
  | some lock ↦ elim (os.dlsym handle (codes "unlock")) [
    | none ↦ (false, entry)
    | some unlock ↦ elim (os.dlsym handle (codes "activateExistingInstance")) [
      | none ↦ (false, entry)
      | some activate ↦ (
        true,
        some (record {
          handle = handle;
          lock_func = lock;
          unlock_func = unlock;
          activate_existing_instance_func = activate;
        }),
      )
    ]
  ]
]

-- The new entry and the calls.
unfoldable pub close_plugin : SingleInstance → History → SingleInstance × History
close_plugin none calls = (none, calls)
close_plugin (some e) calls = (none, Call.dlclose e.handle ∷ calls)
