-- ===== src/BoosterPluginRegistry.antt =====
-- src/launcherlib/boosterpluginregistry.h and .cpp, and boosterfactory.cpp: the loaded boosters.
-- A plugin's functions are addresses in its library, which the parameter `Os` calls.
pub mod Laws
mod Tests
use touch_applauncherd.Common.{
  ℕ, ◌≤◌, ◌||◌, ◌==◌, leb, if◌then◌else◌, List, [], ◌∷◌, Option, none, some, codes, length,
  get_elem?,
}
use touch_applauncherd.Common.Int.{ℤ, pos, negsuc}
use touch_applauncherd.Os.{Os}

pub record BoosterPluginEntry : Type 0 where
  pub type : ℕ
  pub create_func : ℕ
  pub socket_name_func : ℕ
  pub temporary_process_name_func : ℕ

abbrev pub Registry : Type 0
Registry = List BoosterPluginEntry

-- `pluginEntry(char)`: the first entry of the type; `none` is NULL.
unfoldable pub plugin_entry : ℕ → Registry → Option BoosterPluginEntry
plugin_entry type [] = none
plugin_entry type (e ∷ es) = if e.type == type then some e else plugin_entry type es

unfoldable pub plugin_count : Registry → ℕ
plugin_count r = length r

-- `pluginEntry(int)`
unfoldable pub plugin_entry_at : ℤ → Registry → Option BoosterPluginEntry
plugin_entry_at (negsuc n) r = none
plugin_entry_at (pos i) r = if leb (length r) i then none else get_elem? r i

-- The stores through the pointer that `pluginEntry` gave, or into a new entry at the back.
unfoldable pub register_plugin : ℕ → ℕ → ℕ → ℕ → Registry → Registry
register_plugin type create socket_name process_name [] =
    record {
      type = type;
      create_func = create;
      socket_name_func = socket_name;
      temporary_process_name_func = process_name;
    }
    ∷ []
register_plugin type create socket_name process_name (e ∷ es) =
    if e.type == type
    then record {
      type = type;
      create_func = create;
      socket_name_func = socket_name;
      temporary_process_name_func = process_name;
    }
      ∷ es
    else e ∷ register_plugin type create socket_name process_name es

module _ (os : Os) where
  -- The type of the plugin, or 0 and the registry as it was.
  unfoldable pub validate_and_register_plugin : ℕ → Registry → ℕ × Registry
  validate_and_register_plugin handle r = elim (os.dlsym handle (codes "create")) [
    | none ↦ (0, r)
    | some create ↦ elim (os.dlsym handle (codes "type")) [
      | none ↦ (0, r)
      | some type ↦ elim (os.dlsym handle (codes "socketName")) [
        | none ↦ (0, r)
        | some socket_name ↦ elim (os.dlsym handle (codes "temporaryProcessName")) [
          | none ↦ (0, r)
          | some process_name ↦ (
            os.call_char type,
            register_plugin (os.call_char type) create socket_name process_name r,
          )
        ]
      ]
    ]
  ]

-- `BoosterFactory::create`: the address of the function that makes the booster; `none` is NULL.
unfoldable pub create : ℕ → Registry → Option ℕ
create type r = elim (plugin_entry type r) [ none ↦ none | some e ↦ some e.create_func ]
