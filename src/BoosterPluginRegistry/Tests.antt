-- ===== src/BoosterPluginRegistry/Tests.antt =====
-- The registry with one booster.
use touch_applauncherd.Common.{◌≡◌, refl, ◌==◌, if◌then◌else◌, [], ◌∷◌, some}
use touch_applauncherd.Os.{Os}
use touch_applauncherd.Wire.Queued.{queue_os}
use touch_applauncherd.BoosterPluginRegistry.{
  Registry, plugin_entry, register_plugin, validate_and_register_plugin,
}
use touch_applauncherd.BoosterPluginRegistry.Laws.{
  Registers, plugin_entry-register_plugin, validate_and_register_plugin_lem,
}

abbrev registry : Registry
registry =
    record { type = b'q'; create_func = 2; socket_name_func = 2; temporary_process_name_func = 2 }
    ∷ []

plugin_entry-register_plugin_example : plugin_entry b'q' (register_plugin b'm' 3 4 5 registry) ≡ (
    if b'm' == b'q'
    then some (record {
      type = b'm';
      create_func = 3;
      socket_name_func = 4;
      temporary_process_name_func = 5;
    })
    else plugin_entry b'q' registry)
plugin_entry-register_plugin_example = plugin_entry-register_plugin b'm' b'q' 3 4 5 registry

abbrev os : Os
os = queue_os []

validate_and_register_plugin_lem_example :
    Registers os 1 registry (validate_and_register_plugin os 1 registry)
unfolding plugin_entry
validate_and_register_plugin_lem_example = validate_and_register_plugin_lem os 1 registry (refl, tt)
