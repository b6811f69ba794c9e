-- ===== src/Launcher/Tests.antt =====
-- A start of the launcher on a display.
use touch_applauncherd.Common.{◌≡◌, refl, [], ◌∷◌, none, some, codes, text_eq, if◌then◌else◌}
use touch_applauncherd.Common.Exits.{done}
use touch_applauncherd.Os.{Os, Call}
use touch_applauncherd.Wire.Queued.{queue_os}
use touch_applauncherd.Launcher.{main, help_wanted}
use touch_applauncherd.Launcher.Libraries.{g_libs}
use touch_applauncherd.Launcher.Starting.{all_opened, main_lem}

-- TMPDIR is not set, and the library and its main() are found.
abbrev system : Os
system = record (queue_os []) {
  getenv = λ h name. if text_eq name (codes "DISPLAY") then some (codes ":0") else none;
  dlopen_handle = λ path. some 3;
  dlsym = λ handle name. some 4;
}

main_lem_example :
    main system (codes "lib.so") [] (record { calls = [] })
    ≡ done 0 (record {
      calls =
          Call.dlclose 3
          ∷ Call.call_main 4
          ∷ Call.dlopen_with 1 (codes "lib.so")
          ∷ all_opened g_libs (Call.setenv (codes "TMPDIR") (codes "/var/tmp") ∷ []);
    })
unfolding g_libs help_wanted
main_lem_example = main_lem system (codes "lib.so") [] (codes ":0") (record { calls = [] }) refl
