-- ===== src/Launcher/Starting.antt =====
-- main() of src/launcher/launcher.c, by the calls that it makes.
use touch_applauncherd.Common.{
  ℕ, ◌≡◌, refl, Bool, true, not, false, if◌then◌else◌, List, [], ◌∷◌, Option, none, some, Text,
  codes, arith,
}
use touch_applauncherd.Common.Exits.{◌>>=◌, pure, when, Outcome, done, exit_success, exit_failure}
use touch_applauncherd.Os.{Os, Call, History}
use touch_applauncherd.Launcher.{
  Launcher, help_wanted, set_tmpdir, load_libraries, invoke_launcher_lib, main,
}
use touch_applauncherd.Launcher.Libraries.{g_libs}
use touch_applauncherd.Launcher.Preloading.{listed, openings, load_libraries_lem}

-- Each library opened under its own name, at once and for all to use, newest first.
abbrev pub all_opened : List Text → History → History
all_opened [] h = h
all_opened (lib ∷ libs) h = all_opened libs (Call.dlopen_with 258 lib ∷ h)

-- No line of the array is a comment, too short, or has a letter in front.
openings-g_libs : (h : History) → openings (listed g_libs) h ≡ all_opened g_libs h
unfolding g_libs
openings-g_libs h = refl

-- The environment variable that is set if it is not.
abbrev pub with_tmpdir : Os → History → History
with_tmpdir os h = elim (os.getenv h (codes "TMPDIR")) [
  | none ↦ Call.setenv (codes "TMPDIR") (codes "/var/tmp") ∷ h
  | some dir ↦ h
]

-- The daemon's library and its main(), if both are found.
abbrev pub entry_of : Os → Text → Option (ℕ × ℕ)
entry_of os library = elim (os.dlopen_handle library) [
  | none ↦ none
  | some handle ↦ elim (os.dlsym handle (codes "main")) [
    | none ↦ none
    | some entry ↦ some (handle, entry)
  ]
]

-- The end of the launcher's main() after some calls.
abbrev pub ended : Option (ℕ × ℕ) → Text → History → Outcome Launcher ℕ
ended none library h = done exit_failure (record { calls = Call.dlopen_with 1 library ∷ h })
ended (some (handle, entry)) library h =
    done exit_success (record {
      calls = Call.dlclose handle ∷ Call.call_main entry ∷ Call.dlopen_with 1 library ∷ h;
    })

invoke_launcher_lib_lem :
    (os : Os) (library : Text) (l : Launcher)
    → (invoke_launcher_lib os library >>= λ invoked.
          pure (if invoked then exit_success else exit_failure))
        l
      ≡ ended (entry_of os library) library l.calls
unfolding invoke_launcher_lib
invoke_launcher_lib_lem os library l = ground arith

set_tmpdir_lem :
    (os : Os) (library : Text) (l : Launcher)
    → set_tmpdir os library l ≡ done tt (record { calls = with_tmpdir os l.calls })
unfolding set_tmpdir
set_tmpdir_lem os library l = ground arith

loads_lem :
    (help : Bool) (l : Launcher)
    → when (not help) (load_libraries g_libs) l
      ≡ done tt (record { calls = if help then l.calls else all_opened g_libs l.calls })
loads_lem true l = refl
loads_lem false l = ground (arith, load_libraries_lem g_libs l, openings-g_libs l.calls)

-- If there is a display, the launcher's main() sets TMPDIR if it is not set, then opens all libraries of
-- gLibs, in their order, under their own names, at once and for all to use, or none of them if help is
-- wanted, and then calls main() of the daemon's library once and closes the library, with success; or fails if
-- the library or its main() is not found.
pub main_lem :
    (os : Os) (library : Text) (argv : List Text) (display : Text) (l : Launcher)
    → os.getenv l.calls (codes "DISPLAY") ≡ some display
    → main os library argv l
      ≡ ended (entry_of os library) library (
          if help_wanted argv
          then with_tmpdir os l.calls
          else all_opened g_libs (with_tmpdir os l.calls))
unfolding main
main_lem os library argv display l shown = rw shown (
    rw (set_tmpdir_lem os library l) (
      rw (loads_lem (help_wanted argv) (record { calls = with_tmpdir os l.calls }))
        (invoke_launcher_lib_lem os library _)))
