-- ===== src/Launcher.antt =====
-- src/launcher/launcher.c: the program that preloads libraries and runs main() of the daemon's library.
mod Libraries
pub mod Preloading
pub mod Starting
mod Tests
use touch_applauncherd.Common.{
  ℕ, ◌+◌, Bool, true, false, not, ◌&&◌, ◌||◌, ◌==◌, ltb, if◌then◌else◌, List, [], ◌∷◌, none, some,
  Text, codes, text_eq, length, drop,
}
use touch_applauncherd.Common.Exits.{
  Run, ◌>>=◌, ◌>>◌, pure, get, modify, when, exit_success, exit_failure,
}
use touch_applauncherd.Os.{Os, Call, History}
use touch_applauncherd.Launcher.Libraries.{g_libs}

-- The process, of which only the calls count.
pub record Launcher : Type 0 where
  pub calls : History

abbrev pub log_call : Call → Run Launcher (Unit {0})
log_call c = modify λ l. record l { calls = c ∷ l.calls }

-- RTLD_LAZY, RTLD_NOW, RTLD_DEEPBIND, RTLD_GLOBAL and RTLD_LOCAL on Linux.
abbrev pub rtld_lazy : ℕ
rtld_lazy = 1

abbrev pub rtld_now : ℕ
rtld_now = 2

abbrev pub rtld_deepbind : ℕ
rtld_deepbind = 8

abbrev pub rtld_global : ℕ
rtld_global = 256

abbrev pub rtld_local : ℕ
rtld_local = 0

-- The first character; that of an empty text is its NUL.
abbrev pub first_char : Text → ℕ
first_char [] = 0
first_char (x ∷ s) = x

-- The flags have no bit in common, so `|` adds.
unfoldable pub open_library : Text → Run Launcher (Unit {0})
open_library lib =
    if first_char lib == b'N'
    then log_call (Call.dlopen_with (rtld_now + rtld_global) (drop 1 lib))
    else if first_char lib == b'L'
    then log_call (Call.dlopen_with (rtld_lazy + rtld_global) (drop 1 lib))
    else if first_char lib == b'D'
    then log_call (Call.dlopen_with (rtld_deepbind + rtld_global) (drop 1 lib))
    else log_call (Call.dlopen_with (rtld_now + rtld_global) lib)

-- The loop over the array. That a library cannot be opened is only printed.
unfoldable pub load_libraries : List Text → Run Launcher (Unit {0})
load_libraries [] = pure tt
load_libraries (lib ∷ libs) = do
  when (not (first_char lib == b'#') && ltb 1 (length lib)) (open_library lib)
  load_libraries libs

-- Whether help is wanted, from the arguments after the program's name.
unfoldable pub help_wanted : List Text → Bool
help_wanted [] = false
help_wanted (arg ∷ argv) =
    (text_eq arg (codes "--help") || text_eq arg (codes "-h")) || help_wanted argv

-- LAUNCHER_LIBRARY of the build is `library`.
module _ (os : Os) (library : Text) where
  -- The result is false if the library or its main() could not be found.
  unfoldable pub invoke_launcher_lib : Run Launcher Bool
  invoke_launcher_lib = do
    log_call (Call.dlopen_with (rtld_lazy + rtld_local) library)
    elim (os.dlopen_handle library) [
      | none ↦ pure false
      | some handle ↦ elim (os.dlsym handle (codes "main")) [
        | none ↦ pure false
        | some entry ↦ (do
          log_call (Call.call_main entry)
          log_call (Call.dlclose handle)
          pure true)
      ]
    ]

  -- TMPDIR is set only if it is not.
  unfoldable pub set_tmpdir : Run Launcher (Unit {0})
  set_tmpdir = do
    l ← get
    elim (os.getenv l.calls (codes "TMPDIR")) [
      | none ↦ log_call (Call.setenv (codes "TMPDIR") (codes "/var/tmp"))
      | some dir ↦ pure tt
    ]

  -- The exit status; `argv` has no program's name.
  unfoldable pub main : List Text → Run Launcher ℕ
  main argv = do
    l ← get
    elim (os.getenv l.calls (codes "DISPLAY")) [
      | none ↦ pure exit_failure
      | some display ↦ (do
        set_tmpdir
        when (not (help_wanted argv)) (load_libraries g_libs)
        invoked ← invoke_launcher_lib
        pure (if invoked then exit_success else exit_failure))
    ]
