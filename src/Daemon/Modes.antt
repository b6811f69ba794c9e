-- ===== src/Daemon/Modes.antt =====
-- enterNormalMode and parseArgs of src/launcherlib/daemon.cpp.
use touch_applauncherd.Common.{
  ℕ, ◌≡◌, refl, sym, ap, ◌∙◌, Bool, true, false, ◌||◌, if◌then◌else◌, List, [], ◌∷◌, ◌++◌, Text,
  codes, text_eq, text_eq→eq, arith, Bool-cases, inl, inr, subst,
}
use touch_applauncherd.Common.Exits.{and_then, done, exited, exit_success}
use touch_applauncherd.Common.Int.{ℤ, pos, int_eq}
use touch_applauncherd.Os.{Call, History}
use touch_applauncherd.Daemon.{Daemon}
use touch_applauncherd.Daemon.Events.{
  kill_process, kill_all, kill_boosters, enter_normal_mode, parse_arg, parse_args, sigterm_number,
}

-- The pids other than 0 of a table, last first.
abbrev pub live_pids : List (ℕ × ℤ) → List ℤ
live_pids [] = []
live_pids ((type, pid) ∷ m) = live_pids m ++ (if int_eq pid (pos 0) then [] else pid ∷ [])

-- SIGTERM to each of them, the last of the list first.
abbrev pub terminate : List ℤ → History → History
terminate [] h = h
terminate (pid ∷ pids) h = Call.kill pid sigterm_number ∷ terminate pids h

terminate-append :
    (ps qs : List ℤ) (h : History) → terminate (ps ++ qs) h ≡ terminate ps (terminate qs h)
terminate-append [] qs h = refl
terminate-append (p ∷ ps) qs h = ap (◌∷◌ (Call.kill p sigterm_number)) (terminate-append ps qs h)

kill_all_lem :
    (m : List (ℕ × ℤ)) (d : Daemon)
    → kill_all m d ≡ done tt (record d { calls = terminate (live_pids m) d.calls })
unfolding kill_all kill_process
kill_all_lem [] d = refl
kill_all_lem ((type, pid) ∷ m) d = elim (Bool-cases (int_eq pid (pos 0))) [
  | inl none_yet ↦
      ground (arith, none_yet, kill_all_lem m d, terminate-append (live_pids m) [] d.calls)
  | inr some_pid ↦ ground (
    arith,
    some_pid,
    kill_all_lem m (record d { calls = Call.kill pid sigterm_number ∷ d.calls }),
    terminate-append (live_pids m) (pid ∷ []) d.calls,
  )
]

-- Leaving the boot mode sends SIGTERM once to each booster that has a pid, in the order of their
-- types, and changes nothing else; outside of the boot mode nothing happens.
pub enter_normal_mode_lem :
    (d : Daemon)
    → enter_normal_mode d ≡ (
        if d.m_boot_mode
        then done tt (record d {
          m_boot_mode = false;
          calls = terminate (live_pids d.m_booster_type_to_pid) d.calls;
        })
        else done tt d)
unfolding enter_normal_mode kill_boosters
enter_normal_mode_lem d =
    ground (arith, kill_all_lem d.m_booster_type_to_pid (record d { m_boot_mode = false }))

-- Whether a flag is among the arguments, under one of two names.
unfoldable pub has : Text → Text → List Text → Bool
has long short [] = false
has long short (arg ∷ args) = (text_eq arg long || text_eq arg short) || has long short args

abbrev pub is_help : List Text → Bool
is_help = has (codes "--help") (codes "-h")

-- The daemon with flags set where a test says so.
abbrev flags : (boot daemon debug quiet : Bool) → Daemon → Daemon
flags boot daemon debug quiet d = record d {
  m_boot_mode = d.m_boot_mode || boot;
  m_daemon = d.m_daemon || daemon;
  m_debug_mode = d.m_debug_mode || debug;
  m_quiet = d.m_quiet || quiet;
}

abbrev pub with_flags : List Text → Daemon → Daemon
with_flags args d =
    flags (has (codes "--boot-mode") (codes "-b") args) (has (codes "--daemon") (codes "-d") args)
      (has (codes "--debug") (codes "--debug") args) (has (codes "--quiet") (codes "-q") args) d

or_true : (b : Bool) → true ≡ (b || true)
or_true b = ground arith

or_false : (b : Bool) → b ≡ (b || false)
or_false b = ground arith

flags_none : (d : Daemon) → d ≡ flags false false false false d
flags_none d j = record d {
  m_boot_mode = or_false d.m_boot_mode j;
  m_daemon = or_false d.m_daemon j;
  m_debug_mode = or_false d.m_debug_mode j;
  m_quiet = or_false d.m_quiet j;
}

flags_boot : (d : Daemon) → record d { m_boot_mode = true } ≡ flags true false false false d
flags_boot d j = record d {
  m_boot_mode = or_true d.m_boot_mode j;
  m_daemon = or_false d.m_daemon j;
  m_debug_mode = or_false d.m_debug_mode j;
  m_quiet = or_false d.m_quiet j;
}

flags_daemon : (d : Daemon) → record d { m_daemon = true } ≡ flags false true false false d
flags_daemon d j = record d {
  m_boot_mode = or_false d.m_boot_mode j;
  m_daemon = or_true d.m_daemon j;
  m_debug_mode = or_false d.m_debug_mode j;
  m_quiet = or_false d.m_quiet j;
}

flags_debug : (d : Daemon) → record d { m_debug_mode = true } ≡ flags false false true false d
flags_debug d j = record d {
  m_boot_mode = or_false d.m_boot_mode j;
  m_daemon = or_false d.m_daemon j;
  m_debug_mode = or_true d.m_debug_mode j;
  m_quiet = or_false d.m_quiet j;
}

flags_quiet : (d : Daemon) → record d { m_quiet = true } ≡ flags false false false true d
flags_quiet d j = record d {
  m_boot_mode = or_false d.m_boot_mode j;
  m_daemon = or_false d.m_daemon j;
  m_debug_mode = or_false d.m_debug_mode j;
  m_quiet = or_true d.m_quiet j;
}

-- What holds of a name holds of the argument that is equal to it.
on_name :
    (P : Text → Type 0) (arg name : Text) → P name → (text_eq arg name ≡ false → P arg) → P arg
on_name P arg name p k = elim (Bool-cases (text_eq arg name)) [
  | inl same ↦ subst P (sym (text_eq→eq arg name same)) p
  | inr other ↦ k other
]

-- One argument sets the flag that it names.
parse_arg_lem :
    (d : Daemon) (arg : Text)
    → parse_arg arg d
      ≡ (if is_help (arg ∷ []) then exited exit_success d else done tt (with_flags (arg ∷ []) d))
unfolding parse_arg has
parse_arg_lem d arg =
    let P : Text → Type 0 = λ arg.
      parse_arg arg d
      ≡ (if is_help (arg ∷ []) then exited exit_success d else done tt (with_flags (arg ∷ []) d)) in
    on_name P arg (codes "--boot-mode") (ap (done tt) (flags_boot d)) λ n0.
      on_name P arg (codes "-b") (ap (done tt) (flags_boot d)) λ n1.
        on_name P arg (codes "--daemon") (ap (done tt) (flags_daemon d)) λ n2.
          on_name P arg (codes "-d") (ap (done tt) (flags_daemon d)) λ n3.
            on_name P arg (codes "--debug") (ap (done tt) (flags_debug d)) λ n4.
              on_name P arg (codes "--help") refl λ n5. on_name P arg (codes "-h") refl λ n6.
                on_name P arg (codes "--quiet") (ap (done tt) (flags_quiet d)) λ n7.
                  on_name P arg (codes "-q") (ap (done tt) (flags_quiet d))
                    λ n8. rw (n0, n1, n2, n3, n4, n5, n6, n7, n8) (ap (done tt) (flags_none d))

or_step : (a x b : Bool) → ((a || (x || false)) || b) ≡ (a || (x || b))
or_step a x b = ground arith

with_flags-with_flags :
    (arg : Text) (args : List Text) (d : Daemon)
    → with_flags args (with_flags (arg ∷ []) d) ≡ with_flags (arg ∷ args) d
unfolding has
with_flags-with_flags arg args d j = record d {
  m_boot_mode =
      or_step d.m_boot_mode (text_eq arg (codes "--boot-mode") || text_eq arg (codes "-b"))
        (has (codes "--boot-mode") (codes "-b") args) j;
  m_daemon =
      or_step d.m_daemon (text_eq arg (codes "--daemon") || text_eq arg (codes "-d"))
        (has (codes "--daemon") (codes "-d") args) j;
  m_debug_mode =
      or_step d.m_debug_mode (text_eq arg (codes "--debug") || text_eq arg (codes "--debug"))
        (has (codes "--debug") (codes "--debug") args) j;
  m_quiet =
      or_step d.m_quiet (text_eq arg (codes "--quiet") || text_eq arg (codes "-q"))
        (has (codes "--quiet") (codes "-q") args) j;
}

has-cons :
    (long short arg : Text) (args : List Text)
    → has long short (arg ∷ args) ≡ false
    → (has long short (arg ∷ []) ≡ false) × (has long short args ≡ false)
unfolding has
has-cons long short arg args h = ground arith

-- If `--help` and `-h` are not among the arguments, `parseArgs` comes back, and each of the four flags
-- is set if it was or if one of its names is among them; nothing else changes.
pub parse_args_lem :
    (args : List Text) (d : Daemon)
    → is_help args ≡ false
    → parse_args args d ≡ done tt (with_flags args d)
unfolding parse_args has
parse_args_lem [] d h = ap (done tt) (flags_none d)
parse_args_lem (arg ∷ args) d h =
    let (h0, h1) = has-cons (codes "--help") (codes "-h") arg args h in
    let first : parse_arg arg d ≡ done tt (with_flags (arg ∷ []) d) =
      rw (parse_arg_lem d arg, h0) refl in
    ap (and_then (λ _. parse_args args)) first
    ∙ parse_args_lem args (with_flags (arg ∷ []) d) h1
    ∙ ap (done tt) (with_flags-with_flags arg args d)
