-- ===== src/Invoker/Options.antt =====
-- src/invoker/invoker.c: the command line, the connection to a booster and main().
pub mod Parsed
use touch_applauncherd.Common.{
  ℕ, ◌-◌, ◌%◌, ◌^◌, Bool, true, false, not, ◌&&◌, ◌||◌, ◌==◌, ltb, if◌then◌else◌, List, [], ◌∷◌,
  Option, none, some, Text, codes, text_eq, find_text, length, bit_or, bit_and,
}
use touch_applauncherd.Common.Exits.{
  Run, Outcome, done, exited, ◌>>=◌, ◌>>◌, pure, exit, becomes, get, modify, when, exit_failure,
}
use touch_applauncherd.Common.Int.{ℤ, pos, minus_one, int_eq, is_neg, to_int}
use touch_applauncherd.Os.{Os, Call, fork_failed, in_child, in_parent}
use touch_applauncherd.Protocol.{
  invoker_msg_magic_option_wait, invoker_msg_magic_option_dlopen_global,
  invoker_msg_magic_option_dlopen_deep, invoker_msg_magic_option_single_instance,
}
use touch_applauncherd.Invoker.{Invoker, log_call, sigs_restore, invoke_remote}
use touch_applauncherd.Invoker.Search.{search_program}

pub data AppType : Type 0 where
  m_app qt_app qdecl_app unknown_app : AppType

abbrev pub is_unknown : AppType → Bool
is_unknown m_app = false
is_unknown qt_app = false
is_unknown qdecl_app = false
is_unknown unknown_app = true

abbrev pub is_some : Option ℕ → Bool
is_some none = false
is_some (some i) = true

-- The locals of main() that the options set.
pub record Options : Type 0 where
  pub app_type : AppType
  pub magic_options : ℕ
  pub wait_term : Bool
  pub delay : ℕ
  pub respawn_delay : ℕ

abbrev pub default_delay : ℕ
default_delay = 0

abbrev pub max_respawn_delay : ℕ
max_respawn_delay = 10

abbrev pub exit_status_application_not_found : ℕ
exit_status_application_not_found = 0x7f

unfoldable pub default_options : Options
default_options = record {
  app_type = unknown_app;
  magic_options = invoker_msg_magic_option_wait;
  wait_term = true;
  delay = default_delay;
  respawn_delay = 3;
}

-- `options &= ~bit`
abbrev pub without : ℕ → ℕ → ℕ
without options bit = options - bit_and options bit

abbrev pub add_option : ℕ → Run Options (Unit {0})
add_option bit = modify λ o. record o { magic_options = bit_or o.magic_options bit }

unfoldable pub parse_type : Text → Run Options (Unit {0})
parse_type arg =
    if text_eq arg (codes "m")
    then modify (λ o. record o { app_type = m_app })
    else if text_eq arg (codes "q") || text_eq arg (codes "qt")
    then modify (λ o. record o { app_type = qt_app })
    else if text_eq arg (codes "d")
    then modify (λ o. record o { app_type = qdecl_app })
    else exit 1

-- What strtoul(text, NULL, 10) gives: whether it set errno to ERANGE, and the value; and ULONG_MAX.
pub record Numbers : Type 0 where
  pub strtoul : Text → Bool × ℕ
  pub ulong_max : ℕ

module _ (numbers : Numbers) where
  -- The value is cut to an unsigned int.
  unfoldable pub get_delay : Text → Run Options ℕ
  get_delay delay_arg = do
    let (erange, value) = numbers.strtoul delay_arg
    let delay = value % 2 ^ 32
    if (erange && delay == numbers.ulong_max) || delay == 0 then exit 1 else pure delay

  -- One option that getopt_long gives, with its argument.
  unfoldable pub parse_option : ℕ → Text → Run Options (Unit {0})
  parse_option opt arg =
      if opt == b'h'
      then exit 0
      else if opt == b'c'
      then exit 0
      else if opt == b'n'
      then modify (λ o. record o {
        wait_term = false;
        magic_options = without o.magic_options invoker_msg_magic_option_wait;
      })
      else if opt == b'G'
      then add_option invoker_msg_magic_option_dlopen_global
      else if opt == b'D'
      then add_option invoker_msg_magic_option_dlopen_deep
      else if opt == b't'
      then parse_type arg
      else if opt == b'd'
      then (do delay ← get_delay arg; modify (λ o. record o { delay = delay }))
      else if opt == b'r'
      then (do
        delay ← get_delay arg
        modify (λ o. record o { respawn_delay = delay })
        if ltb max_respawn_delay delay then exit 1 else pure tt)
      else if opt == b's'
      then add_option invoker_msg_magic_option_single_instance
      else if opt == b'?'
      then exit 1
      else pure tt

  -- The loop over the options.
  unfoldable pub parse_options : List (ℕ × Text) → Run Options (Unit {0})
  parse_options [] = pure tt
  parse_options ((opt, arg) ∷ opts) = do parse_option opt arg; parse_options opts

-- The handler of a forwarded signal.
unfoldable pub forward_signal : ℕ → Run Invoker (Unit {0})
forward_signal sig = do
  s ← get
  when (not (is_neg s.g_invoked_pid))
      (do log_call (Call.kill s.g_invoked_pid sig); sigs_restore; log_call (Call.raise sig))

-- What the process is after `execve`.
abbrev pub the_program : ℕ
the_program = 0

module _ (os : Os) where
  unfoldable pub execute : Text → Run Invoker (Unit {0})
  execute prog_name = do
    s ← get
    log_call (Call.execve prog_name)
    if os.execve_ok s.calls prog_name then becomes the_program else exit exit_failure

  -- The program without a booster; in the parent of a fork the call comes back.
  unfoldable pub invoke_fallback : Text → Bool → Run Invoker (Unit {0})
  invoke_fallback prog_name wait_term = if wait_term then execute prog_name else (do
    s ← get
    log_call Call.fork
    elim (os.fork_result s.calls) [
      | fork_failed ↦ exit exit_failure
      | in_parent pid ↦ pure tt
      | in_child ↦ execute prog_name
    ])

  -- The descriptor, or -1.
  unfoldable pub invoker_init : AppType → Run Invoker ℤ
  invoker_init app_type = do
    s ← get
    let fd = os.socket_fd s.calls
    log_call Call.socket
    let connect_to = λ (path : Text). (do
      s ← get
      log_call (Call.connect fd path)
      pure (if os.connect_ok s.calls fd path then fd else minus_one))
    if is_neg fd then pure minus_one else elim app_type [
      | m_app ↦ connect_to (codes "/tmp/boostm")
      | qt_app ↦ connect_to (codes "/tmp/boostq")
      | qdecl_app ↦ connect_to (codes "/tmp/boostd")
      | unknown_app ↦ exit 1
    ]

  -- `environ` is the environment of the invoker.
  unfoldable pub invoke : Options → List Text → Text → Text → List Text → Run Invoker ℤ
  invoke o prog_argv argv0 prog_name environ = do
    fd ← invoker_init o.app_type
    if int_eq fd minus_one then exit exit_failure else (do
      status ←
          invoke_remote os fd (length prog_argv) prog_argv argv0 prog_name o.magic_options
            o.wait_term (to_int o.respawn_delay) environ
      log_call (Call.close fd)
      pure status)

  -- What the parse of the options leaves, for the rest of main().
  unfoldable pub parsed : {A : Type 0} → Outcome Options A → Run Invoker Options
  parsed (done a o) = pure o
  parsed (exited code o) = exit code
  parsed (becomes what o) = becomes what

  -- main() once the options are parsed; `prog_argv` is what is left of the arguments.
  unfoldable pub run_program : Options → List Text → List Text → Run Invoker ℤ
  run_program o [] environ = exit 1
  run_program o (arg ∷ args) environ = do
    prog_name ← search_program os arg
    s ← get
    log_call (Call.stat prog_name)
    elim (os.stat_result s.calls prog_name) [
      | none ↦ pure (pos exit_status_application_not_found)
      | some false ↦ pure (pos exit_status_application_not_found)
      | some true ↦ if is_unknown o.app_type then exit 1 else (do
        ret_val ← invoke o (arg ∷ args) arg prog_name environ
        when (not (o.delay == 0)) (log_call (Call.sleep (pos o.delay)))
        pure ret_val)
    ]

  -- `opts` is what getopt_long gives, and `argv0` the name that the program was called by.
  unfoldable pub main : Numbers → Text → List (ℕ × Text) → List Text → List Text → Run Invoker ℤ
  main numbers argv0 opts prog_argv environ =
      if not (is_some (find_text (codes "invoker") argv0)) then exit 1 else (do
        log_call (Call.putenv (codes "POSIXLY_CORRECT=1"))
        o ← parsed (parse_options numbers opts default_options)
        run_program o prog_argv environ)
