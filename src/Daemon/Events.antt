-- ===== src/Daemon/Events.antt =====
-- src/launcherlib/daemon.cpp: the main loop's events, the boot mode, the arguments and the plugins.
use touch_applauncherd.Common.{
  ℕ, ◌+◌, Bool, true, false, not, ◌||◌, ◌==◌, ltb, if◌then◌else◌, List, [], ◌∷◌, ◌++◌, none, some,
  Text, codes, text_eq, length,
}
use touch_applauncherd.Common.Exits.{
  Run, ◌>>=◌, ◌>>◌, pure, exit, get, modify, when, exit_success, exit_failure,
}
use touch_applauncherd.Common.Int.{ℤ, pos, int_eq, to_int}
use touch_applauncherd.Common.Bytes.{from_le32}
use touch_applauncherd.Common.Map.{insert, int_key}
use touch_applauncherd.Os.{Os, Call, ReadResult, failed, got}
use touch_applauncherd.Connection.{stored}
use touch_applauncherd.BoosterPluginRegistry
use touch_applauncherd.BoosterPluginRegistry.{Registry}
use touch_applauncherd.SingleInstance
use touch_applauncherd.SocketManager.{init_socket}
use touch_applauncherd.Daemon.{Daemon, log_call, with_sockets, booster_pid_for_type, fork_booster}
use touch_applauncherd.Daemon.Reaper.{reap_zombies}

-- The signal's number on Linux.
abbrev pub sigterm_number : ℕ
sigterm_number = 15

unfoldable pub kill_process : ℤ → ℕ → Run Daemon (Unit {0})
kill_process pid signal = when (not (int_eq pid (pos 0))) (log_call (Call.kill pid signal))

-- The loop of `killBoosters` over the table.
unfoldable pub kill_all : List (ℕ × ℤ) → Run Daemon (Unit {0})
kill_all [] = pure tt
kill_all ((type, pid) ∷ m) = do kill_process pid sigterm_number; kill_all m

unfoldable pub kill_boosters : Run Daemon (Unit {0})
kill_boosters = do d ← get; kill_all d.m_booster_type_to_pid

unfoldable pub enter_normal_mode : Run Daemon (Unit {0})
enter_normal_mode = do
  d ← get
  when d.m_boot_mode (do modify (λ d. record d { m_boot_mode = false }); kill_boosters)

-- The stores of one argument; `--help` prints the usage and exits.
unfoldable pub parse_arg : Text → Run Daemon (Unit {0})
parse_arg arg =
    if text_eq arg (codes "--boot-mode") || text_eq arg (codes "-b")
    then modify (λ d. record d { m_boot_mode = true })
    else if text_eq arg (codes "--daemon") || text_eq arg (codes "-d")
    then modify (λ d. record d { m_daemon = true })
    else if text_eq arg (codes "--debug")
    then modify (λ d. record d { m_debug_mode = true })
    else if text_eq arg (codes "--help") || text_eq arg (codes "-h")
    then exit exit_success
    else if text_eq arg (codes "--quiet") || text_eq arg (codes "-q")
    then modify (λ d. record d { m_quiet = true })
    else pure tt

unfoldable pub parse_args : List Text → Run Daemon (Unit {0})
parse_args [] = pure tt
parse_args (arg ∷ args) = do parse_arg arg; parse_args args

-- `count < sizeof(…)`, -1 included.
abbrev pub is_short : ReadResult → ℕ → Bool
is_short failed n = true
is_short (got bytes) n = ltb (length bytes) n

-- `if (count)`: an error, -1, passes too.
abbrev pub read_nothing : ReadResult → Bool
read_nothing failed = false
read_nothing (got bytes) = length bytes == 0

-- The char in a block of memory of that size.
abbrev pub first_byte : List ℕ → ℕ
first_byte [] = 0
first_byte (b ∷ bytes) = b

-- The descriptors that `select` reports.
pub record Ready : Type 0 where
  pub booster : Bool
  pub sig_chld : Bool
  pub sig_term : Bool
  pub sig_usr1 : Bool

-- The pair of the current booster of the type and an invoker that waits.
unfoldable pub store_invoker : ℕ → ℤ → Daemon → Daemon
store_invoker type invoker_pid d =
    if int_eq invoker_pid (pos 0) || int_eq (booster_pid_for_type type d) (pos 0)
    then d
    else record d {
      m_booster_pid_to_invoker_pid =
          insert (booster_pid_for_type type d) invoker_pid d.m_booster_pid_to_invoker_pid;
    }

module _ (os : Os) where
  -- One `read`, and what the block of memory holds after it.
  unfoldable pub read : ℤ → ℕ → Run Daemon (ReadResult × List ℕ)
  read fd n = do
    d ← get
    let r = os.read_result d.calls fd n
    log_call (Call.read fd n)
    pure (r, stored r (os.fresh d.calls n))

  -- `int` from the pipe; the daemon dies on a short read.
  unfoldable pub read_int : ℤ → Run Daemon ℤ
  read_int fd = do
    (r, block) ← read fd 4
    if is_short r 4 then exit exit_failure else pure (to_int (from_le32 block))

  unfoldable pub read_from_booster_pipe : ℤ → Run Daemon (Unit {0})
  read_from_booster_pipe fd = do
    (r, block) ← read fd 1
    if read_nothing r then pure tt else (do
      let msg = first_byte block
      invoker_pid ← read_int fd
      modify (store_invoker msg invoker_pid)
      delay ← read_int fd
      fork_booster os msg delay)

  -- The loop of `initBoosterSockets` over the plugins.
  unfoldable pub init_sockets : Registry → Run Daemon (Unit {0})
  init_sockets [] = pure tt
  init_sockets (e ∷ es) = do
    with_sockets (init_socket os (os.call_text e.socket_name_func))
    init_sockets es

  unfoldable pub init_booster_sockets : Run Daemon (Unit {0})
  init_booster_sockets = do d ← get; init_sockets d.m_registry

  -- The loop of `forkBoosters` over the plugins.
  unfoldable pub fork_each : Registry → Run Daemon (Unit {0})
  fork_each [] = pure tt
  fork_each (e ∷ es) = do fork_booster os e.type (pos 0); fork_each es

  unfoldable pub fork_boosters : Run Daemon (Unit {0})
  fork_boosters = do d ← get; fork_each d.m_registry

  unfoldable pub load_single_instance_plugin : Run Daemon (Unit {0})
  load_single_instance_plugin = do
    log_call (Call.dlopen os.single_instance_path)
    elim (os.dlopen_handle os.single_instance_path) [
      | none ↦ pure tt
      | some handle ↦ modify (λ d. record d {
        m_single_instance =
            (SingleInstance.validate_and_register_plugin os handle d.m_single_instance).1;
      })
    ]

  -- The loop over the paths that `glob` found.
  unfoldable pub load_plugins : List Text → Run Daemon (Unit {0})
  load_plugins [] = pure tt
  load_plugins (path ∷ paths) = do
    log_call (Call.dlopen path)
    elim (os.dlopen_handle path) [
      | none ↦ pure tt
      | some handle ↦ modify (λ d. record d {
        m_registry = (BoosterPluginRegistry.validate_and_register_plugin os handle d.m_registry).1;
      })
    ]
    load_plugins paths

  abbrev pub pattern_text : Text
  pattern_text = codes "lib*booster.so"

  abbrev pub plugin_pattern : Text
  plugin_pattern = os.booster_plugin_dir ++ (codes "/" ++ pattern_text)

  unfoldable pub load_booster_plugins : Run Daemon (Unit {0})
  load_booster_plugins =
      if ltb 256 (length pattern_text + length os.booster_plugin_dir + 2) then pure tt else (do
        log_call (Call.glob plugin_pattern)
        elim (os.glob_paths plugin_pattern) [ none ↦ pure tt | some paths ↦ load_plugins paths ])

  -- `run` up to its main loop.
  unfoldable pub start : Run Daemon (Unit {0})
  start = do
    log_call (Call.unsetenv (codes "LD_BIND_NOW"))
    load_booster_plugins
    init_booster_sockets
    load_single_instance_plugin
    fork_boosters

  -- One round of the main loop after `select` reported something. `fuel` is for the reaper; the
  -- result is false if it ran out.
  unfoldable pub run_once : ℕ → Ready → Run Daemon Bool
  run_once fuel ready = do
    d ← get
    when ready.booster (read_from_booster_pipe d.m_booster_pipe_fd.read_end)
    finished ←
        if ready.sig_chld
        then (do read d.m_sig_chld_pipe_fd.read_end 1; reap_zombies os fuel)
        else pure true
    when ready.sig_term (do read d.m_sig_term_pipe_fd.read_end 1; exit exit_success)
    when ready.sig_usr1 (do read d.m_sig_usr1_pipe_fd.read_end 1; enter_normal_mode)
    pure finished
