-- ===== src/Booster/Initializing.antt =====
-- src/launcherlib/booster.cpp, `initialize`: from the fork to the application's request.
use touch_applauncherd.Common.{
  ℕ, Bool, true, false, not, if◌then◌else◌, List, [], ◌∷◌, Option, none, some, Text,
}
use touch_applauncherd.Common.Exits.{
  Run, ◌>>=◌, ◌>>◌, pure, exit, get, modify, when, exit_success, exit_failure,
}
use touch_applauncherd.Common.Int.{ℤ, pos, negsuc}
use touch_applauncherd.Os.{Os, Call}
use touch_applauncherd.AppData.{Arg, str, single_instance}
use touch_applauncherd.SingleInstance.{SingleInstancePluginEntry, close_plugin}
use touch_applauncherd.MDeclarativeCache.{Qt, populate}
use touch_applauncherd.Daemon.{Pipe}
use touch_applauncherd.Booster.{
  Booster, log_call, push_priority, pop_priority, send_data_to_parent, receive_data_from_invoker,
}
use touch_applauncherd.Booster.Kinds.{
  Kind, m_booster, qt_booster, q_declarative_booster, temporary_process_name,
}
use touch_applauncherd.Booster.MBooster.{receive_data_in_loop}
use touch_applauncherd.Booster.Rename.{rename_process}
use touch_applauncherd.Booster.Running.{run}

-- An `int` that a test has shown to be positive, or 0.
abbrev pub to_count : ℤ → ℕ
to_count (pos n) = n
to_count (negsuc n) = 0

abbrev pub args_of : Option (List Arg) → List Arg
args_of none = []
args_of (some argv) = argv

-- The virtual `preload()`. The MeeGo cache is another library.
unfoldable pub preload : Qt → Kind → Run Booster (Unit {0})
preload qt m_booster = log_call Call.populate_components
preload qt qt_booster = pure tt
preload qt q_declarative_booster = modify (λ b. record b { cache = (populate qt b.cache).1 })

-- The virtual `receiveDataFromInvoker()`.
unfoldable pub receive_request : Os → Kind → ℤ → ℕ → Run Booster (Option Bool)
receive_request os m_booster = receive_data_in_loop os
receive_request os qt_booster = receive_data_from_invoker os
receive_request os q_declarative_booster = receive_data_from_invoker os

module _ (os : Os) where
  -- The lock of a single-instance launch: the process ends if another instance has it.
  unfoldable pub lock_instance : SingleInstancePluginEntry → Run Booster (Unit {0})
  lock_instance entry = do
    b ← get
    let name = b.m_app_data.m_app_name
    log_call (Call.call_lock entry.lock_func name)
    if os.lock_result b.calls entry.lock_func name
        then (do
          b ← get
          let (closed, calls) = close_plugin b.m_single_instance b.calls
          modify (λ b. record b { m_single_instance = closed; calls = calls }))
        else (do
          b ← get
          log_call (Call.call_activate entry.activate_existing_instance_func name)
          exit (
              if os.activate_result b.calls entry.activate_existing_instance_func name
              then exit_success
              else exit_failure))

  unfoldable pub ensure_single_instance : Run Booster (Unit {0})
  ensure_single_instance = do
    b ← get
    when (single_instance b.m_app_data)
        (elim b.m_single_instance [ none ↦ pure tt | some entry ↦ lock_instance entry ])

  -- What `initialize` does once the request has come.
  unfoldable pub take_over : Kind → List Text → Run Booster (Unit {0})
  take_over kind parent_argv = do
    ensure_single_instance
    b ← get
    rename_process os parent_argv (to_count b.m_app_data.m_argc) (args_of b.m_app_data.m_argv)
    send_data_to_parent os kind
    log_call (Call.close b.m_pipe_fd.write_end)
    log_call Call.pdeathsig_off
    log_call Call.set_dumpable

  -- The preparations, before there is a request.
  unfoldable pub prepare : Qt → Kind → List Text → Pipe → Bool → Run Booster (Unit {0})
  prepare qt kind parent_argv pipe_fd boot_mode = do
    modify (λ b. record b { m_boot_mode = boot_mode; m_pipe_fd = pipe_fd })
    push_priority os (pos 10)
    when (not boot_mode) (preload qt kind)
    rename_process os parent_argv 1 (str (temporary_process_name kind) ∷ [])
    pop_priority os
    pure tt

  -- What follows the request; the result is false if the fuel for it ran out.
  unfoldable pub go_on : Kind → List Text → Option Bool → Run Booster Bool
  go_on kind parent_argv none = pure false
  go_on kind parent_argv (some false) = exit exit_failure
  go_on kind parent_argv (some true) = do take_over kind parent_argv; pure true

  unfoldable pub initialize : Qt → Kind → ℕ → List Text → Pipe → ℤ → Bool → Run Booster Bool
  initialize qt kind fuel parent_argv pipe_fd socket_fd boot_mode = do
    prepare qt kind parent_argv pipe_fd boot_mode
    r ← receive_request os kind socket_fd fuel
    go_on kind parent_argv r

  -- The end of the forked child in Daemon::forkBooster.
  unfoldable pub live : Qt → Kind → ℕ → List Text → Pipe → ℤ → Bool → Run Booster Bool
  live qt kind fuel parent_argv pipe_fd socket_fd boot_mode = do
    ready ← initialize qt kind fuel parent_argv pipe_fd socket_fd boot_mode
    if ready then (do run os; exit exit_success) else pure false
