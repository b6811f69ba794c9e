-- ===== src/Daemon.antt =====
-- src/launcherlib/daemon.h and daemon.cpp: the launcher daemon. This file has its state, the tables
-- of processes and the forking of a booster; the children have the rest.
pub mod Reaper
pub mod Events
pub mod Closing
pub mod Forking
pub mod Modes
pub mod BoosterPipe
pub mod Reaping
pub mod Reaped
pub mod Buried
pub mod Tracking
pub mod Kept
pub mod Rounds
pub mod Starting
pub mod Life
pub mod Start
pub mod Serving
pub mod Signals
pub mod Loop
pub mod Available
mod Tests
use touch_applauncherd.Common.{
  ℕ, Bool, false, not, ◌&&◌, ◌==◌, if◌then◌else◌, List, [], ◌∷◌, ◌++◌, none, some, Text,
}
use touch_applauncherd.Common.Exits.{
  Run, ◌>>=◌, ◌>>◌, pure, exit, becomes, get, modify, when, within, exit_failure,
}
use touch_applauncherd.Common.Int.{ℤ, pos, minus_one, int_eq}
use touch_applauncherd.Common.Map.{lookup, insert, nat_key, int_key}
use touch_applauncherd.Os.{
  Os, Call, History, fork_failed, in_child, in_parent, sigchld, sigterm, sigusr1, sighup,
}
use touch_applauncherd.BoosterPluginRegistry.{Registry, create}
use touch_applauncherd.SingleInstance.{SingleInstance}
use touch_applauncherd.SocketManager
use touch_applauncherd.SocketManager.{SocketManager}

-- Both ends of a pipe: the descriptor to read and the one to write.
pub record Pipe : Type 0 where
  pub read_end : ℤ
  pub write_end : ℤ

-- The daemon, the objects that it owns, the static registry and the calls made.
pub record Daemon : Type 0 where
  pub m_daemon : Bool
  pub m_quiet : Bool
  pub m_boot_mode : Bool
  pub m_debug_mode : Bool
  pub m_children : List ℤ
  pub m_booster_pid_to_invoker_pid : List (ℤ × ℤ)
  pub m_booster_type_to_pid : List (ℕ × ℤ)
  pub m_booster_pipe_fd : Pipe
  pub m_sig_chld_pipe_fd : Pipe
  pub m_sig_term_pipe_fd : Pipe
  pub m_sig_usr1_pipe_fd : Pipe
  pub m_lock_fd : ℤ
  pub m_socket_hash : List (Text × ℤ)
  pub m_single_instance : SingleInstance
  pub m_registry : Registry
  pub calls : History

abbrev pub log_call : Call → Run Daemon (Unit {0})
log_call c = modify λ d. record d { calls = c ∷ d.calls }

-- A step of the socket manager.
abbrev pub with_sockets : {A : Type 0} → Run SocketManager A → Run Daemon A
with_sockets =
    within (λ d. record { m_socket_hash = d.m_socket_hash; calls = d.calls })
      (λ s d. record d { m_socket_hash = s.m_socket_hash; calls = s.calls })

-- m_boosterSleepTime
abbrev pub booster_sleep_time : ℤ
booster_sleep_time = pos 2

unfoldable pub set_pid_to_booster : ℕ → ℤ → Daemon → Daemon
set_pid_to_booster type pid d = record d {
  m_booster_type_to_pid = insert type pid d.m_booster_type_to_pid;
}

-- The loop of `boosterTypeForPid`; 0 if no booster has the pid.
unfoldable pub type_for_pid : ℤ → List (ℕ × ℤ) → ℕ
type_for_pid pid [] = 0
type_for_pid pid ((type, p) ∷ m) = if int_eq p pid then type else type_for_pid pid m

unfoldable pub booster_type_for_pid : ℤ → Daemon → ℕ
booster_type_for_pid pid d = type_for_pid pid d.m_booster_type_to_pid

unfoldable pub booster_pid_for_type : ℕ → Daemon → ℤ
booster_pid_for_type type d = elim (lookup type d.m_booster_type_to_pid) [
  | none ↦ pos 0
  | some pid ↦ pid
]

-- `Daemon::unlock`
unfoldable pub unlock : Run Daemon (Unit {0})
unlock = do
  d ← get
  when (not (int_eq d.m_lock_fd minus_one))
      (do log_call (Call.close d.m_lock_fd); modify (λ d. record d { m_lock_fd = minus_one }))

module _ (os : Os) where
  -- The result is true if the lock was taken.
  unfoldable pub lock : Run Daemon Bool
  lock = do
    d ← get
    let fd = os.open_lock_fd d.calls
    log_call Call.open_lock
    modify (λ d. record d { m_lock_fd = fd })
    if int_eq fd minus_one
        then pure false
        else (do d ← get; log_call (Call.set_lock fd); pure (os.set_lock_ok d.calls fd))

  -- The loop of `closeUnusedSockets` over the plugins.
  unfoldable pub close_others : ℕ → Registry → Run Daemon (Unit {0})
  close_others type [] = pure tt
  close_others type (e ∷ es) = do
    when (not (e.type == type))
        (with_sockets (SocketManager.close_socket (os.call_text e.socket_name_func)))
    close_others type es

  unfoldable pub close_unused_sockets : ℕ → Run Daemon (Unit {0})
  close_unused_sockets type = do d ← get; close_others type d.m_registry

  -- The forked child, up to the point where it goes on as the booster that the plugin's factory
  -- makes: it does not come back to the daemon.
  unfoldable pub run_child : ℕ → ℤ → Run Daemon (Unit {0})
  run_child type sleep_time = do
    d ← get
    log_call (Call.signal_default sigchld)
    log_call (Call.signal_default sigterm)
    log_call (Call.signal_default sigusr1)
    log_call (Call.prctl_pdeathsig sighup)
    log_call (Call.close d.m_booster_pipe_fd.read_end)
    log_call (Call.close d.m_sig_chld_pipe_fd.read_end)
    log_call (Call.close d.m_sig_chld_pipe_fd.write_end)
    log_call (Call.close d.m_sig_term_pipe_fd.read_end)
    log_call (Call.close d.m_sig_term_pipe_fd.write_end)
    log_call (Call.close d.m_sig_usr1_pipe_fd.read_end)
    log_call (Call.close d.m_sig_usr1_pipe_fd.write_end)
    close_unused_sockets type
    unlock
    log_call Call.setsid
    when (not d.m_boot_mode && not (int_eq sleep_time (pos 0))) (log_call (Call.sleep sleep_time))
    elim (create type d.m_registry) [ none ↦ exit exit_failure | some factory ↦ becomes factory ]

  unfoldable pub fork_booster : ℕ → ℤ → Run Daemon (Unit {0})
  fork_booster type sleep_time = do
    modify (set_pid_to_booster type (pos 0))
    d ← get
    log_call Call.fork
    elim (os.fork_result d.calls) [
      | fork_failed ↦ exit exit_failure
      | in_child ↦ run_child type sleep_time
      | in_parent new_pid ↦ modify (λ d.
          set_pid_to_booster type (pos new_pid)
            (record d { m_children = d.m_children ++ pos new_pid ∷ [] }))
    ]
