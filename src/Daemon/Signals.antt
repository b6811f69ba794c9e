-- ===== src/Daemon/Signals.antt =====
-- The signal handlers of src/launcherlib/main.cpp: each writes a byte to a pipe of the daemon's, whose
-- other end the main loop waits on.
use touch_applauncherd.Common.{ℕ, [], ◌∷◌}
use touch_applauncherd.Common.Exits.{Run}
use touch_applauncherd.Common.Int.{ℤ}
use touch_applauncherd.Os.{Call}
use touch_applauncherd.Daemon.{Daemon, log_call}

-- `Daemon::sigChldPipeFd`, `sigTermPipeFd` and `sigUsr1PipeFd`: the ends to write.
unfoldable pub sig_chld_pipe_fd : Daemon → ℤ
sig_chld_pipe_fd d = d.m_sig_chld_pipe_fd.write_end

unfoldable pub sig_term_pipe_fd : Daemon → ℤ
sig_term_pipe_fd d = d.m_sig_term_pipe_fd.write_end

unfoldable pub sig_usr1_pipe_fd : Daemon → ℤ
sig_usr1_pipe_fd d = d.m_sig_usr1_pipe_fd.write_end

-- The globals that the handlers use.
pub record SignalFds : Type 0 where
  pub g_sig_chld_pipe_fd : ℤ
  pub g_sig_term_pipe_fd : ℤ
  pub g_sig_usr1_pipe_fd : ℤ

-- What main() sets them to.
unfoldable pub signal_fds : Daemon → SignalFds
signal_fds d = record {
  g_sig_chld_pipe_fd = sig_chld_pipe_fd d;
  g_sig_term_pipe_fd = sig_term_pipe_fd d;
  g_sig_usr1_pipe_fd = sig_usr1_pipe_fd d;
}

abbrev pub g_dummy_pipe_data : ℕ
g_dummy_pipe_data = 0

unfoldable pub sig_chld_handler : SignalFds → Run Daemon (Unit {0})
sig_chld_handler fds = log_call (Call.write fds.g_sig_chld_pipe_fd (g_dummy_pipe_data ∷ []))

unfoldable pub sig_term_handler : SignalFds → Run Daemon (Unit {0})
sig_term_handler fds = log_call (Call.write fds.g_sig_term_pipe_fd (g_dummy_pipe_data ∷ []))

unfoldable pub sig_usr1_handler : SignalFds → Run Daemon (Unit {0})
sig_usr1_handler fds = log_call (Call.write fds.g_sig_usr1_pipe_fd (g_dummy_pipe_data ∷ []))

-- The handlers that main() installs.
pub data Caught : Type 0 where
  caught_chld caught_term caught_usr1 : Caught

abbrev pub handle : Caught → SignalFds → Run Daemon (Unit {0})
handle caught_chld = sig_chld_handler
handle caught_term = sig_term_handler
handle caught_usr1 = sig_usr1_handler
