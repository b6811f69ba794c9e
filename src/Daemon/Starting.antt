-- ===== src/Daemon/Starting.antt =====
-- src/launcherlib/daemon.cpp and main.cpp: the daemon's constructor, daemonize and main().
use touch_applauncherd.Common.{
  ℕ, Bool, false, not, if◌then◌else◌, List, [], none, some, Text, codes,
}
use touch_applauncherd.Common.Exits.{
  Run, ◌>>=◌, ◌>>◌, pure, exit, get, modify, when, exit_success, exit_failure,
}
use touch_applauncherd.Common.Int.{pos, minus_one, int_eq, is_neg}
use touch_applauncherd.Os.{
  Os, Call, fork_failed, in_child, in_parent, sigchld, sigterm, sigusr1, sig_chld_handler,
  sig_term_handler, sig_usr1_handler,
}
use touch_applauncherd.Daemon.{Daemon, Pipe, log_call, lock}
use touch_applauncherd.Daemon.Events.{parse_args, start}

-- A pipe before it is made.
abbrev no_pipe : Pipe
no_pipe = record { read_end = minus_one; write_end = minus_one }

-- The process before main(): the constructor's initial values and the static `m_lockFd`.
unfoldable pub new_daemon : Daemon
new_daemon = record {
  m_daemon = false;
  m_quiet = false;
  m_boot_mode = false;
  m_debug_mode = false;
  m_children = [];
  m_booster_pid_to_invoker_pid = [];
  m_booster_type_to_pid = [];
  m_booster_pipe_fd = no_pipe;
  m_sig_chld_pipe_fd = no_pipe;
  m_sig_term_pipe_fd = no_pipe;
  m_sig_usr1_pipe_fd = no_pipe;
  m_lock_fd = minus_one;
  m_socket_hash = [];
  m_single_instance = none;
  m_registry = [];
  calls = [];
}

module _ (os : Os) where
  unfoldable pub console_quiet : Run Daemon (Unit {0})
  console_quiet = do
    log_call (Call.close (pos 0))
    log_call (Call.close (pos 1))
    log_call (Call.close (pos 2))
    d ← get
    log_call (Call.open_file (codes "/dev/null"))
    if is_neg (os.open_fd d.calls (codes "/dev/null")) then exit exit_failure else (do
      d ← get
      let fd = os.open_fd d.calls (codes "/dev/null")
      log_call (Call.open_file (codes "/dev/null"))
      if int_eq fd minus_one then exit exit_failure else (do
        d ← get
        log_call (Call.dup fd)
        if is_neg (os.dup_fd d.calls fd) then exit exit_failure else pure tt))

  -- `pipe`; the daemon dies if it fails.
  unfoldable pub make_pipe : Run Daemon Pipe
  make_pipe = do
    d ← get
    log_call Call.pipe
    elim (os.pipe_ends d.calls) [
      | none ↦ exit exit_failure
      | some (r, w) ↦ pure (record { read_end = r; write_end = w })
    ]

  -- A fork of which only the child goes on.
  unfoldable pub leave_parent : Run Daemon (Unit {0})
  leave_parent = do
    d ← get
    log_call Call.fork
    elim (os.fork_result d.calls) [
      | fork_failed ↦ exit exit_failure
      | in_parent pid ↦ exit exit_success
      | in_child ↦ pure tt
    ]

  -- A standard descriptor becomes /dev/null, if that can be opened.
  unfoldable pub redirect : ℕ → Run Daemon (Unit {0})
  redirect n = do
    d ← get
    let fd = os.open_fd d.calls (codes "/dev/null")
    log_call (Call.open_file (codes "/dev/null"))
    when (not (int_eq fd minus_one)) (do log_call (Call.dup2 fd (pos n)); log_call (Call.close fd))

  unfoldable pub daemonize : Run Daemon (Unit {0})
  daemonize = do
    leave_parent
    leave_parent
    log_call Call.umask
    d ← get
    log_call Call.setsid
    when (not (os.setsid_ok d.calls)) (exit exit_failure)
    d ← get
    log_call (Call.chdir (codes "/"))
    when (not (os.chdir_ok d.calls (codes "/"))) (exit exit_failure)
    redirect 0
    redirect 1
    redirect 2

  -- The constructor, given whether there is a daemon already.
  unfoldable pub construct : Bool → List Text → Run Daemon (Unit {0})
  construct created args = do
    when created (exit exit_failure)
    parse_args args
    d ← get
    when d.m_quiet console_quiet
    booster_pipe ← make_pipe
    modify (λ d. record d { m_booster_pipe_fd = booster_pipe })
    sig_chld_pipe ← make_pipe
    modify (λ d. record d { m_sig_chld_pipe_fd = sig_chld_pipe })
    sig_term_pipe ← make_pipe
    modify (λ d. record d { m_sig_term_pipe_fd = sig_term_pipe })
    sig_usr1_pipe ← make_pipe
    modify (λ d. record d { m_sig_usr1_pipe_fd = sig_usr1_pipe })
    d ← get
    when d.m_daemon daemonize

  -- main() and `run` up to the main loop.
  unfoldable pub start_up : List Text → Run Daemon (Unit {0})
  start_up args = do
    locked ← lock os
    when (not locked) (exit exit_failure)
    construct false args
    log_call (Call.sigaction sigchld sig_chld_handler)
    log_call (Call.sigaction sigterm sig_term_handler)
    log_call (Call.sigaction sigusr1 sig_usr1_handler)
    start os
