-- ===== src/Os.antt =====
-- The system calls and C library functions that the program makes. They are not part of the
-- repository, so they are a parameter of the model: a `History` lists the calls made so far,
-- newest first, and an `Os` answers each call from the calls that went before it.
use touch_applauncherd.Common.{ℕ, Bool, List, Option, Text}
use touch_applauncherd.Common.Int.{ℤ}
use touch_applauncherd.AppData.{Arg}

-- What `waitpid(pid, &status, WNOHANG)` says: still running (0), an error (-1), or the pid
-- with the signal that killed the process, if one did.
pub data WaitResult : Type 0 where
  running : WaitResult
  wait_failed : WaitResult
  reaped : Option ℕ → WaitResult

-- The signals that the invoker forwards, under their names in signal.h.
pub data Signal : Type 0 where
  sigabrt sigalrm sigbus sigchld sigcont sighup sigint sigio sigiot sigpipe sigprof sigpwr : Signal
  sigquit sigsegv sigsys sigterm sigtrap sigtstp sigttin sigttou sigusr1 sigusr2 : Signal
  sigvtalrm sigwinch sigxcpu sigxfsz : Signal

pub data Handler : Type 0 where
  sig_dfl sig_forwarder hup_signal_handler old_sig_action : Handler
  sig_chld_handler sig_term_handler sig_usr1_handler : Handler

pub data Call : Type 0 where
  accept close : ℤ → Call
  read : ℤ → ℕ → Call
  write : ℤ → List ℕ → Call
  recvmsg : ℤ → Call
  sendmsg : ℤ → List ℤ → Call
  clearenv : Call
  putenv unsetenv : Text → Call
  socket : Call
  unlink : Text → Call
  bind : ℤ → Text → Call
  listen : ℤ → Call
  chmod : Text → Call
  fork : Call
  waitpid : ℤ → Call
  kill : ℤ → ℕ → Call
  sleep : ℤ → Call
  signal_default prctl_pdeathsig : Signal → Call
  setsid : Call
  open_lock : Call
  set_lock : ℤ → Call
  dlopen glob : Text → Call
  dlclose : ℕ → Call
  sigaction : Signal → Handler → Call
  set_priority : ℤ → Call
  setuid setgid setegid : ℕ → Call
  open_file : Text → Call
  dup : ℤ → Call
  dup2 : ℤ → ℤ → Call
  chdir mkdir : Text → Call
  setenv : Text → Text → Call
  set_name : Text → Call
  pdeathsig_off set_dumpable : Call
  dlopen_with : ℕ → Text → Call
  call_lock call_activate : ℕ → Text → Call
  call_main : ℕ → Call
  populate_components : Call
  socketpair pipe umask : Call
  connect : ℤ → Text → Call
  execve : Text → Call
  raise : ℕ → Call
  access stat : Text → Call

abbrev pub History : Type 0
History = List Call

-- What `read` gives: -1, or the bytes that it stored.
pub data ReadResult : Type 0 where
  failed : ReadResult
  got : List ℕ → ReadResult

-- The first control message that `recvmsg` stored.
pub record Cmsg : Type 0 where
  pub cmsg_len : ℕ
  pub cmsg_level : ℕ
  pub cmsg_type : ℕ
  pub fds : List ℤ

pub data RecvmsgResult : Type 0 where
  recvmsg_failed : RecvmsgResult
  received : (flags : ℕ) → Option Cmsg → RecvmsgResult

-- What ends the event loop of a MeeGo Touch booster: a connection, SIGHUP or a change of the theme.
pub data LoopEvent : Type 0 where
  connection hang_up theme_change : LoopEvent

-- What `fork` gives to the process that goes on.
pub data ForkResult : Type 0 where
  fork_failed in_child : ForkResult
  in_parent : ℕ → ForkResult

pub record Os : Type 0 where
  pub accept_fd : History → ℤ → ℤ
  pub read_result : History → ℤ → ℕ → ReadResult
  -- What fresh memory of a size holds before anything is written to it.
  pub fresh : History → ℕ → List ℕ
  pub write_ok : History → ℤ → List ℕ → Bool
  pub recvmsg_result : History → ℤ → RecvmsgResult
  -- CMSG_LEN(3 * sizeof(int)), SOL_SOCKET and SCM_RIGHTS.
  pub cmsg_len_io : ℕ
  pub sol_socket : ℕ
  pub scm_rights : ℕ
  pub putenv_ok : History → Text → Bool
  pub getpid : ℤ
  pub peer_pid : History → ℤ → Option ℤ
  pub socket_fd : History → ℤ
  pub unlink_ok : History → Text → Bool
  pub bind_ok : History → ℤ → Text → Bool
  pub listen_ok : History → ℤ → Bool
  pub fork_result : History → ForkResult
  pub wait_result : History → ℤ → WaitResult
  -- The error of `getpriority`, and its value.
  pub get_priority : History → Bool × ℤ
  pub getuid : ℤ
  pub getgid : ℤ
  -- `open` of the lock file and `fcntl(F_SETLK)` on it.
  pub open_lock_fd : History → ℤ
  pub set_lock_ok : History → ℤ → Bool
  -- BOOSTER_PLUGIN_DIR and SINGLE_INSTANCE_PATH of the build; the paths that `glob` finds.
  pub booster_plugin_dir : Text
  pub single_instance_path : Text
  pub glob_paths : Text → Option (List Text)
  pub dlopen_handle : Text → Option ℕ
  -- What a loaded library has under a name, and what its functions of no argument return.
  pub dlsym : ℕ → Text → Option ℕ
  pub call_char : ℕ → ℕ
  pub call_text : ℕ → Text
  pub kill_ok : History → ℤ → ℕ → Bool
  pub set_priority_ok : History → ℤ → Bool
  pub getegid : ℕ
  -- The gid of the group "boosted", if there is one.
  pub boosted_group : Option ℕ
  pub open_fd : History → Text → ℤ
  pub basename : Text → Text
  pub getenv : History → Text → Option Text
  -- What the plugin's `lock` and `activateExistingInstance` return for a name.
  pub lock_result : History → ℕ → Text → Bool
  pub activate_result : History → ℕ → Text → Bool
  -- The value of the application's main().
  pub main_result : History → ℕ → ℤ → List Arg → ℤ
  pub loop_event : History → LoopEvent
  pub socketpair_ok : History → Bool
  -- Both ends of a new pipe, and the descriptor that `dup` gives.
  pub pipe_ends : History → Option (ℤ × ℤ)
  pub dup_fd : History → ℤ → ℤ
  pub setsid_ok : History → Bool
  pub chdir_ok : History → Text → Bool
  pub mkdir_ok : History → Text → Bool
  pub chmod_ok : History → Text → Bool
  pub connect_ok : History → ℤ → Text → Bool
  -- `execve` comes back only if it fails.
  pub execve_ok : History → Text → Bool
  -- `access(path, X_OK)`, and the current directory.
  pub access_ok : History → Text → Bool
  pub cwd : Text
  -- `stat`: whether it is a regular file or a link, if there is something.
  pub stat_result : History → Text → Option Bool
