-- ===== src/Invoker.antt =====
-- src/invoker/invokelib.c and the protocol part of src/invoker/invoker.c: the sender's side.
pub mod Sends
pub mod Search
pub mod Options
pub mod Answers
pub mod Exit
pub mod Reports
mod Tests
use touch_applauncherd.Common.{
  ℕ, zero, suc, ◌+◌, ◌%◌, ◌^◌, Bool, true, not, ◌&&◌, ◌==◌, if◌then◌else◌, List, [], ◌∷◌, ◌++◌,
  Option, none, some, Text, length, bit_or, ◌≡◌,
}
use touch_applauncherd.Common.Exits.{Run, ◌>>=◌, ◌>>◌, pure, exit, get, modify}
use touch_applauncherd.Common.Int.{ℤ, pos, is_neg, to_u32, to_int}
use touch_applauncherd.Common.Bytes.{le32, from_le32}
use touch_applauncherd.Os.{
  Os, Call, History, Signal, Handler, sig_dfl, sig_forwarder, sigabrt, sigalrm, sigbus, sigchld,
  sigcont, sighup, sigint, sigio, sigiot, sigpipe, sigprof, sigpwr, sigquit, sigsegv, sigsys,
  sigterm, sigtrap, sigtstp, sigttin, sigttou, sigusr1, sigusr2, sigvtalrm, sigwinch, sigxcpu,
  sigxfsz,
}
use touch_applauncherd.Connection.{stored}
use touch_applauncherd.Protocol.{
  invoker_msg_magic, invoker_msg_magic_version, invoker_msg_name, invoker_msg_exec,
  invoker_msg_args, invoker_msg_env, invoker_msg_prio, invoker_msg_delay, invoker_msg_ids,
  invoker_msg_io, invoker_msg_end, invoker_msg_pid, invoker_msg_exit, invoker_msg_ack,
  invoker_msg_bad_creds,
}

-- `g_invoked_pid`, and the calls made.
pub record Invoker : Type 0 where
  pub g_invoked_pid : ℤ
  pub calls : History

abbrev pub log_call : Call → Run Invoker (Unit {0})
log_call c = modify λ s. record s { calls = c ∷ s.calls }

unfoldable pub invoke_send_msg : ℤ → ℕ → Run Invoker (Unit {0})
invoke_send_msg fd msg = log_call (Call.write fd (le32 msg))

-- `none` is NULL.
unfoldable pub invoke_send_str : ℤ → Option Text → Run Invoker (Unit {0})
invoke_send_str fd none = pure tt
invoke_send_str fd (some str) = do
  invoke_send_msg fd ((length str + 1) % 2 ^ 32)
  log_call (Call.write fd (str ++ 0 ∷ []))

unfoldable pub invoker_send_magic : ℤ → ℕ → Run Invoker (Unit {0})
invoker_send_magic fd options =
    invoke_send_msg fd (bit_or (bit_or invoker_msg_magic invoker_msg_magic_version) options)

unfoldable pub invoker_send_name : ℤ → Text → Run Invoker (Unit {0})
invoker_send_name fd name = do invoke_send_msg fd invoker_msg_name; invoke_send_str fd (some name)

unfoldable pub invoker_send_exec : ℤ → Text → Run Invoker (Unit {0})
invoker_send_exec fd exec = do invoke_send_msg fd invoker_msg_exec; invoke_send_str fd (some exec)

-- The loop over `argv`, which ends with a NULL.
unfoldable pub send_argv : ℤ → ℕ → List Text → Run Invoker (Unit {0})
send_argv fd zero argv = pure tt
send_argv fd (suc n) [] = do invoke_send_str fd none; send_argv fd n []
send_argv fd (suc n) (arg ∷ argv) = do invoke_send_str fd (some arg); send_argv fd n argv

unfoldable pub invoker_send_args : ℤ → ℕ → List Text → Run Invoker (Unit {0})
invoker_send_args fd argc argv = do
  invoke_send_msg fd invoker_msg_args
  invoke_send_msg fd argc
  send_argv fd argc argv

unfoldable pub invoker_send_prio : ℤ → ℤ → Run Invoker (Unit {0})
invoker_send_prio fd prio = do invoke_send_msg fd invoker_msg_prio; invoke_send_msg fd (to_u32 prio)

unfoldable pub invoker_send_delay : ℤ → ℤ → Run Invoker (Unit {0})
invoker_send_delay fd delay = do
  invoke_send_msg fd invoker_msg_delay
  invoke_send_msg fd (to_u32 delay)

unfoldable pub invoker_send_ids : ℤ → ℤ → ℤ → Run Invoker (Unit {0})
invoker_send_ids fd uid gid = do
  invoke_send_msg fd invoker_msg_ids
  invoke_send_msg fd (to_u32 uid)
  invoke_send_msg fd (to_u32 gid)

-- `environ` is the environment of the invoker.
unfoldable pub invoker_send_env : ℤ → List Text → Run Invoker (Unit {0})
invoker_send_env fd environ = do
  invoke_send_msg fd invoker_msg_env
  invoke_send_msg fd (length environ)
  send_argv fd (length environ) environ

unfoldable pub invoker_send_io : ℤ → Run Invoker (Unit {0})
invoker_send_io fd = do
  invoke_send_msg fd invoker_msg_io
  log_call (Call.sendmsg fd (pos 0 ∷ pos 1 ∷ pos 2 ∷ []))

-- `sigs_set`: one handler for every signal, in the order of the source.
unfoldable pub signals : List Signal
signals =
    sigabrt ∷ sigalrm ∷ sigbus ∷ sigchld ∷ sigcont ∷ sighup ∷ sigint ∷ sigio ∷ sigiot ∷ sigpipe
    ∷ sigprof ∷ sigpwr ∷ sigquit ∷ sigsegv ∷ sigsys ∷ sigterm ∷ sigtrap ∷ sigtstp ∷ sigttin
    ∷ sigttou ∷ sigusr1 ∷ sigusr2 ∷ sigvtalrm ∷ sigwinch ∷ sigxcpu ∷ sigxfsz ∷ []

unfoldable pub set_all : Handler → List Signal → Run Invoker (Unit {0})
set_all handler [] = pure tt
set_all handler (sig ∷ sigs) = do log_call (Call.sigaction sig handler); set_all handler sigs

unfoldable pub sigs_init : Run Invoker (Unit {0})
sigs_init = set_all sig_forwarder signals

unfoldable pub sigs_restore : Run Invoker (Unit {0})
sigs_restore = set_all sig_dfl signals

abbrev pub exit_status_application_connection_lost : ℕ
exit_status_application_connection_lost = 0xfa

module _ (os : Os) where
  -- The word is not initialised, and what `read` says is not looked at.
  unfoldable pub invoke_recv_msg : ℤ → Run Invoker ℕ
  invoke_recv_msg fd = do
    s ← get
    log_call (Call.read fd 4)
    pure (from_le32 (stored (os.read_result s.calls fd 4) (os.fresh s.calls 4)))

  -- `die(1, …)` on anything but the acknowledgement.
  unfoldable pub invoke_recv_ack : ℤ → Run Invoker Bool
  invoke_recv_ack fd = do
    action ← invoke_recv_msg fd
    if action == invoker_msg_bad_creds
        then exit 1
        else if not (action == invoker_msg_ack)
        then exit 1
        else pure true

  unfoldable pub invoker_recv_pid : ℤ → Run Invoker ℕ
  invoker_recv_pid fd = do
    action ← invoke_recv_msg fd
    if not (action == invoker_msg_pid) then exit 1 else invoke_recv_msg fd

  unfoldable pub invoker_recv_exit : ℤ → Run Invoker ℕ
  invoker_recv_exit fd = do
    action ← invoke_recv_msg fd
    if not (action == invoker_msg_exit)
        then (do log_call (Call.sleep (pos 2)); pure exit_status_application_connection_lost)
        else invoke_recv_msg fd

  unfoldable pub invoker_send_end : ℤ → Run Invoker (Unit {0})
  invoker_send_end fd = do invoke_send_msg fd invoker_msg_end; invoke_recv_ack fd; pure tt

  -- `if (errno && prog_prio < 0) prog_prio = 0;`
  abbrev pub prog_prio : History → ℤ
  prog_prio h =
      let (error, prio) = os.get_priority h in if error && is_neg prio then pos 0 else prio

  -- All the writes of a request, up to the acknowledgement that it waits for.
  unfoldable pub send_request :
      ℤ → ℕ → List Text → Text → Text → ℕ → ℤ → List Text → Run Invoker (Unit {0})
  send_request fd argc argv argv0 prog_name options delay environ = do
    s ← get
    let prio = prog_prio s.calls
    invoker_send_magic fd options
    invoker_send_name fd argv0
    invoker_send_exec fd prog_name
    invoker_send_args fd argc argv
    invoker_send_prio fd prio
    invoker_send_delay fd delay
    invoker_send_ids fd os.getuid os.getgid
    invoker_send_io fd
    invoker_send_env fd environ
    invoker_send_end fd

  -- `argv0` is `prog_argv[0]`. The wait for the application's end is `wait_for`.
  unfoldable pub wait_for : ℤ → Run Invoker ℤ
  wait_for fd = do
    pid ← invoker_recv_pid fd
    modify (λ s. record s { g_invoked_pid = to_int pid })
    sigs_init
    status ← invoker_recv_exit fd
    sigs_restore
    pure (to_int status)

  unfoldable pub invoke_remote :
      ℤ → ℕ → List Text → Text → Text → ℕ → Bool → ℤ → List Text → Run Invoker ℤ
  invoke_remote fd argc argv argv0 prog_name options wait_term delay environ = do
    send_request fd argc argv argv0 prog_name options delay environ
    if wait_term then wait_for fd else pure (pos 0)
