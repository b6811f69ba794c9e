-- ===== src/Connection/Receive.antt =====
-- src/launcherlib/connection.cpp: the receive handlers, and the loop that reads a whole request.
use touch_applauncherd.Common.{
  ℕ, zero, suc, ◌+◌, ◌-◌, ◌^◌, Bool, true, false, not, ◌&&◌, ltb, ◌==◌, if◌then◌else◌, List, [],
  Option, none, some, Text, set, take, replicate, is_empty, contains, Step, ◌>>=◌, ◌>>◌, pure, get,
  modify, when, bit_and,
}
use touch_applauncherd.Common.Int.{ℤ, minus_one, int_eq, to_int}
use touch_applauncherd.Os.{Os, Call, RecvmsgResult, recvmsg_failed, received, Cmsg}
use touch_applauncherd.AppData.{
  AppData, Arg, str, null, wild, set_options, options, set_app_name, set_file_name, set_priority,
  set_delay, set_argc, set_argv, set_io_descriptors, set_ids,
}
use touch_applauncherd.Protocol.{
  invoker_msg_mask, invoker_msg_magic, invoker_msg_magic_version_mask, invoker_msg_magic_version,
  invoker_msg_magic_option_mask, invoker_msg_magic_option_wait, invoker_msg_name, invoker_msg_exec,
  invoker_msg_args, invoker_msg_env, invoker_msg_prio, invoker_msg_delay, invoker_msg_ids,
  invoker_msg_io, invoker_msg_end, invoker_msg_ack,
}
use touch_applauncherd.Connection.{
  Connection, Session, set_conn, log_call, recv_msg, recv_str, send_msg, send_pid,
}

-- What `magic & INVOKER_MSG_MAGIC_OPTION_WAIT` is as a bool.
abbrev pub wants_wait : ℕ → Bool
wants_wait magic = not (bit_and magic invoker_msg_magic_option_wait == 0)

-- `!(magic & MASK) == VERSION`: the negation binds first, and gives 0 or 1.
abbrev pub version_test : ℕ → Bool
version_test magic = not (
    (if bit_and magic invoker_msg_magic_version_mask == 0 then 1 else 0)
    == invoker_msg_magic_version)

-- The `if` of `receiveMagic` as it is compiled: an error is reported if the comparison holds.
abbrev pub bad_magic : ℕ → Bool
bad_magic magic = bit_and magic invoker_msg_mask == invoker_msg_magic && not (version_test magic)

abbrev pub max_args : ℕ
max_args = 1024

abbrev pub max_vars : ℕ
max_vars = 1024

abbrev pub arg_of : Option Text → Arg
arg_of none = null
arg_of (some s) = str s

abbrev pub is_some : Option Text → Bool
is_some none = false
is_some (some s) = true

-- `m_argv[i] = arg`
abbrev pub store_arg : ℕ → Arg → Connection → Connection
store_arg i arg c = record c {
  m_argv = elim c.m_argv [ none ↦ none | some args ↦ some (set args i arg) ];
}

-- `strchr(s, '=')`
abbrev pub putenv_sanitize : Text → Bool
putenv_sanitize s = contains s b'='

abbrev pub continue : Step Session Bool → Step Session (Option Bool)
continue m = do _ ← m; pure none

-- The fields that a request ends with.
unfoldable pub hand_over : Connection → AppData → AppData
hand_over c a = set_ids c.m_uid c.m_gid (
    set_io_descriptors c.m_io (
      set_argv c.m_argv (
        set_argc (to_int c.m_argc) (
          set_delay (to_int c.m_delay)
            (set_priority (to_int c.m_priority) (set_file_name c.m_file_name a))))))

module _ (os : Os) where
  unfoldable pub receive_magic : Step Session ℕ
  receive_magic = do
    (_, magic) ← recv_msg os 0
    if bad_magic magic then pure (2 ^ 32 - 1) else (do
      modify (set_conn λ c. record c { m_send_pid = wants_wait magic })
      pure (bit_and magic invoker_msg_magic_option_mask))

  -- The empty string on failure.
  unfoldable pub receive_app_name : Step Session Text
  receive_app_name = do
    (_, msg) ← recv_msg os 0
    if not (msg == invoker_msg_name)
        then pure []
        else (do name ← recv_str os; pure (elim name [ none ↦ [] | some s ↦ s ]))

  unfoldable pub receive_exec : Step Session Bool
  receive_exec = do
    filename ← recv_str os
    elim filename [
      | none ↦ pure false
      | some s ↦ (do modify (set_conn λ c. record c { m_file_name = s }); pure true)
    ]

  unfoldable pub receive_priority : Step Session Bool
  receive_priority = do
    s ← get
    (_, priority) ← recv_msg os s.conn.m_priority
    modify (set_conn λ c. record c { m_priority = priority })
    pure true

  unfoldable pub receive_delay : Step Session Bool
  receive_delay = do
    s ← get
    (_, delay) ← recv_msg os s.conn.m_delay
    modify (set_conn λ c. record c { m_delay = delay })
    pure true

  unfoldable pub receive_ids : Step Session Bool
  receive_ids = do
    s ← get
    (_, uid) ← recv_msg os s.conn.m_uid
    modify (set_conn λ c. record c { m_uid = uid })
    (_, gid) ← recv_msg os s.conn.m_gid
    modify (set_conn λ c. record c { m_gid = gid })
    pure true

  -- `for (uint i = 0; i < m_argc; i++)`, by the rounds that are left.
  unfoldable pub receive_argv : (rounds i : ℕ) → Step Session Bool
  receive_argv zero i = pure true
  receive_argv (suc n) i = do
    arg ← recv_str os
    modify (set_conn (store_arg i (arg_of arg)))
    elim (is_some arg) [ true ↦ receive_argv n (i + 1) | false ↦ pure false ]

  unfoldable pub receive_args : Step Session Bool
  receive_args = do
    s ← get
    (_, argc) ← recv_msg os s.conn.m_argc
    modify (set_conn λ c. record c { m_argc = argc })
    if ltb 0 argc && ltb argc max_args
        then (do
          modify (set_conn λ c. record c { m_argv = some (replicate argc wild) })
          receive_argv argc 0)
        else pure false

  -- A variable with no `=` is dropped; what `putenv` says is only logged.
  unfoldable pub receive_vars : ℕ → Step Session Bool
  receive_vars zero = pure true
  receive_vars (suc n) = do
    var ← recv_str os
    elim var [
      | none ↦ pure false
      | some s ↦ (do when (putenv_sanitize s) (log_call (Call.putenv s)); receive_vars n)
    ]

  unfoldable pub receive_env : Step Session Bool
  receive_env = do
    (_, n_vars) ← recv_msg os 0
    if ltb 0 n_vars && ltb n_vars max_vars then receive_vars n_vars else pure false

  -- The test on the control message, and the descriptors in it.
  abbrev pub rights_of : Option Cmsg → Option (List ℤ)
  rights_of none = none
  rights_of (some c) =
      if c.cmsg_len == os.cmsg_len_io
        && c.cmsg_level == os.sol_socket
        && c.cmsg_type == os.scm_rights
      then some (take 3 c.fds)
      else none

  abbrev pub io_of : RecvmsgResult → Option (List ℤ)
  io_of recvmsg_failed = none
  io_of (received flags cmsg) = if flags == 0 then rights_of cmsg else none

  unfoldable pub receive_io : Step Session Bool
  receive_io = do
    s ← get
    log_call (Call.recvmsg s.conn.m_fd)
    elim (io_of (os.recvmsg_result s.calls s.conn.m_fd)) [
      | none ↦ pure false
      | some io ↦ (do modify (set_conn λ c. record c { m_io = io }); pure true)
    ]

  unfoldable pub finish : Step Session (Option Bool)
  finish = do
    send_msg os invoker_msg_ack
    s ← get
    elim s.conn.m_send_pid [
      | true ↦ (do send_pid os os.getpid; pure (some true))
      | false ↦ pure (some true)
    ]

  -- The `switch` of `receiveActions`: `none` goes round the loop, `some b` is `return b`. The
  -- handlers' results are not looked at.
  unfoldable pub dispatch : ℕ → Step Session (Option Bool)
  dispatch action =
      if action == invoker_msg_exec
      then continue receive_exec
      else if action == invoker_msg_args
      then continue receive_args
      else if action == invoker_msg_env
      then (do log_call Call.clearenv; continue receive_env)
      else if action == invoker_msg_prio
      then continue receive_priority
      else if action == invoker_msg_delay
      then continue receive_delay
      else if action == invoker_msg_io
      then continue receive_io
      else if action == invoker_msg_ids
      then continue receive_ids
      else if action == invoker_msg_end
      then finish
      else pure (some false)

  -- `while (1)`, on fuel: `none` means that it ran out.
  unfoldable pub receive_actions : ℕ → Step Session (Option Bool)
  receive_actions zero = pure none
  receive_actions (suc fuel) = do
    (_, action) ← recv_msg os 0
    r ← dispatch action
    elim r [ none ↦ receive_actions fuel | some b ↦ pure (some b) ]

  unfoldable pub receive_application_data : ℕ → AppData → Step Session (Option Bool × AppData)
  receive_application_data fuel a = do
    magic ← receive_magic
    let opened = set_options magic a
    if int_eq (options opened) minus_one then pure (some false, opened) else (do
      name ← receive_app_name
      let named = set_app_name name opened
      if is_empty named.m_app_name then pure (some false, named) else (do
        r ← receive_actions fuel
        s ← get
        elim r [
          | none ↦ pure (none, named)
          | some b ↦ pure (some b, if b then hand_over s.conn named else named)
        ]))
