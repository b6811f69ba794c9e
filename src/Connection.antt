-- ===== src/Connection.antt =====
-- src/launcherlib/connection.h and connection.cpp: a booster's side of the conversation with an
-- invoker. This file has the object and its messages and strings; `Receive` has the handlers of
-- the protocol's actions, and the other children the theorems.
pub mod Receive
pub mod Reading
pub mod Requests
pub mod Actions
pub mod Handover
pub mod Bounds
pub mod Termination
mod Tests
use touch_applauncherd.Common.{
  ℕ, ◌+◌, ◌-◌, ◌%◌, ◌^◌, Bool, true, false, not, ◌&&◌, ◌||◌, ltb, ◌==◌, if◌then◌else◌, List, [],
  ◌++◌, ◌∷◌, Option, none, some, Text, length, drop, set, c_str, Step, ◌>>=◌, ◌>>◌, pure, gets,
  modify, when,
}
use touch_applauncherd.Common.Int.{ℤ, pos, minus_one, int_eq, is_neg, to_u32}
use touch_applauncherd.Common.Bytes.{le32, from_le32}
use touch_applauncherd.Os.{Os, Call, History, ReadResult, failed, got}
use touch_applauncherd.AppData.{Arg}
use touch_applauncherd.Protocol.{invoker_msg_pid, invoker_msg_exit}

-- argv is NULL until the arguments arrive.
pub record Connection : Type 0 where
  pub m_test_mode : Bool
  pub m_fd : ℤ
  pub m_cur_socket : ℤ
  pub m_file_name : Text
  pub m_argc : ℕ
  pub m_argv : Option (List Arg)
  pub m_io : List ℤ
  pub m_priority : ℕ
  pub m_delay : ℕ
  pub m_send_pid : Bool
  pub m_gid : ℕ
  pub m_uid : ℕ

-- The connection and the calls that the process has made.
pub record Session : Type 0 where
  pub conn : Connection
  pub calls : History

-- The constructor. It leaves `m_gid` and `m_uid` as the memory was, so these are arguments; `none`
-- is the end of the process.
unfoldable pub new_connection : (gid uid : ℕ) → ℤ → Bool → Option Connection
new_connection gid uid socket_fd test_mode =
    if not test_mode && int_eq socket_fd minus_one
    then none
    else some (record {
      m_test_mode = test_mode;
      m_fd = minus_one;
      m_cur_socket = socket_fd;
      m_file_name = [];
      m_argc = 0;
      m_argv = none;
      m_io = minus_one ∷ minus_one ∷ minus_one ∷ [];
      m_priority = 0;
      m_delay = 0;
      m_send_pid = false;
      m_gid = gid;
      m_uid = uid;
    })

abbrev pub set_conn : (Connection → Connection) → Session → Session
set_conn f s = record s { conn = f s.conn }

abbrev pub log_call : Call → Step Session (Unit {0})
log_call c = modify λ s. record s { calls = c ∷ s.calls }

unfoldable pub connected : Connection → Bool
connected c = not (is_neg c.m_fd)

unfoldable pub close : Step Session (Unit {0})
close = do
  c ← gets (λ s. s.conn)
  when (not (int_eq c.m_fd minus_one)) (do
    when (not c.m_test_mode) (log_call (Call.close c.m_fd))
    modify (set_conn λ d. record d { m_fd = minus_one }))

unfoldable pub is_report_app_exit_status_needed : Connection → Bool
is_report_app_exit_status_needed c = c.m_send_pid

-- The result and what `*msg` holds then, for the value that it held before.
abbrev pub word_read : ReadResult → Bool × ℕ
word_read failed = (false, 0)
word_read (got bytes) = (true, if ltb (length bytes) 4 then 0 else from_le32 bytes)

abbrev pub str_len_max : ℕ
str_len_max = 4096

-- `uint32_t ret = read(…)`: the error -1 becomes the greatest word.
abbrev pub ret_of : ReadResult → ℕ
ret_of failed = 2 ^ 32 - 1
ret_of (got bytes) = length bytes

-- The fresh block after the read stored its bytes.
abbrev pub stored : ReadResult → List ℕ → List ℕ
stored failed block = block
stored (got bytes) block = bytes ++ drop (length bytes) block

-- What `recvStr` makes of the read: NULL, or the C string in the buffer after
-- `str[size - 1] = '\0'`.
abbrev pub text_of : ReadResult → List ℕ → ℕ → Option Text
text_of r block size =
    if ltb (ret_of r) size then none else some (c_str (set (stored r block) (size - 1) 0))

module _ (os : Os) where
  unfoldable pub accept : Step Session Bool
  accept s =
      if s.conn.m_test_mode
      then (true, s)
      else let fd = os.accept_fd s.calls s.conn.m_cur_socket in
        (
          not (is_neg fd),
          record {
            conn = record (s.conn) { m_fd = fd };
            calls = Call.accept s.conn.m_cur_socket ∷ s.calls;
          },
        )

  -- The system call on the connection's descriptor.
  unfoldable pub read : ℕ → Step Session ReadResult
  read n s =
      (os.read_result s.calls s.conn.m_fd n, record s { calls = Call.read s.conn.m_fd n ∷ s.calls })

  unfoldable pub write : List ℕ → Step Session Bool
  write bytes s = (
    os.write_ok s.calls s.conn.m_fd bytes,
    record s { calls = Call.write s.conn.m_fd bytes ∷ s.calls },
  )

  unfoldable pub send_msg : ℕ → Step Session Bool
  send_msg msg = do
    test ← gets (λ s. s.conn.m_test_mode)
    if test then pure true else write (le32 msg)

  unfoldable pub recv_msg : ℕ → Step Session (Bool × ℕ)
  recv_msg old = do
    test ← gets (λ s. s.conn.m_test_mode)
    if test then pure (true, old) else (do r ← read 4; pure (word_read r))

  unfoldable pub send_str : Text → Step Session Bool
  send_str str = do
    test ← gets (λ s. s.conn.m_test_mode)
    if test then pure true else (do send_msg ((length str + 1) % 2 ^ 32); write (str ++ 0 ∷ []))

  -- The body of `recvStr` once a size within bounds has come; `none` is NULL.
  unfoldable pub recv_body : ℕ → Step Session (Option Text)
  recv_body size = do
    block ← gets (λ s. os.fresh s.calls size)
    r ← read size
    pure (text_of r block size)

  unfoldable pub recv_str : Step Session (Option Text)
  recv_str = do
    test ← gets (λ s. s.conn.m_test_mode)
    if test then pure none else (do
      (res, size) ← recv_msg 0
      if not res || size == 0 || ltb str_len_max size then pure none else recv_body size)

  unfoldable pub send_pid : ℤ → Step Session Bool
  send_pid pid = do send_msg invoker_msg_pid; send_msg (to_u32 pid); pure true

  unfoldable pub send_app_exit_status : ℤ → Step Session Bool
  send_app_exit_status status = do send_msg invoker_msg_exit; send_msg (to_u32 status); pure true

  -- 0 if the kernel does not say who the peer is.
  unfoldable pub peer_pid : Session → ℤ
  peer_pid s = elim (os.peer_pid s.calls s.conn.m_fd) [ none ↦ pos 0 | some pid ↦ pid ]
