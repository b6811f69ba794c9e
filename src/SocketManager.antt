-- ===== src/SocketManager.antt =====
-- src/launcherlib/socketmanager.h and socketmanager.cpp: the listening sockets of the boosters.
pub mod Laws
mod Tests
use touch_applauncherd.Common.{ℕ, not, if◌then◌else◌, List, [], ◌∷◌, none, some, Text, length, take}
use touch_applauncherd.Common.Exits.{Run, ◌>>=◌, ◌>>◌, pure, exit, get, modify, when, exit_failure}
use touch_applauncherd.Common.Int.{ℤ, minus_one, is_neg, is_pos}
use touch_applauncherd.Common.Map.{lookup, insert, erase, text_key}
use touch_applauncherd.Os.{Os, Call, History}

-- `m_socketHash` from socket paths to descriptors, and the calls made.
pub record SocketManager : Type 0 where
  pub m_socket_hash : List (Text × ℤ)
  pub calls : History

abbrev log_call : Call → Run SocketManager (Unit {0})
log_call c = modify λ s. record s { calls = c ∷ s.calls }

-- sizeof(sun.sa_data) - 1
abbrev pub max_len : ℕ
max_len = 13

module _ (os : Os) where
  -- The socket of a path that has none yet. What `unlink` says is only logged; the bound path is cut
  -- off at `max_len`.
  unfoldable pub create_socket : Text → Run SocketManager (Unit {0})
  create_socket socket_id = do
    s ← get
    let fd = os.socket_fd s.calls
    log_call Call.socket
    when (is_neg fd) (exit exit_failure)
    log_call (Call.unlink socket_id)
    s ← get
    log_call (Call.bind fd (take max_len socket_id))
    when (not (os.bind_ok s.calls fd (take max_len socket_id))) (exit exit_failure)
    s ← get
    log_call (Call.listen fd)
    when (not (os.listen_ok s.calls fd)) (exit exit_failure)
    log_call (Call.chmod socket_id)
    modify (λ s. record s { m_socket_hash = insert socket_id fd s.m_socket_hash })

  unfoldable pub init_socket : Text → Run SocketManager (Unit {0})
  init_socket socket_id = do
    s ← get
    elim (lookup socket_id s.m_socket_hash) [ none ↦ create_socket socket_id | some fd ↦ pure tt ]

unfoldable pub close_socket : Text → Run SocketManager (Unit {0})
close_socket socket_id = do
  s ← get
  elim (lookup socket_id s.m_socket_hash) [
    | none ↦ pure tt
    | some fd ↦ (do
      log_call (Call.close fd)
      modify (λ s. record s { m_socket_hash = erase socket_id s.m_socket_hash }))
  ]

-- The loop of `closeAllSockets` over the map's entries.
unfoldable pub close_entries : List (Text × ℤ) → Run SocketManager (Unit {0})
close_entries [] = pure tt
close_entries ((socket_id, fd) ∷ rest) = do
  when (is_pos fd) (log_call (Call.close fd))
  close_entries rest

unfoldable pub close_all_sockets : Run SocketManager (Unit {0})
close_all_sockets = do
  s ← get
  close_entries s.m_socket_hash
  modify (λ s. record s { m_socket_hash = [] })

unfoldable pub find_socket : Text → SocketManager → ℤ
find_socket socket_id s = elim (lookup socket_id s.m_socket_hash) [
  | none ↦ minus_one
  | some fd ↦ fd
]

unfoldable pub socket_count : SocketManager → ℕ
socket_count s = length s.m_socket_hash
