-- ===== src/Booster.antt =====
-- src/launcherlib/booster.h and booster.cpp: a booster, the forked child that waits for an invoker
-- and becomes the application. This file has its state, its talk with the daemon and the invoker,
-- and `run`; the children have the other operations and the theorems.
pub mod Kinds
pub mod Rename
pub mod Running
pub mod MBooster
pub mod Initializing
pub mod Report
pub mod Keeping
pub mod Silent
pub mod Talking
pub mod Status
pub mod Files
pub mod Preparing
pub mod Instance
pub mod Tests
use touch_applauncherd.Common.{
  ℕ, ◌+◌, Bool, true, false, not, ◌&&◌, ◌||◌, ◌==◌, if◌then◌else◌, List, [], ◌∷◌, ◌++◌, Option,
  none, some, Text, drop, Step,
}
use touch_applauncherd.Common.Exits.{
  Run, done, exited, ◌>>=◌, ◌>>◌, pure, exit, get, modify, when, within, exit_failure,
}
use touch_applauncherd.Common.Int.{ℤ, pos, minus_one, to_u32}
use touch_applauncherd.Common.Bytes.{le32, from_le32}
use touch_applauncherd.Os.{Os, Call, History}
use touch_applauncherd.AppData.{AppData, new_app_data}
use touch_applauncherd.Connection
use touch_applauncherd.Connection.{
  Connection, Session, new_connection, is_report_app_exit_status_needed, peer_pid,
}
use touch_applauncherd.Connection.Receive.{receive_application_data}
use touch_applauncherd.SingleInstance.{SingleInstance}
use touch_applauncherd.SocketManager.{SocketManager}
use touch_applauncherd.MDeclarativeCache.{MDeclarativeCache}
use touch_applauncherd.Daemon.{Pipe}
use touch_applauncherd.Booster.Kinds.{Kind, booster_type}

-- The booster, what it shares with the daemon that it was forked from, the memory that starts at
-- the daemon's argv[0], the cache of QML objects, and the calls made.
pub record Booster : Type 0 where
  pub m_app_data : AppData
  pub m_connection : Option Connection
  pub m_old_priority : ℤ
  pub m_old_priority_ok : Bool
  pub m_pipe_fd : Pipe
  pub m_space_available : ℕ
  pub m_boot_mode : Bool
  pub m_boosted_gid : ℕ
  pub m_single_instance : SingleInstance
  pub m_socket_hash : List (Text × ℤ)
  pub arg_area : List ℕ
  pub cache : MDeclarativeCache
  pub calls : History

abbrev pub log_call : Call → Run Booster (Unit {0})
log_call c = modify λ b. record b { calls = c ∷ b.calls }

-- The end by SIGSEGV, which the use of a null or wild pointer leads to.
abbrev pub crashed : ℕ
crashed = 139

-- A step of the connection. Without one it goes through a null pointer.
abbrev pub with_connection : {A : Type 0} → Step Session A → Run Booster A
with_connection m b = elim b.m_connection [
  | none ↦ exited crashed b
  | some c ↦
      let (a, s) = m (record { conn = c; calls = b.calls }) in
      done a (record b { m_connection = some (s.conn); calls = s.calls })
]

-- A step of the socket manager.
abbrev pub with_sockets : {A : Type 0} → Run SocketManager A → Run Booster A
with_sockets =
    within (λ b. record { m_socket_hash = b.m_socket_hash; calls = b.calls })
      (λ s b. record b { m_socket_hash = s.m_socket_hash; calls = s.calls })

abbrev pub fallback_gid : ℕ
fallback_gid = 126

unfoldable pub get_group_id : Os → ℕ → ℕ
get_group_id os fallback = elim os.boosted_group [ none ↦ fallback | some gid ↦ gid ]

-- The constructor, in a process that shares these with the daemon.
unfoldable pub new_booster :
    Os → SingleInstance → List (Text × ℤ) → List ℕ → MDeclarativeCache → History → Booster
new_booster os single_instance sockets area cache calls = record {
  m_app_data = new_app_data;
  m_connection = none;
  m_old_priority = pos 0;
  m_old_priority_ok = false;
  m_pipe_fd = record { read_end = minus_one; write_end = minus_one };
  m_space_available = 0;
  m_boot_mode = false;
  m_boosted_gid = get_group_id os fallback_gid;
  m_single_instance = single_instance;
  m_socket_hash = sockets;
  arg_area = area;
  cache = cache;
  calls = calls;
}

unfoldable pub is_report_needed : Run Booster Bool
is_report_needed = with_connection λ s. (is_report_app_exit_status_needed s.conn, s)

module _ (os : Os) where
  -- The result is that of `setpriority`; false if the old priority is not known.
  unfoldable pub push_priority : ℤ → Run Booster Bool
  push_priority nice = do
    b ← get
    let (error, prio) = os.get_priority b.calls
    modify (λ b. record b { m_old_priority_ok = not error; m_old_priority = prio })
    if error
        then pure false
        else (do log_call (Call.set_priority nice); pure (os.set_priority_ok b.calls nice))

  unfoldable pub pop_priority : Run Booster Bool
  pop_priority = do
    b ← get
    if b.m_old_priority_ok
        then (do
          log_call (Call.set_priority b.m_old_priority)
          pure (os.set_priority_ok b.calls b.m_old_priority))
        else pure false

  unfoldable pub invokers_pid : Run Booster ℤ
  invokers_pid = do
    report ← is_report_needed
    if report then with_connection (λ s. (peer_pid os s, s)) else pure (pos 0)

  -- Three writes to the daemon's pipe; an error is only logged.
  unfoldable pub send_data_to_parent : Kind → Run Booster (Unit {0})
  send_data_to_parent kind = do
    b ← get
    let fd = b.m_pipe_fd.write_end
    log_call (Call.write fd (booster_type kind ∷ []))
    pid ← invokers_pid
    log_call (Call.write fd (le32 (to_u32 pid)))
    log_call (Call.write fd (le32 (to_u32 b.m_app_data.m_delay)))

  -- `new Connection(socketFd)`. Its group and user are what the memory held.
  unfoldable pub set_connection : ℤ → Run Booster (Unit {0})
  set_connection socket_fd = do
    b ← get
    let block = os.fresh b.calls 8
    elim (new_connection (from_le32 block) (from_le32 (drop 4 block)) socket_fd false) [
      | none ↦ exit exit_failure
      | some c ↦ modify (λ b. record b { m_connection = some c })
    ]

  -- What follows once an invoker is connected; `none` means that the fuel ran out.
  unfoldable pub receive_data : ℕ → Run Booster (Option Bool)
  receive_data fuel = do
    b ← get
    (r, a) ← with_connection (receive_application_data os fuel b.m_app_data)
    modify (λ b. record b { m_app_data = a })
    elim r [
      | none ↦ pure none
      | some false ↦ (do with_connection Connection.close; pure (some false))
      | some true ↦ (do
        report ← is_report_needed
        when (not report) (with_connection Connection.close)
        pure (some true))
    ]

  -- Booster::receiveDataFromInvoker
  unfoldable pub receive_data_from_invoker : ℤ → ℕ → Run Booster (Option Bool)
  receive_data_from_invoker socket_fd fuel = do
    set_connection socket_fd
    accepted ← with_connection (Connection.accept os)
    if accepted then receive_data fuel else pure (some false)
