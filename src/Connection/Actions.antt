-- ===== src/Connection/Actions.antt =====
-- What a peer can ask a connection for, in any order: the actions that receiveActions of
-- src/launcherlib/connection.cpp takes, how they are laid out, and what they mean.
pub mod Carried
use touch_applauncherd.Common.{
  ℕ, ◌^◌, ◌<◌, ◌≡◌, ◌∙◌, Bool, true, false, ◌==◌, List, [], ◌∷◌, map, some, Text, All, length, ◌>>◌,
  ◌||◌,
}
use touch_applauncherd.Common.Int.{ℤ, to_u32}
use touch_applauncherd.Common.Bytes.{le32}
use touch_applauncherd.Os.{Call, History}
use touch_applauncherd.AppData.{str}
use touch_applauncherd.Wire.{Item, rights, put_msg, put_str, put_strs}
use touch_applauncherd.Connection.{Connection, write}
use touch_applauncherd.Connection.Receive.{max_args, max_vars}
use touch_applauncherd.Connection.Requests.{IsSendable, kept}
use touch_applauncherd.Protocol.{
  invoker_msg_exec, invoker_msg_args, invoker_msg_env, invoker_msg_prio, invoker_msg_delay,
  invoker_msg_ids, invoker_msg_io, invoker_msg_ack, invoker_msg_pid,
}

-- An action with what it carries.
pub data Action : Type 0 where
  exec : Text → Action
  args : List Text → Action
  prio delay : ℕ → Action
  ids : (uid gid : ℕ) → Action
  io : List ℤ → Action
  set_env : List Text → Action

-- Actions as the protocol lays them out.
unfoldable pub put_action : Action → List Item → List Item
put_action (exec file) rest = put_msg invoker_msg_exec (put_str file rest)
put_action (args ss) rest = put_msg invoker_msg_args (put_msg (length ss) (put_strs ss rest))
put_action (prio n) rest = put_msg invoker_msg_prio (put_msg n rest)
put_action (delay n) rest = put_msg invoker_msg_delay (put_msg n rest)
put_action (ids uid gid) rest = put_msg invoker_msg_ids (put_msg uid (put_msg gid rest))
put_action (io fds) rest = put_msg invoker_msg_io (rights fds ∷ rest)
put_action (set_env ss) rest = put_msg invoker_msg_env (put_msg (length ss) (put_strs ss rest))

unfoldable pub put_all : List Action → List Item → List Item
put_all [] rest = rest
put_all (a ∷ more) rest = put_action a (put_all more rest)

-- Sizes within the receiver's bounds and words that fit.
abbrev pub IsReceivable : Action → Type 0
IsReceivable (exec file) = IsSendable file
IsReceivable (args ss) = (0 < length ss) × (length ss < max_args) × All IsSendable ss
IsReceivable (prio n) = n < 2 ^ 32
IsReceivable (delay n) = n < 2 ^ 32
IsReceivable (ids uid gid) = (uid < 2 ^ 32) × (gid < 2 ^ 32)
IsReceivable (io fds) = length fds ≡ 3
IsReceivable (set_env ss) = (0 < length ss) × (length ss < max_vars) × All IsSendable ss

-- What an action means: it replaces a part of the launch that is wished for, or the environment.
abbrev pub wish : Action → Connection → Connection
wish (exec file) c = record c { m_file_name = file }
wish (args ss) c = record c { m_argc = length ss; m_argv = some (map str ss) }
wish (prio n) c = record c { m_priority = n }
wish (delay n) c = record c { m_delay = n }
wish (ids uid gid) c = record c { m_uid = uid; m_gid = gid }
wish (io fds) c = record c { m_io = fds }
wish (set_env ss) c = c

abbrev pub wish_env : Action → List Text → List Text
wish_env (set_env ss) vars = kept ss
wish_env _ vars = vars

abbrev pub wishes : List Action → Connection → Connection
wishes [] c = c
wishes (a ∷ more) c = wishes more (wish a c)

abbrev pub wishes_env : List Action → List Text → List Text
wishes_env [] vars = vars
wishes_env (a ∷ more) vars = wishes_env more (wish_env a vars)

-- The words that start an action.
abbrev pub starts_action : ℕ → Bool
starts_action w =
    w == invoker_msg_exec
    || w == invoker_msg_args
    || w == invoker_msg_env
    || w == invoker_msg_prio
    || w == invoker_msg_delay
    || w == invoker_msg_io
    || w == invoker_msg_ids

-- What `finish` writes: the acknowledgement, and to an invoker that waits the pid.
abbrev pub answered : ℤ → ℤ → Bool → History → History
answered fd pid true h =
    Call.write fd (le32 (to_u32 pid))
    ∷ Call.write fd (le32 invoker_msg_pid)
    ∷ Call.write fd (le32 invoker_msg_ack)
    ∷ h
answered fd pid false h = Call.write fd (le32 invoker_msg_ack) ∷ h
