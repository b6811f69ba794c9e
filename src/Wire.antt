-- ===== src/Wire.antt =====
-- What a socket carries: bytes, and bytes that come with file descriptors. The calls of a sender
-- are read as the items that they put on the wire; `Stream` is what a receiver relies on.
pub mod Queued
use touch_applauncherd.Common.{
  ℕ, ◌+◌, Bool, true, false, ◌≡◌, ap, List, [], ◌∷◌, ◌++◌, map, some, Text, length, bit_or,
  Bool-cases, inl, inr, arith,
}
use mathlib.Core.List.{append_cancel_left}
use touch_applauncherd.Common.Int.{ℤ, int_eq, int_eq_self}
use touch_applauncherd.Common.Bytes.{le32}
use touch_applauncherd.Os.{Os, Call, History, got, received}
use touch_applauncherd.Protocol.{
  invoker_msg_name, invoker_msg_exec, invoker_msg_args, invoker_msg_env, invoker_msg_prio,
  invoker_msg_delay, invoker_msg_ids, invoker_msg_io, invoker_msg_end, invoker_msg_magic,
  invoker_msg_magic_version,
}

pub data Item : Type 0 where
  byte : ℕ → Item
  rights : List ℤ → Item

-- A word and a string, in front of what follows them.
unfoldable pub put_msg : ℕ → List Item → List Item
put_msg m rest = map byte (le32 m) ++ rest

unfoldable pub put_str : Text → List Item → List Item
put_str s rest = put_msg (length s + 1) (map byte (s ++ 0 ∷ []) ++ rest)

unfoldable pub put_strs : List Text → List Item → List Item
put_strs [] rest = rest
put_strs (s ∷ ss) rest = put_str s (put_strs ss rest)

-- The first word of a request.
abbrev pub magic_of : ℕ → ℕ
magic_of options = bit_or (bit_or invoker_msg_magic invoker_msg_magic_version) options

-- A whole request, as the protocol lays it out.
pub record Request : Type 0 where
  pub options : ℕ
  pub name : Text
  pub exec : Text
  pub args : List Text
  pub priority : ℕ
  pub delay : ℕ
  pub uid : ℕ
  pub gid : ℕ
  pub io : List ℤ
  pub env : List Text

-- The actions of a request, from the program to run on.
unfoldable pub put_actions : Request → List Item → List Item
put_actions q rest = put_msg invoker_msg_exec (
    put_str q.exec (
      put_msg invoker_msg_args (
        put_msg (length q.args) (
          put_strs q.args (
            put_msg invoker_msg_prio (
              put_msg q.priority (
                put_msg invoker_msg_delay (
                  put_msg q.delay (
                    put_msg invoker_msg_ids (
                      put_msg q.uid (
                        put_msg q.gid (
                          put_msg invoker_msg_io (
                            rights q.io
                            ∷ put_msg invoker_msg_env (
                                put_msg (length q.env)
                                  (put_strs q.env (put_msg invoker_msg_end rest))))))))))))))))

unfoldable pub put_request : Request → List Item → List Item
unfolding put_actions
put_request q rest =
    put_msg (magic_of q.options) (put_msg invoker_msg_name (put_str q.name (put_actions q rest)))

-- The items of one call of the sender on descriptor `fd`. The kernel hands descriptors over under
-- new numbers, given by `dup`.
abbrev pub call_items : (List ℤ → List ℤ) → ℤ → Call → List Item → List Item
call_items dup fd (Call.write f bytes) rest = elim (int_eq f fd) [
  | true ↦ map byte bytes ++ rest
  | false ↦ rest
]
call_items dup fd (Call.sendmsg f io) rest = elim (int_eq f fd) [
  | true ↦ rights (dup io) ∷ rest
  | false ↦ rest
]
call_items dup fd _ rest = rest

-- All that a history has sent, oldest first, and then `rest`.
unfoldable pub sent_onto : (List ℤ → List ℤ) → ℤ → History → List Item → List Item
sent_onto dup fd [] rest = rest
sent_onto dup fd (c ∷ h) rest = sent_onto dup fd h (call_items dup fd c rest)

call_items-write :
    (dup : List ℤ → List ℤ) (fd : ℤ) (bytes : List ℕ) (rest : List Item)
    → call_items dup fd (Call.write fd bytes) rest ≡ map byte bytes ++ rest
call_items-write dup fd bytes rest = rw (int_eq_self fd, call_items)

pub sent_onto-write :
    (dup : List ℤ → List ℤ) (fd : ℤ) (bytes : List ℕ) (h : History) (rest : List Item)
    → sent_onto dup fd (Call.write fd bytes ∷ h) rest ≡ sent_onto dup fd h (map byte bytes ++ rest)
unfolding sent_onto
sent_onto-write dup fd bytes h rest = ap (sent_onto dup fd h) (call_items-write dup fd bytes rest)

call_items-cancel :
    (dup : List ℤ → List ℤ) (fd : ℤ) (c : Call) (items rest : List Item)
    → call_items dup fd c items ≡ call_items dup fd c rest
    → items ≡ rest
call_items-cancel dup fd (Call.write f bytes) items rest e = elim (Bool-cases (int_eq f fd)) [
  | inl ours ↦ append_cancel_left (map byte bytes) items rest (ground (arith, ours, e))
  | inr other ↦ ground (arith, other, e)
]
call_items-cancel dup fd (Call.sendmsg f io) items rest e = ground (arith, e)
call_items-cancel dup fd c items rest e = e

pub sent_onto-cancel :
    (dup : List ℤ → List ℤ) (fd : ℤ) (h : History) (items rest : List Item)
    → sent_onto dup fd h items ≡ sent_onto dup fd h rest
    → items ≡ rest
unfolding sent_onto
sent_onto-cancel dup fd [] items rest e = e
sent_onto-cancel dup fd (c ∷ h) items rest e =
    call_items-cancel dup fd c items rest (sent_onto-cancel dup fd h _ _ e)

-- The calls that take items off the wire of `fd`.
abbrev pub consumes : ℤ → Call → Bool
consumes fd (Call.read f n) = int_eq f fd
consumes fd (Call.recvmsg f) = int_eq f fd
consumes fd _ = false

-- A connected stream socket whose peer's items are queued: a read for as many bytes as are at hand
-- gives just these, in order, and `recvmsg` the descriptors that come next. Other calls leave the
-- queue alone.
pub record Stream (os : Os) (fd : ℤ) : Type 0 where
  pub pending : History → List Item
  pub read_pending :
      (h : History) (bytes : List ℕ) (rest : List Item)
      → pending h ≡ map byte bytes ++ rest
      → os.read_result h fd (length bytes) ≡ got bytes
  pub pending-read :
      (h : History) (bytes : List ℕ) (rest : List Item)
      → pending h ≡ map byte bytes ++ rest
      → pending (Call.read fd (length bytes) ∷ h) ≡ rest
  pub recvmsg_pending :
      (h : History) (io : List ℤ) (rest : List Item)
      → pending h ≡ rights io ∷ rest
      → length io ≡ 3
      → os.recvmsg_result h fd
        ≡ received 0 (
            some (record {
              cmsg_len = os.cmsg_len_io;
              cmsg_level = os.sol_socket;
              cmsg_type = os.scm_rights;
              fds = io;
            }))
  pub pending-recvmsg :
      (h : History) (io : List ℤ) (rest : List Item)
      → pending h ≡ rights io ∷ rest
      → pending (Call.recvmsg fd ∷ h) ≡ rest
  pub pending_other : (h : History) (c : Call) → consumes fd c ≡ false → pending (c ∷ h) ≡ pending h
