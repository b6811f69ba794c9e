-- ===== src/Connection/Bounds.antt =====
-- recvStr and receiveMagic of src/launcherlib/connection.cpp on any peer, well behaved or not.
use touch_applauncherd.Common.{
  ℕ, zero, suc, ◌-◌, ◌≤◌, ◌<◌, ◌≡◌, refl, true, false, List, [], ◌∷◌, some, Text, NoNul, c_str,
  length, length-append, drop, length-drop, set, arith, bit_and,
}
use touch_applauncherd.Common.Int.{ℤ}
use touch_applauncherd.Os.{Os, History, ReadResult, failed, got}
use touch_applauncherd.Connection.{
  Session, read, recv_msg, recv_str, recv_body, text_of, stored, str_len_max,
}
use touch_applauncherd.Connection.Receive.{receive_magic, wants_wait}
use touch_applauncherd.Connection.Requests.{bad_magic-false}
use touch_applauncherd.Protocol.{invoker_msg_magic_option_mask}

-- Documented behaviour of `read` and of `new char[]`: at most the bytes asked for, and a block of
-- the size asked for.
pub record IsSane (os : Os) : Type 0 where
  pub read_size :
      (h : History) (fd : ℤ) (n : ℕ) (bytes : List ℕ)
      → os.read_result h fd n ≡ got bytes
      → length bytes ≤ n
  pub fresh_size : (h : History) (n : ℕ) → length (os.fresh h n) ≡ n

-- A block with a NUL in its last place holds a shorter C string.
length-c_str-set :
    (block : List ℕ) (n : ℕ)
    → n < length block
    → NoNul (c_str (set block n 0)) × (length (c_str (set block n 0)) ≤ n)
length-c_str-set [] n h = absurd (omega arith)
length-c_str-set (b ∷ block) zero h = (tt, omega arith)
length-c_str-set (b ∷ block) (suc n) h = ground (arith, length-c_str-set block n (omega arith))

stored_size :
    (r : ReadResult) (block : List ℕ) (n : ℕ)
    → length block ≡ n
    → ((bytes : List ℕ) → r ≡ got bytes → length bytes ≤ n)
    → length (stored r block) ≡ n
stored_size failed block n e h = e
stored_size (got bytes) block n e h = omega (
  arith,
  h bytes refl,
  length-append bytes (drop (length bytes) block),
  length-drop (length bytes) block,
)

text_of_bounds :
    (r : ReadResult) (block : List ℕ) (n : ℕ) (text : Text)
    → length (stored r block) ≡ suc n
    → text_of r block (suc n) ≡ some text
    → NoNul text × (length text ≤ n)
text_of_bounds r block n text size e =
    ground (arith, length-c_str-set (stored r block) n (omega arith))

module _ (os : Os) (sane : IsSane os) where
  recv_body_bounds :
      (n : ℕ) (text : Text) (s : Session)
      → (recv_body os (suc n) s).0 ≡ some text
      → NoNul text × (length text ≤ n)
  unfolding recv_body read
  recv_body_bounds n text s e =
      let r = os.read_result s.calls s.conn.m_fd (suc n) in
      let block = os.fresh s.calls (suc n) in
      let size : length (stored r block) ≡ suc n =
        stored_size r block (suc n) (sane.fresh_size s.calls (suc n))
          (sane.read_size s.calls s.conn.m_fd (suc n)) in
      text_of_bounds r block n text size e

  recv_str_found :
      (text : Text) (s : Session)
      → (recv_str os s).0 ≡ some text
      → (n : ℕ) × (t : Session) × (n < str_len_max) × ((recv_body os (suc n) t).0 ≡ some text)
  unfolding recv_str
  recv_str_found text s e =
      let size = (recv_msg os 0 s).0.1 in
      (size - 1, (recv_msg os 0 s).1, ground arith, ground arith)

  -- If `read` gives no more than was asked for and fresh memory has the size asked for, then whatever
  -- a peer sends, a received string holds no NUL and is shorter than 4096 bytes.
  pub recv_str_bounds :
      (text : Text) (s : Session)
      → (recv_str os s).0 ≡ some text
      → NoNul text × (length text < str_len_max)
  recv_str_bounds text s e =
      let (n, t, h, found) = recv_str_found text s e in
      let (clean, short) = recv_body_bounds n text t found in (clean, omega arith)

module _ (os : Os) where
  -- The version of the protocol is not checked: whatever word comes first, `receiveMagic` takes its
  -- last byte for the options and its lowest bit for the wish to wait, and reports no error.
  pub receive_magic_accepts :
      (s : Session)
      → let ((_, magic), t) = recv_msg os 0 s in
        receive_magic os s ≡ (
          bit_and magic invoker_msg_magic_option_mask,
          record t { conn = record (t.conn) { m_send_pid = wants_wait magic } },
        )
  unfolding receive_magic
  receive_magic_accepts s = ground (arith, bad_magic-false (recv_msg os 0 s).0.1)

  -- An error of `read` in the body of a string goes unnoticed: after a size within bounds the string
  -- is made of what the fresh memory held.
  pub recv_str_error :
      (n : ℕ) (s t : Session)
      → s.conn.m_test_mode ≡ false
      → recv_msg os 0 s ≡ ((true, suc n), t)
      → n < str_len_max
      → os.read_result t.calls t.conn.m_fd (suc n) ≡ failed
      → (recv_str os s).0 ≡ some (c_str (set (os.fresh t.calls (suc n)) n 0))
  unfolding recv_str recv_body read
  recv_str_error n s t live e h bad = ground arith
