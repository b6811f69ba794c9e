-- ===== src/Connection/Tests.antt =====
-- A connection on a queue of bytes.
use touch_applauncherd.Common.{
  ℕ, zero, suc, ap, take, ◌+◌, ◌≤◌, ◌<◌, ◌≡◌, ◌≢◌, refl, false, List, [], ◌∷◌, none, some, NoNul,
  codes, c_str, set, length, replicate, bit_and, arith, ◌==◌,
}
use touch_applauncherd.Common.Int.{pos, minus_one}
use touch_applauncherd.Common.Bytes.{le32, length-le32, from_le32}
use touch_applauncherd.Os.{Os, Call, History, ReadResult, failed, got}
use touch_applauncherd.AppData.{new_app_data, set_app_name, set_options}
use touch_applauncherd.Wire.{Item, put_msg, put_str, magic_of}
use touch_applauncherd.Wire.Queued.{queue_os, queue_stream}
use touch_applauncherd.Connection.Reading.{environ}
use touch_applauncherd.Connection.Actions.{Action, exec, prio, put_all, wishes}
use touch_applauncherd.Connection.Actions.Carried.{Concluded}
use touch_applauncherd.Connection.Handover.{received_data, receive_application_data-put_all}
use touch_applauncherd.Protocol.{invoker_msg_magic_option_mask, invoker_msg_end, invoker_msg_name}
use touch_applauncherd.Connection.{Session, recv_msg, recv_str, recv_body, read, str_len_max}
use touch_applauncherd.Connection.Receive.{
  receive_magic, receive_actions, wants_wait, receive_application_data,
}
use touch_applauncherd.Connection.Bounds.{
  IsSane, recv_str_bounds, receive_magic_accepts, recv_str_error,
}
use touch_applauncherd.Connection.Termination.{IsFinite, receive_actions-ne-none}

abbrev session : Session
session = record {
  conn = record {
    m_test_mode = false;
    m_fd = pos 5;
    m_cur_socket = pos 3;
    m_file_name = [];
    m_argc = 0;
    m_argv = none;
    m_io = minus_one ∷ minus_one ∷ minus_one ∷ [];
    m_priority = 0;
    m_delay = 0;
    m_send_pid = false;
    m_gid = 0;
    m_uid = 0;
  };
  calls = [];
}

-- The word 3, then an error: fresh memory holds the letter x.
abbrev broken : History → ReadResult
broken [] = got (le32 3)
broken (c ∷ h) = failed

abbrev broken_os : Os
broken_os = record (queue_os []) {
  read_result = λ h fd n. broken h;
  fresh = λ h n. replicate n b'x';
}

recv_str_error_example :
    (recv_str broken_os session).0
    ≡ some (c_str (set (broken_os.fresh (Call.read (pos 5) 4 ∷ []) 3) 2 0))
unfolding recv_msg read le32 from_le32
recv_str_error_example =
    recv_str_error broken_os 2 session (record session { calls = Call.read (pos 5) 4 ∷ [] }) refl
      refl (omega arith) refl

-- The word 3, then a short text.
abbrev texting : History → ℕ → List ℕ
texting [] n = take n (le32 3)
texting (c ∷ h) n = take n (codes "abc")

length-replicate : (n : ℕ) → length {A = ℕ} (replicate n b'x') ≡ n
length-replicate zero = refl
length-replicate (suc n) = ap suc (length-replicate n)

length-take : (n : ℕ) (xs : List ℕ) → length (take n xs) ≤ n
length-take zero xs = omega arith
length-take (suc n) [] = omega arith
length-take (suc n) (x ∷ xs) = omega (arith, length-take n xs)

length-texting : (h : History) (n : ℕ) → length (texting h n) ≤ n
length-texting [] n = length-take n (le32 3)
length-texting (c ∷ h) n = length-take n (codes "abc")

abbrev texting_os : Os
texting_os = record broken_os { read_result = λ h fd n. got (texting h n) }

texting_os-IsSane : IsSane texting_os
texting_os-IsSane = record {
  read_size = λ h fd n bytes e. ground (arith, length-texting h n);
  fresh_size = λ h n. length-replicate n;
}

recv_str_bounds_example : NoNul (codes "ab") × (length (codes "ab") < str_len_max)
unfolding recv_str recv_body recv_msg read le32 from_le32
recv_str_bounds_example = recv_str_bounds texting_os texting_os-IsSane (codes "ab") session refl

receive_magic_accepts_example :
    let ((_, magic), t) = recv_msg broken_os 0 session in
    receive_magic broken_os session ≡ (
      bit_and magic invoker_msg_magic_option_mask,
      record t { conn = record (t.conn) { m_send_pid = wants_wait magic } },
    )
receive_magic_accepts_example = receive_magic_accepts broken_os session

-- One message that ends a request, and no byte after it.
abbrev ending : History → ReadResult
ending [] = got (le32 invoker_msg_end)
ending (c ∷ h) = failed

abbrev ending_os : Os
ending_os = record (queue_os []) { read_result = λ h fd n. ending h }

abbrev left : History → ℕ
left [] = 4
left (c ∷ h) = 0

ending_budget :
    (h : History) (n : ℕ) (bytes : List ℕ)
    → ending h ≡ got bytes
    → left (Call.read (pos 5) n ∷ h) + length bytes ≤ left h
ending_budget [] n bytes e = ground (arith, length-le32 invoker_msg_end)
ending_budget (c ∷ h) n bytes e = absurd cc

left_call : (h : History) (c : Call) → left (c ∷ h) ≤ left h
left_call [] c = omega arith
left_call (d ∷ h) c = omega arith

abbrev ending_os-IsFinite : IsFinite ending_os (pos 5)
ending_os-IsFinite = record { budget = left; budget_call = left_call; budget_read = ending_budget }

receive_actions-ne-none_example : (receive_actions ending_os 6 session).0 ≢ none
receive_actions-ne-none_example =
    receive_actions-ne-none ending_os (pos 5) ending_os-IsFinite 6 session refl (omega arith)

-- The priority twice, the program in between, and then the word 7, which is no action's.
abbrev asked_for : List Action
asked_for = prio 1 ∷ exec (codes "/bin/a") ∷ prio 2 ∷ []

abbrev odd_items : List Item
odd_items =
    put_msg (magic_of 1)
      (put_msg invoker_msg_name (put_str (codes "a") (put_all asked_for (put_msg 7 []))))

receive_application_data-put_all_example :
    let ((r, b), t) = receive_application_data (queue_os odd_items) 4 new_app_data session in
    let wished = wishes asked_for (record (session.conn) { m_send_pid = wants_wait 1 }) in
    let ended = 7 == invoker_msg_end in
    (b ≡ received_data ended wished (set_app_name (codes "a") (set_options 1 new_app_data)))
    × Concluded (queue_os odd_items) (pos 5) (queue_stream odd_items) ended wished [] [] (r, t)
unfolding environ
receive_application_data-put_all_example =
    receive_application_data-put_all (queue_os odd_items) (pos 5) (queue_stream odd_items) 1 7
      (codes "a") asked_for 4 new_app_data session [] (omega arith) (ground arith) refl
      (ground arith) (omega arith) refl (omega arith) (record { no_test = refl; on_fd = refl })
      (record { conn_eq = refl; items_eq = refl; env_eq = refl })
