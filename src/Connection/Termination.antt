-- ===== src/Connection/Termination.antt =====
-- The loop of receiveActions in src/launcherlib/connection.cpp on a peer that sends finitely much.
use touch_applauncherd.Common.{
  ℕ, zero, suc, ◌+◌, ◌≤◌, ◌<◌, ◌≡◌, ◌≢◌, refl, false, List, ◌∷◌, none, some, length, ◌⊎◌, inl, inr,
  Option-cases, replicate, arith,
}
use touch_applauncherd.Common.Int.{ℤ, to_u32}
use touch_applauncherd.Os.{Os, Call, History, ReadResult, failed, got}
use touch_applauncherd.AppData.{wild}
use touch_applauncherd.Common.Bytes.{le32}
use touch_applauncherd.Protocol.{invoker_msg_pid}
use touch_applauncherd.Connection.{
  Connection, Session, set_conn, read, write, recv_msg, recv_str, recv_body, send_msg, send_pid,
}
use touch_applauncherd.Connection.Receive.{
  dispatch, finish, receive_actions, receive_exec, receive_argv, receive_args, receive_vars,
  receive_env, receive_priority, receive_delay, receive_io, receive_ids, store_arg, arg_of, io_of,
}

-- A peer that sends finitely many bytes: no call adds to what is left of them, and a read takes off
-- what it gives.
pub record IsFinite (os : Os) (fd : ℤ) : Type 0 where
  pub budget : History → ℕ
  pub budget_call : (h : History) (c : Call) → budget (c ∷ h) ≤ budget h
  pub budget_read :
      (h : History) (n : ℕ) (bytes : List ℕ)
      → os.read_result h fd n ≡ got bytes
      → budget (Call.read fd n ∷ h) + length bytes ≤ budget h

ReadResult-cases : (r : ReadResult) → (r ≡ failed) ⊎ ((bytes : List ℕ) × (r ≡ got bytes))
ReadResult-cases failed = inl refl
ReadResult-cases (got bytes) = inr (bytes, refl)

module _ (os : Os) (fd : ℤ) (finite : IsFinite os fd) where
  open finite use {budget, budget_call, budget_read}

  -- The descriptor and the mode stay, and no input comes up.
  record Frame (s t : Session) : Type 0 where
    fd_kept : t.conn.m_fd ≡ s.conn.m_fd
    mode_kept : t.conn.m_test_mode ≡ s.conn.m_test_mode
    less : budget t.calls ≤ budget s.calls

  recv_msg-Frame : (old : ℕ) (s : Session) → Frame s (recv_msg os old s).1
  unfolding recv_msg read
  recv_msg-Frame old s = ground (arith, budget_call s.calls (Call.read s.conn.m_fd 4))

  recv_body-Frame : (n : ℕ) (s : Session) → Frame s (recv_body os n s).1
  unfolding recv_body read
  recv_body-Frame n s = ground (arith, budget_call s.calls (Call.read s.conn.m_fd n))

  recv_str-Frame : (s : Session) → Frame s (recv_str os s).1
  unfolding recv_str
  recv_str-Frame s =
      ground (arith, recv_msg-Frame 0 s, recv_body-Frame (recv_msg os 0 s).0.1 (recv_msg os 0 s).1)

  write-Frame : (bytes : List ℕ) (s : Session) → Frame s (write os bytes s).1
  unfolding write
  write-Frame bytes s = ground (arith, budget_call s.calls (Call.write s.conn.m_fd bytes))

  receive_exec-Frame : (s : Session) → Frame s (receive_exec os s).1
  unfolding receive_exec
  receive_exec-Frame s = ground (arith, recv_str-Frame s)

  receive_argv-Frame : (n i : ℕ) (s : Session) → Frame s (receive_argv os n i s).1
  unfolding receive_argv
  receive_argv-Frame zero i s = ground arith
  receive_argv-Frame (suc n) i s = ground (
    arith,
    recv_str-Frame s,
    receive_argv-Frame n (i + 1)
        (set_conn (store_arg i (arg_of (recv_str os s).0)) (recv_str os s).1),
  )

  receive_args-Frame : (s : Session) → Frame s (receive_args os s).1
  unfolding receive_args
  receive_args-Frame s =
      let (_, argc) = (recv_msg os s.conn.m_argc s).0 in
      let t = (recv_msg os s.conn.m_argc s).1 in
      let set_argc = λ (c : Connection). record c { m_argc = argc } in
      let alloc = λ (c : Connection). record c { m_argv = some (replicate argc wild) } in
      ground (
        arith,
        recv_msg-Frame s.conn.m_argc s,
        receive_argv-Frame argc 0 (set_conn alloc (set_conn set_argc t)),
      )

  receive_vars-Frame : (n : ℕ) (s : Session) → Frame s (receive_vars os n s).1
  unfolding receive_vars
  receive_vars-Frame zero s = ground arith
  receive_vars-Frame (suc n) s = elim (Option-cases (recv_str os s).0) [
    | inl e ↦ ground (arith, e, recv_str-Frame s)
    | inr (v, e) ↦
        let t = (recv_str os s).1 in
        let put = record t { calls = Call.putenv v ∷ t.calls } in
        ground (
          arith,
          e,
          recv_str-Frame s,
          budget_call t.calls (Call.putenv v),
          receive_vars-Frame n t,
          receive_vars-Frame n put,
        )
  ]

  receive_env-Frame : (s : Session) → Frame s (receive_env os s).1
  unfolding receive_env
  receive_env-Frame s =
      ground
        (arith, recv_msg-Frame 0 s, receive_vars-Frame (recv_msg os 0 s).0.1 (recv_msg os 0 s).1)

  receive_priority-Frame : (s : Session) → Frame s (receive_priority os s).1
  unfolding receive_priority
  receive_priority-Frame s = ground (arith, recv_msg-Frame s.conn.m_priority s)

  receive_delay-Frame : (s : Session) → Frame s (receive_delay os s).1
  unfolding receive_delay
  receive_delay-Frame s = ground (arith, recv_msg-Frame s.conn.m_delay s)

  receive_ids-Frame : (s : Session) → Frame s (receive_ids os s).1
  unfolding receive_ids
  receive_ids-Frame s =
      let ((_, uid), t) = recv_msg os s.conn.m_uid s in
      ground (
        arith,
        recv_msg-Frame s.conn.m_uid s,
        recv_msg-Frame s.conn.m_gid (set_conn (λ c. record c { m_uid = uid }) t),
      )

  receive_io-Frame : (s : Session) → Frame s (receive_io os s).1
  unfolding receive_io
  receive_io-Frame s = elim (Option-cases (io_of os (os.recvmsg_result s.calls s.conn.m_fd))) [
    | inl e ↦ ground (arith, e, budget_call s.calls (Call.recvmsg s.conn.m_fd))
    | inr (io, e) ↦ ground (arith, e, budget_call s.calls (Call.recvmsg s.conn.m_fd))
  ]

  send_msg-Frame : (m : ℕ) (s : Session) → Frame s (send_msg os m s).1
  unfolding send_msg
  send_msg-Frame m s = ground (arith, write-Frame (le32 m) s)

  send_pid-Frame : (pid : ℤ) (s : Session) → Frame s (send_pid os pid s).1
  unfolding send_pid
  send_pid-Frame pid s = ground (
    arith,
    send_msg-Frame invoker_msg_pid s,
    send_msg-Frame (to_u32 pid) (send_msg os invoker_msg_pid s).1,
  )

  -- An action's handler adds no input; the action 0, as which a failed or short read counts, ends
  -- the loop, as does the end of a request.
  dispatch-Frame :
      (action : ℕ) (s : Session)
      → ((dispatch os action s).0 ≢ none) ⊎ Frame s (dispatch os action s).1
  unfolding dispatch finish
  dispatch-Frame action s =
      let cleared = record s { calls = Call.clearenv ∷ s.calls } in
      ground (
        arith,
        receive_exec-Frame s,
        receive_args-Frame s,
        receive_env-Frame cleared,
        budget_call s.calls Call.clearenv,
        receive_priority-Frame s,
        receive_delay-Frame s,
        receive_io-Frame s,
        receive_ids-Frame s,
      )

  dispatch-zero : (s : Session) → dispatch os 0 s ≡ (some false, s)
  unfolding dispatch
  dispatch-zero s = refl

  -- A word other than 0 takes four bytes off the input.
  recv_msg_progress :
      (s : Session)
      → s.conn.m_fd ≡ fd
      → ((recv_msg os 0 s).0.1 ≡ 0) ⊎ (budget (recv_msg os 0 s).1.calls < budget s.calls)
  unfolding recv_msg read
  recv_msg_progress s e = elim (ReadResult-cases (os.read_result s.calls fd 4)) [
    | inl bad ↦ ground (arith, e, bad)
    | inr (bytes, ok) ↦ ground (arith, e, ok, budget_read s.calls 4 bytes ok)
  ]

  -- With more fuel than there is input the loop ends by itself, whatever the peer sends, in a return
  -- of true or false.
  pub receive_actions-ne-none :
      (fuel : ℕ) (s : Session)
      → s.conn.m_fd ≡ fd
      → budget s.calls < fuel
      → (receive_actions os fuel s).0 ≢ none
  unfolding receive_actions
  receive_actions-ne-none zero s e h = absurd (omega arith)
  receive_actions-ne-none (suc fuel) s e h =
      let action = (recv_msg os 0 s).0.1 in
      let t = (recv_msg os 0 s).1 in
      ground (
        arith,
        recv_msg_progress s e,
        recv_msg-Frame 0 s,
        dispatch-Frame action t,
        dispatch-zero t,
        receive_actions-ne-none fuel (dispatch os action t).1,
      )
