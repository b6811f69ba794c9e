-- ===== src/Invoker/Answers.antt =====
-- The waits of src/invoker/invoker.c for what a booster answers, up to the exit status of main().
use touch_applauncherd.Common.{
  ℕ, zero, suc, ◌+◌, ◌%◌, ◌^◌, ◌<◌, ◌≡◌, refl, ap, ◌∙◌, false, ◌==◌, if◌then◌else◌, List, [], ◌∷◌,
  ◌++◌, Option, none, some, Text, length, drop, arith, Bool-cases, inl, inr,
}
use touch_applauncherd.Common.Exits.{Run, done, ◌>>◌, pure}
use touch_applauncherd.Common.Int.{ℤ, pos, to_int, to_u32}
use touch_applauncherd.Common.Bytes.{le32, from_le32}
use touch_applauncherd.Os.{Os, Call, ReadResult, Handler, Signal, sig_dfl, sig_forwarder}
use touch_applauncherd.Connection.{stored}
use touch_applauncherd.Daemon.BoosterPipe.{from_le32-fresh}
use touch_applauncherd.Protocol.{
  invoker_msg_ack, invoker_msg_pid, invoker_msg_exit, invoker_msg_end,
}
use touch_applauncherd.Wire.{Item, put_msg, consumes, Stream}
use touch_applauncherd.Invoker.{
  Invoker, log_call, invoke_send_msg, invoke_send_str, send_argv, invoker_send_magic,
  invoker_send_name, invoker_send_exec, invoker_send_args, invoker_send_prio, invoker_send_delay,
  invoker_send_ids, invoker_send_env, invoker_send_io, invoke_recv_msg, invoke_recv_ack,
  invoker_recv_pid, invoker_recv_exit, invoker_send_end, send_request, prog_prio, set_all,
  sigs_init, sigs_restore, wait_for, exit_status_application_connection_lost, signals,
}

-- What the invoker's exit status is, by the word that comes after the pid and the one after it.
abbrev pub exit_status : (word value : ℕ) → ℤ
exit_status word value =
    if word == invoker_msg_exit then to_int value else pos exit_status_application_connection_lost

module _ (os : Os) (fd : ℤ) (stream : Stream os fd) where
  open stream use {pending, read_pending, pending-read, pending_other}

  -- The step comes back and leaves what the peer sends alone.
  record Quiet (m : Run Invoker (Unit {0})) : Type 0 where
    after :
        (s : Invoker)
        → (t : Invoker) × (m s ≡ done tt t)
          × (pending t.calls ≡ pending s.calls)
          × (t.g_invoked_pid ≡ s.g_invoked_pid)

  Quiet-then : {m k : Run Invoker (Unit {0})} → Quiet m → Quiet k → Quiet (m >> k)
  Quiet-then p q = record {
    after = λ s.
        let (t, runs, same, pid) = p.after s in
        let (u, runs', same', pid') = q.after t in (u, rw runs runs', same' ∙ same, pid' ∙ pid);
  }

  Quiet-pure : Quiet (pure tt)
  Quiet-pure = record { after = λ s. (s, refl, refl, refl) }

  log_call-Quiet : (c : Call) → consumes fd c ≡ false → Quiet (log_call c)
  log_call-Quiet c e = record {
    after = λ s. (record s { calls = c ∷ s.calls }, refl, pending_other s.calls c e, refl);
  }

  invoke_send_msg-Quiet : (m : ℕ) → Quiet (invoke_send_msg fd m)
  unfolding invoke_send_msg
  invoke_send_msg-Quiet m = log_call-Quiet (Call.write fd (le32 m)) refl

  invoke_send_str-Quiet : (str : Option Text) → Quiet (invoke_send_str fd str)
  unfolding invoke_send_str
  invoke_send_str-Quiet none = Quiet-pure
  invoke_send_str-Quiet (some str) =
      Quiet-then (invoke_send_msg-Quiet ((length str + 1) % 2 ^ 32))
        (log_call-Quiet (Call.write fd (str ++ 0 ∷ [])) refl)

  send_argv-Quiet : (n : ℕ) (argv : List Text) → Quiet (send_argv fd n argv)
  unfolding send_argv
  send_argv-Quiet zero argv = Quiet-pure
  send_argv-Quiet (suc n) [] = Quiet-then (invoke_send_str-Quiet none) (send_argv-Quiet n [])
  send_argv-Quiet (suc n) (arg ∷ argv) =
      Quiet-then (invoke_send_str-Quiet (some arg)) (send_argv-Quiet n argv)

  set_all-Quiet : (handler : Handler) (sigs : List Signal) → Quiet (set_all handler sigs)
  unfolding set_all
  set_all-Quiet handler [] = Quiet-pure
  set_all-Quiet handler (sig ∷ sigs) =
      Quiet-then (log_call-Quiet (Call.sigaction sig handler) refl) (set_all-Quiet handler sigs)

  -- A word of the peer's is read whole.
  pub invoke_recv_msg_lem :
      (w : ℕ) (rest : List Item) (s : Invoker)
      → w < 2 ^ 32
      → pending s.calls ≡ put_msg w rest
      → let t : Invoker = record s { calls = Call.read fd 4 ∷ s.calls } in
        (invoke_recv_msg os fd s ≡ done w t) × (pending t.calls ≡ rest)
  unfolding invoke_recv_msg put_msg le32
  invoke_recv_msg_lem w rest s fits queued =
      let block = os.fresh s.calls 4 in
      let t : Invoker = record s { calls = Call.read fd 4 ∷ s.calls } in
      (
        ap (λ (r : ReadResult). done (from_le32 (stored r block)) t)
              (read_pending s.calls (le32 w) rest queued)
            ∙ ap (λ (v : ℕ). done v t) (from_le32-fresh w (drop 4 block) fits),
        pending-read s.calls (le32 w) rest queued,
      )

  -- The step comes back once it has read the acknowledgement.
  pub record Acks (m : Run Invoker (Unit {0})) : Type 0 where
    pub acked :
        (s : Invoker) (rest : List Item)
        → pending s.calls ≡ put_msg invoker_msg_ack rest
        → (t : Invoker) × (m s ≡ done tt t) × (pending t.calls ≡ rest)

  Quiet-Acks : {m k : Run Invoker (Unit {0})} → Quiet m → Acks k → Acks (m >> k)
  Quiet-Acks p q = record {
    acked = λ s rest there.
        let (t, runs, same, _) = p.after s in
        let (u, runs', left) = q.acked t rest (same ∙ there) in (u, rw runs runs', left);
  }

  invoker_send_end-Acks : Acks (invoker_send_end os fd)
  unfolding invoker_send_end invoke_recv_ack
  invoker_send_end-Acks = record {
    acked = λ s rest there.
        let (t, runs, same, _) = (invoke_send_msg-Quiet invoker_msg_end).after s in
        let (reads, left) =
          invoke_recv_msg_lem invoker_msg_ack rest t (omega arith) (same ∙ there) in
        (record t { calls = Call.read fd 4 ∷ t.calls }, ground (arith, runs, reads), left);
  }

  pub send_request-Acks :
      (argc : ℕ) (argv : List Text) (argv0 prog_name : Text) (options : ℕ) (delay : ℤ)
      (environ : List Text)
      → Acks (send_request os fd argc argv argv0 prog_name options delay environ)
  unfolding send_request invoker_send_magic invoker_send_name invoker_send_exec invoker_send_args
      invoker_send_prio invoker_send_delay invoker_send_ids invoker_send_io invoker_send_env
  send_request-Acks argc argv argv0 prog_name options delay environ =
      let word = invoke_send_msg-Quiet in
      let text = λ (tag : ℕ) (s : Text). Quiet-then (word tag) (invoke_send_str-Quiet (some s)) in
      record {
        acked = λ s rest there.
            (Quiet-Acks (word _) (
                Quiet-Acks (text _ argv0) (
                  Quiet-Acks (text _ prog_name) (
                    Quiet-Acks
                      (Quiet-then (word _) (Quiet-then (word argc) (send_argv-Quiet argc argv)))
                      (Quiet-Acks (Quiet-then (word _) (word (to_u32 (prog_prio os s.calls)))) (
                        Quiet-Acks (Quiet-then (word _) (word (to_u32 delay))) (
                          Quiet-Acks (Quiet-then (word _) (Quiet-then (word _) (word _))) (
                            Quiet-Acks (Quiet-then (word _) (log_call-Quiet _ refl)) (
                              Quiet-Acks
                                (Quiet-then (word _)
                                  (Quiet-then (word _) (send_argv-Quiet _ environ)))
                                invoker_send_end-Acks))))))))).acked
              s rest there;
      }

  invoker_recv_exit_lem :
      (w v : ℕ) (rest : List Item) (s : Invoker)
      → w < 2 ^ 32
      → v < 2 ^ 32
      → pending s.calls ≡ put_msg w (put_msg v rest)
      → (status : ℕ) × (t : Invoker) × (invoker_recv_exit os fd s ≡ done status t)
        × (to_int status ≡ exit_status w v)
        × (t.g_invoked_pid ≡ s.g_invoked_pid)
  unfolding invoker_recv_exit to_int
  invoker_recv_exit_lem w v rest s w_fits v_fits there =
      let (reads, left) = invoke_recv_msg_lem w (put_msg v rest) s w_fits there in
      let t : Invoker = record s { calls = Call.read fd 4 ∷ s.calls } in
      let (reads', _) = invoke_recv_msg_lem v rest t v_fits left in
      elim (Bool-cases (w == invoker_msg_exit)) [
        | inl exits ↦ (
          v,
          record t { calls = Call.read fd 4 ∷ t.calls },
          ground (arith, reads, reads', exits),
          rw exits refl,
          refl,
        )
        | inr other ↦ (
          exit_status_application_connection_lost,
          record t { calls = Call.sleep (pos 2) ∷ t.calls },
          ground (arith, reads, other),
          rw other refl,
          refl,
        )
      ]

  pub wait_for_lem :
      (p w v : ℕ) (rest : List Item) (s : Invoker)
      → p < 2 ^ 32
      → w < 2 ^ 32
      → v < 2 ^ 32
      → pending s.calls ≡ put_msg invoker_msg_pid (put_msg p (put_msg w (put_msg v rest)))
      → (t : Invoker) × (wait_for os fd s ≡ done (exit_status w v) t) × (t.g_invoked_pid ≡ to_int p)
  unfolding wait_for invoker_recv_pid sigs_init sigs_restore
  wait_for_lem p w v rest s p_fits w_fits v_fits there =
      let (reads, left) = invoke_recv_msg_lem invoker_msg_pid _ s (omega arith) there in
      let one : Invoker = record s { calls = Call.read fd 4 ∷ s.calls } in
      let (reads', left') = invoke_recv_msg_lem p _ one p_fits left in
      let two : Invoker = record one {
        g_invoked_pid = to_int p;
        calls = Call.read fd 4 ∷ one.calls;
      } in
      let (three, sets, same, pid) = (set_all-Quiet sig_forwarder signals).after two in
      let (status, four, exits, value, pid') =
        invoker_recv_exit_lem w v rest three w_fits v_fits (same ∙ left') in
      let (five, resets, _, pid'') = (set_all-Quiet sig_dfl signals).after four in
      (five, ground (arith, reads, reads', sets, exits, value, resets), pid'' ∙ pid' ∙ pid)
