-- ===== src/Booster/Status.antt =====
-- `run` and `launchProcess` of src/launcherlib/booster.cpp around the application's main(), and the
-- invoker that waits for its end (src/invoker/invoker.c).
use touch_applauncherd.Common.{
  ℕ, ◌^◌, ◌<◌, ◌≡◌, refl, ap, sym, ◌∙◌, subst, true, false, List, [], ◌∷◌, ◌++◌, map, drop, some,
  Text, is_empty, arith, Bool-cases, inl, inr,
}
use touch_applauncherd.Common.Exits.{Run, Outcome, and_then, done, reached, ◌>>=◌, ◌>>◌, when}
use touch_applauncherd.Common.Int.{
  ℤ, pos, minus_one, is_pos, IsInt, to_u32, to_int, to_u32-lt, to_int-to_u32,
}
use touch_applauncherd.Common.Bytes.{le32, from_le32}
use touch_applauncherd.Os.{Os, Call, History, ReadResult}
use touch_applauncherd.Connection
use touch_applauncherd.Connection.{Connection, stored, is_report_app_exit_status_needed}
use touch_applauncherd.Protocol.{invoker_msg_exit}
use touch_applauncherd.SocketManager.{close_all_sockets}
use touch_applauncherd.SocketManager.Laws.{closings, close_all_sockets_lem}
use touch_applauncherd.Booster.Report.{connect}
use touch_applauncherd.Wire.{Item, byte, Stream, sent_onto, sent_onto-write, sent_onto-cancel}
use touch_applauncherd.Invoker.{Invoker, invoke_recv_msg, invoker_recv_exit}
use touch_applauncherd.Daemon.BoosterPipe.{from_le32-fresh}
use touch_applauncherd.Booster.{Booster, with_connection, with_sockets, is_report_needed}
use touch_applauncherd.Booster.Running.{launch_process, run}
use touch_applauncherd.Booster.Keeping.{launch_process-Keeps}

module _ (os : Os) where
  -- What the process has called when it has reported the status of main() and closed all.
  abbrev pub reported : ℕ → ℤ → Booster → History
  reported fd ret_val t = closings t.m_socket_hash (
      Call.close (pos fd)
      ∷ Call.write (pos fd) (le32 (to_u32 ret_val))
      ∷ Call.write (pos fd) (le32 invoker_msg_exit)
      ∷ t.calls)

  abbrev pub finished : ℕ → Connection → ℤ → Booster → Booster
  finished fd c ret_val t = record t {
    m_connection = some (record c { m_fd = minus_one });
    m_socket_hash = [];
    calls = reported fd ret_val t;
  }

  -- `run` after the return of main().
  abbrev conclude : ℤ → Run Booster (Unit {0})
  conclude ret_val = do
    report ← is_report_needed
    when report (do
      with_connection (Connection.send_app_exit_status os ret_val)
      with_connection Connection.close
      with_sockets close_all_sockets)

  -- An open connection whose invoker waits.
  abbrev waiting : ℕ → Connection → Connection
  waiting fd c = record c { m_send_pid = true; m_test_mode = false; m_fd = pos fd }

  conclude-waiting :
      (fd : ℕ) (c : Connection) (t : Booster) (ret_val : ℤ)
      → conclude ret_val (connect (waiting fd c) t) ≡ done tt (finished fd (waiting fd c) ret_val t)
  unfolding is_report_needed is_report_app_exit_status_needed Connection.close
      Connection.send_app_exit_status Connection.send_msg Connection.write
  conclude-waiting fd c t ret_val =
      let sent : History =
        Call.close (pos fd)
        ∷ Call.write (pos fd) (le32 (to_u32 ret_val))
        ∷ Call.write (pos fd) (le32 invoker_msg_exit)
        ∷ t.calls in
      rw (close_all_sockets_lem (record { m_socket_hash = t.m_socket_hash; calls = sent })) refl

  -- What it takes for the status of main() to go to the invoker.
  pub record Reports (fd : ℕ) (c : Connection) : Type 0 where
    pub waits : c.m_send_pid ≡ true
    pub live : c.m_test_mode ≡ false
    pub opened : c.m_fd ≡ pos fd

  conclude_lem :
      (fd : ℕ) (c : Connection) (t : Booster) (ret_val : ℤ)
      → Reports fd c
      → conclude ret_val (connect c t) ≡ done tt (finished fd c ret_val t)
  conclude_lem fd c t ret_val at =
      let same : waiting fd c ≡ c = λ j. record c {
        m_send_pid = sym at.waits j;
        m_test_mode = sym at.live j;
        m_fd = sym at.opened j;
      } in
      subst (λ c. conclude ret_val (connect c t) ≡ done tt (finished fd c ret_val t)) same
        (conclude-waiting fd c t ret_val)

  run_launches :
      (c : Connection) (b : Booster)
      → is_empty b.m_app_data.m_file_name ≡ false
      → c.m_send_pid ≡ true
      → run os (connect c b) ≡ (launch_process os >>= conclude) (connect c b)
  unfolding run is_report_needed is_report_app_exit_status_needed
  run_launches c b named waits = ground (arith, named, waits)

  pub run-Reports :
      (fd : ℕ) (c : Connection) (b t : Booster) (ret_val : ℤ)
      → is_empty b.m_app_data.m_file_name ≡ false
      → Reports fd c
      → launch_process os (connect c b) ≡ done ret_val t
      → run os (connect c b) ≡ done tt (finished fd c ret_val t)
  run-Reports fd c b t ret_val named at runs =
      let kept = ((launch_process-Keeps os).keeps (connect c b) (connect c b) (refl, refl)).0 in
      let there : t.m_connection ≡ some c =
        sym (ap (λ (o : Outcome Booster ℤ). (reached o).m_connection) runs) ∙ kept in
      let same : connect c t ≡ t = λ j. record t { m_connection = sym there j } in
      run_launches c b named at.waits
      ∙ ap (and_then conclude) runs
      ∙ ap (conclude ret_val) (sym same)
      ∙ conclude_lem fd c t ret_val at

sent_onto-closings :
    (dup : List ℤ → List ℤ) (fd : ℤ) (m : List (Text × ℤ)) (h : History) (items : List Item)
    → sent_onto dup fd (closings m h) items ≡ sent_onto dup fd h items
unfolding sent_onto
sent_onto-closings dup fd [] h items = refl
sent_onto-closings dup fd ((path, f) ∷ m) h items = elim (Bool-cases (is_pos f)) [
  | inl opened ↦ rw opened (sent_onto-closings dup fd m (Call.close f ∷ h) items)
  | inr other ↦ rw other (sent_onto-closings dup fd m h items)
]

-- What the report puts on the wire.
pub sent_onto-reported :
    (os : Os) (dup : List ℤ → List ℤ) (fd : ℕ) (ret_val : ℤ) (t : Booster) (items : List Item)
    → sent_onto dup (pos fd) (reported os fd ret_val t) items
      ≡ sent_onto dup
          (pos fd)
          t.calls
          (map byte (le32 invoker_msg_exit) ++ (map byte (le32 (to_u32 ret_val)) ++ items))
unfolding sent_onto
sent_onto-reported os dup fd ret_val t items =
    let word = Call.write (pos fd) (le32 invoker_msg_exit) ∷ t.calls in
    let status = Call.write (pos fd) (le32 (to_u32 ret_val)) ∷ word in
    sent_onto-closings dup (pos fd) t.m_socket_hash (Call.close (pos fd) ∷ status) items
    ∙ sent_onto-write dup (pos fd) (le32 (to_u32 ret_val)) word items
    ∙ sent_onto-write dup (pos fd) (le32 invoker_msg_exit) t.calls _

invoke_recv_msg_lem :
    (os : Os) (fd : ℤ) (stream : Stream os fd) (w : ℕ) (rest : List Item) (i : Invoker)
    → w < 2 ^ 32
    → stream.pending i.calls ≡ map byte (le32 w) ++ rest
    → invoke_recv_msg os fd i ≡ done w (record i { calls = Call.read fd 4 ∷ i.calls })
unfolding invoke_recv_msg le32
invoke_recv_msg_lem os fd stream w rest i fits queued =
    let block = os.fresh i.calls 4 in
    let next : Invoker = record i { calls = Call.read fd 4 ∷ i.calls } in
    ap (λ (r : ReadResult). done (from_le32 (stored r block)) next)
      (stream.read_pending i.calls (le32 w) rest queued)
    ∙ ap (λ (v : ℕ). done v next) (from_le32-fresh w (drop 4 block) fits)

-- If main() comes back in a booster whose invoker waits on an open connection, and the invoker has read
-- all that was sent to it before, then the invoker reads main()'s value as the exit status, and the
-- booster has closed the connection and forgotten its sockets.
pub invoker_recv_exit-run :
    (booster client : Os) (dup : List ℤ → List ℤ) (fd : ℕ) (peer : ℤ) (stream : Stream client peer)
    (c : Connection) (b t : Booster) (i : Invoker) (ret_val : ℤ)
    → is_empty b.m_app_data.m_file_name ≡ false
    → Reports booster fd c
    → launch_process booster (connect c b) ≡ done ret_val t
    → IsInt ret_val
    → sent_onto dup (pos fd) (reached (run booster (connect c b))).calls []
      ≡ sent_onto dup (pos fd) t.calls (stream.pending i.calls)
    → (run booster (connect c b) ≡ done tt (finished booster fd c ret_val t))
      × (status : ℕ) × (to_int status ≡ ret_val)
      × (invoker_recv_exit client peer i
          ≡ done status (record i { calls = Call.read peer 4 ∷ Call.read peer 4 ∷ i.calls }))
unfolding invoker_recv_exit le32
invoker_recv_exit-run booster client dup fd peer stream c b t i ret_val named at runs int queued =
    let ended = run-Reports booster fd c b t ret_val named at runs in
    let status_bytes = map byte (le32 (to_u32 ret_val)) in
    let sent : stream.pending i.calls ≡ map byte (le32 invoker_msg_exit) ++ (status_bytes ++ []) =
      sent_onto-cancel dup (pos fd) t.calls _ _ (
        sym queued
        ∙ ap (λ (o : Outcome Booster (Unit {0})). sent_onto dup (pos fd) (reached o).calls []) ended
        ∙ sent_onto-reported booster dup fd ret_val t []) in
    let second : Invoker = record i { calls = Call.read peer 4 ∷ i.calls } in
    let exits = invoke_recv_msg_lem client peer stream invoker_msg_exit _ i (omega arith) sent in
    let gives =
      invoke_recv_msg_lem client peer stream (to_u32 ret_val) [] second (to_u32-lt ret_val)
        (stream.pending-read i.calls (le32 invoker_msg_exit) _ sent) in
    (ended, to_u32 ret_val, to_int-to_u32 ret_val int, rw exits gives)
