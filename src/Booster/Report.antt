-- ===== src/Booster/Report.antt =====
-- `sendDataToParent` of src/launcherlib/booster.cpp and `readFromBoosterPipe` of daemon.cpp, the two
-- ends of the pipe between a booster and the daemon.
use touch_applauncherd.Common.{
  ◌≡◌, refl, ◌∙◌, if◌then◌else◌, List, [], ◌∷◌, ◌++◌, map, some, Bool-cases, inl, inr,
}
use touch_applauncherd.Common.Exits.{done, reached}
use touch_applauncherd.Common.Int.{ℤ, pos, IsInt, to_u32}
use touch_applauncherd.Common.Bytes.{le32}
use touch_applauncherd.Os.{Os, Call, History}
use touch_applauncherd.Connection.{Connection, is_report_app_exit_status_needed, peer_pid}
use touch_applauncherd.Wire.{Item, byte, Stream, sent_onto, sent_onto-write}
use touch_applauncherd.Daemon.{Daemon, fork_booster}
use touch_applauncherd.Daemon.Events.{store_invoker, read_from_booster_pipe}
use touch_applauncherd.Daemon.BoosterPipe.{Noted, store_invoker-Noted, read_from_booster_pipe_lem}
use touch_applauncherd.Booster.{Booster, send_data_to_parent, invokers_pid, is_report_needed}
use touch_applauncherd.Booster.Kinds.{Kind, booster_type}

-- The pid that the booster reports: its invoker's, if that waits for the exit status.
abbrev pub waiting_invoker : Os → Connection → History → ℤ
waiting_invoker os c h =
    if is_report_app_exit_status_needed c
    then peer_pid os (record { conn = c; calls = h })
    else pos 0

-- The calls of the report, newest first.
abbrev pub report : Os → Kind → Connection → Booster → History
report os kind c b =
    let fd = b.m_pipe_fd.write_end in
    let typed = Call.write fd (booster_type kind ∷ []) ∷ b.calls in
    Call.write fd (le32 (to_u32 b.m_app_data.m_delay))
    ∷ Call.write fd (le32 (to_u32 (waiting_invoker os c typed)))
    ∷ typed

-- A booster with a connection.
abbrev pub connect : Connection → Booster → Booster
connect c b = record b { m_connection = some c }

invokers_pid_lem :
    (os : Os) (c : Connection) (b : Booster)
    → invokers_pid os (connect c b) ≡ done (waiting_invoker os c b.calls) (connect c b)
unfolding invokers_pid is_report_needed
invokers_pid_lem os c b = elim (Bool-cases (is_report_app_exit_status_needed c)) [
  | inl waits ↦ rw waits refl
  | inr leaves ↦ rw leaves refl
]

send_data_to_parent_lem :
    (os : Os) (kind : Kind) (c : Connection) (b : Booster)
    → send_data_to_parent os kind (connect c b)
      ≡ done tt (record (connect c b) { calls = report os kind c b })
unfolding send_data_to_parent
send_data_to_parent_lem os kind c b =
    let typed : Booster = record b {
      calls = Call.write b.m_pipe_fd.write_end (booster_type kind ∷ []) ∷ b.calls;
    } in
    rw (invokers_pid_lem os c typed) refl

on_wire :
    (os : Os) (dup : List ℤ → List ℤ) (kind : Kind) (c : Connection) (b : Booster)
    (rest : List Item)
    → sent_onto dup b.m_pipe_fd.write_end (report os kind c b) rest
      ≡ sent_onto dup b.m_pipe_fd.write_end b.calls (
          map byte (booster_type kind ∷ [])
          ++ map byte (
              le32 (
                to_u32 (
                  waiting_invoker os c
                    (Call.write b.m_pipe_fd.write_end (booster_type kind ∷ []) ∷ b.calls))))
          ++ map byte (le32 (to_u32 b.m_app_data.m_delay))
          ++ rest)
unfolding le32
on_wire os dup kind c b rest =
    let w = b.m_pipe_fd.write_end in
    let typed = Call.write w (booster_type kind ∷ []) ∷ b.calls in
    let pid_bytes = le32 (to_u32 (waiting_invoker os c typed)) in
    let delay_bytes = le32 (to_u32 b.m_app_data.m_delay) in
    sent_onto-write dup w delay_bytes (Call.write w pid_bytes ∷ typed) rest
    ∙ sent_onto-write dup w pid_bytes typed (map byte delay_bytes ++ rest)
    ∙ sent_onto-write dup w (booster_type kind ∷ []) b.calls _

-- What a booster with a connection writes to the pipe, the daemon reads at its other end, if nothing
-- else is queued in front of it and the numbers are ints: the daemon notes the invoker that waits, if
-- one does and the writer's type has a booster, under the pid of that booster and changes nothing else,
-- and then forks a booster of that type with the respawn delay of the application.
pub read_from_booster_pipe-send_data_to_parent :
    (child daemon : Os) (dup : List ℤ → List ℤ) (kind : Kind) (c : Connection) (b : Booster)
    (d : Daemon) (fd : ℤ) (stream : Stream daemon fd) (rest : List Item)
    → let w = b.m_pipe_fd.write_end in
      let typed = Call.write w (booster_type kind ∷ []) ∷ b.calls in
      IsInt (waiting_invoker child c typed)
      → IsInt b.m_app_data.m_delay
      → ((items : List Item) → sent_onto dup w b.calls items ≡ items)
      → stream.pending d.calls
        ≡ sent_onto dup w (reached (send_data_to_parent child kind (connect c b))).calls rest
      → (t : Daemon) × (read_from_booster_pipe daemon fd d
          ≡ fork_booster daemon (booster_type kind) b.m_app_data.m_delay t)
        × Noted
            (booster_type kind)
            (waiting_invoker child c typed)
            (Call.read fd 4 ∷ Call.read fd 4 ∷ Call.read fd 1 ∷ d.calls)
            d
            t
unfolding le32
read_from_booster_pipe-send_data_to_parent child daemon dup kind c b d fd stream rest pid_ok
      delay_ok first queued =
    let w = b.m_pipe_fd.write_end in
    let pid = waiting_invoker child c (Call.write w (booster_type kind ∷ []) ∷ b.calls) in
    let delay_bytes = le32 (to_u32 b.m_app_data.m_delay) in
    let pid_bytes = le32 (to_u32 pid) in
    let sent : sent_onto dup w (reached (send_data_to_parent child kind (connect c b))).calls rest
        ≡ sent_onto dup w (report child kind c b) rest =
      rw (send_data_to_parent_lem child kind c b) refl in
    let whole : stream.pending d.calls
        ≡ map byte (booster_type kind ∷ []) ++ map byte pid_bytes ++ map byte delay_bytes ++ rest =
      queued ∙ sent ∙ on_wire child dup kind c b rest ∙ first _ in
    let after_type = stream.pending-read d.calls (booster_type kind ∷ []) _ whole in
    let after_pid = stream.pending-read (Call.read fd 1 ∷ d.calls) pid_bytes _ after_type in
    let reads = Call.read fd 4 ∷ Call.read fd 4 ∷ Call.read fd 1 ∷ d.calls in
    (
      store_invoker (booster_type kind) pid (record d { calls = reads }),
      read_from_booster_pipe_lem daemon fd pid b.m_app_data.m_delay (booster_type kind) d pid_ok
          delay_ok (stream.read_pending d.calls (booster_type kind ∷ []) _ whole)
          (stream.read_pending (Call.read fd 1 ∷ d.calls) pid_bytes _ after_type)
          (stream.read_pending (Call.read fd 4 ∷ Call.read fd 1 ∷ d.calls) delay_bytes rest
            after_pid),
      store_invoker-Noted (booster_type kind) pid reads d,
    )
