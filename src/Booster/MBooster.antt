-- ===== src/Booster/MBooster.antt =====
-- src/mbooster/mbooster.cpp and eventhandler.cpp: a MeeGo Touch booster waits for its invoker in a
-- second thread, while an event loop runs in the first.
use touch_applauncherd.Common.{ℕ, Bool, false, if◌then◌else◌, Option, some}
use touch_applauncherd.Common.Exits.{Run, ◌>>=◌, ◌>>◌, pure, exit, get, when, exit_success}
use touch_applauncherd.Common.Int.{ℤ}
use touch_applauncherd.Os.{
  Os, Call, connection, hang_up, theme_change, sighup, hup_signal_handler, old_sig_action,
}
use touch_applauncherd.Connection
use touch_applauncherd.Connection.{connected}
use touch_applauncherd.Booster.{
  Booster, log_call, with_connection, set_connection, receive_data, receive_data_from_invoker,
}

-- EventHandler::setupUnixSignalHandlers and restoreUnixSignalHandlers. Their results are not used.
unfoldable pub setup_unix_signal_handlers : Run Booster (Unit {0})
setup_unix_signal_handlers = log_call (Call.sigaction sighup hup_signal_handler)

unfoldable pub restore_unix_signal_handlers : Run Booster (Unit {0})
restore_unix_signal_handlers = log_call (Call.sigaction sighup old_sig_action)

-- The end by SIGHUP where no handler is set.
abbrev pub hung_up : ℕ
hung_up = 129

-- The slots for a change of the theme and for SIGHUP, which the signal's own handler passes on through the
-- pair of sockets.
unfoldable pub notify_theme_change : {A : Type 0} → Run Booster A
notify_theme_change = exit exit_success

unfoldable pub handle_sig_hup : {A : Type 0} → Run Booster A
handle_sig_hup = exit exit_success

module _ (os : Os) where
  -- EventHandler::accept, in the second thread: whichever signal it emits ends the loop.
  unfoldable pub accept : Run Booster (Unit {0})
  accept = do with_connection (Connection.accept os); pure tt

  unfoldable pub run_event_loop : Run Booster (Unit {0})
  run_event_loop = do
    b ← get
    log_call Call.socketpair
    let handler_is_set = os.socketpair_ok b.calls
    when handler_is_set setup_unix_signal_handlers
    b ← get
    elim (os.loop_event b.calls) [
      | connection ↦ (do accept; when handler_is_set restore_unix_signal_handlers)
      | hang_up ↦ if handler_is_set then handle_sig_hup else exit hung_up
      | theme_change ↦ notify_theme_change
    ]

  -- MBooster::receiveDataFromInvoker
  unfoldable pub receive_data_in_loop : ℤ → ℕ → Run Booster (Option Bool)
  receive_data_in_loop socket_fd fuel = do
    b ← get
    if b.m_boot_mode then receive_data_from_invoker os socket_fd fuel else (do
      set_connection os socket_fd
      run_event_loop
      is_connected ← with_connection (λ s. (connected s.conn, s))
      if is_connected then receive_data os fuel else pure (some false))
