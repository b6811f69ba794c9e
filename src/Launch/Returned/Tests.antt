-- ===== src/Launch/Returned/Tests.antt =====
-- A launch whose application ends with 7, seen by the invoker that waits for it.
use touch_applauncherd.Common.{
  ℕ, ◌≡◌, drop, refl, ◌++◌, map, replicate, true, false, List, [], ◌∷◌, none, some, codes, arith,
}
use touch_applauncherd.Common.Exits.{◌>>◌, done, exited, exit_success, reached}
use touch_applauncherd.Common.Int.{pos, minus_one, to_int, to_u32}
use touch_applauncherd.Common.Bytes.{le32, from_le32}
use touch_applauncherd.Protocol.{
  invoker_msg_name, invoker_msg_exec, invoker_msg_args, invoker_msg_end,
}
use touch_applauncherd.Os.{Os, Call, History, ReadResult, failed, got}
use touch_applauncherd.Wire.{Item, Stream, sent_onto, magic_of}
use touch_applauncherd.Wire.Queued.{queue_os, queue_stream}
use touch_applauncherd.Daemon.{Pipe}
use touch_applauncherd.MDeclarativeCache.{new_cache}
use touch_applauncherd.Connection.{
  Connection, accept, is_report_app_exit_status_needed, new_connection, read, recv_body, recv_msg,
  recv_str, send_msg, send_pid, write,
}
use touch_applauncherd.Connection.Actions.{answered}
use touch_applauncherd.AppData.{
  str, delete_argv, new_app_data, options, set_app_name, set_argc, set_argv, set_delay, set_entry,
  set_file_name, set_ids, set_io_descriptors, set_options, set_priority, single_instance,
}
use touch_applauncherd.Booster.{
  Booster, new_booster, get_group_id, invokers_pid, is_report_needed, pop_priority, push_priority,
  receive_data, receive_data_from_invoker, send_data_to_parent, set_connection,
}
use touch_applauncherd.Booster.Kinds.{qt_booster, temporary_process_name}
use touch_applauncherd.Booster.Initializing.{
  prepare, receive_request, take_over, live, ensure_single_instance, preload,
}
use touch_applauncherd.Booster.Running.{
  launch_process, call_entry, change_ids, cut_launch, dup_io, free_argv, load_main, reset_oom_adj,
  restore_priority, set_pwd,
}
use touch_applauncherd.Booster.Status.{finished}
use touch_applauncherd.Booster.Tests.{qt, parent_argv}
use touch_applauncherd.Invoker.{Invoker}
use touch_applauncherd.Invoker.Search.{search_program}
use touch_applauncherd.Invoker.Options.{
  Numbers, Options, qt_app, main, default_options, parse_options, parse_option, parse_type,
}
use touch_applauncherd.Launch.Tests.{invoker}
use touch_applauncherd.Launch.Returned.{Serves, main-live}
use touch_applauncherd.Booster.Rename.{
  fill_area, first_arg, name_process, new_area, new_argv, overwrite, rename_process,
  space_available, space_of,
}
use touch_applauncherd.Connection.Receive.{
  dispatch, finish, hand_over, receive_actions, receive_app_name, receive_application_data,
  receive_args, receive_argv, receive_exec, receive_magic,
}

-- What the reads from the connection give: a request for `a` with one argument, whose sender waits.
abbrev chunks : List (List ℕ)
chunks =
    le32 (magic_of 1)
    ∷ le32 invoker_msg_name
    ∷ le32 2
    ∷ (b'a' ∷ 0 ∷ [])
    ∷ le32 invoker_msg_exec
    ∷ le32 2
    ∷ (b'a' ∷ 0 ∷ [])
    ∷ le32 invoker_msg_args
    ∷ le32 1
    ∷ le32 2
    ∷ (b'a' ∷ 0 ∷ [])
    ∷ le32 invoker_msg_end
    ∷ []

-- What is left of them after some calls.
abbrev unread : History → List (List ℕ)
unread [] = chunks
unread (Call.read f n ∷ h) = drop 1 (unread h)
unread (c ∷ h) = unread h

abbrev first : List (List ℕ) → ReadResult
first [] = failed
first (bytes ∷ rest) = got bytes

-- Every file can be loaded and every main() returns 7.
abbrev system : Os
system = record (queue_os []) {
  read_result = λ h f n. first (unread h);
  dlopen_handle = λ path. some 3;
  dlsym = λ handle name. some 4;
  main_result = λ h f argc argv. pos 7;
}

abbrev pipe : Pipe
pipe = record { read_end = pos 7; write_end = pos 6 }

abbrev starting : Booster
starting = new_booster system none [] [] new_cache []

abbrev connection : Connection
connection = record {
  m_test_mode = false;
  m_fd = pos 5;
  m_cur_socket = pos 3;
  m_file_name = codes "a";
  m_argc = 1;
  m_argv = some (str (codes "a") ∷ []);
  m_io = minus_one ∷ minus_one ∷ minus_one ∷ [];
  m_priority = 0;
  m_delay = 0;
  m_send_pid = true;
  m_gid = 0;
  m_uid = 0;
}

-- The booster with the request, which it has answered.
abbrev requested : Booster
requested = record {
  m_app_data = record {
    m_options = 1;
    m_argc = pos 1;
    m_argv = some (str (codes "a") ∷ []);
    m_app_name = codes "a";
    m_file_name = codes "a";
    m_prio = pos 0;
    m_delay = pos 0;
    m_entry = none;
    m_io_descriptors = minus_one ∷ minus_one ∷ minus_one ∷ [];
    m_gid = 0;
    m_uid = 0;
  };
  m_connection = some connection;
  m_old_priority = pos 0;
  m_old_priority_ok = true;
  m_pipe_fd = pipe;
  m_space_available = 22;
  m_boot_mode = false;
  m_boosted_gid = 126;
  m_single_instance = none;
  m_socket_hash = [];
  arg_area = codes "booster-q" ++ replicate 13 0;
  cache = new_cache;
  calls = answered (pos 5) (pos 77) true (
      map (λ n. Call.read (pos 5) n) (4 ∷ 2 ∷ 4 ∷ 4 ∷ 4 ∷ 2 ∷ 4 ∷ 4 ∷ 2 ∷ 4 ∷ 4 ∷ 4 ∷ [])
      ++ Call.accept (pos 3)
        ∷ Call.set_priority (pos 0)
        ∷ Call.setenv (codes "_") (codes "booster-q")
        ∷ Call.set_name (codes "booster-q")
        ∷ Call.set_priority (pos 10)
        ∷ []);
}

abbrev taken : Booster
taken = reached (take_over system qt_booster parent_argv requested)

abbrev returned : Booster
returned = reached (launch_process system taken)

serving-receives :
    (prepare system qt qt_booster parent_argv pipe false
        >> receive_request system qt_booster (pos 3) 8)
      starting
    ≡ done (some true) requested
unfolding get_group_id new_booster is_report_needed push_priority pop_priority set_connection
    receive_data receive_data_from_invoker preload receive_request prepare space_of new_argv
    overwrite new_area first_arg space_available fill_area name_process rename_process
    temporary_process_name new_connection is_report_app_exit_status_needed accept read write
    send_msg recv_msg recv_body recv_str send_pid hand_over receive_magic receive_app_name
    receive_exec receive_argv receive_args finish dispatch receive_actions receive_application_data
    new_app_data set_options options set_argc set_argv set_app_name set_file_name set_priority
    set_delay set_io_descriptors set_ids le32 from_le32 to_int
serving-receives = refl

serving-Serves :
    Serves system
      (λ io. io)
      5
      qt
      qt_booster
      8
      parent_argv
      pipe
      (pos 3)
      false
      connection
      starting
      requested
      taken
      returned
      (pos 7)
unfolding is_report_needed invokers_pid send_data_to_parent ensure_single_instance take_over
    new_argv first_arg space_available fill_area name_process rename_process cut_launch dup_io
    reset_oom_adj restore_priority change_ids load_main set_pwd call_entry free_argv launch_process
    is_report_app_exit_status_needed single_instance set_entry delete_argv sent_onto to_u32
serving-Serves = record {
  receives = serving-receives;
  connected = refl;
  reports = record { waits = refl; live = refl; opened = refl };
  named = refl;
  only_answered = λ items. refl;
  apart = refl;
  fresh = λ h path. refl;
  takes_over = refl;
  returns = refl;
  is_int = omega arith;
}

-- What arrives at the invoker.
abbrev arriving : List Item
arriving =
    sent_onto (λ io. io) (pos 5)
      (reached (live system qt qt_booster 8 parent_argv pipe (pos 3) false starting)).calls []

abbrev answered_client : Os
answered_client = record (queue_os arriving) { socket_fd = λ h. pos 5 }

abbrev stream : Stream answered_client (pos 5)
stream =
    let queued = queue_stream arriving in
    record {
      pending = queued.pending;
      read_pending = queued.read_pending;
      pending-read = queued.pending-read;
      recvmsg_pending = queued.recvmsg_pending;
      pending-recvmsg = queued.pending-recvmsg;
      pending_other = queued.pending_other;
    }

abbrev numbers : Numbers
numbers = record { strtoul = λ text. (false, 3); ulong_max = 100 }

abbrev invoker_options : Options
invoker_options = record {
  app_type = qt_app;
  magic_options = 1;
  wait_term = true;
  delay = 0;
  respawn_delay = 3;
}

main-live_example :
    (live system qt qt_booster 8 parent_argv pipe (pos 3) false starting
      ≡ exited exit_success (finished system 5 connection (pos 7) returned))
    × (u : Invoker) × (main answered_client numbers
          (codes "invoker")
          ((b't', codes "q") ∷ [])
          (codes "/bin/a" ∷ [])
          []
          invoker
        ≡ done (pos 7) u)
unfolding parse_options parse_option parse_type default_options search_program
main-live_example =
    main-live system (λ io. io) 5 qt qt_booster 8 parent_argv pipe (pos 3) false connection starting
      requested taken returned (pos 7) serving-Serves answered_client (pos 5) stream numbers
      (codes "invoker") (codes "/bin/a") (codes "/bin/a") ((b't', codes "q") ∷ []) [] []
      invoker_options invoker
      (record invoker { calls = Call.putenv (codes "POSIXLY_CORRECT=1") ∷ [] }) refl refl refl refl
      refl refl refl refl refl refl
