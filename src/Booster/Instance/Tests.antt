-- ===== src/Booster/Instance/Tests.antt =====
-- A request for a single instance, to a booster whose plugin grants the lock.
use touch_applauncherd.Common.{◌≡◌, refl, true, false, List, [], some, codes}
use touch_applauncherd.Common.Exits.{done, reached}
use touch_applauncherd.Common.Int.{pos, to_int, to_u32}
use touch_applauncherd.Common.Bytes.{le32, from_le32}
use touch_applauncherd.Os.{Os}
use touch_applauncherd.Booster.Rename.{
  rename_process, space_available, space_of, fill_area, new_argv, name_process, first_arg, new_area,
  overwrite,
}
use touch_applauncherd.AppData.{
  options, set_app_name, set_argc, set_argv, set_delay, set_file_name, set_ids, set_io_descriptors,
  set_options, set_priority, single_instance, new_app_data,
}
use touch_applauncherd.Connection.Receive.{
  dispatch, finish, hand_over, receive_actions, receive_app_name, receive_application_data,
  receive_args, receive_argv, receive_delay, receive_env, receive_exec, receive_ids, receive_io,
  receive_magic, receive_priority, receive_vars,
}
use touch_applauncherd.Connection.{
  new_connection, accept, close, is_report_app_exit_status_needed, peer_pid, read, recv_body,
  recv_msg, recv_str, send_msg, send_pid, write,
}
use touch_applauncherd.SingleInstance.{close_plugin}
use touch_applauncherd.Wire.{Item, magic_of, put_msg, put_str}
use touch_applauncherd.Protocol.{invoker_msg_name, invoker_msg_end}
use touch_applauncherd.Wire.Queued.{queue_os}
use touch_applauncherd.Booster.{
  Booster, push_priority, pop_priority, receive_data_from_invoker, set_connection, receive_data,
  invokers_pid, is_report_needed, send_data_to_parent,
}
use touch_applauncherd.Booster.Kinds.{qt_booster, booster_type, temporary_process_name}
use touch_applauncherd.Booster.Initializing.{
  receive_request, prepare, initialize, preload, ensure_single_instance, go_on, lock_instance,
  take_over,
}
use touch_applauncherd.Booster.Instance.{MayRun, initialize-MayRun}
use touch_applauncherd.Booster.Tests.{booster, pipe, qt, parent_argv}

-- The shortest request: its magic word, a name and the end.
abbrev request : List Item
request =
    put_msg (magic_of 9)
      (put_msg invoker_msg_name (put_str (codes "a") (put_msg invoker_msg_end [])))

abbrev system : Os
system = queue_os request

abbrev locking : Booster
locking = record booster {
  m_single_instance = some (record {
    handle = 2;
    lock_func = 21;
    unlock_func = 22;
    activate_existing_instance_func = 23;
  });
}

abbrev ready : Booster
ready = reached (initialize system qt qt_booster 2 parent_argv pipe (pos 3) false locking)

initializes :
    initialize system qt qt_booster 2 parent_argv pipe (pos 3) false locking ≡ done true ready
unfolding initialize prepare receive_request from_le32 le32 to_int to_u32 put_msg put_str
    push_priority pop_priority receive_data_from_invoker set_connection receive_data invokers_pid
    is_report_needed send_data_to_parent preload ensure_single_instance go_on lock_instance
    take_over rename_process space_available space_of fill_area new_argv name_process first_arg
    new_area overwrite booster_type temporary_process_name options set_app_name set_argc set_argv
    set_delay set_file_name set_ids set_io_descriptors set_options set_priority single_instance
    new_app_data dispatch finish hand_over receive_actions receive_app_name receive_application_data
    receive_args receive_argv receive_delay receive_env receive_exec receive_ids receive_io
    receive_magic receive_priority receive_vars new_connection accept close
    is_report_app_exit_status_needed peer_pid read recv_body recv_msg recv_str send_msg send_pid
    write close_plugin
initializes = refl

initialize-MayRun_example :
    (p : Booster) × (u : Booster) × (prepare system qt qt_booster parent_argv pipe false locking
      ≡ done tt p)
    × (receive_request system qt_booster (pos 3) 2 p ≡ done (some true) u)
    × MayRun system u
initialize-MayRun_example =
    initialize-MayRun system qt qt_booster 2 parent_argv pipe (pos 3) false locking ready
      initializes
