-- ===== src/Booster/Tests.antt =====
-- A booster on a small system: it reports to the daemon, and its application's end to the invoker.
use touch_applauncherd.Common.{
  ℕ, ◌+◌, ◌≡◌, refl, Option, Text, ltb, ◌==◌, ◌++◌, drop, if◌then◌else◌, true, false, List, [], ◌∷◌,
  none, some, codes, arith,
}
use touch_applauncherd.Common.Exits.{done, reached}
use touch_applauncherd.Common.Int.{ℤ, pos, negsuc, minus_one, to_int, to_u32}
use touch_applauncherd.Common.Bytes.{le32}
use touch_applauncherd.Os.{Os, Call, History}
use touch_applauncherd.AppData.{AppData, str, delete_argv, set_entry}
use touch_applauncherd.Connection
use touch_applauncherd.SocketManager.{close_all_sockets, close_entries}
use touch_applauncherd.Connection.{Connection, is_report_app_exit_status_needed, peer_pid}
use touch_applauncherd.Wire.{Item, sent_onto}
use touch_applauncherd.Wire.Queued.{queue_os, queue_stream}
use touch_applauncherd.MDeclarativeCache.{Qt, new_cache}
use touch_applauncherd.Invoker.{Invoker, invoker_recv_exit}
use touch_applauncherd.Daemon.{Daemon, Pipe, fork_booster}
use touch_applauncherd.Daemon.Events.{read_from_booster_pipe}
use touch_applauncherd.Daemon.BoosterPipe.{Noted}
use touch_applauncherd.Booster.{
  Booster, push_priority, pop_priority, is_report_needed, send_data_to_parent,
}
use touch_applauncherd.Booster.Kinds.{m_booster, booster_type, temporary_process_name}
use touch_applauncherd.Booster.Report.{
  connect, waiting_invoker, read_from_booster_pipe-send_data_to_parent,
}
use touch_applauncherd.Booster.Running.{
  launch_process, run, restore_priority, change_ids, reset_oom_adj, load_main, dup_io, set_pwd,
  call_entry, free_argv, cut_launch,
}
use touch_applauncherd.Booster.Files.{files, files-dup_io}
use touch_applauncherd.Booster.Preparing.{prepare_lem}
use touch_applauncherd.Booster.Initializing.{preload, prepare}
use touch_applauncherd.Booster.Rename.{
  rename_process, fill_area, name_process, first_arg, new_argv, space_available, space_of,
}
use touch_applauncherd.Booster.Rename.Shown.{flat, shown, rename_process-shown}
use touch_applauncherd.Booster.Status.{Reports, finished, invoker_recv_exit-run}

-- Every file can be loaded and every main() returns 7.
abbrev system : Os
system = record (queue_os []) {
  dlopen_handle = λ path. some 5;
  main_result = λ h f argc argv. pos 7;
}

abbrev connection : Connection
connection = record {
  m_test_mode = false;
  m_fd = pos 8;
  m_cur_socket = pos 3;
  m_file_name = [];
  m_argc = 0;
  m_argv = none;
  m_io = minus_one ∷ minus_one ∷ minus_one ∷ [];
  m_priority = 0;
  m_delay = 0;
  m_send_pid = true;
  m_gid = 0;
  m_uid = 0;
}

abbrev app_data : AppData
app_data = record {
  m_options = 1;
  m_argc = pos 1;
  m_argv = some (str (codes "/bin/a") ∷ []);
  m_app_name = codes "/bin/a";
  m_file_name = codes "/bin/a";
  m_prio = pos 0;
  m_delay = pos 3;
  m_entry = none;
  m_io_descriptors = pos 10 ∷ pos 11 ∷ pos 12 ∷ [];
  m_gid = 100;
  m_uid = 1000;
}

abbrev pub pipe : Pipe
pipe = record { read_end = pos 5; write_end = pos 6 }

abbrev pub booster : Booster
booster = record {
  m_app_data = app_data;
  m_connection = none;
  m_old_priority = pos 0;
  m_old_priority_ok = false;
  m_pipe_fd = pipe;
  m_space_available = 0;
  m_boot_mode = false;
  m_boosted_gid = 126;
  m_single_instance = none;
  m_socket_hash = (codes "/tmp/boostm", pos 9) ∷ [];
  arg_area = [];
  cache = new_cache;
  calls = [];
}

abbrev daemon : Daemon
daemon = record {
  m_daemon = false;
  m_quiet = false;
  m_boot_mode = false;
  m_debug_mode = false;
  m_children = pos 1 ∷ [];
  m_booster_pid_to_invoker_pid = [];
  m_booster_type_to_pid = (b'm', pos 1) ∷ [];
  m_booster_pipe_fd = pipe;
  m_sig_chld_pipe_fd = pipe;
  m_sig_term_pipe_fd = pipe;
  m_sig_usr1_pipe_fd = pipe;
  m_lock_fd = minus_one;
  m_socket_hash = [];
  m_single_instance = none;
  m_registry = [];
  calls = [];
}

-- What the pipe holds after the report.
abbrev piped : List Item
piped =
    sent_onto (λ io. io) (pos 6)
      (reached (send_data_to_parent system m_booster (connect connection booster))).calls []

read_from_booster_pipe-send_data_to_parent_example :
    (t : Daemon) × (read_from_booster_pipe (queue_os piped) (pos 5) daemon
      ≡ fork_booster (queue_os piped) (booster_type m_booster) (pos 3) t)
    × Noted
        (booster_type m_booster)
        (waiting_invoker system connection (Call.write (pos 6) (booster_type m_booster ∷ []) ∷ []))
        (Call.read (pos 5) 4 ∷ Call.read (pos 5) 4 ∷ Call.read (pos 5) 1 ∷ [])
        daemon
        t
unfolding sent_onto is_report_app_exit_status_needed peer_pid
read_from_booster_pipe-send_data_to_parent_example =
    read_from_booster_pipe-send_data_to_parent system (queue_os piped) (λ io. io) m_booster
      connection booster daemon (pos 5) (queue_stream piped) [] (omega arith) (omega arith)
      (λ items. refl) refl

abbrev ended : Booster
ended = reached (launch_process system (connect connection booster))

-- The system of the invoker: the end of the application is in its socket's queue.
abbrev told : List Item
told = sent_onto (λ io. io) (pos 8) (finished system 8 connection (pos 7) ended).calls []

abbrev invoker : Invoker
invoker = record { g_invoked_pid = minus_one; calls = [] }

connection-Reports : Reports system 8 connection
connection-Reports = record { waits = refl; live = refl; opened = refl }

-- The application of this booster ends with 7.
launched : launch_process system (connect connection booster) ≡ done (pos 7) ended
unfolding launch_process restore_priority change_ids reset_oom_adj load_main dup_io set_pwd
    call_entry free_argv cut_launch delete_argv to_u32 set_entry
launched = refl

invoker_recv_exit-run_example :
    (run system (connect connection booster) ≡ done tt (finished system 8 connection (pos 7) ended))
    × (status : ℕ) × (to_int status ≡ pos 7)
    × (invoker_recv_exit (queue_os told) (pos 5) invoker
        ≡ done status (record invoker { calls = Call.read (pos 5) 4 ∷ Call.read (pos 5) 4 ∷ [] }))
unfolding sent_onto run launch_process restore_priority change_ids reset_oom_adj load_main dup_io
    set_pwd call_entry free_argv cut_launch delete_argv to_u32 is_report_needed set_entry
    is_report_app_exit_status_needed le32 close_all_sockets close_entries Connection.close
    Connection.send_app_exit_status Connection.send_msg Connection.write
invoker_recv_exit-run_example =
    invoker_recv_exit-run system (queue_os told) (λ io. io) 8 (pos 5) (queue_stream told) connection
      booster ended invoker (pos 7) refl connection-Reports launched (omega arith) refl

-- Descriptors 10, 11 and 12 are open for the files 110, 111 and 112.
abbrev opened : ℤ → Option ℕ
opened (pos n) = if ltb n 10 then none else some (100 + n)
opened (negsuc n) = none

files-dup_io_example :
    (t : Booster) × (dup_io 0 (pos 10 ∷ pos 11 ∷ pos 12 ∷ []) booster ≡ done tt t)
    × ((fd : ℕ)
        → files opened t.calls (pos fd) ≡ (
            if fd == 0
            then some 110
            else if fd == 1
            then some 111
            else if fd == 2
            then some 112
            else if fd == 10
            then none
            else if fd == 11
            then none
            else if fd == 12
            then none
            else files opened [] (pos fd)))
files-dup_io_example =
    files-dup_io opened 10 11 12 110 111 112 booster (omega arith) (omega arith) (omega arith)
      (omega arith) (omega arith) (omega arith) refl refl refl

abbrev pub qt : Qt
qt = record {
  app_name = codes "cache77";
  file_name = λ s. s;
  to_upper = λ s. s;
  has_display = false;
  dir_path = [];
  file_path = [];
}

-- The daemon's arguments, which the booster's name is written over.
abbrev pub parent_argv : List Text
parent_argv = codes "/usr/bin/applauncherd" ∷ []

abbrev prepared : Booster
prepared = reached (prepare system qt m_booster parent_argv pipe false booster)

prepare_lem_example : (h : History) × (prepared.calls ≡ Call.set_priority (pos 0) ∷ h)
unfolding prepare push_priority pop_priority preload rename_process fill_area name_process first_arg
    new_argv space_available space_of temporary_process_name
prepare_lem_example =
    prepare_lem system (pos 0) qt m_booster parent_argv pipe false booster prepared refl refl

rename_process-shown_example :
    (t : Booster) × (rename_process system parent_argv 2
        (str (codes "/bin/a") ∷ str (codes "-x") ∷ [])
        booster
      ≡ done tt t)
    × (t.arg_area
        ≡ shown (space_available parent_argv booster) (flat (codes "/bin/a" ∷ codes "-x" ∷ []))
          ++ drop (space_available parent_argv booster) booster.arg_area)
unfolding space_available space_of
rename_process-shown_example =
    rename_process-shown system parent_argv (codes "/bin/a") (codes "-x" ∷ []) [] booster
      (omega arith) (omega arith)
