-- ===== src/Booster/Running.antt =====
-- src/launcherlib/booster.cpp: `launchProcess`, `loadMain`, `resetOomAdj` and `run`.
use touch_applauncherd.Common.{
  ℕ, ◌+◌, not, ◌&&◌, ◌==◌, if◌then◌else◌, List, [], ◌∷◌, Option, none, some, codes, take, is_empty,
  find_text,
}
use touch_applauncherd.Common.Exits.{Run, ◌>>=◌, ◌>>◌, pure, exit, get, modify, when, exit_failure}
use touch_applauncherd.Common.Int.{ℤ, pos, minus_one, int_eq, int_lt, is_pos, to_u32}
use touch_applauncherd.Os.{Os, Call}
use touch_applauncherd.AppData.{
  AppData, Arg, str, dlopen_global, dlopen_deep, set_entry, delete_argv,
}
use touch_applauncherd.Connection
use touch_applauncherd.SocketManager.{close_all_sockets}
use touch_applauncherd.Booster.{
  Booster, log_call, crashed, with_connection, with_sockets, is_report_needed,
}

-- RTLD_LAZY, RTLD_GLOBAL, RTLD_LOCAL and RTLD_DEEPBIND on Linux.
abbrev pub rtld_lazy : ℕ
rtld_lazy = 1

abbrev pub rtld_global : ℕ
rtld_global = 256

abbrev pub rtld_local : ℕ
rtld_local = 0

abbrev pub rtld_deepbind : ℕ
rtld_deepbind = 8

-- The flags have no bit in common, so `|=` adds.
unfoldable pub dlopen_flags : AppData → ℕ
dlopen_flags a =
    rtld_lazy
    + (if dlopen_global a then rtld_global else rtld_local)
    + (if dlopen_deep a then rtld_deepbind else 0)

-- The workaround for a plugin: the program's name is cut off at ".launch". `none` is a fault.
unfoldable pub cut_launch : Option (List Arg) → Option (List Arg)
cut_launch (some (str s ∷ argv)) = elim (find_text (codes "skypeplugin.launch") s) [
  | none ↦ some (str s ∷ argv)
  | some i ↦ elim (find_text (codes ".launch") s) [
    | none ↦ none
    | some j ↦ some (str (take j s) ∷ argv)
  ]
]
cut_launch argv = none

-- The loop over the I/O descriptors, from index `i`.
unfoldable pub dup_io : ℕ → List ℤ → Run Booster (Unit {0})
dup_io i [] = pure tt
dup_io i (fd ∷ fds) = do
  when (is_pos fd) (do log_call (Call.dup2 fd (pos i)); log_call (Call.close fd))
  dup_io (i + 1) fds

module _ (os : Os) where
  unfoldable pub reset_oom_adj : Run Booster (Unit {0})
  reset_oom_adj = do
    b ← get
    let fd = os.open_fd b.calls (codes "/proc/self/oom_adj")
    log_call (Call.open_file (codes "/proc/self/oom_adj"))
    when (not (int_eq fd minus_one))
        (do log_call (Call.write fd (codes "0")); log_call (Call.close fd))

  -- The priority is raised to the one asked for, if it is lower.
  unfoldable pub restore_priority : Run Booster (Unit {0})
  restore_priority = do
    b ← get
    let (error, cur_prio) = os.get_priority b.calls
    when (not error && int_lt cur_prio b.m_app_data.m_prio)
        (log_call (Call.set_priority b.m_app_data.m_prio))

  -- What the calls return is not looked at.
  unfoldable pub change_ids : Run Booster (Unit {0})
  change_ids = do
    b ← get
    when (not (to_u32 os.getuid == b.m_app_data.m_uid)) (log_call (Call.setuid b.m_app_data.m_uid))
    when (not (to_u32 os.getgid == b.m_app_data.m_gid)) (log_call (Call.setgid b.m_app_data.m_gid))
    log_call (Call.setegid b.m_boosted_gid)
    log_call (Call.setegid os.getegid)

  -- The handle of the application.
  unfoldable pub load_main : Run Booster ℕ
  load_main = do
    b ← get
    log_call (Call.dlopen_with (dlopen_flags b.m_app_data) b.m_app_data.m_file_name)
    elim (os.dlopen_handle b.m_app_data.m_file_name) [
      | none ↦ exit exit_failure
      | some module_handle ↦ elim (os.dlsym module_handle (codes "main")) [
        | none ↦ exit exit_failure
        | some entry ↦ (do
          modify (λ b. record b { m_app_data = set_entry (some entry) b.m_app_data })
          pure module_handle)
      ]
    ]

  unfoldable pub set_pwd : Run Booster (Unit {0})
  set_pwd = do
    b ← get
    elim (os.getenv b.calls (codes "PWD")) [ none ↦ pure tt | some pwd ↦ log_call (Call.chdir pwd) ]

  -- main() of the application, up to its return.
  unfoldable pub call_entry : Run Booster ℤ
  call_entry = do
    b ← get
    elim (cut_launch b.m_app_data.m_argv) [
      | none ↦ exit crashed
      | some argv ↦ (do
        modify (λ b. record b { m_app_data = record (b.m_app_data) { m_argv = some argv } })
        elim b.m_app_data.m_entry [
          | none ↦ exit crashed
          | some entry ↦ (do
            log_call (Call.call_main entry)
            pure (os.main_result b.calls entry b.m_app_data.m_argc argv))
        ])
    ]

  unfoldable pub free_argv : Run Booster (Unit {0})
  free_argv = do
    b ← get
    elim (delete_argv b.m_app_data) [
      | none ↦ exit crashed
      | some a ↦ modify (λ b. record b { m_app_data = a })
    ]

  unfoldable pub launch_process : Run Booster ℤ
  launch_process = do
    restore_priority
    change_ids
    reset_oom_adj
    handle ← load_main
    b ← get
    dup_io 0 b.m_app_data.m_io_descriptors
    set_pwd
    ret_val ← call_entry
    free_argv
    log_call (Call.dlclose handle)
    pure ret_val

  -- The socket manager is there.
  unfoldable pub run : Run Booster (Unit {0})
  run = do
    b ← get
    when (not (is_empty b.m_app_data.m_file_name)) (do
      report ← is_report_needed
      when (not report) (with_sockets close_all_sockets)
      ret_val ← launch_process
      report ← is_report_needed
      when report (do
        with_connection (Connection.send_app_exit_status os ret_val)
        with_connection Connection.close
        with_sockets close_all_sockets))
