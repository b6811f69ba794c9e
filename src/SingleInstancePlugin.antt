-- ===== src/SingleInstancePlugin.antt =====
-- src/single-instance/main.cpp: the single-instance plugin and program. A lock file for each binary
-- says whether an instance runs; if one does, its window is raised.
pub mod Windows
pub mod Locking
pub mod Directories
mod Tests
use touch_applauncherd.Common.{
  ℕ, Bool, true, false, not, ◌&&◌, ◌||◌, ◌==◌, if◌then◌else◌, List, [], ◌∷◌, ◌++◌, Option, none,
  some, Text, codes, text_eq, c_str,
}
use touch_applauncherd.Common.Exits.{
  Run, ◌>>=◌, ◌>>◌, pure, becomes, get, modify, when, exit_success, exit_failure,
}
use touch_applauncherd.Common.Int.{ℤ, minus_one, int_eq}
use touch_applauncherd.Os.{Os, Call, History}

-- What the program takes from the X server and from /proc.
pub record Desktop : Type 0 where
  -- XOpenDisplay
  pub has_display : Bool
  -- XGetWindowProperty of _NET_CLIENT_LIST and, for a window, of _NET_WM_PID.
  pub client_list : Option (List ℕ)
  pub net_wm_pid : ℕ → Option ℤ
  -- The first word of /proc/[pid]/cmdline, if the file can be opened.
  pub cmdline : ℤ → Option Text

-- `g_lockFd`, the calls made, and the windows that were sent _NET_ACTIVE_WINDOW.
pub record Plugin : Type 0 where
  pub g_lock_fd : ℤ
  pub calls : History
  pub raised : List ℕ

abbrev pub log_call : Call → Run Plugin (Unit {0})
log_call c = modify λ p. record p { calls = c ∷ p.calls }

abbrev pub lock_path_base : Text
lock_path_base = codes "/tmp/single-instance-locks/"

abbrev pub lock_file_name : Text
lock_file_name = codes "instance.lock"

unfoldable pub lock_path : Text → Text
lock_path binary_name = (lock_path_base ++ binary_name) ++ (codes "/" ++ lock_file_name)

-- The test of the loop of `mkpath`, on a character and what follows it.
unfoldable pub ends_part : ℕ → Text → Bool
ends_part x [] = true
ends_part x (y ∷ rest) = y == b'/' && not (x == b'/')

unfoldable pub binary_name_for_pid : Desktop → ℤ → Text
binary_name_for_pid x pid = elim (x.cmdline pid) [ none ↦ [] | some cmd_line ↦ c_str cmd_line ]

unfoldable pub window_pid : Desktop → ℕ → ℤ
window_pid x window = elim (x.net_wm_pid window) [ none ↦ minus_one | some pid ↦ pid ]

-- The loop over the clients.
unfoldable pub find_client : Desktop → Text → List ℕ → ℕ
find_client x binary_name [] = 0
find_client x binary_name (w ∷ clients) =
    if text_eq (binary_name_for_pid x (window_pid x w)) binary_name
    then w
    else find_client x binary_name clients

-- 0 if there is no window.
unfoldable pub window_id_for_binary : Desktop → Text → ℕ
window_id_for_binary x binary_name = elim x.client_list [
  | none ↦ 0
  | some clients ↦ find_client x binary_name clients
]

unfoldable pub raise_window : ℕ → Run Plugin (Unit {0})
raise_window window = modify λ p. record p { raised = window ∷ p.raised }

unfoldable pub activate_existing_instance : Desktop → Text → Run Plugin Bool
activate_existing_instance x binary_name =
    if x.has_display
    then (if window_id_for_binary x binary_name == 0
        then pure false
        else (do raise_window (window_id_for_binary x binary_name); pure true))
    else pure false

unfoldable pub unlock : Run Plugin (Unit {0})
unlock = do
  p ← get
  when (not (int_eq p.g_lock_fd minus_one))
      (do log_call (Call.close p.g_lock_fd); modify (λ p. record p { g_lock_fd = minus_one }))

-- What the process is after `execve`.
abbrev pub the_binary : ℕ
the_binary = 0

module _ (os : Os) where
  -- A directory, made with all permissions; that it cannot be made is no error.
  unfoldable pub make_part : Text → Run Plugin Bool
  make_part part = do
    p ← get
    log_call (Call.mkdir part)
    if os.mkdir_ok p.calls part
        then (do p ← get; log_call (Call.chmod part); pure (os.chmod_ok p.calls part))
        else pure true

  -- The loop of `mkpath`, from the end of `start`.
  unfoldable pub make_parts : (start rest : Text) → Run Plugin Bool
  make_parts start [] = pure true
  make_parts start (x ∷ rest) = do
    let part = start ++ x ∷ []
    made ← if ends_part x rest then make_part part else pure true
    if made then make_parts part rest else pure false

  unfoldable pub mkpath : Text → Run Plugin Bool
  mkpath path = make_parts [] path

  -- `open` and `fcntl` of the lock file.
  unfoldable pub take_lock : Text → Run Plugin Bool
  take_lock path = do
    p ← get
    let fd = os.open_fd p.calls path
    log_call (Call.open_file path)
    modify (λ p. record p { g_lock_fd = fd })
    if int_eq fd minus_one
        then pure false
        else (do p ← get; log_call (Call.set_lock fd); pure (os.set_lock_ok p.calls fd))

  unfoldable pub lock : Text → Run Plugin Bool
  lock binary_name = do
    made ← mkpath (lock_path_base ++ binary_name)
    if made then take_lock (lock_path binary_name) else pure false

  -- main() for a binary once the lock was granted or not.
  unfoldable pub proceed : Desktop → Text → Bool → Run Plugin ℕ
  proceed x binary_name true = do
    p ← get
    log_call (Call.execve binary_name)
    if os.execve_ok p.calls binary_name then becomes the_binary else (do unlock; pure exit_failure)
  proceed x binary_name false = do
    activated ← activate_existing_instance x binary_name
    pure (if activated then exit_success else exit_failure)

  -- main() for a binary: the exit status, unless the process becomes the binary.
  unfoldable pub launch : Desktop → Text → Run Plugin ℕ
  launch x binary_name = do locked ← lock binary_name; proceed x binary_name locked

  -- The arguments after the program's name.
  unfoldable pub main : Desktop → List Text → Run Plugin ℕ
  main x [] = pure exit_failure
  main x (arg ∷ argv) =
      if text_eq arg (codes "--help") || text_eq arg (codes "-h")
      then pure exit_success
      else launch x arg
