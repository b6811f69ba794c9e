-- ===== src/Daemon/Tests.antt =====
-- The daemon on a system with a few processes.
use touch_applauncherd.Common.{
  ℕ, suc, ◌≤◌, ◌<◌, ◌≡◌, ◌≢◌, refl, Bool, true, false, not, ◌&&◌, ◌||◌, ◌==◌, if◌then◌else◌, List,
  [], ◌∷◌, none, some, Text, codes, All, length, arith,
}
use touch_applauncherd.Common.Exits.{done, reached}
use touch_applauncherd.Common.Int.{ℤ, pos, int_eq, to_int}
use touch_applauncherd.Common.Map.{lookup, insert, erase, text_key, nat_key, int_key}
use touch_applauncherd.Common.Bytes.{le32, from_le32}
use touch_applauncherd.Os.{
  Os, Call, History, WaitResult, running, reaped, in_child, ReadResult, got,
}
use touch_applauncherd.Wire.Queued.{queue_os}
use touch_applauncherd.Daemon.{
  Daemon, Pipe, fork_booster, set_pid_to_booster, booster_pid_for_type, booster_type_for_pid,
  type_for_pid,
}
use touch_applauncherd.Daemon.Reaper.{reap_zombies, reap_from, bury, notify_invoker}
use touch_applauncherd.Daemon.Events.{
  run_once, Ready, read_nothing, first_byte, read, read_int, kill_boosters, kill_all, kill_process,
  read_from_booster_pipe, store_invoker, enter_normal_mode, parse_args,
}
use touch_applauncherd.Daemon.Forking.{fork_booster-in_parent}
use touch_applauncherd.Daemon.Reaped.{told, reap_from-reaped}
use touch_applauncherd.Daemon.Modes.{
  live_pids, terminate, enter_normal_mode_lem, with_flags, has, parse_args_lem,
}
use touch_applauncherd.Daemon.Reaping.{IsFinite, reap_from-ne-done}
use touch_applauncherd.Daemon.Buried.{was_running, reap_zombies-AllRunning}
use touch_applauncherd.Daemon.Tracking.{has_pid, has_pid-remove, alive, HasProcesses, IsTracked}
use touch_applauncherd.Connection.{stored}
use touch_applauncherd.Daemon.Rounds.{run_once-IsTracked}

abbrev pipe : ℕ → Pipe
pipe n = record { read_end = pos n; write_end = pos (suc n) }

-- In boot mode, with one booster of type 'm', pid 1, whose application has the invoker 40.
abbrev daemon : Daemon
daemon = record {
  m_daemon = false;
  m_quiet = false;
  m_boot_mode = true;
  m_debug_mode = false;
  m_children = pos 1 ∷ [];
  m_booster_pid_to_invoker_pid = (pos 1, pos 40) ∷ [];
  m_booster_type_to_pid = (b'm', pos 1) ∷ [];
  m_booster_pipe_fd = pipe 10;
  m_sig_chld_pipe_fd = pipe 12;
  m_sig_term_pipe_fd = pipe 14;
  m_sig_usr1_pipe_fd = pipe 16;
  m_lock_fd = pos 3;
  m_socket_hash = (codes "/tmp/boostm", pos 9) ∷ (codes "/tmp/boostq", pos 8) ∷ [];
  m_single_instance = none;
  m_registry =
      record { type = b'm'; create_func = 1; socket_name_func = 1; temporary_process_name_func = 1 }
      ∷ record {
        type = b'q';
        create_func = 2;
        socket_name_func = 2;
        temporary_process_name_func = 2;
      }
      ∷ [];
  calls = Call.fork ∷ [];
}

-- Whether process 1 was waited for.
abbrev was_waited : History → Bool
was_waited [] = false
was_waited (Call.waitpid pid ∷ h) = int_eq pid (pos 1) || was_waited h
was_waited (c ∷ h) = was_waited h

abbrev wait_once : History → ℤ → WaitResult
wait_once h pid = if int_eq pid (pos 1) && not (was_waited h) then reaped (some 11) else running

-- A pipe that has the type 'm', the invoker 41 and the delay 3.
abbrev piped : History → ReadResult
piped (Call.fork ∷ []) = got (b'm' ∷ [])
piped (Call.read fd n ∷ Call.fork ∷ []) = got (le32 41)
piped h = got (le32 3)

-- Process 1 dies of signal 11, and no other does.
abbrev pub parent_os : Os
parent_os = record (queue_os []) {
  wait_result = wait_once;
  read_result = λ h fd n. piped h;
  glob_paths = λ p. some (codes "/usr/lib/libmbooster.so" ∷ []);
  dlopen_handle = λ p. some 1;
  call_text = λ f. if f == 1 then codes "/tmp/boostm" else codes "/tmp/boostq";
}

abbrev child_os : Os
child_os = record parent_os { fork_result = λ h. in_child }

alive-bound :
    (h : History) (n : ℕ) → length h ≤ n → has_pid (pos (suc n)) (alive parent_os h) ≡ false
alive-bound [] n le = refl
alive-bound (Call.fork ∷ h) n le = ground (arith, alive-bound h n (omega arith))
alive-bound (Call.waitpid pid ∷ h) n le =
    ground
      (arith, alive-bound h n (omega arith), has_pid-remove (pos (suc n)) pid (alive parent_os h))
alive-bound (c ∷ h) n le = alive-bound h n (omega arith)

spent :
    (h : History) (c : Call)
    → (if was_waited (c ∷ h) then 0 else 1) ≤ (if was_waited h then 0 else 1)
spent h (Call.waitpid pid) = ground arith
spent h c = omega arith

pub parent_os-HasProcesses : HasProcesses parent_os
parent_os-HasProcesses = record {
  fork_fresh = λ h pid e. ground (arith, alive-bound h (length h));
  wait_child = λ h pid there e. ground arith;
}

dies :
    (h : History) (pid : ℤ)
    → wait_once h pid ≢ running
    → (if was_waited (Call.waitpid pid ∷ h) then 0 else 1) < (if was_waited h then 0 else 1)
dies h pid ended = ground arith

abbrev parent_os-IsFinite : IsFinite parent_os
parent_os-IsFinite = record {
  budget = λ h. if was_waited h then 0 else 1;
  budget_call = spent;
  budget_wait = dies;
}

daemon-IsTracked : IsTracked parent_os daemon
unfolding lookup
daemon-IsTracked = record {
  same = λ p. refl;
  distinct = (refl, tt);
  table = (tt, tt);
  typed = refl;
  tracked = λ type p ne there. ground arith;
  single = λ a b p na nb ha hb. ground arith;
}

abbrev after_reaping : Daemon
after_reaping = reached (reap_zombies parent_os 5 daemon)

reap_from-ne-done_example : reap_from parent_os 5 0 daemon ≢ done false daemon
reap_from-ne-done_example =
    reap_from-ne-done parent_os parent_os-IsFinite 5 0 daemon daemon (omega arith)

fork_booster-in_parent_example :
    (t : Daemon) × (fork_booster parent_os b'm' (pos 2) daemon ≡ done tt t)
    × (t.m_children ≡ pos 1 ∷ pos 2 ∷ [])
    × ((other : ℕ)
        → booster_pid_for_type other t
          ≡ (if b'm' == other then pos 2 else booster_pid_for_type other daemon))
fork_booster-in_parent_example = fork_booster-in_parent parent_os b'm' 2 (pos 2) daemon refl

-- The booster of type 'm' dies of signal 11: its invoker 40 is sent the signal and a new one is forked.
reap_from-reaped_example :
    (t : Daemon) × (reap_from parent_os 5 0 daemon ≡ reap_from parent_os 4 0 t)
    × (t.m_children ≡ pos 4 ∷ [])
    × (t.calls ≡ Call.fork ∷ told (pos 1) (some 11) daemon)
    × ((other : ℤ)
        → lookup other t.m_booster_pid_to_invoker_pid ≡ (
            if int_eq (pos 1) other
            then none
            else lookup other daemon.m_booster_pid_to_invoker_pid))
    × ((other : ℕ)
        → booster_pid_for_type other t ≡ (
            if not (b'm' == 0) && (b'm' == other)
            then pos 4
            else booster_pid_for_type other daemon))
unfolding booster_type_for_pid type_for_pid lookup
reap_from-reaped_example =
    reap_from-reaped parent_os 4 0 4 (pos 1) (some 11) daemon (ground arith) refl refl
      (λ known. refl)

enter_normal_mode_lem_example :
    enter_normal_mode daemon
    ≡ done tt (record daemon {
      m_boot_mode = false;
      calls = terminate (live_pids daemon.m_booster_type_to_pid) daemon.calls;
    })
enter_normal_mode_lem_example = enter_normal_mode_lem daemon

abbrev arguments : List Text
arguments = codes "--quiet" ∷ codes "-d" ∷ []

parse_args_lem_example : parse_args arguments daemon ≡ done tt (with_flags arguments daemon)
unfolding has
parse_args_lem_example = parse_args_lem arguments daemon refl

pub piped-typed :
    (h : History) → read_nothing (piped h) ≡ false → first_byte (stored (piped h) []) ≢ 0
unfolding le32
piped-typed [] e = ground arith
piped-typed (Call.fork ∷ []) e = ground arith
piped-typed (Call.read fd n ∷ Call.fork ∷ []) e = ground arith
piped-typed h e = ground arith

-- A booster, a signal of a child and SIGUSR1.
abbrev ready : Ready
ready = record { booster = true; sig_chld = true; sig_term = false; sig_usr1 = true }

abbrev after_round : Daemon
after_round = reached (run_once parent_os 9 ready daemon)

run_once-IsTracked_example : IsTracked parent_os after_round
unfolding run_once read_from_booster_pipe read read_int store_invoker le32 from_le32 to_int
    enter_normal_mode kill_boosters kill_all kill_process booster_pid_for_type reap_zombies
    reap_from bury notify_invoker fork_booster set_pid_to_booster booster_type_for_pid type_for_pid
    lookup insert erase
run_once-IsTracked_example =
    run_once-IsTracked parent_os parent_os-HasProcesses 9 ready daemon after_round true
      (record { typed_read = λ h. piped-typed h }) daemon-IsTracked refl

reap_zombies-AllRunning_example :
    ◌≡◌ {A = Bool} true true
    × All
        (λ c. was_running parent_os (length daemon.calls) c after_reaping.calls ≡ true)
        after_reaping.m_children
unfolding reap_zombies reap_from bury notify_invoker fork_booster set_pid_to_booster
    booster_type_for_pid type_for_pid lookup insert erase
reap_zombies-AllRunning_example =
    reap_zombies-AllRunning parent_os parent_os-IsFinite 5 daemon after_reaping true (omega arith)
      refl
