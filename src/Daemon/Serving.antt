-- ===== src/Daemon/Serving.antt =====
-- The boosters that src/launcherlib/daemon.cpp keeps ready: from the start on, every plugin has one.
use touch_applauncherd.Common.{
  ℕ, ◌≡◌, refl, true, false, ◌==◌, not, List, [], ◌∷◌, Option, none, some, erase_idx, arith,
}
use touch_applauncherd.Common.Exits.{◌>>◌, pure, exit, modify, exit_success, exit_failure}
use touch_applauncherd.Common.Invariant.{
  Invariant, Invariant-bind, Invariant-pure, Invariant-exit, Invariant-modify, Invariant-if,
  Invariant-get, Invariant-when,
}
use touch_applauncherd.Common.Int.{ℤ, pos, minus_one, int_eq}
use touch_applauncherd.Common.Bytes.{from_le32}
use touch_applauncherd.Common.Int.{to_int}
use touch_applauncherd.Common.Map.{lookup, erase, int_key}
use touch_applauncherd.Os.{Os, Call}
use touch_applauncherd.Connection.{stored}
use touch_applauncherd.Daemon.{
  Daemon, log_call, booster_type_for_pid, booster_sleep_time, fork_booster,
}
use touch_applauncherd.Daemon.Reaper.{notify_invoker, bury, reap_from, reap_zombies}
use touch_applauncherd.Daemon.Reaper.Rule.{waited, IsLoopInvariant, reap_from-Ends}
use touch_applauncherd.Daemon.Events.{
  Ready, read, read_int, read_nothing, is_short, first_byte, store_invoker, read_from_booster_pipe,
  enter_normal_mode, kill_boosters, kill_all, kill_process, run_once,
}

-- What holds of the table of pids and the registry alone, and after the fork of a booster, holds all
-- through the main loop.
module _ (os : Os) (P : Daemon → Type 0)
    (same : (d t : Daemon)
      → t.m_booster_type_to_pid ≡ d.m_booster_type_to_pid
      → t.m_registry ≡ d.m_registry
      → P d
      → P t)
    (forks : (type : ℕ) (delay : ℤ) → Invariant P (fork_booster os type delay)) where
  log_call-kept : (c : Call) → Invariant P (log_call c)
  log_call-kept c =
      Invariant-modify _ λ d at. same d (record d { calls = c ∷ d.calls }) refl refl at

  read-kept : (fd : ℤ) (n : ℕ) → Invariant P (read os fd n)
  unfolding read
  read-kept fd n = Invariant-get _ λ d at. Invariant-bind _ _ (log_call-kept (Call.read fd n)) λ _.
      Invariant-pure
        (os.read_result d.calls fd n, stored (os.read_result d.calls fd n) (os.fresh d.calls n))

  read_int-kept : (fd : ℤ) → Invariant P (read_int os fd)
  unfolding read_int
  read_int-kept fd = Invariant-bind _ _ (read-kept fd 4) λ r.
      Invariant-if (is_short r.0 4) (exit exit_failure) (pure (to_int (from_le32 r.1)))
        (Invariant-exit exit_failure) (Invariant-pure _)

  store_invoker-kept : (type : ℕ) (pid : ℤ) → Invariant P (modify (store_invoker type pid))
  unfolding store_invoker
  store_invoker-kept type pid =
      Invariant-modify _ λ d at. same d (store_invoker type pid d) (ground arith) (ground arith) at

  read_from_booster_pipe-kept : (fd : ℤ) → Invariant P (read_from_booster_pipe os fd)
  unfolding read_from_booster_pipe
  read_from_booster_pipe-kept fd = Invariant-bind _ _ (read-kept fd 1) λ r.
      Invariant-if (read_nothing r.0) _ _ (Invariant-pure tt) (
        Invariant-bind _ _ (read_int-kept fd) λ pid.
          Invariant-bind _ _ (store_invoker-kept (first_byte r.1) pid)
            λ _. Invariant-bind _ _ (read_int-kept fd) λ delay. forks (first_byte r.1) delay)

  notify_invoker-kept : (pid : ℤ) (signal : Option ℕ) → Invariant P (notify_invoker pid signal)
  unfolding notify_invoker
  notify_invoker-kept pid signal =
      Invariant-get _ λ d at. at_lookup (lookup pid d.m_booster_pid_to_invoker_pid)
    where
      passes_on :
          (signal : Option ℕ) (invoker_pid : ℤ)
          → Invariant {A = Unit {0}} P
              (elim signal [ none ↦ pure tt | some sig ↦ log_call (Call.kill invoker_pid sig) ])
      passes_on none invoker_pid = Invariant-pure tt
      passes_on (some sig) invoker_pid = log_call-kept (Call.kill invoker_pid sig)

      at_lookup :
          (o : Option ℤ)
          → Invariant {A = Unit {0}} P (elim o [
            | none ↦ pure tt
            | some invoker_pid ↦ (do
              elim signal [ none ↦ pure tt | some sig ↦ log_call (Call.kill invoker_pid sig) ]
              modify (λ d. record d {
                m_booster_pid_to_invoker_pid = erase pid d.m_booster_pid_to_invoker_pid;
              }))
          ])
      at_lookup none = Invariant-pure tt
      at_lookup (some invoker_pid) =
          Invariant-bind _ _ (passes_on signal invoker_pid)
            λ _. Invariant-modify _ λ d at. same d _ refl refl at

  bury-kept : (i : ℕ) (pid : ℤ) (signal : Option ℕ) → Invariant P (bury os i pid signal)
  unfolding bury
  bury-kept i pid signal =
      Invariant-bind _ _
        (Invariant-modify _
          λ d at. same d (record d { m_children = erase_idx d.m_children i }) refl refl at)
        λ _. Invariant-bind _ _ (notify_invoker-kept pid signal) λ _. Invariant-get _ λ d at.
          Invariant-when (not (booster_type_for_pid pid d == 0)) _
            (forks (booster_type_for_pid pid d) booster_sleep_time)

  reap_from-kept : (fuel i : ℕ) → Invariant P (reap_from os fuel i)
  reap_from-kept fuel i = record { kept = reap_from-Ends os (λ i. P) (λ b. P) rule fuel i }
    where
      asked : (child : ℤ) (d : Daemon) → P d → P (waited child d)
      asked child d at = same d (waited child d) refl refl at

      rule : IsLoopInvariant os (λ i. P) (λ b. P)
      rule = record {
        no_fuel = λ i d at. at;
        at_end = λ i d there at. at;
        passes = λ i child d there is at. asked child d at;
        buries_dead = λ i child signal d t there is at e.
            (bury-kept i child signal).kept (waited child d) t tt (asked child d at) e;
        buries_failed = λ i child d t there is at e.
            (bury-kept i minus_one none).kept (waited child d) t tt (asked child d at) e;
      }

  kill_all-kept : (m : List (ℕ × ℤ)) → Invariant P (kill_all m)
  unfolding kill_all kill_process
  kill_all-kept [] = Invariant-pure tt
  kill_all-kept ((type, pid) ∷ m) =
      Invariant-bind _ _ (Invariant-when (not (int_eq pid (pos 0))) _ (log_call-kept _))
        λ _. kill_all-kept m

  enter_normal_mode-kept : Invariant P enter_normal_mode
  unfolding enter_normal_mode kill_boosters
  enter_normal_mode-kept = Invariant-get _ λ d at. Invariant-when d.m_boot_mode _ (
      Invariant-bind _ _
        (Invariant-modify _ λ d at. same d (record d { m_boot_mode = false }) refl refl at)
        λ _. Invariant-get _ λ d at. kill_all-kept d.m_booster_type_to_pid)

  pub run_once-kept : (fuel : ℕ) (ready : Ready) → Invariant P (run_once os fuel ready)
  unfolding run_once reap_zombies
  run_once-kept fuel ready = Invariant-get _ λ d at.
      Invariant-bind _ _
        (Invariant-when ready.booster _ (read_from_booster_pipe-kept d.m_booster_pipe_fd.read_end))
        λ _.
          Invariant-bind _ _
            (Invariant-if ready.sig_chld _ _
              (Invariant-bind _ _ (read-kept d.m_sig_chld_pipe_fd.read_end 1)
                λ _. reap_from-kept fuel 0)
              (Invariant-pure true))
            λ finished.
              Invariant-bind _ _
                (Invariant-when ready.sig_term _ (
                  Invariant-bind _ _ (read-kept d.m_sig_term_pipe_fd.read_end 1)
                    λ _. Invariant-exit exit_success))
                λ _.
                  Invariant-bind _ _
                    (Invariant-when ready.sig_usr1 _ (
                      Invariant-bind _ _ (read-kept d.m_sig_usr1_pipe_fd.read_end 1)
                        λ _. enter_normal_mode-kept))
                    λ _. Invariant-pure finished
