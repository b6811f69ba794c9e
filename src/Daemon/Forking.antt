-- ===== src/Daemon/Forking.antt =====
-- forkBooster of src/launcherlib/daemon.cpp, in the daemon and in the child that becomes the booster.
use touch_applauncherd.Common.{
  ℕ, ◌≡◌, ◌≢◌, refl, not, ◌&&◌, ◌==◌, if◌then◌else◌, [], ◌∷◌, ◌++◌, Option, none, some, arith,
}
use touch_applauncherd.Common.Exits.{Run, when, exit, done, becomes, bind-ne-done, exit_failure}
use touch_applauncherd.Common.Int.{ℤ, pos, minus_one, int_eq}
use touch_applauncherd.Common.Map.{lookup-insert, nat_key, text_key}
use touch_applauncherd.Os.{
  Os, Call, History, ForkResult, fork_failed, in_child, in_parent, sigchld, sigterm, sigusr1,
  sighup,
}
use touch_applauncherd.BoosterPluginRegistry.{create}
use touch_applauncherd.Daemon.{
  Daemon, log_call, set_pid_to_booster, booster_pid_for_type, close_unused_sockets, run_child,
  fork_booster, unlock,
}

-- The daemon after it forked a booster.
abbrev pub forked : ℕ → ℕ → Daemon → Daemon
forked type pid d = set_pid_to_booster type (pos pid) (record (set_pid_to_booster type (pos 0) d) {
  m_children = d.m_children ++ pos pid ∷ [];
  calls = Call.fork ∷ d.calls;
})

pub fork_booster-in_parent_eq :
    (os : Os) (type pid : ℕ) (sleep_time : ℤ) (d : Daemon)
    → os.fork_result d.calls ≡ in_parent pid
    → fork_booster os type sleep_time d ≡ done tt (forked type pid d)
unfolding fork_booster set_pid_to_booster
fork_booster-in_parent_eq os type pid sleep_time d e = rw e

-- In the daemon, when `fork` gives a pid: the booster of that type has this pid, the boosters of the
-- other types keep theirs, and the pid is the last of the children.
pub fork_booster-in_parent :
    (os : Os) (type pid : ℕ) (sleep_time : ℤ) (d : Daemon)
    → os.fork_result d.calls ≡ in_parent pid
    → (t : Daemon) × (fork_booster os type sleep_time d ≡ done tt t)
      × (t.m_children ≡ d.m_children ++ pos pid ∷ [])
      × ((other : ℕ)
          → booster_pid_for_type other t
            ≡ (if type == other then pos pid else booster_pid_for_type other d))
unfolding set_pid_to_booster booster_pid_for_type
fork_booster-in_parent os type pid sleep_time d e = (
  forked type pid d,
  fork_booster-in_parent_eq os type pid sleep_time d e,
  refl,
  λ other. ground (
    arith,
    lookup-insert type other (pos 0) d.m_booster_type_to_pid,
    lookup-insert type other (pos pid) (set_pid_to_booster type (pos 0) d).m_booster_type_to_pid,
  ),
)

-- The child's daemon once it has closed the descriptors that are not sockets.
abbrev pub prepared : Daemon → Daemon
prepared d = record d {
  calls =
      Call.close d.m_sig_usr1_pipe_fd.write_end
      ∷ Call.close d.m_sig_usr1_pipe_fd.read_end
      ∷ Call.close d.m_sig_term_pipe_fd.write_end
      ∷ Call.close d.m_sig_term_pipe_fd.read_end
      ∷ Call.close d.m_sig_chld_pipe_fd.write_end
      ∷ Call.close d.m_sig_chld_pipe_fd.read_end
      ∷ Call.close d.m_booster_pipe_fd.read_end
      ∷ Call.prctl_pdeathsig sighup
      ∷ Call.signal_default sigusr1
      ∷ Call.signal_default sigterm
      ∷ Call.signal_default sigchld
      ∷ d.calls;
}

-- The close of the lock file, if it is open.
abbrev pub lock_closed : Daemon → History → History
lock_closed d h = if int_eq d.m_lock_fd minus_one then h else Call.close d.m_lock_fd ∷ h

-- The wait before the booster starts.
abbrev pub slept : Daemon → ℤ → History → History
slept d sleep_time h =
    if not d.m_boot_mode && not (int_eq sleep_time (pos 0)) then Call.sleep sleep_time ∷ h else h

born-ne-done :
    (factory : Option ℕ) (d t : Daemon)
    → (elim factory as (λ _. Run Daemon (Unit {0})) [
      | none ↦ exit exit_failure
      | some f ↦ λ s. becomes f s
    ])
        d
      ≢ done tt t
born-ne-done none d t = λ e. absurd cc
born-ne-done (some f) d t = λ e. absurd cc

-- The child does not come back.
run_child-ne-done :
    (os : Os) (type : ℕ) (sleep_time : ℤ) (d t : Daemon)
    → run_child os type sleep_time d ≢ done tt t
unfolding run_child
run_child-ne-done os type sleep_time d t =
    let factory = create type d.m_registry in
    bind-ne-done (close_unused_sockets os type) _ (prepared d) t tt λ _ u _.
      bind-ne-done unlock _ u t tt λ _ v _.
        bind-ne-done
          (when (not d.m_boot_mode && not (int_eq sleep_time (pos 0)))
            (log_call (Call.sleep sleep_time)))
          _ (record v { calls = Call.setsid ∷ v.calls }) t tt λ _ w _. born-ne-done factory w t

-- When the fork of a booster comes back, it does so in the daemon.
pub fork_booster-done :
    (os : Os) (type : ℕ) (sleep_time : ℤ) (d t : Daemon)
    → fork_booster os type sleep_time d ≡ done tt t
    → (pid : ℕ) × (os.fork_result d.calls ≡ in_parent pid) × (t ≡ forked type pid d)
unfolding fork_booster set_pid_to_booster
fork_booster-done os type sleep_time d t e = by_fork (os.fork_result d.calls) refl
  where
    by_fork :
        (r : ForkResult)
        → os.fork_result d.calls ≡ r
        → (pid : ℕ) × (os.fork_result d.calls ≡ in_parent pid) × (t ≡ forked type pid d)
    by_fork fork_failed is = absurd (ground (arith, is, e))
    by_fork in_child is = absurd (
        run_child-ne-done os type sleep_time
          (record (set_pid_to_booster type (pos 0) d) { calls = Call.fork ∷ d.calls }) t
          (ground (arith, is, e)))
    by_fork (in_parent pid) is =
        (pid, is, ground (arith, e, fork_booster-in_parent_eq os type pid sleep_time d is))
