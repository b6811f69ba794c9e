-- ===== src/Daemon/Reaper.antt =====
-- src/launcherlib/daemon.cpp, `reapZombies`: finished boosters are collected, their invokers are
-- sent the signal that killed them, and a booster that still waited for work is started anew.
pub mod Rule
use touch_applauncherd.Common.{
  ℕ, zero, suc, ◌+◌, Bool, true, false, not, ◌==◌, Option, none, some, get_elem?, erase_idx,
}
use touch_applauncherd.Common.Exits.{Run, ◌>>=◌, ◌>>◌, pure, get, modify, when}
use touch_applauncherd.Common.Int.{ℤ, minus_one}
use touch_applauncherd.Common.Map.{lookup, erase, int_key}
use touch_applauncherd.Os.{Os, Call, running, wait_failed, reaped}
use touch_applauncherd.Daemon.{
  Daemon, log_call, booster_type_for_pid, booster_sleep_time, fork_booster,
}

-- The signal is sent to the invoker of the dead booster, if it has one and died of a signal; the
-- pair is removed.
unfoldable pub notify_invoker : ℤ → Option ℕ → Run Daemon (Unit {0})
notify_invoker pid signal = do
  d ← get
  elim (lookup pid d.m_booster_pid_to_invoker_pid) [
    | none ↦ pure tt
    | some invoker_pid ↦ (do
      elim signal [ none ↦ pure tt | some sig ↦ log_call (Call.kill invoker_pid sig) ]
      modify (λ d. record d {
        m_booster_pid_to_invoker_pid = erase pid d.m_booster_pid_to_invoker_pid;
      }))
  ]

module _ (os : Os) where
  -- What is done once `waitpid` gave a pid other than 0: of the child, or -1 for an error.
  -- On an error `status` is not initialised; it is read only if -1 has an invoker, and is then taken
  -- to say that no signal killed the process.
  unfoldable pub bury : (i : ℕ) → ℤ → Option ℕ → Run Daemon (Unit {0})
  bury i pid signal = do
    modify (λ d. record d { m_children = erase_idx d.m_children i })
    notify_invoker pid signal
    d ← get
    let type = booster_type_for_pid pid d
    when (not (type == 0)) (fork_booster os type booster_sleep_time)

  -- The loop over `m_children`, by the index of its iterator, on fuel; false means that the fuel ran
  -- out. `erase` leaves room for the one `push_back` that follows it, so the iterator stays valid.
  unfoldable pub reap_from : ℕ → ℕ → Run Daemon Bool
  reap_from zero i = pure false
  reap_from (suc fuel) i = do
    d ← get
    elim (get_elem? d.m_children i) [
      | none ↦ pure true
      | some child ↦ (do
        log_call (Call.waitpid child)
        elim (os.wait_result d.calls child) [
          | running ↦ reap_from fuel (i + 1)
          | wait_failed ↦ (do bury i minus_one none; reap_from fuel i)
          | reaped signal ↦ (do bury i child signal; reap_from fuel i)
        ])
    ]

  unfoldable pub reap_zombies : ℕ → Run Daemon Bool
  reap_zombies fuel = reap_from fuel 0
