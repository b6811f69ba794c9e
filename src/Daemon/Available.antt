-- ===== src/Daemon/Available.antt =====
-- Whether src/launcherlib/daemon.cpp has a booster for every plugin, whenever it waits for events.
use touch_applauncherd.Common.{
  ℕ, ◌≡◌, ◌≢◌, refl, ◌∙◌, Bool, true, false, ◌==◌, not, List, [], ◌∷◌, Text, All, codes, arith,
  Option-cases, ◌||◌, inl, inr,
}
use touch_applauncherd.Common.Exits.{done, when, exit, bind-done, exit_failure}
use touch_applauncherd.Common.Invariant.{Invariant, Ensures, Ensures-bind}
use touch_applauncherd.Common.Int.{ℤ, pos, int_eq, int_eq_iff}
use touch_applauncherd.Common.Map.{lookup, insert, nat_key, lookup-insert}
use touch_applauncherd.Os.{
  Os, Call, History, in_parent, sigchld, sigterm, sigusr1, sig_chld_handler, sig_term_handler,
  sig_usr1_handler,
}
use touch_applauncherd.BoosterPluginRegistry.{Registry}
use touch_applauncherd.Daemon.{
  Daemon, log_call, lock, set_pid_to_booster, booster_pid_for_type, fork_booster,
}
use touch_applauncherd.Daemon.Forking.{forked, fork_booster-done}
use touch_applauncherd.Daemon.Events.{
  fork_each, fork_boosters, load_booster_plugins, init_booster_sockets, load_single_instance_plugin,
  start, Ready, run_once,
}
use touch_applauncherd.Daemon.Starting.{new_daemon, construct, start_up}
use touch_applauncherd.Daemon.Tracking.{alive, has_pid, HasProcesses, IsTracked}
use touch_applauncherd.Daemon.Life.{HasPluginTypes}
use touch_applauncherd.Daemon.Signals.{signal_fds}
use touch_applauncherd.Daemon.Loop.{
  Reaches, started, round, signalled, handle-Invariant, Reaches-IsTracked,
}
use touch_applauncherd.Daemon.Serving.{run_once-kept}

-- Documented behaviour of `fork`: in the parent the pid is positive.
pub record HasPids (os : Os) : Type 0 where
  pub positive : (h : History) (pid : ℕ) → os.fork_result h ≡ in_parent pid → pid ≢ 0

-- A pid is noted for the type.
abbrev is_served : ℕ → Daemon → Bool
is_served type d = not (int_eq (booster_pid_for_type type d) (pos 0))

All-map :
    {A : Type 0} {P Q : A → Type 0} (xs : List A) → ((x : A) → P x → Q x) → All P xs → All Q xs
All-map [] f h = tt
All-map (x ∷ xs) f h = (f x h.0, All-map xs f h.1)

is_served-table :
    (type : ℕ) (d t : Daemon)
    → t.m_booster_type_to_pid ≡ d.m_booster_type_to_pid
    → is_served type t ≡ is_served type d
unfolding booster_pid_for_type
is_served-table type d t e = rw e

module _ (os : Os) (pids : HasPids os) where
  is_served-forked :
      (type pid other : ℕ) (d : Daemon)
      → os.fork_result d.calls ≡ in_parent pid
      → is_served other (forked type pid d) ≡ (type == other || is_served other d)
  unfolding booster_pid_for_type set_pid_to_booster
  is_served-forked type pid other d is = ground (
    arith,
    pids.positive d.calls pid is,
    int_eq_iff (pos pid) (pos 0),
    lookup-insert type other (pos 0) d.m_booster_type_to_pid,
    lookup-insert type other (pos pid) (insert type (pos 0) d.m_booster_type_to_pid),
  )

  fork_booster-is_served :
      (type other : ℕ) (delay : ℤ) (d t : Daemon)
      → fork_booster os type delay d ≡ done tt t
      → (is_served other t ≡ (type == other || is_served other d)) × (t.m_registry ≡ d.m_registry)
  unfolding set_pid_to_booster
  fork_booster-is_served type other delay d t e =
      let (pid, is, forks) = fork_booster-done os type delay d t e in
      rw forks (is_served-forked type pid other d is, refl)

  fork_each-is_served :
      (es : Registry) (other : ℕ) (d t : Daemon)
      → fork_each os es d ≡ done tt t
      → (is_served other d ≡ true → is_served other t ≡ true) × (t.m_registry ≡ d.m_registry)
  unfolding fork_each
  fork_each-is_served [] other d t e = ground (arith, e)
  fork_each-is_served (e ∷ es) other d t runs =
      let (_, u, forks, goes_on) = bind-done (fork_booster os e.type (pos 0)) _ d t tt runs in
      ground (
        arith,
        fork_booster-is_served e.type other (pos 0) d u forks,
        fork_each-is_served es other u t goes_on,
      )

  fork_each-All :
      (es : Registry) (d t : Daemon)
      → fork_each os es d ≡ done tt t
      → All (λ e. is_served e.type t ≡ true) es
  unfolding fork_each
  fork_each-All [] d t e = tt
  fork_each-All (e ∷ es) d t runs =
      let (_, u, forks, goes_on) = bind-done (fork_booster os e.type (pos 0)) _ d t tt runs in
      (
        ground (
          arith,
          fork_booster-is_served e.type e.type (pos 0) d u forks,
          fork_each-is_served es e.type u t goes_on,
        ),
        fork_each-All es u t goes_on,
      )

  -- Every plugin's type has a pid.
  abbrev IsServed : Daemon → Type 0
  IsServed d = All (λ e. is_served e.type d ≡ true) d.m_registry

  fork_boosters-IsServed : Ensures IsServed (fork_boosters os)
  unfolding fork_boosters booster_pid_for_type
  fork_boosters-IsServed = record {
    met = λ d t a e.
        rw (fork_each-is_served d.m_registry 0 d t e).1 (fork_each-All d.m_registry d t e);
  }

  start-IsServed : Ensures IsServed (start os)
  unfolding start
  start-IsServed = Ensures-bind (log_call (Call.unsetenv (codes "LD_BIND_NOW"))) _ λ _.
      Ensures-bind (load_booster_plugins os) _ λ _.
        Ensures-bind (init_booster_sockets os) _
          λ _. Ensures-bind (load_single_instance_plugin os) _ λ _. fork_boosters-IsServed

  start_up-IsServed : (args : List Text) → Ensures IsServed (start_up os args)
  unfolding start_up
  start_up-IsServed args = Ensures-bind (lock os) _ λ locked.
      Ensures-bind (when (not locked) (exit exit_failure)) _ λ _.
        Ensures-bind (construct os false args) _ λ _.
          Ensures-bind (log_call (Call.sigaction sigchld sig_chld_handler)) _ λ _.
            Ensures-bind (log_call (Call.sigaction sigterm sig_term_handler)) _ λ _.
              Ensures-bind (log_call (Call.sigaction sigusr1 sig_usr1_handler)) _
                λ _. start-IsServed

  run_once-IsServed : (fuel : ℕ) (ready : Ready) → Invariant IsServed (run_once os fuel ready)
  unfolding booster_pid_for_type
  run_once-IsServed =
      run_once-kept os IsServed
        (λ d t table registry all.
          rw registry (All-map d.m_registry (λ e h. is_served-table e.type d t table ∙ h) all))
        λ type delay. record {
          kept = λ d t a all e. rw (fork_booster-is_served type 0 delay d t e).1 (
              All-map d.m_registry
                (λ x h. ground (arith, fork_booster-is_served type x.type delay d t e, h)) all);
        }

  Reaches-IsServed : (args : List Text) (d : Daemon) → Reaches os args d → IsServed d
  unfolding booster_pid_for_type
  Reaches-IsServed args d (started e) = (start_up-IsServed args).met new_daemon d tt e
  Reaches-IsServed args d (round {d = before} fuel ready reached types e) =
      (run_once-IsServed fuel ready).kept before d true (Reaches-IsServed args before reached) e
  Reaches-IsServed args d (signalled {d = before} signal reached e) =
      (handle-Invariant IsServed signal (signal_fds before) λ fd d served. served).kept before d tt
        (Reaches-IsServed args before reached) e

  booster-alive :
      (type : ℕ) (d : Daemon)
      → IsTracked os d
      → is_served type d ≡ true
      → has_pid (booster_pid_for_type type d) (alive os d.calls) ≡ true
  unfolding booster_pid_for_type
  booster-alive type d at served = elim (Option-cases (lookup type d.m_booster_type_to_pid)) [
    | inl e ↦ absurd (ground (arith, e, served))
    | inr (p, e) ↦
        let some_type : type ≢ 0 = λ z. absurd (ground (arith, z, e, at.typed)) in
        ground (arith, e, served, at.tracked type p some_type e, at.same p, int_eq_iff p (pos 0))
  ]

  -- Whenever the daemon is at the top of its main loop, whatever arguments it was given and whatever
  -- happened: each plugin in the registry has a booster, whose pid is noted for the plugin's type and
  -- is that of a process that the daemon forked and has not waited for. This is so if fork and waitpid
  -- behave as documented, no plugin reports the type 0 and what the boosters write to the pipe are
  -- their types.
  pub Reaches-available :
      (args : List Text) (d : Daemon)
      → HasProcesses os
      → HasPluginTypes os
      → Reaches os args d
      → All (λ e. has_pid (booster_pid_for_type e.type d) (alive os d.calls) ≡ true) d.m_registry
  Reaches-available args d processes plugins reached =
      let at = Reaches-IsTracked os args d processes plugins reached in
      All-map d.m_registry (λ e served. booster-alive e.type d at served)
        (Reaches-IsServed args d reached)
