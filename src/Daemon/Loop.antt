-- ===== src/Daemon/Loop.antt =====
-- The start and the main loop of Daemon::run in src/launcherlib/daemon.cpp, as the states that the
-- daemon can be in at the top of its loop.
mod Tests
use touch_applauncherd.Common.{ℕ, ◌≡◌, refl, true, List, [], ◌∷◌, Text}
use touch_applauncherd.Common.Exits.{done}
use touch_applauncherd.Common.Invariant.{Invariant, Invariant-modify}
use touch_applauncherd.Common.Int.{ℤ}
use touch_applauncherd.Common.Map.{lookup}
use touch_applauncherd.Os.{Os, Call}
use touch_applauncherd.Daemon.{Daemon}
use touch_applauncherd.Daemon.Events.{Ready, run_once}
use touch_applauncherd.Daemon.Signals.{
  SignalFds, signal_fds, g_dummy_pipe_data, Caught, caught_chld, caught_term, caught_usr1, handle,
  sig_chld_handler, sig_term_handler, sig_usr1_handler,
}
use touch_applauncherd.Daemon.Tracking.{HasProcesses, IsTracked}
use touch_applauncherd.Daemon.Rounds.{HasTypes, IsTracked-same, run_once-IsTracked}
use touch_applauncherd.Daemon.Starting.{new_daemon, start_up}
use touch_applauncherd.Daemon.Life.{IsSound, HasPluginTypes}
use touch_applauncherd.Daemon.Start.{start_up-IsSound}

-- The states that the daemon is in at the top of its main loop: after the start, after each round that
-- comes back, whatever `select` reported, if what the boosters write to the pipe are their types, and
-- after a signal that a handler caught while the daemon waited.
pub data Reaches (os : Os) (args : List Text) : Daemon → Type 0 where
  started : {d : Daemon} → start_up os args new_daemon ≡ done tt d → Reaches os args d
  round :
      {d t : Daemon} (fuel : ℕ) (ready : Ready)
      → Reaches os args d
      → HasTypes os d.m_booster_pipe_fd.read_end
      → run_once os fuel ready d ≡ done true t
      → Reaches os args t
  signalled :
      {d t : Daemon} (signal : Caught)
      → Reaches os args d
      → handle signal (signal_fds d) d ≡ done tt t
      → Reaches os args t

-- A handler only makes a call, and that call makes and buries no process.
pub handle-Invariant :
    (P : Daemon → Type 0) (signal : Caught) (fds : SignalFds)
    → ((fd : ℤ) (d : Daemon)
        → P d
        → P (record d { calls = Call.write fd (g_dummy_pipe_data ∷ []) ∷ d.calls }))
    → Invariant P (handle signal fds)
unfolding sig_chld_handler sig_term_handler sig_usr1_handler
handle-Invariant P caught_chld fds quiet = Invariant-modify _ (quiet fds.g_sig_chld_pipe_fd)
handle-Invariant P caught_term fds quiet = Invariant-modify _ (quiet fds.g_sig_term_pipe_fd)
handle-Invariant P caught_usr1 fds quiet = Invariant-modify _ (quiet fds.g_sig_usr1_pipe_fd)

new_daemon-IsSound : (os : Os) → IsSound os new_daemon
unfolding new_daemon lookup
new_daemon-IsSound os = record {
  tracks = record {
    same = λ p. refl;
    distinct = tt;
    table = tt;
    typed = refl;
    tracked = λ type p ne there. absurd cc;
    single = λ a b p na nb ha hb. absurd cc;
  };
  types = tt;
}

-- From main() on, whatever arguments it is given and whatever happens: whenever the daemon is at the top
-- of its main loop, its view of its processes is true, if fork and waitpid behave as documented and no
-- booster's type is 0.
pub Reaches-IsTracked :
    (os : Os) (args : List Text) (d : Daemon)
    → HasProcesses os
    → HasPluginTypes os
    → Reaches os args d
    → IsTracked os d
Reaches-IsTracked os args d processes plugins (started e) =
    ((start_up-IsSound os processes plugins args).kept new_daemon d tt (new_daemon-IsSound os)
      e).tracks
Reaches-IsTracked os args d processes plugins (round {d = before} fuel ready reached types e) =
    run_once-IsTracked os processes fuel ready before d true types
      (Reaches-IsTracked os args before processes plugins reached) e
Reaches-IsTracked os args d processes plugins (signalled {d = before} signal reached e) =
    (handle-Invariant (IsTracked os) signal (signal_fds before)
        λ fd d at. IsTracked-same os d _ refl refl refl at).kept
      before d tt (Reaches-IsTracked os args before processes plugins reached) e
