-- ===== src/Daemon/Loop/Tests.antt =====
-- The start of the daemon with one plugin, and a first round.
use touch_applauncherd.Common.{All, ◌≡◌, refl, true, false, [], arith}
use touch_applauncherd.Common.Exits.{done, reached}
use touch_applauncherd.Common.Map.{lookup, insert}
use touch_applauncherd.BoosterPluginRegistry
use touch_applauncherd.BoosterPluginRegistry.{register_plugin}
use touch_applauncherd.SingleInstance
use touch_applauncherd.SocketManager.{init_socket, create_socket}
use touch_applauncherd.Daemon.{Daemon, lock, fork_booster, set_pid_to_booster, booster_pid_for_type}
use touch_applauncherd.Daemon.Events.{
  Ready, parse_args, start, load_booster_plugins, load_plugins, init_booster_sockets, init_sockets,
  load_single_instance_plugin, fork_boosters, fork_each, run_once,
}
use touch_applauncherd.Daemon.Tracking.{IsTracked, alive, has_pid}
use touch_applauncherd.Daemon.Available.{HasPids, Reaches-available}
use touch_applauncherd.Daemon.Starting.{new_daemon, construct, make_pipe, start_up}
use touch_applauncherd.Daemon.Rounds.{HasTypes}
use touch_applauncherd.Daemon.Loop.{started, round, Reaches-IsTracked}
use touch_applauncherd.Daemon.Tests.{parent_os, parent_os-HasProcesses, piped-typed}

abbrev first_daemon : Daemon
first_daemon = reached (start_up parent_os [] new_daemon)

starts : start_up parent_os [] new_daemon ≡ done tt first_daemon
unfolding start_up lock construct parse_args new_daemon make_pipe start load_booster_plugins
    load_plugins init_booster_sockets init_sockets
    BoosterPluginRegistry.validate_and_register_plugin register_plugin init_socket lookup
    create_socket load_single_instance_plugin insert fork_boosters fork_each fork_booster
    set_pid_to_booster SingleInstance.validate_and_register_plugin
starts = refl

-- Nothing is ready.
abbrev nothing : Ready
nothing = record { booster = false; sig_chld = false; sig_term = false; sig_usr1 = false }

piped-HasTypes : HasTypes parent_os first_daemon.m_booster_pipe_fd.read_end
piped-HasTypes = record { typed_read = λ h. piped-typed h }

idles : run_once parent_os 1 nothing first_daemon ≡ done true first_daemon
unfolding run_once
idles = refl

Reaches-IsTracked_example : IsTracked parent_os first_daemon
Reaches-IsTracked_example =
    Reaches-IsTracked parent_os [] first_daemon parent_os-HasProcesses
      (record { typed = λ f. omega arith }) (round 1 nothing (started starts) piped-HasTypes idles)

parent_os-HasPids : HasPids parent_os
parent_os-HasPids = record { positive = λ h pid e. ground (arith, e) }

Reaches-available_example :
    All
      (λ e.
        has_pid (booster_pid_for_type e.type first_daemon) (alive parent_os first_daemon.calls)
        ≡ true)
      first_daemon.m_registry
Reaches-available_example =
    Reaches-available parent_os parent_os-HasPids [] first_daemon parent_os-HasProcesses
      (record { typed = λ f. omega arith }) (round 1 nothing (started starts) piped-HasTypes idles)
