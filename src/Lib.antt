-- ===== src/Lib.antt =====
-- applauncherd: a daemon that keeps half-started processes ("boosters") ready and turns one of them
-- into an application when an invoker asks for it.
--
-- The parts and how they interact. The daemon (src/launcherlib/daemon.cpp) loads booster plugins into
-- a registry (boosterpluginregistry.cpp), opens a socket for each (socketmanager.cpp) and forks a
-- booster for each type. An invoker (src/invoker/invoker.c, invokelib.c) connects to a booster's
-- socket and sends a request in the protocol of src/common/protocol.h; the booster reads it with a
-- Connection (connection.cpp) into an AppData (appdata.cpp), answers, and tells the daemon through a
-- pipe, which forks the next booster. Dead children are reaped, and a booster that died before it was
-- used is replaced.
--
-- The files.
-- - Common: the shared names; lists, numbers, tests and maps; `Step`, code that comes back, and `Run`,
--   code that comes back, exits, or is a forked child that goes on elsewhere.
-- - Os: the system and C library, a parameter. A `History` lists the calls made, newest first, and an
--   `Os` answers each call from it. Error, success and content of a call are the `Os`'s to choose.
-- - Protocol, AppData, SingleInstance: the files of the same names. A setter or getter has its method's
--   name (setOptions is `set_options`); plain getters are the record's fields.
-- - Connection: the object with its words and strings; Connection/Receive has the handlers (receiveMagic
--   is `receive_magic`) and the loop of receiveActions, whose switch is `dispatch`; Connection/Actions has
--   what a peer may ask for, in any order.
-- - Invoker: invoke_remote and the functions that it calls, under their names.
-- - Wire: what one side's writes are for the other: bytes, and descriptors of SCM_RIGHTS.
-- - Launch: both ends together, at a request and, in Launch/Returned, at the end of the application.
-- - SocketManager, BoosterPluginRegistry: the tables and their operations; boosterfactory.cpp too.
-- - Daemon: its fields, the tables of pids and forkBooster; Daemon/Reaper has reapZombies, Daemon/Events
--   the pipe, the modes, the arguments, the plugins and one round of the main loop (`run_once`), and
--   Daemon/Starting the constructor, daemonize and main() of main.cpp up to the loop. Daemon/Loop has
--   the states that the daemon can be in at the top of its loop (`Reaches`), where a signal may be caught
--   between two rounds by a handler of Daemon/Signals. Daemon/Reaper/Rule has the rule for reapZombies' loop;
--   Daemon/Closing is about the sockets that a booster closes, Daemon/Reaped about a child found dead.
-- - Booster: the forked child from its constructor to the end of the application: its talk with
--   daemon and invoker in Booster.antt, `initialize` in Booster/Initializing, renameProcess in
--   Booster/Rename, `run` and launchProcess in Booster/Running; Booster/Kinds has the constants and
--   the plugins of the three boosters (src/mbooster, src/qtbooster, src/qdeclarativebooster), and
--   Booster/MBooster the event loop of src/mbooster/eventhandler.cpp. Booster/Talking and
--   Booster/Silent are about what a booster with a request sends on its connection.
-- - MDeclarativeCache: src/qdeclarativebooster/mdeclarativecache.cpp over a record of what Qt gives.
-- - SingleInstancePlugin: src/single-instance/main.cpp over a record of what X11 and /proc give.
-- - Invoker/Search and Invoker/Options: search.c, and the options and main() of invoker.c. Invoker/Exit has
--   main() by what it returns.
-- - Launcher: src/launcher/launcher.c; Launcher/Libraries has the array of preload.h.
-- - Logger and Invoker/Reports: src/launcherlib/logger.cpp and src/invoker/report.c. A format with its
--   arguments is the text that it prints as. The other models leave their messages out.
-- The other children of a module hold its theorems; modules called Tests hold runs.
--
-- Numbers. A word of the protocol is a ℕ below 2 ^ 32, written in memory by `le32`, lowest byte first;
-- an `int` is a ℤ, and `to_u32` and `to_int` convert. Texts are lists of bytes. A std::map is an
-- association list in the order of its keys; booster types are taken as unsigned chars.
--
-- Fuel. `receive_actions` has fuel for its rounds; a round reads a word, so the bytes that the peer will
-- send bound the rounds. `reap_from` has fuel for its rounds; a round moves the iterator or finds a dead
-- child, so the children in the list and the children that will die bound the rounds. The other
-- functions that take fuel pass it on to these two.
--
-- Assumptions on the parameter, each a record: `Stream` (a socket gives what was queued, in order),
-- `IsSane` (read gives no more than asked for, new gives the size asked for), `IsFinite` (finitely many
-- bytes, or finitely many deaths), `HasProcesses` (fork gives a pid that is not that of a child still to
-- be waited for; waitpid on such a child is no error), `HasTypes` (what the boosters write to the
-- daemon's pipe starts with their type, which is not 0), `HasPluginTypes` (no plugin reports the type 0),
-- `HasPids` (fork gives the parent no 0).
--
-- Not modelled: Qt, MeeGo Touch, X11 and the applications, which are parameters; the interleaving of
-- the event loop's thread with a signal; a signal that comes inside a round of the main loop; option
-- parsing by getopt_long and numbers by strtoul, which are parameters; the usage texts, which are
-- output only. In the daemon's model `becomes` stands where a forked child goes on as a booster;
-- `live` of Booster/Initializing is what it then does. A descriptor or a pipe that is not made yet
-- is -1, also where the source leaves it unset. The build is the one without HAVE_CREDS. Memory that
-- is read before it is written is what the `Os` says it holds.
pub mod Common
pub mod Os
pub mod Protocol
pub mod AppData
pub mod Connection
pub mod Invoker
pub mod Wire
pub mod SocketManager
pub mod BoosterPluginRegistry
pub mod Launch
pub mod SingleInstance
pub mod Daemon
pub mod MDeclarativeCache
pub mod Booster
pub mod SingleInstancePlugin
pub mod Launcher
pub mod Logger
