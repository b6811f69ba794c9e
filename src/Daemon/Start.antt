-- ===== src/Daemon/Start.antt =====
-- main() of src/launcherlib/main.cpp and the start in Daemon::run of daemon.cpp, step by step, against
-- the view of the processes that Daemon/Tracking has.
use touch_applauncherd.Common.{
  ℕ, ◌≡◌, ◌≢◌, refl, ap, sym, subst, false, not, ◌==◌, List, [], ◌∷◌, Option, none, some, Text, All,
  codes, ltb, length, ◌+◌, arith, Bool-cases, Option-cases, inl, inr, ◌⊎◌,
}
use touch_applauncherd.Common.Exits.{
  Outcome, done, exited, becomes, place, pure, modify, exit_failure,
}
use touch_applauncherd.Common.Invariant.{
  Invariant, Invariant-bind, Invariant-pure, Invariant-exit, Invariant-modify, Invariant-if,
  Invariant-get, Invariant-when,
}
use touch_applauncherd.Common.Int.{ℤ, pos, minus_one, int_eq}
use touch_applauncherd.Os.{
  Os, Call, sigchld, sigterm, sigusr1, sig_chld_handler, sig_term_handler, sig_usr1_handler,
}
use touch_applauncherd.BoosterPluginRegistry
use touch_applauncherd.BoosterPluginRegistry.{Registry, register_plugin}
use touch_applauncherd.SingleInstance
use touch_applauncherd.SocketManager.{SocketManager, init_socket}
use touch_applauncherd.SocketManager.Laws.{init_socket_lem}
use touch_applauncherd.Daemon.{Daemon, lock, with_sockets, set_pid_to_booster, fork_booster}
use touch_applauncherd.Daemon.Events.{
  init_sockets, init_booster_sockets, fork_each, fork_boosters, load_single_instance_plugin,
  load_plugins, load_booster_plugins, start, pattern_text, plugin_pattern,
}
use touch_applauncherd.Daemon.Tracking.{alive, HasProcesses}
use touch_applauncherd.Daemon.Forking.{fork_booster-done}
use touch_applauncherd.Daemon.Kept.{fork_booster-IsTracked}
use touch_applauncherd.Daemon.Rounds.{IsTracked-same}
use touch_applauncherd.Daemon.Starting.{start_up}
use touch_applauncherd.Daemon.Life.{
  IsSound, HasPluginTypes, IsSound-same, log_call-IsSound, construct-IsSound,
}

-- The entries that registrations make have the types that the plugins report.
register_plugin-typed :
    (type c s p : ℕ) (r : Registry)
    → type ≢ 0
    → All (λ e. e.type ≢ 0) r
    → All (λ e. e.type ≢ 0) (register_plugin type c s p r)
unfolding register_plugin
register_plugin-typed type c s p [] some_type all = (some_type, tt)
register_plugin-typed type c s p (e ∷ es) some_type all = elim (Bool-cases (e.type == type)) [
  | inl same ↦ rw same (some_type, all.1)
  | inr other ↦ rw other (all.0, register_plugin-typed type c s p es some_type all.1)
]

-- A library leaves the registry as it was or registers one entry.
registered_lem :
    (os : Os) (handle : ℕ) (r : Registry)
    → ((BoosterPluginRegistry.validate_and_register_plugin os handle r).1 ≡ r)
      ⊎ ((t : ℕ) × (c : ℕ) × (s : ℕ) × (p : ℕ)
          × ((BoosterPluginRegistry.validate_and_register_plugin os handle r).1
              ≡ register_plugin (os.call_char t) c s p r))
unfolding BoosterPluginRegistry.validate_and_register_plugin
registered_lem os handle r = elim (Option-cases (os.dlsym handle (codes "create"))) [
  | inl e ↦ inl (ground (arith, e))
  | inr (c, ec) ↦ elim (Option-cases (os.dlsym handle (codes "type"))) [
    | inl e ↦ inl (ground (arith, ec, e))
    | inr (t, et) ↦ elim (Option-cases (os.dlsym handle (codes "socketName"))) [
      | inl e ↦ inl (ground (arith, ec, et, e))
      | inr (s, es) ↦ elim (Option-cases (os.dlsym handle (codes "temporaryProcessName"))) [
        | inl e ↦ inl (ground (arith, ec, et, es, e))
        | inr (p, ep) ↦ inr (t, c, s, p, ground (arith, ec, et, es, ep))
      ]
    ]
  ]
]

module _ (os : Os) (processes : HasProcesses os) (plugins : HasPluginTypes os) where
  registered-typed :
      (handle : ℕ) (r : Registry)
      → All (λ e. e.type ≢ 0) r
      → All (λ e. e.type ≢ 0) (BoosterPluginRegistry.validate_and_register_plugin os handle r).1
  registered-typed handle r all = elim (registered_lem os handle r) [
    | inl same ↦ subst (All (λ e. e.type ≢ 0)) (sym same) all
    | inr (t, c, s, p, new) ↦
        subst (All (λ e. e.type ≢ 0)) (sym new)
          (register_plugin-typed (os.call_char t) c s p r (plugins.typed t) all)
  ]

  init_socket-IsSound : (path : Text) → Invariant (IsSound os) (with_sockets (init_socket os path))
  init_socket-IsSound path = record {
    kept = λ d t b at e. after d t b at (init_socket os path (table d)) refl e;
  }
    where
      table : Daemon → SocketManager
      table d = record { m_socket_hash = d.m_socket_hash; calls = d.calls }

      after :
          (d t : Daemon) (b : Unit {0})
          → IsSound os d
          → (o : Outcome SocketManager (Unit {0})) → init_socket os path (table d) ≡ o
          → place (λ s d. record d { m_socket_hash = s.m_socket_hash; calls = s.calls }) d o
            ≡ done b t
          → IsSound os t
      after d t b at (done a u) runs e =
          let living : alive os u.calls ≡ alive os d.calls =
            elim (init_socket_lem os path (table d) u runs) [
              | inl (there, same) ↦ ap (λ (s : SocketManager). alive os s.calls) same
              | inr (missing, opened, made, others) ↦ ap (alive os) made
            ] in
          subst (IsSound os) (ground (arith, e)) (
            IsSound-same os d (record d { m_socket_hash = u.m_socket_hash; calls = u.calls }) refl
              refl living refl at)
      after d t b at (exited code u) runs e = absurd cc
      after d t b at (becomes what u) runs e = absurd cc

  init_sockets-IsSound : (r : Registry) → Invariant (IsSound os) (init_sockets os r)
  unfolding init_sockets
  init_sockets-IsSound [] = Invariant-pure tt
  init_sockets-IsSound (e ∷ es) =
      Invariant-bind _ _ (init_socket-IsSound (os.call_text e.socket_name_func))
        λ _. init_sockets-IsSound es

  load_plugin-IsSound :
      (path : Text) (handle : Option ℕ)
      → Invariant {A = Unit {0}} (IsSound os) (elim handle [
        | none ↦ pure tt
        | some handle ↦ modify (λ d. record d {
          m_registry =
              (BoosterPluginRegistry.validate_and_register_plugin os handle d.m_registry).1;
        })
      ])
  load_plugin-IsSound path none = Invariant-pure tt
  load_plugin-IsSound path (some handle) = Invariant-modify _ λ d at. record {
    tracks = IsTracked-same os d _ refl refl refl at.tracks;
    types = registered-typed handle d.m_registry at.types;
  }

  load_plugins-IsSound : (paths : List Text) → Invariant (IsSound os) (load_plugins os paths)
  unfolding load_plugins
  load_plugins-IsSound [] = Invariant-pure tt
  load_plugins-IsSound (path ∷ paths) =
      Invariant-bind _ _ (log_call-IsSound os (Call.dlopen path) λ h. refl) λ _.
        Invariant-bind _ _ (load_plugin-IsSound path (os.dlopen_handle path))
          λ _. load_plugins-IsSound paths

  fork_booster-IsSound :
      (type : ℕ) (delay : ℤ) → type ≢ 0 → Invariant (IsSound os) (fork_booster os type delay)
  unfolding set_pid_to_booster
  fork_booster-IsSound type delay some_type = record {
    kept = λ d t b at e.
        let (pid, is, forks) = fork_booster-done os type delay d t e in
        record {
          tracks = fork_booster-IsTracked os processes type delay d t some_type at.tracks e;
          types =
              subst (All (λ e. e.type ≢ 0)) (sym (ap (λ (d : Daemon). d.m_registry) forks))
                at.types;
        };
  }

  fork_each-IsSound :
      (r : Registry) → All (λ e. e.type ≢ 0) r → Invariant (IsSound os) (fork_each os r)
  unfolding fork_each
  fork_each-IsSound [] typed = Invariant-pure tt
  fork_each-IsSound (e ∷ es) typed =
      Invariant-bind _ _ (fork_booster-IsSound e.type (pos 0) typed.0)
        λ _. fork_each-IsSound es typed.1

  load_booster_plugins-IsSound : Invariant (IsSound os) (load_booster_plugins os)
  unfolding load_booster_plugins
  load_booster_plugins-IsSound =
      Invariant-if (ltb 256 (length (pattern_text os) + length os.booster_plugin_dir + 2)) _ _
        (Invariant-pure tt)
        (Invariant-bind _ _ (log_call-IsSound os (Call.glob (plugin_pattern os)) λ h. refl)
          λ _. found (os.glob_paths (plugin_pattern os)))
    where
      found :
          (paths : Option (List Text))
          → Invariant {A = Unit {0}}
              (IsSound os)
              (elim paths [ none ↦ pure tt | some paths ↦ load_plugins os paths ])
      found none = Invariant-pure tt
      found (some paths) = load_plugins-IsSound paths

  load_single_instance_plugin-IsSound : Invariant (IsSound os) (load_single_instance_plugin os)
  unfolding load_single_instance_plugin
  load_single_instance_plugin-IsSound =
      Invariant-bind _ _ (log_call-IsSound os (Call.dlopen os.single_instance_path) λ h. refl)
        λ _. loaded (os.dlopen_handle os.single_instance_path)
    where
      loaded :
          (handle : Option ℕ)
          → Invariant {A = Unit {0}} (IsSound os) (elim handle [
            | none ↦ pure tt
            | some handle ↦ modify (λ d. record d {
              m_single_instance =
                  (SingleInstance.validate_and_register_plugin os handle d.m_single_instance).1;
            })
          ])
      loaded none = Invariant-pure tt
      loaded (some handle) = Invariant-modify _ λ d at. IsSound-same os d _ refl refl refl refl at

  start-IsSound : Invariant (IsSound os) (start os)
  unfolding start init_booster_sockets fork_boosters
  start-IsSound =
      Invariant-bind _ _ (log_call-IsSound os (Call.unsetenv (codes "LD_BIND_NOW")) λ h. refl) λ _.
        Invariant-bind _ _ load_booster_plugins-IsSound λ _.
          Invariant-bind _ _ (Invariant-get _ λ d at. init_sockets-IsSound d.m_registry) λ _.
            Invariant-bind _ _ load_single_instance_plugin-IsSound
              λ _. Invariant-get _ λ d at. fork_each-IsSound d.m_registry at.types

  lock-IsSound : Invariant (IsSound os) (lock os)
  unfolding lock
  lock-IsSound = Invariant-get _ λ d at.
      Invariant-bind _ _ (log_call-IsSound os Call.open_lock λ h. refl) λ _.
        Invariant-bind _ _
          (Invariant-modify _ λ e at.
            IsSound-same os e (record e { m_lock_fd = os.open_lock_fd d.calls }) refl refl refl refl
              at)
          λ _.
            Invariant-if (int_eq (os.open_lock_fd d.calls) minus_one) _ _ (Invariant-pure false) (
              Invariant-get _ λ e at.
                Invariant-bind _ _
                  (log_call-IsSound os (Call.set_lock (os.open_lock_fd d.calls)) λ h. refl)
                  λ _. Invariant-pure (os.set_lock_ok e.calls (os.open_lock_fd d.calls)))

  pub start_up-IsSound : (args : List Text) → Invariant (IsSound os) (start_up os args)
  unfolding start_up
  start_up-IsSound args = Invariant-bind _ _ lock-IsSound λ locked.
      Invariant-bind _ _ (Invariant-when (not locked) _ (Invariant-exit exit_failure)) λ _.
        Invariant-bind _ _ (construct-IsSound os false args) λ _.
          Invariant-bind _ _
            (log_call-IsSound os (Call.sigaction sigchld sig_chld_handler) λ h. refl)
            λ _.
              Invariant-bind _ _
                (log_call-IsSound os (Call.sigaction sigterm sig_term_handler) λ h. refl)
                λ _.
                  Invariant-bind _ _
                    (log_call-IsSound os (Call.sigaction sigusr1 sig_usr1_handler) λ h. refl)
                    λ _. start-IsSound
