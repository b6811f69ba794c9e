-- ===== src/Daemon/Life.antt =====
-- The life of the daemon from main() on: src/launcherlib/main.cpp and `run` of daemon.cpp, against the
-- view of the processes that Daemon/Tracking has.
use touch_applauncherd.Common.{
  ℕ, ◌≡◌, ◌≢◌, refl, sym, subst, Bool, true, not, ◌||◌, List, [], ◌∷◌, Option, none, some, Text,
  All, codes, text_eq, arith,
}
use touch_applauncherd.Common.Exits.{pure, exit, exit_success, exit_failure}
use touch_applauncherd.Common.Invariant.{
  Invariant, Invariant-bind, Invariant-pure, Invariant-exit, Invariant-modify, Invariant-if,
  Invariant-get, Invariant-when,
}
use touch_applauncherd.Common.Int.{ℤ, pos, minus_one, is_neg, int_eq}
use touch_applauncherd.Os.{Os, Call, History}
use touch_applauncherd.Daemon.{Daemon, Pipe, log_call}
use touch_applauncherd.Daemon.Events.{parse_args, parse_arg}
use touch_applauncherd.Daemon.Tracking.{alive, IsTracked}
use touch_applauncherd.Daemon.Rounds.{IsTracked-same}
use touch_applauncherd.Daemon.Starting.{
  console_quiet, make_pipe, leave_parent, redirect, daemonize, construct,
}

-- What holds whenever the daemon is at the top of its main loop, and on the way there.
pub record IsSound (os : Os) (d : Daemon) : Type 0 where
  pub tracks : IsTracked os d
  pub types : All (λ e. e.type ≢ 0) d.m_registry

-- Documented behaviour of the plugins: a booster's type is not 0.
pub record HasPluginTypes (os : Os) : Type 0 where
  pub typed : (f : ℕ) → os.call_char f ≢ 0

pub IsSound-same :
    (os : Os) (d t : Daemon)
    → t.m_children ≡ d.m_children
    → t.m_booster_type_to_pid ≡ d.m_booster_type_to_pid
    → alive os t.calls ≡ alive os d.calls
    → t.m_registry ≡ d.m_registry
    → IsSound os d
    → IsSound os t
IsSound-same os d t children table living registry at = record {
  tracks = IsTracked-same os d t children table living at.tracks;
  types = subst (All (λ e. e.type ≢ 0)) (sym registry) at.types;
}

module _ (os : Os) where
  -- A call that makes and buries no process.
  pub log_call-IsSound :
      (c : Call)
      → ((h : History) → alive os (c ∷ h) ≡ alive os h)
      → Invariant (IsSound os) (log_call c)
  log_call-IsSound c quiet =
      Invariant-modify _ λ d at.
        IsSound-same os d (record d { calls = c ∷ d.calls }) refl refl (quiet d.calls) refl at

  parse_arg-IsSound : (arg : Text) → Invariant (IsSound os) (parse_arg arg)
  unfolding parse_arg
  parse_arg-IsSound arg =
      Invariant-if (text_eq arg (codes "--boot-mode") || text_eq arg (codes "-b")) _ _
        (Invariant-modify _
          λ d at. IsSound-same os d (record d { m_boot_mode = true }) refl refl refl refl at)
        (Invariant-if (text_eq arg (codes "--daemon") || text_eq arg (codes "-d")) _ _
          (Invariant-modify _
            λ d at. IsSound-same os d (record d { m_daemon = true }) refl refl refl refl at)
          (Invariant-if (text_eq arg (codes "--debug")) _ _
            (Invariant-modify _
              λ d at. IsSound-same os d (record d { m_debug_mode = true }) refl refl refl refl at)
            (Invariant-if (text_eq arg (codes "--help") || text_eq arg (codes "-h")) _ _
              (Invariant-exit exit_success)
              (Invariant-if (text_eq arg (codes "--quiet") || text_eq arg (codes "-q")) _ _
                (Invariant-modify _
                  λ d at. IsSound-same os d (record d { m_quiet = true }) refl refl refl refl at)
                (Invariant-pure tt)))))

  parse_args-IsSound : (args : List Text) → Invariant (IsSound os) (parse_args args)
  unfolding parse_args
  parse_args-IsSound [] = Invariant-pure tt
  parse_args-IsSound (arg ∷ args) =
      Invariant-bind _ _ (parse_arg-IsSound arg) λ _. parse_args-IsSound args

  -- Code that only makes calls.
  make_pipe-IsSound : Invariant (IsSound os) (make_pipe os)
  unfolding make_pipe
  make_pipe-IsSound = Invariant-get _ λ d at.
      Invariant-bind _ _ (log_call-IsSound Call.pipe λ h. refl) λ _. answered (os.pipe_ends d.calls)
    where
      answered :
          (ends : Option (ℤ × ℤ))
          → Invariant {A = Pipe} (IsSound os) (elim ends [
            | none ↦ exit exit_failure
            | some (r, w) ↦ pure (record { read_end = r; write_end = w })
          ])
      answered none = Invariant-exit exit_failure
      answered (some (r, w)) = Invariant-pure _

  leave_parent-IsSound : Invariant (IsSound os) (leave_parent os)
  unfolding leave_parent
  leave_parent-IsSound = record {
    kept = λ d t b at e. subst (IsSound os) (ground (arith, e)) (
        IsSound-same os d (record d { calls = Call.fork ∷ d.calls }) refl refl (ground (arith, e))
          refl at);
  }

  redirect-IsSound : (n : ℕ) → Invariant (IsSound os) (redirect os n)
  unfolding redirect
  redirect-IsSound n = Invariant-get _ λ d at.
      Invariant-bind _ _ (log_call-IsSound (Call.open_file (codes "/dev/null")) λ h. refl) λ _.
        Invariant-when (not (int_eq (os.open_fd d.calls (codes "/dev/null")) minus_one)) _ (
          Invariant-bind _ _
            (log_call-IsSound (Call.dup2 (os.open_fd d.calls (codes "/dev/null")) (pos n))
              λ h. refl)
            λ _. log_call-IsSound (Call.close (os.open_fd d.calls (codes "/dev/null"))) λ h. refl)

  console_quiet-IsSound : Invariant (IsSound os) (console_quiet os)
  unfolding console_quiet
  console_quiet-IsSound = Invariant-bind _ _ (log_call-IsSound (Call.close (pos 0)) λ h. refl) λ _.
      Invariant-bind _ _ (log_call-IsSound (Call.close (pos 1)) λ h. refl) λ _.
        Invariant-bind _ _ (log_call-IsSound (Call.close (pos 2)) λ h. refl) λ _.
          Invariant-get _ λ d at.
            Invariant-bind _ _ (log_call-IsSound (Call.open_file (codes "/dev/null")) λ h. refl)
              λ _.
                Invariant-if (is_neg (os.open_fd d.calls (codes "/dev/null"))) _ _
                  (Invariant-exit exit_failure)
                  (Invariant-get _ λ d at.
                    Invariant-bind _ _
                      (log_call-IsSound (Call.open_file (codes "/dev/null")) λ h. refl)
                      λ _.
                        Invariant-if (int_eq (os.open_fd d.calls (codes "/dev/null")) minus_one) _ _
                          (Invariant-exit exit_failure)
                          (Invariant-get _ λ e at.
                            Invariant-bind _ _
                              (log_call-IsSound (Call.dup (os.open_fd d.calls (codes "/dev/null")))
                                λ h. refl)
                              λ _.
                                Invariant-if
                                  (is_neg
                                    (os.dup_fd e.calls (os.open_fd d.calls (codes "/dev/null"))))
                                  _ _ (Invariant-exit exit_failure) (Invariant-pure tt)))

  daemonize-IsSound : Invariant (IsSound os) (daemonize os)
  unfolding daemonize
  daemonize-IsSound = Invariant-bind _ _ leave_parent-IsSound λ _.
      Invariant-bind _ _ leave_parent-IsSound λ _.
        Invariant-bind _ _ (log_call-IsSound Call.umask λ h. refl) λ _. Invariant-get _ λ d at.
          Invariant-bind _ _ (log_call-IsSound Call.setsid λ h. refl) λ _.
            Invariant-bind _ _
              (Invariant-when (not (os.setsid_ok d.calls)) _ (Invariant-exit exit_failure))
              λ _. Invariant-get _ λ e at.
                Invariant-bind _ _ (log_call-IsSound (Call.chdir (codes "/")) λ h. refl) λ _.
                  Invariant-bind _ _
                    (Invariant-when (not (os.chdir_ok e.calls (codes "/"))) _
                      (Invariant-exit exit_failure))
                    λ _.
                      Invariant-bind _ _ (redirect-IsSound 0)
                        λ _. Invariant-bind _ _ (redirect-IsSound 1) λ _. redirect-IsSound 2

  pub construct-IsSound :
      (created : Bool) (args : List Text) → Invariant (IsSound os) (construct os created args)
  unfolding construct
  construct-IsSound created args =
      Invariant-bind _ _ (Invariant-when created _ (Invariant-exit exit_failure)) λ _.
        Invariant-bind _ _ (parse_args-IsSound args) λ _. Invariant-get _ λ d at.
          Invariant-bind _ _ (Invariant-when d.m_quiet _ console_quiet-IsSound) λ _.
            Invariant-bind _ _ make_pipe-IsSound λ p.
              Invariant-bind _ _
                (Invariant-modify _ λ d at.
                  IsSound-same os d (record d { m_booster_pipe_fd = p }) refl refl refl refl at)
                λ _. Invariant-bind _ _ make_pipe-IsSound λ p.
                  Invariant-bind _ _
                    (Invariant-modify _ λ d at.
                      IsSound-same os d (record d { m_sig_chld_pipe_fd = p }) refl refl refl refl
                        at)
                    λ _. Invariant-bind _ _ make_pipe-IsSound λ p.
                      Invariant-bind _ _
                        (Invariant-modify _ λ d at.
                          IsSound-same os d (record d { m_sig_term_pipe_fd = p }) refl refl refl
                            refl at)
                        λ _. Invariant-bind _ _ make_pipe-IsSound λ p.
                          Invariant-bind _ _
                            (Invariant-modify _ λ d at.
                              IsSound-same os d (record d { m_sig_usr1_pipe_fd = p }) refl refl refl
                                refl at)
                            λ _.
                              Invariant-get _ λ d at. Invariant-when d.m_daemon _ daemonize-IsSound
