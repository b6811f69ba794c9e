-- ===== src/Daemon/Rounds.antt =====
-- The main loop of Daemon::run in src/launcherlib/daemon.cpp, against the view of the processes that
-- Daemon/Tracking has.
use touch_applauncherd.Common.{
  ℕ, ◌≡◌, ◌≢◌, refl, sym, ◌∙◌, subst, Bool, true, false, ◌||◌, if◌then◌else◌, List, [], ◌∷◌, arith,
  Bool-cases, inl, inr,
}
use touch_applauncherd.Common.Exits.{
  Run, done, ◌>>=◌, ◌>>◌, pure, exit, modify, when, bind-done, exit_success, exit_failure,
}
use touch_applauncherd.Common.Int.{ℤ, pos, int_eq, to_int}
use touch_applauncherd.Common.Bytes.{from_le32}
use touch_applauncherd.Os.{Os, Call, History}
use touch_applauncherd.Connection.{stored}
use touch_applauncherd.Daemon.{Daemon, fork_booster, booster_pid_for_type}
use touch_applauncherd.Daemon.Reaper.{reap_zombies}
use touch_applauncherd.Daemon.Events.{
  Ready, read, read_int, read_nothing, is_short, first_byte, store_invoker, read_from_booster_pipe,
  enter_normal_mode, run_once,
}
use touch_applauncherd.Daemon.Modes.{live_pids, terminate, enter_normal_mode_lem}
use touch_applauncherd.Daemon.Tracking.{alive, HasProcesses, IsTracked}
use touch_applauncherd.Daemon.Kept.{reap_zombies-IsTracked, fork_booster-IsTracked}

-- What the boosters write to the pipe: a type, which is not 0, comes first.
pub record HasTypes (os : Os) (fd : ℤ) : Type 0 where
  pub typed_read :
      (h : History)
      → read_nothing (os.read_result h fd 1) ≡ false
      → first_byte (stored (os.read_result h fd 1) (os.fresh h 1)) ≢ 0

alive-terminate : (os : Os) (pids : List ℤ) (h : History) → alive os (terminate pids h) ≡ alive os h
alive-terminate os [] h = refl
alive-terminate os (pid ∷ pids) h = alive-terminate os pids h

-- The view stands on the children, the table of types and the processes that are alive.
pub IsTracked-same :
    (os : Os) (d t : Daemon)
    → t.m_children ≡ d.m_children
    → t.m_booster_type_to_pid ≡ d.m_booster_type_to_pid
    → alive os t.calls ≡ alive os d.calls
    → IsTracked os d
    → IsTracked os t
IsTracked-same os d t children table living at = record {
  same = λ p. rw (children, living) (at.same p);
  distinct = rw children at.distinct;
  table = rw table at.table;
  typed = rw table at.typed;
  tracked = rw (table, children) at.tracked;
  single = rw table at.single;
}

module _ (os : Os) (processes : HasProcesses os) where
  -- Code that comes back only with a true view, if it had one.
  abbrev Keeps : {A : Type 0} → Run Daemon A → Type 0
  Keeps {A} m = (d t : Daemon) (a : A) → IsTracked os d → m d ≡ done a t → IsTracked os t

  Keeps-bind :
      {A B : Type 0} (m : Run Daemon A) (f : A → Run Daemon B)
      → Keeps m
      → ((a : A) → Keeps (f a))
      → Keeps (m >>= f)
  Keeps-bind m f first next d t b at e =
      let (a, u, runs, goes_on) = bind-done m f d t b e in
      next a u t b (first d u a at runs) goes_on

  Keeps-pure : {A : Type 0} (a : A) → Keeps (pure a)
  Keeps-pure a d t b at e = subst (IsTracked os) (ground (arith, e)) at

  Keeps-exit : {A : Type 0} (code : ℕ) → Keeps {A = A} (exit code)
  Keeps-exit code d t b at e = absurd cc

  Keeps-when : (b : Bool) (m : Run Daemon (Unit {0})) → Keeps m → Keeps (when b m)
  Keeps-when true m k = k
  Keeps-when false m k = Keeps-pure tt

  read-Keeps : (fd : ℤ) (n : ℕ) → Keeps (read os fd n)
  unfolding read
  read-Keeps fd n d t r at e =
      subst (IsTracked os) (ground (arith, e))
        (IsTracked-same os d (record d { calls = Call.read fd n ∷ d.calls }) refl refl refl at)

  store_invoker-Keeps : (type : ℕ) (pid : ℤ) → Keeps (modify (store_invoker type pid))
  unfolding store_invoker
  store_invoker-Keeps type pid d t r at e =
      elim (Bool-cases (int_eq pid (pos 0) || int_eq (booster_pid_for_type type d) (pos 0))) [
        | inl nobody ↦ subst (IsTracked os) (ground (arith, nobody, e)) at
        | inr somebody ↦
            IsTracked-same os d t (ground (arith, somebody, e)) (ground (arith, somebody, e))
              (ground (arith, somebody, e)) at
      ]

  read_int-Keeps : (fd : ℤ) → Keeps (read_int os fd)
  unfolding read_int
  read_int-Keeps fd =
      Keeps-bind (read os fd 4) _ (read-Keeps fd 4)
        λ r. at_length (is_short r.0 4) (to_int (from_le32 r.1))
    where
      at_length : (b : Bool) (n : ℤ) → Keeps (if b then exit exit_failure else pure n)
      at_length true n = Keeps-exit exit_failure
      at_length false n = Keeps-pure n

  enter_normal_mode-Keeps : Keeps enter_normal_mode
  enter_normal_mode-Keeps d t r at e =
      let runs = sym (enter_normal_mode_lem d) ∙ e in
      let killed : Daemon = record d {
        m_boot_mode = false;
        calls = terminate (live_pids d.m_booster_type_to_pid) d.calls;
      } in
      elim (Bool-cases d.m_boot_mode) [
        | inl boot ↦
            let is : killed ≡ t = ground (arith, runs, boot) in
            subst (IsTracked os) is (
              IsTracked-same os d killed refl refl
                (alive-terminate os (live_pids d.m_booster_type_to_pid) d.calls) at)
        | inr normal ↦ subst (IsTracked os) (ground (arith, runs, normal)) at
      ]

  fork_booster-Keeps : (type : ℕ) (delay : ℤ) → type ≢ 0 → Keeps (fork_booster os type delay)
  fork_booster-Keeps type delay some_type d t r at e =
      fork_booster-IsTracked os processes type delay d t some_type at e

  -- What follows the first byte of the pipe.
  message-Keeps :
      (fd : ℤ) (nothing : Bool) (msg : ℕ)
      → (nothing ≡ false → msg ≢ 0)
      → Keeps (
          if nothing then pure tt else (do
            invoker_pid ← read_int os fd
            modify (store_invoker msg invoker_pid)
            delay ← read_int os fd
            fork_booster os msg delay))
  message-Keeps fd true msg typed = Keeps-pure tt
  message-Keeps fd false msg typed =
      Keeps-bind (read_int os fd) _ (read_int-Keeps fd) λ invoker_pid.
        Keeps-bind (modify (store_invoker msg invoker_pid)) _ (store_invoker-Keeps msg invoker_pid)
          λ _.
            Keeps-bind (read_int os fd) _ (read_int-Keeps fd)
              λ delay. fork_booster-Keeps msg delay (typed refl)

  read_from_booster_pipe-Keeps : (fd : ℤ) → HasTypes os fd → Keeps (read_from_booster_pipe os fd)
  unfolding read_from_booster_pipe read
  read_from_booster_pipe-Keeps fd types d t r at e =
      let first = os.read_result d.calls fd 1 in
      let called : Daemon = record d { calls = Call.read fd 1 ∷ d.calls } in
      message-Keeps fd (read_nothing first) (first_byte (stored first (os.fresh d.calls 1)))
        (types.typed_read d.calls) called t r (IsTracked-same os d called refl refl refl at) e

  reaping-Keeps :
      (fuel : ℕ) (fd : ℤ) (ready : Bool)
      → Keeps (if ready then (do read os fd 1; reap_zombies os fuel) else pure true)
  reaping-Keeps fuel fd false = Keeps-pure true
  reaping-Keeps fuel fd true =
      Keeps-bind (read os fd 1) _ (read-Keeps fd 1)
        λ _ d t b. reap_zombies-IsTracked os processes fuel d t b

  -- If `fork` and `waitpid` behave as documented and the boosters write their types, which are not 0,
  -- to the pipe, then a round of the main loop that starts with a true view of the daemon's processes
  -- and comes back leaves a true view, whichever of the four descriptors `select` reported: the list
  -- of children has the processes that the daemon forked and has not waited for, each once, and
  -- each type's pid is 0 or one of them, no two types the same.
  pub run_once-IsTracked :
      (fuel : ℕ) (ready : Ready) (d t : Daemon) (finished : Bool)
      → HasTypes os d.m_booster_pipe_fd.read_end
      → IsTracked os d
      → run_once os fuel ready d ≡ done finished t
      → IsTracked os t
  unfolding run_once
  run_once-IsTracked fuel ready d t finished types at e =
      let chld = d.m_sig_chld_pipe_fd.read_end in
      let term = d.m_sig_term_pipe_fd.read_end in
      let usr1 = d.m_sig_usr1_pipe_fd.read_end in
      let pipe = d.m_booster_pipe_fd.read_end in
      Keeps-bind (when ready.booster (read_from_booster_pipe os pipe)) _
        (Keeps-when ready.booster _ (read_from_booster_pipe-Keeps pipe types))
        (λ _.
          Keeps-bind
            (if ready.sig_chld then (do read os chld 1; reap_zombies os fuel) else pure true) _
            (reaping-Keeps fuel chld ready.sig_chld)
            (λ b.
              Keeps-bind (when ready.sig_term (do read os term 1; exit exit_success)) _
                (Keeps-when ready.sig_term _ (
                  Keeps-bind (read os term 1) _ (read-Keeps term 1) (λ _. Keeps-exit exit_success)))
                (λ _.
                  Keeps-bind (when ready.sig_usr1 (do read os usr1 1; enter_normal_mode)) _
                    (Keeps-when ready.sig_usr1 _ (
                      Keeps-bind (read os usr1 1) _ (read-Keeps usr1 1)
                        (λ _. enter_normal_mode-Keeps)))
                    (λ _. Keeps-pure b))))
        d t finished at e
