-- ===== src/Booster/Preparing.antt =====
-- The priority in `initialize` of src/launcherlib/booster.cpp.
use touch_applauncherd.Common.{ℕ, ◌≡◌, refl, Bool, true, false, not, List, [], ◌∷◌, Text, arith}
use touch_applauncherd.Common.Exits.{Run, done, ◌>>◌, pure, when, bind-done}
use touch_applauncherd.Common.Invariant.{
  Invariant, Invariant-pure, Invariant-modify, Invariant-when,
}
use touch_applauncherd.Common.Int.{ℤ, pos}
use touch_applauncherd.Os.{Os, Call, History}
use touch_applauncherd.AppData.{Arg, str}
use touch_applauncherd.MDeclarativeCache.{Qt}
use touch_applauncherd.Daemon.{Pipe}
use touch_applauncherd.Booster.{Booster, push_priority, pop_priority}
use touch_applauncherd.Booster.Kinds.{
  Kind, m_booster, qt_booster, q_declarative_booster, temporary_process_name,
}
use touch_applauncherd.Booster.Rename.{rename_process, fill_area, name_process}
use touch_applauncherd.Booster.Initializing.{preload, prepare}

-- The booster remembers the priority that it started with.
Remembers : ℤ → Booster → Type 0
Remembers prio b = (b.m_old_priority ≡ prio) × (b.m_old_priority_ok ≡ true)

module _ (os : Os) (prio : ℤ) where
  preload-Remembers : (qt : Qt) (kind : Kind) → Invariant (Remembers prio) (preload qt kind)
  unfolding preload Remembers
  preload-Remembers qt m_booster = Invariant-modify _ λ b at. at
  preload-Remembers qt qt_booster = Invariant-pure tt
  preload-Remembers qt q_declarative_booster = Invariant-modify _ λ b at. at

  rename_process-Remembers :
      (parent_argv : List Text) (argc : ℕ) (argv : List Arg)
      → Invariant (Remembers prio) (rename_process os parent_argv argc argv)
  unfolding rename_process fill_area name_process Remembers
  rename_process-Remembers parent_argv argc argv = record { kept = λ b t a at e. ground (arith, e) }

  -- What `prepare` does between the two changes of the priority, and the second one.
  abbrev rest : Qt → Kind → List Text → Bool → Run Booster (Unit {0})
  rest qt kind parent_argv boot_mode = do
    when (not boot_mode) (preload qt kind)
    rename_process os parent_argv 1 (str (temporary_process_name kind) ∷ [])
    pop_priority os
    pure tt

  rest-restores :
      (qt : Qt) (kind : Kind) (parent_argv : List Text) (boot_mode : Bool) (b t : Booster)
      → Remembers prio b
      → rest qt kind parent_argv boot_mode b ≡ done tt t
      → (h : History) × (t.calls ≡ Call.set_priority prio ∷ h)
  unfolding pop_priority Remembers
  rest-restores qt kind parent_argv boot_mode b t at e =
      let (_, u, loads, e1) = bind-done (when (not boot_mode) (preload qt kind)) _ b t tt e in
      let name = str (temporary_process_name kind) ∷ [] in
      let (_, v, renames, e2) = bind-done (rename_process os parent_argv 1 name) _ u t tt e1 in
      let loaded =
        (Invariant-when (not boot_mode) _ (preload-Remembers qt kind)).kept b u tt at loads in
      let renamed = (rename_process-Remembers parent_argv 1 name).kept u v tt loaded renames in
      (v.calls, ground (arith, renamed, e2))

  -- If the priority of the process can be read, then the last call of the preparations for the invoker,
  -- when they come back, sets the priority to what it was, whichever the booster is and whether or not
  -- it preloads.
  pub prepare_lem :
      (qt : Qt) (kind : Kind) (parent_argv : List Text) (pipe_fd : Pipe) (boot_mode : Bool)
      (b t : Booster)
      → os.get_priority b.calls ≡ (false, prio)
      → prepare os qt kind parent_argv pipe_fd boot_mode b ≡ done tt t
      → (h : History) × (t.calls ≡ Call.set_priority prio ∷ h)
  unfolding prepare push_priority Remembers
  prepare_lem qt kind parent_argv pipe_fd boot_mode b t known e =
      let pushed : Booster = record b {
        m_boot_mode = boot_mode;
        m_pipe_fd = pipe_fd;
        m_old_priority_ok = true;
        m_old_priority = prio;
        calls = Call.set_priority (pos 10) ∷ b.calls;
      } in
      rest-restores qt kind parent_argv boot_mode pushed t (refl, refl) (ground (arith, known, e))
