-- ===== src/Daemon/Reaper/Rule.antt =====
-- The rule for the loop of reapZombies in src/launcherlib/daemon.cpp: an invariant of the iterator and
-- the daemon, kept by each of the loop's ways round, gives what holds at the loop's end.
use touch_applauncherd.Common.{
  ℕ, zero, suc, ◌+◌, ◌≡◌, refl, Bool, true, false, ◌∷◌, Option, none, some, get_elem?, subst,
}
use touch_applauncherd.Common.Exits.{Run, done, ◌>>◌, pure, bind-done}
use touch_applauncherd.Common.Int.{ℤ, minus_one}
use touch_applauncherd.Os.{Os, Call, WaitResult, running, wait_failed, reaped}
use touch_applauncherd.Daemon.{Daemon, log_call}
use touch_applauncherd.Daemon.Reaper.{bury, reap_from}

-- The daemon that has waited for a child.
abbrev pub waited : ℤ → Daemon → Daemon
waited child d = record d { calls = Call.waitpid child ∷ d.calls }

-- `Keeps i` holds when the iterator is at `i`, and `Ends b` when the loop ended or, for false, had no
-- fuel left.
pub record IsLoopInvariant (os : Os) (Keeps : ℕ → Daemon → Type 0) (Ends : Bool → Daemon → Type 0)
    : Type 0 where
  pub no_fuel : (i : ℕ) (d : Daemon) → Keeps i d → Ends false d
  pub at_end : (i : ℕ) (d : Daemon) → get_elem? d.m_children i ≡ none → Keeps i d → Ends true d
  pub passes :
      (i : ℕ) (child : ℤ) (d : Daemon)
      → get_elem? d.m_children i ≡ some child
      → os.wait_result d.calls child ≡ running
      → Keeps i d
      → Keeps (i + 1) (waited child d)
  pub buries_dead :
      (i : ℕ) (child : ℤ) (signal : Option ℕ) (d t : Daemon)
      → get_elem? d.m_children i ≡ some child
      → os.wait_result d.calls child ≡ reaped signal
      → Keeps i d
      → bury os i child signal (waited child d) ≡ done tt t
      → Keeps i t
  pub buries_failed :
      (i : ℕ) (child : ℤ) (d t : Daemon)
      → get_elem? d.m_children i ≡ some child
      → os.wait_result d.calls child ≡ wait_failed
      → Keeps i d
      → bury os i minus_one none (waited child d) ≡ done tt t
      → Keeps i t

module _ (os : Os) (Keeps : ℕ → Daemon → Type 0) (Ends : Bool → Daemon → Type 0)
    (rule : IsLoopInvariant os Keeps Ends) where
  done-Ends :
      (a : Bool) (d : Daemon) (b : Bool) (t : Daemon) → Ends a d → done a d ≡ done b t → Ends b t
  done-Ends a d b t h e =
      let value : a ≡ b = cc in
      let state : d ≡ t = cc in subst (λ (r : Bool). Ends r t) value (subst (Ends a) state h)

  one_round :
      (fuel i : ℕ) (d t : Daemon) (b : Bool)
      → ((j : ℕ) (u : Daemon) → Keeps j u → reap_from os fuel j u ≡ done b t → Ends b t)
      → Keeps i d
      → reap_from os (suc fuel) i d ≡ done b t
      → Ends b t
  unfolding reap_from
  one_round fuel i d t b again at = at_child (get_elem? d.m_children i) refl
    where
      goes_on :
          (pid child : ℤ) (signal : Option ℕ)
          → ((u : Daemon) → bury os i pid signal (waited child d) ≡ done tt u → Keeps i u)
          → (bury os i pid signal >> reap_from os fuel i) (waited child d) ≡ done b t
          → Ends b t
      goes_on pid child signal kept e =
          let (_, u, runs, rest) =
            bind-done (bury os i pid signal) (λ _. reap_from os fuel i) (waited child d) t b e in
          again i u (kept u runs) rest

      at_wait :
          (child : ℤ) (r : WaitResult)
          → get_elem? d.m_children i ≡ some child
          → os.wait_result d.calls child ≡ r
          → (elim r as (λ _. Run Daemon Bool) [
            | running ↦ reap_from os fuel (i + 1)
            | wait_failed ↦ bury os i minus_one none >> reap_from os fuel i
            | reaped signal ↦ bury os i child signal >> reap_from os fuel i
          ])
              (waited child d)
            ≡ done b t
          → Ends b t
      at_wait child running there is =
          again (i + 1) (waited child d) (rule.passes i child d there is at)
      at_wait child wait_failed there is =
          goes_on minus_one child none λ u. rule.buries_failed i child d u there is at
      at_wait child (reaped signal) there is =
          goes_on child child signal λ u. rule.buries_dead i child signal d u there is at

      at_child :
          (o : Option ℤ)
          → get_elem? d.m_children i ≡ o
          → (elim o as (λ _. Run Daemon Bool) [
            | none ↦ pure true
            | some child ↦ (do
              log_call (Call.waitpid child)
              elim (os.wait_result d.calls child) as (λ _. Run Daemon Bool) [
                | running ↦ reap_from os fuel (i + 1)
                | wait_failed ↦ bury os i minus_one none >> reap_from os fuel i
                | reaped signal ↦ bury os i child signal >> reap_from os fuel i
              ])
          ])
              d
            ≡ done b t
          → Ends b t
      at_child none there = done-Ends true d b t (rule.at_end i d there at)
      at_child (some child) there = at_wait child (os.wait_result d.calls child) there refl

  -- What holds when the loop comes back.
  pub reap_from-Ends :
      (fuel i : ℕ) (d t : Daemon) (b : Bool)
      → Keeps i d
      → reap_from os fuel i d ≡ done b t
      → Ends b t
  unfolding reap_from
  reap_from-Ends zero i d t b at = done-Ends false d b t (rule.no_fuel i d at)
  reap_from-Ends (suc fuel) i d t b at =
      one_round fuel i d t b (λ j u. reap_from-Ends fuel j u t b) at
