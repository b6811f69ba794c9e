-- ===== src/Daemon/Reaping.antt =====
-- The loop of reapZombies in src/launcherlib/daemon.cpp: what becomes of one dead child, and the end of
-- the loop.
use touch_applauncherd.Common.{
  ℕ, zero, suc, ◌+◌, ◌-◌, ◌≤◌, ◌<◌, ◌≡◌, ◌≢◌, refl, sym, ap, ◌∙◌, Bool, true, false, ◌==◌,
  if◌then◌else◌, List, [], ◌∷◌, Option, none, some, length, get_elem?, erase_idx, length-append,
  arith, Bool-cases, Option-cases, inl, inr,
}
use touch_applauncherd.Common.Exits.{Run, ◌>>◌, pure, done, bind-ne-done}
use touch_applauncherd.Common.Int.{ℤ, pos, minus_one}
use touch_applauncherd.Common.Map.{lookup, erase, int_key}
use touch_applauncherd.Os.{Os, Call, History, WaitResult, running, wait_failed, reaped}
use touch_applauncherd.Daemon.{
  Daemon, log_call, set_pid_to_booster, booster_type_for_pid, type_for_pid, booster_sleep_time,
  fork_booster,
}
use touch_applauncherd.Daemon.Forking.{fork_booster-done}
use touch_applauncherd.Daemon.Reaper.{notify_invoker, bury, reap_from}

-- The signal that is passed on to the invoker, if any.
abbrev pub notice : Option ℕ → ℤ → History → History
notice none invoker_pid h = h
notice (some sig) invoker_pid h = Call.kill invoker_pid sig ∷ h

-- The daemon after a dead child was taken off the list and its invoker was notified.
abbrev pub buried : ℕ → ℤ → Option ℕ → Daemon → Daemon
buried i pid signal d = record d {
  m_children = erase_idx d.m_children i;
  m_booster_pid_to_invoker_pid = elim (lookup pid d.m_booster_pid_to_invoker_pid) [
    | none ↦ d.m_booster_pid_to_invoker_pid
    | some invoker_pid ↦ erase pid d.m_booster_pid_to_invoker_pid
  ];
  calls = elim (lookup pid d.m_booster_pid_to_invoker_pid) [
    | none ↦ d.calls
    | some invoker_pid ↦ notice signal invoker_pid d.calls
  ];
}

notify_invoker_lem :
    (i : ℕ) (pid : ℤ) (signal : Option ℕ) (d : Daemon)
    → notify_invoker pid signal (record d { m_children = erase_idx d.m_children i })
      ≡ done tt (buried i pid signal d)
unfolding notify_invoker
notify_invoker_lem i pid signal d =
    elim (Option-cases (lookup pid d.m_booster_pid_to_invoker_pid)) [
      | inl nobody ↦ ground (arith, nobody)
      | inr (invoker_pid, there) ↦ elim signal [
        | none ↦ ground (arith, there)
        | some sig ↦ ground (arith, there)
      ]
    ]

-- The invoker of a child that a signal killed gets the same signal, and the pair is forgotten; then
-- a booster that still waited for work is forked anew after 2 seconds, under its type.
pub bury_lem :
    (os : Os) (i : ℕ) (pid : ℤ) (signal : Option ℕ) (d : Daemon)
    → bury os i pid signal d ≡ (
        if type_for_pid pid d.m_booster_type_to_pid == 0
        then done tt (buried i pid signal d)
        else fork_booster os
            (type_for_pid pid d.m_booster_type_to_pid)
            booster_sleep_time
            (buried i pid signal d))
unfolding bury booster_type_for_pid
bury_lem os i pid signal d = ground (arith, notify_invoker_lem i pid signal d)

-- Only so many children will ever be found dead, or be asked for in error: `budget` bounds how many
-- after each history.
pub record IsFinite (os : Os) : Type 0 where
  pub budget : History → ℕ
  pub budget_call : (h : History) (c : Call) → budget (c ∷ h) ≤ budget h
  pub budget_wait :
      (h : History) (pid : ℤ)
      → os.wait_result h pid ≢ running
      → budget (Call.waitpid pid ∷ h) < budget h

i_within : (xs : List ℤ) (i : ℕ) (x : ℤ) → get_elem? xs i ≡ some x → i < length xs
i_within [] i x e = absurd cc
i_within (y ∷ ys) zero x e = omega arith
i_within (y ∷ ys) (suc i) x e = omega (arith, i_within ys i x e)

length-erase_idx :
    (xs : List ℤ) (i : ℕ) (x : ℤ)
    → get_elem? xs i ≡ some x
    → suc (length (erase_idx xs i)) ≡ length xs
length-erase_idx [] i x e = absurd cc
length-erase_idx (y ∷ ys) zero x e = refl
length-erase_idx (y ∷ ys) (suc i) x e = ap suc (length-erase_idx ys i x e)

module _ (os : Os) (finite : IsFinite os) where
  open finite use {budget, budget_call, budget_wait}

  -- The rounds that are left for an iterator at `i`.
  abbrev pub rounds : ℕ → Daemon → ℕ
  rounds i d = (length d.m_children - i) + budget d.calls

  fork_booster_done :
      (type : ℕ) (sleep_time : ℤ) (d t : Daemon)
      → fork_booster os type sleep_time d ≡ done tt t
      → (length t.m_children ≡ suc (length d.m_children)) × (budget t.calls ≤ budget d.calls)
  unfolding set_pid_to_booster
  fork_booster_done type sleep_time d t e =
      let (pid, _, is) = fork_booster-done os type sleep_time d t e in
      rw is (length-append d.m_children (pos pid ∷ []) ∙ omega arith, budget_call d.calls Call.fork)

  buried_rounds :
      (i : ℕ) (pid : ℤ) (signal : Option ℕ) (d : Daemon)
      → (budget (buried i pid signal d).calls ≤ budget d.calls)
  buried_rounds i pid signal d = at_lookup (lookup pid d.m_booster_pid_to_invoker_pid) signal
    where
      at_lookup :
          (o : Option ℤ) (signal : Option ℕ)
          → budget (elim o [ none ↦ d.calls | some p ↦ notice signal p d.calls ]) ≤ budget d.calls
      at_lookup none signal = omega arith
      at_lookup (some p) none = omega arith
      at_lookup (some p) (some sig) = budget_call d.calls (Call.kill p sig)

  bury_done :
      (i : ℕ) (pid child : ℤ) (signal : Option ℕ) (d t : Daemon)
      → get_elem? d.m_children i ≡ some child
      → bury os i pid signal d ≡ done tt t
      → (length t.m_children ≤ length d.m_children) × (budget t.calls ≤ budget d.calls)
  bury_done i pid child signal d t there e =
      let type = type_for_pid pid d.m_booster_type_to_pid in
      let shorter = length-erase_idx d.m_children i child there in
      let calls = buried_rounds i pid signal d in
      let runs = sym (bury_lem os i pid signal d) ∙ e in
      elim (Bool-cases (type == 0)) [
        | inl no_booster ↦
            let same : buried i pid signal d ≡ t = ground (arith, runs, no_booster) in
            rw (← same) (omega arith, calls)
        | inr booster ↦
            let (len, left) =
              fork_booster_done type booster_sleep_time (buried i pid signal d) t
                (ground (arith, runs, booster)) in
            (omega arith, omega arith)
      ]

  -- One round, if all rounds with one less of fuel end.
  reap_from-round :
      (fuel i : ℕ) (d t : Daemon)
      → ((j : ℕ) (u : Daemon) → rounds j u < fuel → reap_from os fuel j u ≢ done false t)
      → rounds i d < suc fuel
      → reap_from os (suc fuel) i d ≢ done false t
  unfolding reap_from
  reap_from-round fuel i d t again h = at_child (get_elem? d.m_children i) refl
    where
      buries :
          (pid child : ℤ) (signal : Option ℕ)
          → get_elem? d.m_children i ≡ some child
          → os.wait_result d.calls child ≢ running
          → (bury os i pid signal >> reap_from os fuel i)
              (record d { calls = Call.waitpid child ∷ d.calls })
            ≢ done false t
      buries pid child signal there ended =
          let waited : Daemon = record d { calls = Call.waitpid child ∷ d.calls } in
          bind-ne-done (bury os i pid signal) (λ _. reap_from os fuel i) waited t false
            λ _ u is.
              let (len, left) = bury_done i pid child signal waited u there is in
              let less = budget_wait d.calls child ended in again i u (omega arith)

      at_wait :
          (child : ℤ) (r : WaitResult)
          → get_elem? d.m_children i ≡ some child
          → os.wait_result d.calls child ≡ r
          → (elim r as (λ _. Run Daemon Bool) [
            | running ↦ reap_from os fuel (i + 1)
            | wait_failed ↦ bury os i minus_one none >> reap_from os fuel i
            | reaped signal ↦ bury os i child signal >> reap_from os fuel i
          ])
              (record d { calls = Call.waitpid child ∷ d.calls })
            ≢ done false t
      at_wait child running there is =
          let short = length-erase_idx d.m_children i child there in
          let within = i_within d.m_children i child there in
          let less = budget_call d.calls (Call.waitpid child) in
          again (i + 1) (record d { calls = Call.waitpid child ∷ d.calls }) (omega arith)
      at_wait child wait_failed there is =
          buries minus_one child none there (λ e. absurd (ground (arith, is, e)))
      at_wait child (reaped signal) there is =
          buries child child signal there (λ e. absurd (ground (arith, is, e)))

      at_child :
          (o : Option ℤ)
          → get_elem? d.m_children i ≡ o
          → (elim o as (λ _. Run Daemon Bool) [
            | none ↦ pure true
            | some child ↦ (do
              log_call (Call.waitpid child)
              elim (os.wait_result d.calls child) as (λ _. Run Daemon Bool) [
                | running ↦ reap_from os fuel (i + 1)
                | wait_failed ↦ bury os i minus_one none >> reap_from os fuel i
                | reaped signal ↦ bury os i child signal >> reap_from os fuel i
              ])
          ])
              d
            ≢ done false t
      at_child none there = λ e. absurd cc
      at_child (some child) there = at_wait child (os.wait_result d.calls child) there refl

  -- The reaper comes to the end of its loop: with more fuel than the rounds that are left, it never
  -- runs out.
  pub reap_from-ne-done :
      (fuel i : ℕ) (d t : Daemon) → rounds i d < fuel → reap_from os fuel i d ≢ done false t
  reap_from-ne-done zero i d t h = absurd (omega arith)
  reap_from-ne-done (suc fuel) i d t h =
      reap_from-round fuel i d t (λ j u. reap_from-ne-done fuel j u t) h
