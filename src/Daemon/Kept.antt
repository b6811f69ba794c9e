-- ===== src/Daemon/Kept.antt =====
-- forkBooster and reapZombies of src/launcherlib/daemon.cpp, against the view of the processes that
-- Daemon/Tracking has.
use touch_applauncherd.Common.{
  ℕ, ◌≡◌, ◌≢◌, refl, sym, ◌∙◌, Bool, ◌==◌, if◌then◌else◌, Option, none, some, get_elem?, arith,
  Bool-cases, inl, inr,
}
use touch_applauncherd.Common.Exits.{done}
use touch_applauncherd.Common.Int.{ℤ, pos, int_eq_iff}
use touch_applauncherd.Common.Map.{lookup, insert, nat_key, int_key, lookup-insert, insert-IsMap}
use touch_applauncherd.Os.{Os, in_parent, running, reaped}
use touch_applauncherd.Daemon.{
  Daemon, set_pid_to_booster, type_for_pid, booster_sleep_time, fork_booster,
}
use touch_applauncherd.Daemon.Forking.{forked, fork_booster-done}
use touch_applauncherd.Daemon.Reaper.{bury, reap_zombies}
use touch_applauncherd.Daemon.Reaper.Rule.{waited, IsLoopInvariant, reap_from-Ends}
use touch_applauncherd.Daemon.Reaping.{buried, bury_lem, notice}
use touch_applauncherd.Daemon.Tracking.{
  alive, HasProcesses, IsTrackedBut, IsTracked, type_for_pid-finds, lookup-type_for_pid,
  has_pid-append, Distinct-append, has_pid-remove, has_pid-get_elem?, has_pid-erase_idx,
  Distinct-erase_idx,
}

module _ (os : Os) (processes : HasProcesses os) where
  open processes use {fork_fresh, wait_child}

  -- A fork for the one type that was not tracked makes the daemon track all.
  forked-IsTracked :
      (type pid : ℕ) (d : Daemon)
      → type ≢ 0
      → os.fork_result d.calls ≡ in_parent pid
      → IsTrackedBut os type d
      → IsTracked os (forked type pid d)
  unfolding set_pid_to_booster
  forked-IsTracked type pid d some_type is at =
      let fresh = fork_fresh d.calls pid is in
      let noted = d.m_booster_type_to_pid in
      let cleared = insert type (pos 0) noted in
      let look : (other : ℕ)
          → lookup other (insert type (pos pid) cleared)
            ≡ (if type == other then some (pos pid) else lookup other noted) =
        λ other. ground (
          arith,
          lookup-insert type other (pos pid) cleared,
          lookup-insert type other (pos 0) noted,
        ) in
      record {
        same = λ p. ground (arith, has_pid-append p (pos pid) d.m_children, at.same p, is);
        distinct = Distinct-append (pos pid) d.m_children at.distinct (at.same (pos pid) ∙ fresh);
        table = insert-IsMap type (pos pid) cleared (insert-IsMap type (pos 0) noted at.table);
        typed = ground (arith, look 0, at.typed);
        tracked = λ other p ne there. ground (
          arith,
          look other,
          at.tracked other p,
          has_pid-append p (pos pid) d.m_children,
          int_eq_iff (pos pid) p,
        );
        single = λ a b p na nb ha hb. ground (
          arith,
          look a,
          look b,
          at.single a b p,
          at.tracked a p,
          at.tracked b p,
          at.same p,
          fresh,
        );
      }

  -- Also when the fork is for a type that was tracked.
  IsTrackedBut-weaken : (x : ℕ) (d : Daemon) → IsTracked os d → IsTrackedBut os x d
  IsTrackedBut-weaken x d at = record {
    same = at.same;
    distinct = at.distinct;
    table = at.table;
    typed = at.typed;
    tracked = λ type p ne there. ground (arith, at.typed, at.tracked type p);
    single = λ a b p na nb ha hb. ground (arith, at.typed, at.single a b p);
  }

  alive-notice :
      (i : ℕ) (pid : ℤ) (signal : Option ℕ) (d : Daemon)
      → alive os (buried i pid signal d).calls ≡ alive os d.calls
  alive-notice i pid signal d = at_lookup (lookup pid d.m_booster_pid_to_invoker_pid) signal
    where
      at_lookup :
          (o : Option ℤ) (signal : Option ℕ)
          → alive os (elim o [ none ↦ d.calls | some p ↦ notice signal p d.calls ])
            ≡ alive os d.calls
      at_lookup none signal = refl
      at_lookup (some p) none = refl
      at_lookup (some p) (some sig) = refl

  -- A dead child is tracked no more, other than as the booster of its own type.
  buried-IsTrackedBut :
      (i : ℕ) (child : ℤ) (signal : Option ℕ) (d : Daemon)
      → get_elem? d.m_children i ≡ some child
      → os.wait_result d.calls child ≡ reaped signal
      → IsTracked os d
      → IsTrackedBut os
          (type_for_pid child d.m_booster_type_to_pid)
          (buried i child signal (waited child d))
  buried-IsTrackedBut i child signal d there dead at =
      let noted = d.m_booster_type_to_pid in
      let type = type_for_pid child noted in
      let left = λ (p : ℤ). has_pid-erase_idx p child d.m_children i there at.distinct in
      record {
        same = λ p.
            rw (alive-notice i child signal (waited child d))
              (ground (arith, left p, at.same p, dead, has_pid-remove p child (alive os d.calls)));
        distinct = Distinct-erase_idx d.m_children i at.distinct;
        table = at.table;
        typed = at.typed;
        tracked = λ other p ne there. ground (
          arith,
          left p,
          int_eq_iff child p,
          at.typed,
          at.tracked other p,
          at.single other type child,
          type_for_pid-finds child other noted at.typed,
          lookup-type_for_pid child noted at.table,
        );
        single = (IsTrackedBut-weaken type d at).single;
      }

  bury-IsTracked :
      (i : ℕ) (child : ℤ) (signal : Option ℕ) (d t : Daemon)
      → get_elem? d.m_children i ≡ some child
      → os.wait_result d.calls child ≡ reaped signal
      → IsTracked os d
      → bury os i child signal (waited child d) ≡ done tt t
      → IsTracked os t
  bury-IsTracked i child signal d t there dead at e =
      let type = type_for_pid child d.m_booster_type_to_pid in
      let gone : Daemon = buried i child signal (waited child d) in
      let kept = buried-IsTrackedBut i child signal d there dead at in
      let runs = sym (bury_lem os i child signal (waited child d)) ∙ e in
      elim (Bool-cases (type == 0)) [
        | inl no_booster ↦
            let same : gone ≡ t = ground (arith, runs, no_booster) in
            let zero : type ≡ 0 = ground (arith, no_booster) in rw (← same) (rw (← zero) kept)
        | inr booster ↦
            let (pid, is, forks) =
              fork_booster-done os type booster_sleep_time gone t (ground (arith, runs, booster)) in
            rw forks (forked-IsTracked type pid gone (ground (arith, booster)) is kept)
      ]

  running-IsTracked :
      (child : ℤ) (d : Daemon)
      → os.wait_result d.calls child ≡ running
      → IsTracked os d
      → IsTracked os (waited child d)
  running-IsTracked child d is at = record {
    same = λ p. rw is (at.same p);
    distinct = at.distinct;
    table = at.table;
    typed = at.typed;
    tracked = at.tracked;
    single = at.single;
  }

  reap-IsTracked : IsLoopInvariant os (λ i. IsTracked os) (λ b. IsTracked os)
  reap-IsTracked = record {
    no_fuel = λ i d at. at;
    at_end = λ i d there at. at;
    passes = λ i child d there is at. running-IsTracked child d is at;
    buries_dead = bury-IsTracked;
    buries_failed = λ i child d t there is at runs. absurd (
        wait_child d.calls child
          (sym (at.same child) ∙ has_pid-get_elem? child d.m_children i there) is);
  }

  -- If `fork` and `waitpid` behave as documented, a true view of the daemon's processes is still true
  -- when the reaper comes back, however many children died and were replaced: the list of children
  -- has the processes that the daemon forked and has not waited for, each once, and each type's pid is 0 or one
  -- of them, no two types the same.
  pub reap_zombies-IsTracked :
      (fuel : ℕ) (d t : Daemon) (finished : Bool)
      → IsTracked os d
      → reap_zombies os fuel d ≡ done finished t
      → IsTracked os t
  unfolding reap_zombies
  reap_zombies-IsTracked fuel d t finished at e =
      reap_from-Ends os (λ i. IsTracked os) (λ b. IsTracked os) reap-IsTracked fuel 0 d t finished
        at e

  -- If `fork` and `waitpid` behave as documented, a true view of the daemon's processes is still true
  -- when the fork of a booster of any type but 0 comes back.
  pub fork_booster-IsTracked :
      (type : ℕ) (sleep_time : ℤ) (d t : Daemon)
      → type ≢ 0
      → IsTracked os d
      → fork_booster os type sleep_time d ≡ done tt t
      → IsTracked os t
  fork_booster-IsTracked type sleep_time d t some_type at e =
      let (pid, is, forks) = fork_booster-done os type sleep_time d t e in
      rw forks (forked-IsTracked type pid d some_type is (IsTrackedBut-weaken type d at))
