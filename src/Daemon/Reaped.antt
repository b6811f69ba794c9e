-- ===== src/Daemon/Reaped.antt =====
-- One round of reapZombies in src/launcherlib/daemon.cpp that finds a child dead.
use touch_applauncherd.Common.{
  ℕ, suc, ◌≡◌, false, not, ◌&&◌, ◌==◌, if◌then◌else◌, [], ◌∷◌, ◌++◌, Option, none, some, get_elem?,
  erase_idx, arith, Bool-cases, Option-cases, inl, inr,
}
use touch_applauncherd.Common.Exits.{done}
use touch_applauncherd.Common.Int.{ℤ, pos, int_eq, int_eq_iff}
use touch_applauncherd.Common.Map.{lookup, lookup-insert, lookup-erase, IsMap, int_key, nat_key}
use touch_applauncherd.Os.{Os, Call, History, reaped, in_parent}
use touch_applauncherd.Daemon.{
  Daemon, set_pid_to_booster, booster_type_for_pid, type_for_pid, booster_pid_for_type,
  booster_sleep_time, fork_booster,
}
use touch_applauncherd.Daemon.Forking.{forked, fork_booster-in_parent_eq}
use touch_applauncherd.Daemon.Reaper.{reap_from}
use touch_applauncherd.Daemon.Reaping.{buried, bury_lem, notice}

-- The calls of a round for a dead child up to the fork: its wait, and the signal to its invoker, if it has
-- one and a signal killed the child.
abbrev pub told : ℤ → Option ℕ → Daemon → History
told child signal d = elim (lookup child d.m_booster_pid_to_invoker_pid) [
  | none ↦ Call.waitpid child ∷ d.calls
  | some invoker_pid ↦ notice signal invoker_pid (Call.waitpid child ∷ d.calls)
]

invokers_buried :
    (i : ℕ) (child other : ℤ) (signal : Option ℕ) (d : Daemon)
    → IsMap d.m_booster_pid_to_invoker_pid
    → lookup other (buried i child signal d).m_booster_pid_to_invoker_pid
      ≡ (if int_eq child other then none else lookup other d.m_booster_pid_to_invoker_pid)
invokers_buried i child other signal d m =
    elim (Option-cases (lookup child d.m_booster_pid_to_invoker_pid)) [
      | inl nobody ↦ ground (arith, nobody, int_eq_iff child other)
      | inr (invoker_pid, there) ↦
          ground (arith, there, lookup-erase child other d.m_booster_pid_to_invoker_pid m)
    ]

-- When the reaper finds the child at its iterator dead, it takes it off the list; if an invoker waits for
-- it and a signal killed it, the invoker is sent just that signal, once; the pair of the two is forgotten and
-- no other; and if the child was the booster of a type, a new one is forked, noted for the type in its place
-- and appended to the children, and the boosters of other types stay. Then the loop goes on at the same
-- iterator. The pairs are to be in order, and fork, if it is called, is to give a pid.
pub reap_from-reaped :
    (os : Os) (fuel i pid : ℕ) (child : ℤ) (signal : Option ℕ) (d : Daemon)
    → IsMap d.m_booster_pid_to_invoker_pid
    → get_elem? d.m_children i ≡ some child
    → os.wait_result d.calls child ≡ reaped signal
    → ((booster_type_for_pid child d == 0) ≡ false
        → os.fork_result (told child signal d) ≡ in_parent pid)
    → let type = booster_type_for_pid child d in
      let left = erase_idx d.m_children i in
      (t : Daemon) × (reap_from os (suc fuel) i d ≡ reap_from os fuel i t)
      × (t.m_children ≡ (if type == 0 then left else left ++ pos pid ∷ []))
      × (t.calls ≡ (if type == 0 then told child signal d else Call.fork ∷ told child signal d))
      × ((other : ℤ)
          → lookup other t.m_booster_pid_to_invoker_pid
            ≡ (if int_eq child other then none else lookup other d.m_booster_pid_to_invoker_pid))
      × ((other : ℕ)
          → booster_pid_for_type other t ≡ (
              if not (type == 0) && (type == other) then pos pid else booster_pid_for_type other d))
unfolding reap_from booster_type_for_pid booster_pid_for_type set_pid_to_booster
reap_from-reaped os fuel i pid child signal d m there dead forks =
    let w : Daemon = record d { calls = Call.waitpid child ∷ d.calls } in
    let u = buried i child signal w in
    let type = type_for_pid child d.m_booster_type_to_pid in
    let buries = bury_lem os i child signal w in
    elim (Bool-cases (type == 0)) [
      | inl unknown ↦ (
        u,
        ground (arith, there, dead, buries, unknown),
        ground (arith, unknown),
        ground (arith, unknown),
        λ other. invokers_buried i child other signal w m,
        λ other. ground (arith, unknown),
      )
      | inr known ↦
          let forks_on : fork_booster os type booster_sleep_time u ≡ done tt (forked type pid u) =
            fork_booster-in_parent_eq os type pid booster_sleep_time u (forks known) in
          (
            forked type pid u,
            ground (arith, there, dead, buries, known, forks_on),
            ground (arith, known),
            ground (arith, known),
            λ other. invokers_buried i child other signal w m,
            λ other. ground (
              arith,
              known,
              lookup-insert type other (pos 0) d.m_booster_type_to_pid,
              lookup-insert type other (pos pid)
                  (set_pid_to_booster type (pos 0) u).m_booster_type_to_pid,
            ),
          )
    ]
