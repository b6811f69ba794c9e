-- ===== src/Daemon/BoosterPipe.antt =====
-- readFromBoosterPipe of src/launcherlib/daemon.cpp on the three values that a booster writes.
use touch_applauncherd.Common.{
  ℕ, ◌^◌, ◌<◌, ◌≡◌, true, not, ◌&&◌, ◌||◌, if◌then◌else◌, some, List, [], ◌∷◌, ◌++◌, arith,
  Bool-cases, inl, inr, drop,
}
use touch_applauncherd.Common.Exits.{done, exited, exit_failure}
use touch_applauncherd.Common.Int.{
  ℤ, pos, int_eq, int_eq_iff, to_u32, IsInt, to_int-to_u32, to_u32-lt,
}
use touch_applauncherd.Common.Bytes.{le32, from_le32, length-le32}
use touch_applauncherd.Common.Map.{lookup, lookup-insert, int_key}
use touch_applauncherd.Os.{Os, Call, History, got}
use touch_applauncherd.Daemon.{Daemon, booster_pid_for_type, fork_booster}
use touch_applauncherd.Daemon.Events.{
  read, read_int, store_invoker, read_from_booster_pipe, is_short,
}

-- The daemon after a call.
abbrev pub after : Call → Daemon → Daemon
after c d = record d { calls = c ∷ d.calls }

pub from_le32-fresh : (w : ℕ) (rest : List ℕ) → w < 2 ^ 32 → from_le32 (le32 w ++ rest) ≡ w
unfolding le32 from_le32
from_le32-fresh w rest h = omega arith

read_int_lem :
    (os : Os) (fd n : ℤ) (d : Daemon)
    → IsInt n
    → os.read_result d.calls fd 4 ≡ got (le32 (to_u32 n))
    → read_int os fd d ≡ done n (after (Call.read fd 4) d)
unfolding read_int read
read_int_lem os fd n d h e = ground (
  arith,
  length-le32 (to_u32 n),
  from_le32-fresh (to_u32 n) (drop 4 (os.fresh d.calls 4)) (to_u32-lt n),
  to_int-to_u32 n h,
)

read_int_short :
    (os : Os) (fd : ℤ) (d : Daemon)
    → is_short (os.read_result d.calls fd 4) 4 ≡ true
    → read_int os fd d ≡ exited exit_failure (after (Call.read fd 4) d)
unfolding read_int read
read_int_short os fd d e = ground (arith)

store_invoker-calls :
    (type : ℕ) (pid : ℤ) (h : History) (d : Daemon)
    → store_invoker type pid (record d { calls = h })
      ≡ record (store_invoker type pid d) { calls = h }
unfolding store_invoker booster_pid_for_type
store_invoker-calls type pid h d =
    elim (Bool-cases (int_eq pid (pos 0) || int_eq (booster_pid_for_type type d) (pos 0))) [
      | inl nobody ↦ rw nobody
      | inr somebody ↦ rw somebody
    ]

-- The daemon with an invoker noted for the current booster of a type, if one waits and the type has a
-- booster: the invoker is found under the booster's pid, and under other pids what was found before. All
-- else is as it was, with these calls.
pub record Noted (type : ℕ) (invoker_pid : ℤ) (calls : History) (d t : Daemon) : Type 0 where
  pub found :
      (pid : ℤ)
      → lookup pid t.m_booster_pid_to_invoker_pid ≡ (
          if (not (int_eq invoker_pid (pos 0)) && not (int_eq pid (pos 0)))
            && int_eq (booster_pid_for_type type d) pid
          then some invoker_pid
          else lookup pid d.m_booster_pid_to_invoker_pid)
  pub frame :
      t ≡ record d { m_booster_pid_to_invoker_pid = t.m_booster_pid_to_invoker_pid; calls = calls }

pub store_invoker-Noted :
    (type : ℕ) (invoker_pid : ℤ) (calls : History) (d : Daemon)
    → Noted type invoker_pid calls d (store_invoker type invoker_pid (record d { calls = calls }))
unfolding store_invoker booster_pid_for_type
store_invoker-Noted type invoker_pid calls d = record {
  found = λ pid. ground (
    arith,
    lookup-insert (booster_pid_for_type type d) pid invoker_pid d.m_booster_pid_to_invoker_pid,
    int_eq_iff (booster_pid_for_type type d) pid,
  );
  frame = ground arith;
}

-- A type, the pid of the invoker that waits and a delay, as a booster writes them, make the daemon
-- note the invoker for the current booster of the type, and then fork a booster of the type with the delay.
pub read_from_booster_pipe_lem :
    (os : Os) (fd invoker_pid delay : ℤ) (type : ℕ) (d : Daemon)
    → IsInt invoker_pid
    → IsInt delay
    → os.read_result d.calls fd 1 ≡ got (type ∷ [])
    → os.read_result (Call.read fd 1 ∷ d.calls) fd 4 ≡ got (le32 (to_u32 invoker_pid))
    → os.read_result (Call.read fd 4 ∷ Call.read fd 1 ∷ d.calls) fd 4 ≡ got (le32 (to_u32 delay))
    → read_from_booster_pipe os fd d
      ≡ fork_booster os type delay (
          store_invoker type invoker_pid
            (record d { calls = Call.read fd 4 ∷ Call.read fd 4 ∷ Call.read fd 1 ∷ d.calls }))
unfolding read_from_booster_pipe read
read_from_booster_pipe_lem os fd invoker_pid delay type d h k e1 e2 e3 =
    let one : Daemon = after (Call.read fd 1) d in
    let two : Daemon = after (Call.read fd 4) one in
    let three : Daemon = after (Call.read fd 4) two in
    let noted = store_invoker-calls type invoker_pid in
    let second : read_int os fd (store_invoker type invoker_pid two)
        ≡ done delay (store_invoker type invoker_pid three) =
      rw (noted two.calls d, noted three.calls d)
        (read_int_lem os fd delay (record (store_invoker type invoker_pid d) { calls = two.calls })
          k e3) in
    ground (arith, e1, read_int_lem os fd invoker_pid one h e2, second)
