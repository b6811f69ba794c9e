-- ===== src/Booster/Rename.antt =====
-- src/launcherlib/booster.cpp, `renameProcess`: the arguments that the system shows for the process.
pub mod Shown
use touch_applauncherd.Common.{
  ℕ, zero, suc, ◌+◌, ◌-◌, not, ◌&&◌, ◌==◌, ltb, if◌then◌else◌, List, [], ◌∷◌, ◌++◌, Option, none,
  some, Text, codes, length, drop, take, set, replicate,
}
use touch_applauncherd.Common.Exits.{Run, ◌>>=◌, ◌>>◌, pure, exit, get, modify, when}
use touch_applauncherd.Os.{Os, Call}
use touch_applauncherd.AppData.{Arg, str}
use touch_applauncherd.Booster.{Booster, log_call, crashed}

-- The loop that adds up `strlen(parentArgv[i]) + 1`.
unfoldable pub space_of : List Text → ℕ
space_of [] = 0
space_of (arg ∷ argv) = length arg + 1 + space_of argv

-- `newArgv`: each argument with a NUL. A pointer to nothing, or past the end, is a fault.
unfoldable pub new_argv : ℕ → List Arg → Option (List ℕ)
new_argv zero argv = some []
new_argv (suc n) (str s ∷ argv) = elim (new_argv n argv) [
  | none ↦ none
  | some rest ↦ some (s ++ 0 ∷ rest)
]
new_argv (suc n) argv = none

-- `memcpy` to the start of the area.
unfoldable pub overwrite : List ℕ → List ℕ → List ℕ
overwrite block area = block ++ drop (length block) area

-- What becomes of the area: it is cleared, then as much of the block as fits is copied, and the last
-- byte copied is made a NUL.
unfoldable pub new_area : ℕ → List ℕ → List ℕ → List ℕ
new_area space block area =
    let cleared = overwrite (replicate space 0) area in
    let needed = if ltb (length block) space then length block else space in
    if needed == 0 then cleared else set (overwrite (take needed block) cleared) (needed - 1) 0

-- `sourceArgv[0]`
unfoldable pub first_arg : List Arg → Option Text
first_arg (str s ∷ argv) = some s
first_arg argv = none

-- The space reserved is added up once.
unfoldable pub space_available : List Text → Booster → ℕ
space_available parent_argv b =
    if b.m_space_available == 0 then space_of parent_argv else b.m_space_available

unfoldable pub fill_area : ℕ → ℕ → List Arg → Run Booster (Unit {0})
fill_area space argc argv = elim (new_argv argc argv) [
  | none ↦ exit crashed
  | some block ↦ modify (λ b. record b { arg_area = new_area space block b.arg_area })
]

unfoldable pub name_process : Os → List Arg → Run Booster (Unit {0})
name_process os argv = elim (first_arg argv) [
  | none ↦ exit crashed
  | some name ↦ (do
    log_call (Call.set_name (os.basename name))
    log_call (Call.setenv (codes "_") name))
]

-- `parentArgv` with its texts at the start, and `sourceArgc` entries of `sourceArgv`.
unfoldable pub rename_process : Os → List Text → ℕ → List Arg → Run Booster (Unit {0})
rename_process os parent_argv argc argv =
    if ltb 0 argc && ltb 0 (length parent_argv)
    then (do
      b ← get
      let space = space_available parent_argv b
      modify (λ b. record b { m_space_available = space })
      when (not (space == 0)) (fill_area space argc argv)
      name_process os argv)
    else pure tt
