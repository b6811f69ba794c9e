-- ===== src/Booster/Files.antt =====
-- The I/O descriptors in `launchProcess` of src/launcherlib/booster.cpp, by the files that the process's
-- descriptors stand for.
use touch_applauncherd.Common.{
  ℕ, ◌<◌, ◌≡◌, ◌≢◌, ◌==◌, if◌then◌else◌, [], ◌∷◌, Option, none, some, arith,
}
use touch_applauncherd.Common.Exits.{done}
use touch_applauncherd.Common.Int.{ℤ, pos, int_eq}
use touch_applauncherd.Os.{Call, History}
use touch_applauncherd.Booster.{Booster}
use touch_applauncherd.Booster.Running.{dup_io}

-- The table of open files after some calls, from the one before them. `dup2` of a closed descriptor
-- fails.
abbrev pub files : (ℤ → Option ℕ) → History → ℤ → Option ℕ
files before [] fd = before fd
files before (Call.dup2 from to ∷ h) fd = elim (files before h from) [
  | none ↦ files before h fd
  | some file ↦ if int_eq fd to then some file else files before h fd
]
files before (Call.close f ∷ h) fd = if int_eq fd f then none else files before h fd
files before (c ∷ h) fd = files before h fd

-- The calls for three descriptors that are in use and none of the first three.
abbrev pub moved : ℕ → ℕ → ℕ → History → History
moved a b c h =
    Call.close (pos c)
    ∷ Call.dup2 (pos c) (pos 2)
    ∷ Call.close (pos b)
    ∷ Call.dup2 (pos b) (pos 1)
    ∷ Call.close (pos a)
    ∷ Call.dup2 (pos a) (pos 0)
    ∷ h

dup_io_eq :
    (a b c : ℕ) (s : Booster)
    → 2 < a
    → 2 < b
    → 2 < c
    → dup_io 0 (pos a ∷ pos b ∷ pos c ∷ []) s ≡ done tt (record s { calls = moved a b c s.calls })
unfolding dup_io
dup_io_eq a b c s ha hb hc = ground arith

files-moved :
    (before : ℤ → Option ℕ) (a b c x y z fd : ℕ) (h : History)
    → 2 < a
    → 2 < b
    → 2 < c
    → a ≢ b
    → a ≢ c
    → b ≢ c
    → files before h (pos a) ≡ some x
    → files before h (pos b) ≡ some y
    → files before h (pos c) ≡ some z
    → files before (moved a b c h) (pos fd) ≡ (
        if fd == 0
        then some x
        else if fd == 1
        then some y
        else if fd == 2
        then some z
        else if fd == a
        then none
        else if fd == b
        then none
        else if fd == c
        then none
        else files before h (pos fd))
files-moved before a b c x y z fd h ha hb hc ab ac bc ea eb ec = ground arith

-- If the invoker's three descriptors arrived as open ones above 2, all different, then afterwards the
-- application's descriptors 0, 1 and 2 are their files, in order, the three numbers are closed, and
-- every other descriptor is as it was.
pub files-dup_io :
    (before : ℤ → Option ℕ) (a b c x y z : ℕ) (s : Booster)
    → 2 < a
    → 2 < b
    → 2 < c
    → a ≢ b
    → a ≢ c
    → b ≢ c
    → files before s.calls (pos a) ≡ some x
    → files before s.calls (pos b) ≡ some y
    → files before s.calls (pos c) ≡ some z
    → (t : Booster) × (dup_io 0 (pos a ∷ pos b ∷ pos c ∷ []) s ≡ done tt t)
      × ((fd : ℕ)
          → files before t.calls (pos fd) ≡ (
              if fd == 0
              then some x
              else if fd == 1
              then some y
              else if fd == 2
              then some z
              else if fd == a
              then none
              else if fd == b
              then none
              else if fd == c
              then none
              else files before s.calls (pos fd)))
files-dup_io before a b c x y z s ha hb hc ab ac bc ea eb ec = (
  record s { calls = moved a b c s.calls },
  dup_io_eq a b c s ha hb hc,
  λ fd. files-moved before a b c x y z fd s.calls ha hb hc ab ac bc ea eb ec,
)
