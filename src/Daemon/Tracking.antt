-- ===== src/Daemon/Tracking.antt =====
-- m_children and m_boosterTypeToPid of src/launcherlib/daemon.cpp, against the processes that the calls
-- so far have made: the process noted for a type is to be a child that was not yet waited for.
use touch_applauncherd.Common.{
  ℕ, zero, suc, ◌≡◌, ◌≢◌, refl, Bool, true, false, not, ◌&&◌, ◌||◌, if◌then◌else◌, List, [], ◌∷◌,
  ◌++◌, none, some, get_elem?, erase_idx, arith, ◌⊎◌,
}
use touch_applauncherd.Common.Int.{ℤ, pos, int_eq, int_eq_iff, int_eq_self}
use touch_applauncherd.Common.Map.{lookup, nat_key, int_key, IsMap, lookup-Above}
use touch_applauncherd.Os.{
  Os, Call, History, fork_failed, in_child, in_parent, running, wait_failed, reaped,
}
use touch_applauncherd.Daemon.{Daemon, type_for_pid}

abbrev pub has_pid : ℤ → List ℤ → Bool
has_pid p [] = false
has_pid p (q ∷ qs) = int_eq q p || has_pid p qs

abbrev pub remove : ℤ → List ℤ → List ℤ
remove p [] = []
remove p (q ∷ qs) = if int_eq q p then remove p qs else q ∷ remove p qs

-- The children that the calls so far have made and not waited for.
abbrev pub alive : Os → History → List ℤ
alive os [] = []
alive os (Call.fork ∷ h) = elim (os.fork_result h) [
  | fork_failed ↦ alive os h
  | in_child ↦ alive os h
  | in_parent pid ↦ pos pid ∷ alive os h
]
alive os (Call.waitpid pid ∷ h) = elim (os.wait_result h pid) [
  | running ↦ alive os h
  | wait_failed ↦ alive os h
  | reaped signal ↦ remove pid (alive os h)
]
alive os (c ∷ h) = alive os h

-- Documented behaviour of `fork` and `waitpid`: a pid is positive and not that of a child that is
-- still to be waited for, and a wait for such a child is no error.
pub record HasProcesses (os : Os) : Type 0 where
  pub fork_fresh :
      (h : History) (pid : ℕ)
      → os.fork_result h ≡ in_parent pid
      → has_pid (pos pid) (alive os h) ≡ false
  pub wait_child :
      (h : History) (pid : ℤ) → has_pid pid (alive os h) ≡ true → os.wait_result h pid ≢ wait_failed

abbrev pub Distinct : List ℤ → Type 0
Distinct [] = Unit {0}
Distinct (p ∷ ps) = (has_pid p ps ≡ false) × Distinct ps

-- The list of children is the true one, and the boosters of all types other than `x` are children of
-- different pids, or not started (0).
pub record IsTrackedBut (os : Os) (x : ℕ) (d : Daemon) : Type 0 where
  pub same : (p : ℤ) → has_pid p d.m_children ≡ has_pid p (alive os d.calls)
  pub distinct : Distinct d.m_children
  pub table : IsMap d.m_booster_type_to_pid
  pub typed : lookup 0 d.m_booster_type_to_pid ≡ none
  pub tracked :
      (type : ℕ) (p : ℤ)
      → type ≢ x
      → lookup type d.m_booster_type_to_pid ≡ some p
      → (p ≡ pos 0) ⊎ (has_pid p d.m_children ≡ true)
  pub single :
      (type other : ℕ) (p : ℤ)
      → type ≢ x
      → other ≢ x
      → lookup type d.m_booster_type_to_pid ≡ some p
      → lookup other d.m_booster_type_to_pid ≡ some p
      → (p ≡ pos 0) ⊎ (type ≡ other)

-- No plugin has the type 0.
abbrev pub IsTracked : Os → Daemon → Type 0
IsTracked os d = IsTrackedBut os 0 d

pub type_for_pid-finds :
    (pid : ℤ) (type : ℕ) (m : List (ℕ × ℤ))
    → lookup 0 m ≡ none
    → lookup type m ≡ some pid
    → type_for_pid pid m ≢ 0
unfolding type_for_pid lookup
type_for_pid-finds pid type [] e there = absurd cc
type_for_pid-finds pid type ((j, p) ∷ m) e there =
    ground (arith, int_eq_self pid, type_for_pid-finds pid type m)

pub lookup-type_for_pid :
    (pid : ℤ) (m : List (ℕ × ℤ))
    → IsMap m
    → type_for_pid pid m ≢ 0
    → lookup (type_for_pid pid m) m ≡ some pid
unfolding type_for_pid lookup
lookup-type_for_pid pid [] h ne = absurd (ne refl)
lookup-type_for_pid pid ((j, p) ∷ m) h ne =
    ground (arith, int_eq_iff p pid, lookup-Above j m h.0, lookup-type_for_pid pid m h.1)

pub has_pid-append :
    (p q : ℤ) (ps : List ℤ) → has_pid p (ps ++ q ∷ []) ≡ (int_eq q p || has_pid p ps)
has_pid-append p q [] = refl
has_pid-append p q (r ∷ ps) = ground (arith, has_pid-append p q ps)

pub Distinct-append :
    (q : ℤ) (ps : List ℤ) → Distinct ps → has_pid q ps ≡ false → Distinct (ps ++ q ∷ [])
Distinct-append q [] h e = (refl, tt)
Distinct-append q (p ∷ ps) h e = (
  ground (arith, has_pid-append p q ps, int_eq_iff p q, int_eq_iff q p),
  Distinct-append q ps h.1 (ground arith),
)

pub has_pid-remove :
    (p c : ℤ) (ps : List ℤ) → has_pid p (remove c ps) ≡ (not (int_eq c p) && has_pid p ps)
has_pid-remove p c [] = ground arith
has_pid-remove p c (q ∷ ps) =
    ground (arith, has_pid-remove p c ps, int_eq_iff q c, int_eq_iff c p, int_eq_iff q p)

pub has_pid-get_elem? :
    (c : ℤ) (ps : List ℤ) (i : ℕ) → get_elem? ps i ≡ some c → has_pid c ps ≡ true
has_pid-get_elem? c [] i e = absurd cc
has_pid-get_elem? c (q ∷ ps) zero e = ground (arith, int_eq_iff q c)
has_pid-get_elem? c (q ∷ ps) (suc i) e = ground (arith, has_pid-get_elem? c ps i e)

pub has_pid-erase_idx :
    (p c : ℤ) (ps : List ℤ) (i : ℕ)
    → get_elem? ps i ≡ some c
    → Distinct ps
    → has_pid p (erase_idx ps i) ≡ (not (int_eq c p) && has_pid p ps)
has_pid-erase_idx p c [] i e h = absurd cc
has_pid-erase_idx p c (q ∷ ps) zero e h = ground (arith, int_eq_iff c p, int_eq_iff q p)
has_pid-erase_idx p c (q ∷ ps) (suc i) e h = ground (
  arith,
  has_pid-erase_idx p c ps i e h.1,
  has_pid-get_elem? c ps i e,
  int_eq_iff q p,
  int_eq_iff c p,
)

has_pid-erased :
    (p : ℤ) (ps : List ℤ) (i : ℕ) → has_pid p ps ≡ false → has_pid p (erase_idx ps i) ≡ false
has_pid-erased p [] i e = refl
has_pid-erased p (q ∷ ps) zero e = ground arith
has_pid-erased p (q ∷ ps) (suc i) e = ground (arith, has_pid-erased p ps i)

pub Distinct-erase_idx : (ps : List ℤ) (i : ℕ) → Distinct ps → Distinct (erase_idx ps i)
Distinct-erase_idx [] i h = tt
Distinct-erase_idx (p ∷ ps) zero h = h.1
Distinct-erase_idx (p ∷ ps) (suc i) h = (has_pid-erased p ps i h.0, Distinct-erase_idx ps i h.1)
