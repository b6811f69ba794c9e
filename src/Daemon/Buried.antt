-- ===== src/Daemon/Buried.antt =====
-- The list of children after reapZombies of src/launcherlib/daemon.cpp.
use touch_applauncherd.Common.{
  ℕ, zero, suc, ◌+◌, ◌≤◌, ◌<◌, ◌≡◌, refl, sym, subst, ◌∙◌, Bool, true, false, ◌&&◌, ◌||◌, ◌==◌, leb,
  List, [], ◌∷◌, ◌++◌, Option, none, some, All, length, get_elem?, erase_idx, arith, Bool-cases,
  inl, inr,
}
use touch_applauncherd.Common.Exits.{done}
use touch_applauncherd.Common.Int.{ℤ, pos, minus_one, int_eq, int_eq_self}
use touch_applauncherd.Common.Map.{lookup, int_key}
use touch_applauncherd.Os.{Os, Call, History, WaitResult, running, wait_failed, reaped}
use touch_applauncherd.Daemon.{Daemon, set_pid_to_booster, type_for_pid, booster_sleep_time}
use touch_applauncherd.Daemon.Forking.{forked, fork_booster-done}
use touch_applauncherd.Daemon.Reaper.{bury, reap_zombies}
use touch_applauncherd.Daemon.Reaper.Rule.{waited, IsLoopInvariant, reap_from-Ends}
use touch_applauncherd.Daemon.Reaping.{
  buried, bury_lem, notice, IsFinite, rounds, reap_from-ne-done,
}

abbrev is_running : WaitResult → Bool
is_running running = true
is_running wait_failed = false
is_running (reaped signal) = false

-- Whether one of the calls after the first `n` was a wait that found the process running.
abbrev pub was_running : Os → ℕ → ℤ → History → Bool
was_running os n p [] = false
was_running os n p (Call.waitpid q ∷ h) =
    int_eq q p && (is_running (os.wait_result h q) && leb n (length h)) || was_running os n p h
was_running os n p (c ∷ h) = was_running os n p h

was_running-call :
    (os : Os) (n : ℕ) (p : ℤ) (c : Call) (h : History)
    → was_running os n p h ≡ true
    → was_running os n p (c ∷ h) ≡ true
was_running-call os n p (Call.waitpid q) h e = ground (arith, e)
was_running-call os n p c h e = e

get_elem?-erase_idx :
    (xs : List ℤ) (i j : ℕ) → j < i → get_elem? (erase_idx xs i) j ≡ get_elem? xs j
get_elem?-erase_idx [] i j h = refl
get_elem?-erase_idx (x ∷ xs) zero j h = absurd (omega arith)
get_elem?-erase_idx (x ∷ xs) (suc i) zero h = refl
get_elem?-erase_idx (x ∷ xs) (suc i) (suc j) h = get_elem?-erase_idx xs i j (omega arith)

get_elem?-append :
    (xs ys : List ℤ) (j : ℕ) → j < length xs → get_elem? (xs ++ ys) j ≡ get_elem? xs j
get_elem?-append [] ys j h = absurd (omega arith)
get_elem?-append (x ∷ xs) ys zero h = refl
get_elem?-append (x ∷ xs) ys (suc j) h = get_elem?-append xs ys j (omega arith)

-- An index within the list stays within it or at its end when its entry is erased.
i-le-length-erase_idx :
    (xs : List ℤ) (i : ℕ) (x : ℤ) → get_elem? xs i ≡ some x → i ≤ length (erase_idx xs i)
i-le-length-erase_idx [] i x e = absurd cc
i-le-length-erase_idx (y ∷ ys) zero x e = omega arith
i-le-length-erase_idx (y ∷ ys) (suc i) x e = omega (arith, i-le-length-erase_idx ys i x e)

All-get_elem? :
    {P : ℤ → Type 0} (xs : List ℤ) → ((j : ℕ) (x : ℤ) → get_elem? xs j ≡ some x → P x) → All P xs
All-get_elem? [] f = tt
All-get_elem? (x ∷ xs) f = (f zero x refl, All-get_elem? xs λ j y e. f (suc j) y e)

get_elem?-none :
    (xs : List ℤ) (i j : ℕ) (x : ℤ) → get_elem? xs i ≡ none → get_elem? xs j ≡ some x → j < i
get_elem?-none [] i j x e f = absurd cc
get_elem?-none (y ∷ ys) zero j x e f = absurd cc
get_elem?-none (y ∷ ys) (suc i) zero x e f = omega arith
get_elem?-none (y ∷ ys) (suc i) (suc j) x e f = omega (arith, get_elem?-none ys i j x e f)

module _ (os : Os) (n : ℕ) where
  -- The children in front of the iterator were found running.
  record IsChecked (i : ℕ) (d : Daemon) : Type 0 where
    later : n ≤ length d.calls
    checked :
        (j : ℕ) (c : ℤ)
        → j < i
        → get_elem? d.m_children j ≡ some c
        → was_running os n c d.calls ≡ true

  -- More calls, and another list with the same front.
  IsChecked-same :
      (i : ℕ) (d t : Daemon)
      → ((c : ℤ) → was_running os n c d.calls ≡ true → was_running os n c t.calls ≡ true)
      → n ≤ length t.calls
      → ((j : ℕ) → j < i → get_elem? t.m_children j ≡ get_elem? d.m_children j)
      → IsChecked i d
      → IsChecked i t
  IsChecked-same i d t calls later front at = record {
    later = later;
    checked = λ j c h e. calls c (at.checked j c h (sym (front j h) ∙ e));
  }

  noticed :
      (i : ℕ) (pid : ℤ) (signal : Option ℕ) (d : Daemon)
      → n ≤ length d.calls
      → (n ≤ length (buried i pid signal d).calls)
        × ((c : ℤ)
            → was_running os n c d.calls ≡ true
            → was_running os n c (buried i pid signal d).calls ≡ true)
  noticed i pid signal d h = at_lookup (lookup pid d.m_booster_pid_to_invoker_pid) signal
    where
      at_lookup :
          (o : Option ℤ) (signal : Option ℕ)
          → (n
              ≤ length
                  (elim o as (λ _. History) [ none ↦ d.calls | some p ↦ notice signal p d.calls ]))
            × ((c : ℤ)
                → was_running os n c d.calls ≡ true
                → was_running os n c (elim o [ none ↦ d.calls | some p ↦ notice signal p d.calls ])
                  ≡ true)
      at_lookup none signal = (h, λ c e. e)
      at_lookup (some p) none = (h, λ c e. e)
      at_lookup (some p) (some sig) = (omega arith, λ c e. e)

  bury-IsChecked :
      (i : ℕ) (pid child : ℤ) (signal : Option ℕ) (d t : Daemon)
      → get_elem? d.m_children i ≡ some child
      → IsChecked i d
      → bury os i pid signal (waited child d) ≡ done tt t
      → IsChecked i t
  unfolding set_pid_to_booster
  bury-IsChecked i pid child signal d t there at e =
      let w : Daemon = waited child d in
      let type = type_for_pid pid d.m_booster_type_to_pid in
      let gone : Daemon = buried i pid signal w in
      let (later, calls) = noticed i pid signal w (omega (arith, at.later)) in
      let kept : IsChecked i gone =
        IsChecked-same i d gone
          (λ c r. calls c (was_running-call os n c (Call.waitpid child) d.calls r)) later
          (λ j h. get_elem?-erase_idx d.m_children i j h) at in
      let runs = sym (bury_lem os i pid signal w) ∙ e in
      elim (Bool-cases (type == 0)) [
        | inl no_booster ↦ subst (IsChecked i) (ground (arith, runs, no_booster)) kept
        | inr booster ↦
            let (new, _, forks) =
              fork_booster-done os type booster_sleep_time gone t (ground (arith, runs, booster)) in
            let short = i-le-length-erase_idx d.m_children i child there in
            rw forks (
              IsChecked-same i gone (forked type new gone) (λ c r. r) (omega (arith, later))
                (λ j h. get_elem?-append (erase_idx d.m_children i) (pos new ∷ []) j (omega arith))
                kept)
      ]

  running-IsChecked :
      (i : ℕ) (child : ℤ) (d : Daemon)
      → get_elem? d.m_children i ≡ some child
      → os.wait_result d.calls child ≡ running
      → IsChecked i d
      → IsChecked (i + 1) (waited child d)
  running-IsChecked i child d there is at = record {
    later = omega (arith, at.later);
    checked = λ j c h e. elim (Bool-cases (j == i)) [
      | inl now ↦ ground (arith, now, there, e, is, int_eq_self child, at.later)
      | inr before ↦
          was_running-call os n c (Call.waitpid child) d.calls
            (at.checked j c (ground (arith, before, h)) e)
    ];
  }

  -- Every child was found running, if the loop came to its end.
  abbrev AllRunning : Bool → Daemon → Type 0
  AllRunning false t = Unit {0}
  AllRunning true t = All (λ c. was_running os n c t.calls ≡ true) t.m_children

  reap-AllRunning : IsLoopInvariant os IsChecked AllRunning
  reap-AllRunning = record {
    no_fuel = λ i d at. tt;
    at_end = λ i d there at.
        All-get_elem? d.m_children
          λ j c h. at.checked j c (get_elem?-none d.m_children i j c there h) h;
    passes = running-IsChecked;
    buries_dead =
        λ i child signal d t there is at e. bury-IsChecked i child child signal d t there at e;
    buries_failed =
        λ i child d t there is at e. bury-IsChecked i minus_one child none d t there at e;
  }

-- The reaper leaves no child unasked. If only finitely many children are found dead and there is more
-- fuel than rounds left, then reapZombies, when it comes back, has come to the end of its loop,
-- and each child that is then on the list, the new boosters too, was waited for in this call and was
-- found running.
pub reap_zombies-AllRunning :
    (os : Os) (finite : IsFinite os) (fuel : ℕ) (d t : Daemon) (finished : Bool)
    → rounds os finite 0 d < fuel
    → reap_zombies os fuel d ≡ done finished t
    → (finished ≡ true) × All (λ c. was_running os (length d.calls) c t.calls ≡ true) t.m_children
unfolding reap_zombies
reap_zombies-AllRunning os finite fuel d t false enough e =
    absurd (reap_from-ne-done os finite fuel 0 d t enough e)
reap_zombies-AllRunning os finite fuel d t true enough e = (
  refl,
  reap_from-Ends os (IsChecked os (length d.calls)) (AllRunning os (length d.calls))
      (reap-AllRunning os (length d.calls)) fuel 0 d t true
      (record { later = omega arith; checked = λ j c h there. absurd (omega arith) }) e,
)
