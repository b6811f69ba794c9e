-- ===== src/SingleInstancePlugin/Locking.antt =====
-- lock, mkpath and main of src/single-instance/main.cpp.
use touch_applauncherd.Common.{
  ℕ, suc, ◌∙◌, sym, ◌≡◌, refl, ap, subst, ◌⊎◌, Bool, true, false, ◌==◌, if◌then◌else◌, [], ◌∷◌,
  ◌++◌, Text, arith, Bool-cases, inl, inr,
}
use touch_applauncherd.Common.Exits.{
  Run, and_then, Outcome, done, exited, becomes, ◌>>=◌, pure, exit_success, exit_failure,
}
use touch_applauncherd.Common.Int.{minus_one, int_eq}
use touch_applauncherd.Os.{Os, Call, History}
use touch_applauncherd.SingleInstancePlugin.{
  Desktop, Plugin, lock, take_lock, make_part, make_parts, mkpath, ends_part, lock_path,
  lock_path_base, launch, proceed, unlock, activate_existing_instance, raise_window,
  window_id_for_binary,
}

-- The lock that the calls have last asked for was granted: the descriptor and what came before.
abbrev pub HasLock : Os → Text → Plugin → Type 0
HasLock os path p =
    (h : History) × (p.calls ≡ Call.set_lock p.g_lock_fd ∷ Call.open_file path ∷ h)
    × (p.g_lock_fd ≡ os.open_fd h path)
    × (int_eq p.g_lock_fd minus_one ≡ false)
    × (os.set_lock_ok (Call.open_file path ∷ h) p.g_lock_fd ≡ true)

-- The calls of `execve`.
abbrev pub executions : History → ℕ
executions [] = 0
executions (Call.execve path ∷ h) = suc (executions h)
executions (c ∷ h) = executions h

-- Nothing was executed and no window raised.
abbrev pub Quiet : Plugin → Plugin → Type 0
Quiet p t = (executions t.calls ≡ executions p.calls) × (t.raised ≡ p.raised)

-- Code that always comes back and is quiet.
abbrev Returns : {A : Type 0} → Run Plugin A → Plugin → Type 0
Returns {A} m p = (a : A) × (t : Plugin) × (m p ≡ done a t) × Quiet p t

Returns-bind :
    {A B : Type 0} (m : Run Plugin A) (f : A → Run Plugin B) (p : Plugin)
    → Returns m p
    → ((a : A) (t : Plugin) → Returns (f a) t)
    → Returns (m >>= f) p
Returns-bind m f p (a, t, runs, same) next =
    let (b, u, goes_on, kept) = next a t in
    (b, u, ap (and_then f) runs ∙ goes_on, (kept.0 ∙ same.0, kept.1 ∙ same.1))

module _ (os : Os) where
  make_part-Returns : (part : Text) (p : Plugin) → Returns (make_part os part) p
  unfolding make_part
  make_part-Returns part p = elim (Bool-cases (os.mkdir_ok p.calls part)) [
    | inl made ↦ (
      os.chmod_ok (Call.mkdir part ∷ p.calls) part,
      record p { calls = Call.chmod part ∷ Call.mkdir part ∷ p.calls },
      rw made refl,
      (refl, refl),
    )
    | inr failed ↦
        (true, record p { calls = Call.mkdir part ∷ p.calls }, rw failed refl, (refl, refl))
  ]

  make_parts-Returns : (start rest : Text) (p : Plugin) → Returns (make_parts os start rest) p
  unfolding make_parts
  make_parts-Returns start [] p = (true, p, refl, (refl, refl))
  make_parts-Returns start (x ∷ rest) p =
      let part = start ++ x ∷ [] in
      let next = λ (t : Plugin). make_parts-Returns part rest t in
      Returns-bind (if ends_part x rest then make_part os part else pure true) _ p
        (at_part (ends_part x rest) part) (after part next)
    where
      at_part : (b : Bool) (part : Text) → Returns (if b then make_part os part else pure true) p
      at_part true part = make_part-Returns part p
      at_part false part = (true, p, refl, (refl, refl))

      after :
          (part : Text)
          → ((t : Plugin) → Returns (make_parts os part rest) t)
          → (made : Bool) (t : Plugin)
          → Returns (if made then make_parts os part rest else pure false) t
      after part next true t = next t
      after part next false t = (false, t, refl, (refl, refl))

  -- The attempt comes back; if it says that it has the lock, it has.
  take_lock_lem :
      (path : Text) (p : Plugin)
      → (locked : Bool) × (t : Plugin) × (take_lock os path p ≡ done locked t)
        × Quiet p t
        × (locked ≡ true → HasLock os path t)
  unfolding take_lock
  take_lock_lem path p = elim (Bool-cases (int_eq (os.open_fd p.calls path) minus_one)) [
    | inl failed ↦ (
      false,
      record p { g_lock_fd = os.open_fd p.calls path; calls = Call.open_file path ∷ p.calls },
      rw failed refl,
      (refl, refl),
      λ never. absurd cc,
    )
    | inr opened ↦ (
      os.set_lock_ok (Call.open_file path ∷ p.calls) (os.open_fd p.calls path),
      record p {
        g_lock_fd = os.open_fd p.calls path;
        calls = Call.set_lock (os.open_fd p.calls path) ∷ Call.open_file path ∷ p.calls;
      },
      rw opened refl,
      (refl, refl),
      λ granted. (p.calls, refl, refl, opened, granted),
    )
  ]

  lock_lem :
      (name : Text) (p : Plugin)
      → (locked : Bool) × (t : Plugin) × (lock os name p ≡ done locked t)
        × Quiet p t
        × (locked ≡ true → HasLock os (lock_path name) t)
  unfolding lock mkpath
  lock_lem name p =
      let (made, u, first, same) = make_parts-Returns [] (lock_path_base ++ name) p in
      after made u first same
    where
      after :
          (made : Bool) (u : Plugin)
          → make_parts os [] (lock_path_base ++ name) p ≡ done made u
          → Quiet p u
          → (locked : Bool) × (t : Plugin) × (lock os name p ≡ done locked t)
            × Quiet p t
            × (locked ≡ true → HasLock os (lock_path name) t)
      after true u first same =
          let (locked, t, runs, kept, has) = take_lock_lem (lock_path name) u in
          (locked, t, rw first runs, (kept.0 ∙ same.0, kept.1 ∙ same.1), has)
      after false u first same = (false, u, rw first refl, same, λ never. absurd cc)

  -- How main() may end for a binary.
  abbrev pub Ended : Desktop → Text → Plugin → Outcome Plugin ℕ → Type 0
  Ended x name p (becomes what t) =
      (u : Plugin) × HasLock os (lock_path name) u
      × (t ≡ record u { calls = Call.execve name ∷ u.calls })
  Ended x name p (done status t) =
      ((status ≡ exit_success)
        × (executions t.calls ≡ executions p.calls)
        × ((w : ℕ) × (t.raised ≡ w ∷ p.raised)))
      ⊎ ((status ≡ exit_failure)
          × (t.raised ≡ p.raised)
          × ((executions t.calls ≡ executions p.calls)
              ⊎ ((u : Plugin) × HasLock os (lock_path name) u
                  × (t.calls ≡ Call.close u.g_lock_fd ∷ Call.execve name ∷ u.calls)
                  × (t.g_lock_fd ≡ minus_one))))
  Ended x name p (exited status t) = ⊥

  activate_lem :
      (x : Desktop) (name : Text) (p : Plugin)
      → (b : Bool) × (t : Plugin) × (activate_existing_instance x name p ≡ done b t)
        × (executions t.calls ≡ executions p.calls)
        × (((b ≡ true) × ((w : ℕ) × (t.raised ≡ w ∷ p.raised)))
            ⊎ ((b ≡ false) × (t.raised ≡ p.raised)))
  unfolding activate_existing_instance raise_window
  activate_lem x name p = elim (Bool-cases x.has_display) [
    | inr none_there ↦ (false, p, rw none_there refl, refl, inr (refl, refl))
    | inl there ↦ elim (Bool-cases (window_id_for_binary x name == 0)) [
      | inl missing ↦ (false, p, ground (arith, there, missing), refl, inr (refl, refl))
      | inr found ↦ (
        true,
        record p { raised = window_id_for_binary x name ∷ p.raised },
        ground (arith, there, found),
        refl,
        inl (refl, (window_id_for_binary x name, refl)),
      )
    ]
  ]

  proceed-Ended :
      (x : Desktop) (name : Text) (p : Plugin) (locked : Bool) (t : Plugin)
      → Quiet p t
      → (locked ≡ true → HasLock os (lock_path name) t)
      → Ended x name p (proceed os x name locked t)
  unfolding proceed unlock
  proceed-Ended x name p true t same has = elim (Bool-cases (os.execve_ok t.calls name)) [
    | inl runs ↦ rw runs (t, has refl, refl)
    | inr fails ↦
        let (h, asked, at, opened, granted) = has refl in
        rw (fails, opened)
          (inr (refl, same.1, inr (t, (h, asked, at, opened, granted), refl, refl)))
  ]
  proceed-Ended x name p false t same has =
      let (b, u, runs, quiet, ends) = activate_lem x name t in
      elim ends [
        | inl (yes_, (w, raised)) ↦
            rw (runs, yes_) (inl (refl, quiet ∙ same.0, (w, raised ∙ ap (λ ws. w ∷ ws) same.1)))
        | inr (no_, raised) ↦ rw (runs, no_) (inr (refl, raised ∙ same.1, inl (quiet ∙ same.0)))
      ]

  -- Whatever the system answers, main() for a binary ends in one of these ways: the process becomes the
  -- binary, just after it was granted the lock of the binary's lock file, and holds it; or nothing was
  -- executed, a window was raised, and the status is success; or the status is failure, no window was
  -- raised, and either nothing was executed, or the binary could not be executed just after the lock was
  -- granted, and the last call closed the lock file.
  pub launch-Ended : (x : Desktop) (name : Text) (p : Plugin) → Ended x name p (launch os x name p)
  unfolding launch
  launch-Ended x name p =
      let (locked, t, runs, same, has) = lock_lem name p in
      subst (Ended x name p) (sym (ap (and_then (proceed os x name)) runs))
        (proceed-Ended x name p locked t same has)
