-- ===== src/Booster/Silent.antt =====
-- What `launchProcess` of src/launcherlib/booster.cpp sends on a connection: nothing.
use touch_applauncherd.Common.{ℕ, ◌+◌, ◌≡◌, refl, false, List, [], ◌∷◌, Text, codes, arith}
use touch_applauncherd.Common.Int.{ℤ, pos, int_eq, is_pos}
use touch_applauncherd.Common.Invariant.{
  Invariant, Invariant-bind, Invariant-pure, Invariant-modify, Invariant-get, Invariant-when,
}
use touch_applauncherd.Os.{Os, Call, History}
use touch_applauncherd.Wire.{Item, sent_onto, call_items}
use touch_applauncherd.Booster.{Booster, log_call}
use touch_applauncherd.Booster.Running.{
  dup_io, restore_priority, change_ids, reset_oom_adj, load_main, set_pwd, call_entry, free_argv,
  launch_process,
}

module _ (os : Os) (dup : List ℤ → List ℤ) (fd : ℤ) (items sent : List Item) where
  -- What the booster has put in front of some items.
  abbrev pub Puts : Booster → Type 0
  Puts b = sent_onto dup fd b.calls items ≡ sent

  log_call-Silent : (c : Call) → call_items dup fd c items ≡ items → Invariant Puts (log_call c)
  unfolding sent_onto
  log_call-Silent c silent = Invariant-modify _ λ s at. rw silent at

  dup_io-Silent : (i : ℕ) (fds : List ℤ) → Invariant Puts (dup_io i fds)
  unfolding dup_io
  dup_io-Silent i [] = Invariant-pure tt
  dup_io-Silent i (f ∷ fds) =
      Invariant-bind _ _
        (Invariant-when (is_pos f) _ (
          Invariant-bind _ _ (log_call-Silent (Call.dup2 f (pos i)) refl)
            λ _. log_call-Silent (Call.close f) refl))
        λ _. dup_io-Silent (i + 1) fds

  restore_priority-Silent : Invariant Puts (restore_priority os)
  unfolding restore_priority sent_onto
  restore_priority-Silent = record { kept = λ s t a at e. ground (arith, at, e) }

  change_ids-Silent : Invariant Puts (change_ids os)
  unfolding change_ids sent_onto
  change_ids-Silent = record { kept = λ s t a at e. ground (arith, at, e) }

  load_main-Silent : Invariant Puts (load_main os)
  unfolding load_main sent_onto
  load_main-Silent = record { kept = λ s t a at e. ground (arith, at, e) }

  set_pwd-Silent : Invariant Puts (set_pwd os)
  unfolding set_pwd sent_onto
  set_pwd-Silent = record { kept = λ s t a at e. ground (arith, at, e) }

  call_entry-Silent : Invariant Puts (call_entry os)
  unfolding call_entry sent_onto
  call_entry-Silent = record { kept = λ s t a at e. ground (arith, at, e) }

  free_argv-Silent : Invariant Puts (free_argv os)
  unfolding free_argv sent_onto
  free_argv-Silent = record { kept = λ s t a at e. ground (arith, at, e) }

  reset_oom_adj-Silent :
      ((h : History) (path : Text) → int_eq (os.open_fd h path) fd ≡ false)
      → Invariant Puts (reset_oom_adj os)
  unfolding reset_oom_adj sent_onto
  reset_oom_adj-Silent fresh = record {
    kept = λ s t a at e. ground (arith, at, e, fresh s.calls (codes "/proc/self/oom_adj"));
  }

  -- If no file that is opened gets the connection's descriptor, launchProcess sends nothing on the connection
  -- until main() of the application has returned.
  pub launch_process-Silent :
      ((h : History) (path : Text) → int_eq (os.open_fd h path) fd ≡ false)
      → Invariant Puts (launch_process os)
  unfolding launch_process
  launch_process-Silent fresh = Invariant-bind _ _ restore_priority-Silent λ _.
      Invariant-bind _ _ change_ids-Silent λ _. Invariant-bind _ _ (reset_oom_adj-Silent fresh) λ _.
        Invariant-bind _ _ load_main-Silent λ handle. Invariant-get _ λ b _.
          Invariant-bind _ _ (dup_io-Silent 0 b.m_app_data.m_io_descriptors) λ _.
            Invariant-bind _ _ set_pwd-Silent λ _. Invariant-bind _ _ call_entry-Silent λ ret_val.
              Invariant-bind _ _ free_argv-Silent λ _.
                Invariant-bind _ _ (log_call-Silent (Call.dlclose handle) refl)
                  λ _. Invariant-pure ret_val
