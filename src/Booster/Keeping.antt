-- ===== src/Booster/Keeping.antt =====
-- What `launchProcess` of src/launcherlib/booster.cpp leaves alone: the connection and the sockets.
use touch_applauncherd.Common.{ℕ, ◌+◌, ◌≡◌, Bool, true, false, List, [], ◌∷◌, arith}
use touch_applauncherd.Common.Exits.{Run, reached, reached-bind, ◌>>=◌, pure, get, when}
use touch_applauncherd.Common.Int.{ℤ, pos, is_pos}
use touch_applauncherd.Os.{Os, Call}
use touch_applauncherd.Booster.{Booster, log_call}
use touch_applauncherd.Booster.Running.{
  dup_io, restore_priority, change_ids, reset_oom_adj, load_main, set_pwd, call_entry, free_argv,
  launch_process,
}

-- The connection and the sockets are as they were.
abbrev pub Same : Booster → Booster → Type 0
Same b t = (t.m_connection ≡ b.m_connection) × (t.m_socket_hash ≡ b.m_socket_hash)

-- Code that leaves them alone, whether it comes back or ends the process.
pub record Keeps {A : Type 0} (m : Run Booster A) : Type 0 where
  pub keeps : (s b : Booster) → Same s b → Same s (reached (m b))

Keeps-bind :
    {A B : Type 0} (m : Run Booster A) (f : A → Run Booster B)
    → Keeps m
    → ((a : A) → Keeps (f a))
    → Keeps (m >>= f)
Keeps-bind m f first next = record {
  keeps = λ s b same. reached-bind (Same s) m f b (first.keeps s b same) (λ a. (next a).keeps s);
}

Keeps-when : (b : Bool) (m : Run Booster (Unit {0})) → Keeps m → Keeps (when b m)
Keeps-when true m k = k
Keeps-when false m k = record { keeps = λ s b same. same }

log_call-Keeps : (c : Call) → Keeps (log_call c)
log_call-Keeps c = record { keeps = λ s b same. same }

get-Keeps : Keeps get
get-Keeps = record { keeps = λ s b same. same }

pure-Keeps : {A : Type 0} (a : A) → Keeps (pure a)
pure-Keeps a = record { keeps = λ s b same. same }

dup_io-Keeps : (i : ℕ) (fds : List ℤ) → Keeps (dup_io i fds)
unfolding dup_io
dup_io-Keeps i [] = record { keeps = λ s b same. same }
dup_io-Keeps i (fd ∷ fds) =
    Keeps-bind _ _
      (Keeps-when (is_pos fd) _ (
        Keeps-bind _ _ (log_call-Keeps (Call.dup2 fd (pos i))) λ _. log_call-Keeps (Call.close fd)))
      λ _. dup_io-Keeps (i + 1) fds

module _ (os : Os) where
  restore_priority-Keeps : Keeps (restore_priority os)
  unfolding restore_priority
  restore_priority-Keeps = record { keeps = λ s b same. ground arith }

  change_ids-Keeps : Keeps (change_ids os)
  unfolding change_ids
  change_ids-Keeps = record { keeps = λ s b same. ground arith }

  reset_oom_adj-Keeps : Keeps (reset_oom_adj os)
  unfolding reset_oom_adj
  reset_oom_adj-Keeps = record { keeps = λ s b same. ground arith }

  load_main-Keeps : Keeps (load_main os)
  unfolding load_main
  load_main-Keeps = record { keeps = λ s b same. ground arith }

  set_pwd-Keeps : Keeps (set_pwd os)
  unfolding set_pwd
  set_pwd-Keeps = record { keeps = λ s b same. ground arith }

  call_entry-Keeps : Keeps (call_entry os)
  unfolding call_entry
  call_entry-Keeps = record { keeps = λ s b same. ground arith }

  free_argv-Keeps : Keeps (free_argv os)
  unfolding free_argv
  free_argv-Keeps = record { keeps = λ s b same. ground arith }

  pub launch_process-Keeps : Keeps (launch_process os)
  unfolding launch_process
  launch_process-Keeps = Keeps-bind _ _ restore_priority-Keeps λ _.
      Keeps-bind _ _ change_ids-Keeps λ _. Keeps-bind _ _ reset_oom_adj-Keeps λ _.
        Keeps-bind _ _ load_main-Keeps λ handle. Keeps-bind _ _ get-Keeps λ b.
          Keeps-bind _ _ (dup_io-Keeps 0 b.m_app_data.m_io_descriptors) λ _.
            Keeps-bind _ _ set_pwd-Keeps λ _. Keeps-bind _ _ call_entry-Keeps λ ret_val.
              Keeps-bind _ _ free_argv-Keeps
                λ _. Keeps-bind _ _ (log_call-Keeps (Call.dlclose handle)) λ _. pure-Keeps ret_val
