-- ===== src/Booster/Talking.antt =====
-- What a booster with a request does before it launches the application, in src/launcherlib/booster.cpp:
-- it sends nothing on the connection and keeps what the launch needs.
use touch_applauncherd.Common.{ℕ, ◌≡◌, refl, false, List, Option, none, some, Text, arith}
use touch_applauncherd.Common.Exits.{Run, ◌>>◌, pure, when}
use touch_applauncherd.Common.Int.{ℤ, int_eq}
use touch_applauncherd.Common.Invariant.{
  Invariant, Invariant-bind, Invariant-pure, Invariant-modify, Invariant-get, Invariant-when,
}
use touch_applauncherd.Os.{Os, Call}
use touch_applauncherd.AppData.{Arg, single_instance}
use touch_applauncherd.SingleInstance.{SingleInstancePluginEntry, close_plugin}
use touch_applauncherd.Wire.{Item, sent_onto, call_items}
use touch_applauncherd.Connection.{Connection}
use touch_applauncherd.Booster.{
  Booster, log_call, send_data_to_parent, invokers_pid, is_report_needed,
}
use touch_applauncherd.Booster.Kinds.{Kind}
use touch_applauncherd.Booster.Rename.{rename_process, fill_area, name_process}
use touch_applauncherd.Booster.Initializing.{
  lock_instance, ensure_single_instance, take_over, to_count, args_of,
}

-- What a booster has put in front of some items on a descriptor that is not the daemon's pipe, its
-- connection, and the name of the file to launch.
module _ (os : Os) (dup : List ℤ → List ℤ) (fd : ℤ) (items sent : List Item) (c : Connection)
    (name : Text) where
  pub record Talks (b : Booster) : Type 0 where
    pub puts : sent_onto dup fd b.calls items ≡ sent
    pub connected : b.m_connection ≡ some c
    pub named : b.m_app_data.m_file_name ≡ name
    pub apart : int_eq b.m_pipe_fd.write_end fd ≡ false

  log_call-Talks : (k : Call) → call_items dup fd k items ≡ items → Invariant Talks (log_call k)
  unfolding sent_onto
  log_call-Talks k silent = Invariant-modify _ λ s at. record {
    puts = rw silent at.puts;
    connected = at.connected;
    named = at.named;
    apart = at.apart;
  }

  lock_instance-Talks :
      (entry : SingleInstancePluginEntry) → Invariant Talks (lock_instance os entry)
  unfolding lock_instance sent_onto close_plugin
  lock_instance-Talks entry = record { kept = λ s t a at e. ground (arith, at, e) }

  abbrev locks : Option SingleInstancePluginEntry → Run Booster (Unit {0})
  locks single = elim single [ none ↦ pure tt | some entry ↦ lock_instance os entry ]

  locks-Talks : (single : Option SingleInstancePluginEntry) → Invariant Talks (locks single)
  locks-Talks none = Invariant-pure tt
  locks-Talks (some entry) = lock_instance-Talks entry

  ensure_single_instance-Talks : Invariant Talks (ensure_single_instance os)
  unfolding ensure_single_instance
  ensure_single_instance-Talks =
      Invariant-get (λ b. when (single_instance b.m_app_data) (locks b.m_single_instance))
        λ b _. Invariant-when (single_instance b.m_app_data) _ (locks-Talks b.m_single_instance)

  rename_process-Talks :
      (parent_argv : List Text) (n : ℕ) (argv : List Arg)
      → Invariant Talks (rename_process os parent_argv n argv)
  unfolding rename_process fill_area name_process sent_onto
  rename_process-Talks parent_argv n argv = record { kept = λ s t a at e. ground (arith, at, e) }

  send_data_to_parent-Talks : (kind : Kind) → Invariant Talks (send_data_to_parent os kind)
  unfolding send_data_to_parent sent_onto invokers_pid is_report_needed
  send_data_to_parent-Talks kind = record { kept = λ s t a at e. ground (arith, at, e) }

  -- `take_over` from the booster that it reads.
  abbrev hands_on : Kind → List Text → Booster → Run Booster (Unit {0})
  hands_on kind parent_argv b = do
    rename_process os parent_argv (to_count b.m_app_data.m_argc) (args_of b.m_app_data.m_argv)
    send_data_to_parent os kind
    log_call (Call.close b.m_pipe_fd.write_end)
    log_call Call.pdeathsig_off
    log_call Call.set_dumpable

  hands_on-Talks :
      (kind : Kind) (parent_argv : List Text) (b : Booster)
      → Invariant Talks (hands_on kind parent_argv b)
  hands_on-Talks kind parent_argv b = Invariant-bind _ _ (rename_process-Talks parent_argv _ _) λ _.
      Invariant-bind _ _ (send_data_to_parent-Talks kind) λ _.
        Invariant-bind _ _ (log_call-Talks (Call.close b.m_pipe_fd.write_end) refl) λ _.
          Invariant-bind _ _ (log_call-Talks Call.pdeathsig_off refl)
            λ _. log_call-Talks Call.set_dumpable refl

  -- If the daemon's pipe is not the connection, a booster that takes a request over sends nothing on the
  -- connection, and keeps it and the name of the file.
  pub take_over-Talks :
      (kind : Kind) (parent_argv : List Text) → Invariant Talks (take_over os kind parent_argv)
  unfolding take_over
  take_over-Talks kind parent_argv =
      Invariant-bind _ _ ensure_single_instance-Talks
        λ _. Invariant-get (hands_on kind parent_argv) λ b _. hands_on-Talks kind parent_argv b
