-- ===== src/Invoker/Tests.antt =====
-- The invoker's command line and its search in PATH on small inputs.
use touch_applauncherd.Common.{◌≡◌, refl, true, false, text_eq, [], ◌∷◌, List, some, codes, arith}
use touch_applauncherd.Common.Exits.{reached, done}
use touch_applauncherd.Common.Int.{pos, minus_one, to_int}
use touch_applauncherd.Os.{Os, Call}
use touch_applauncherd.Wire.Queued.{queue_os, queue_stream}
use touch_applauncherd.Wire.{Item, Stream}
use touch_applauncherd.Protocol.{invoker_msg_exit}
use touch_applauncherd.Invoker.{Invoker}
use touch_applauncherd.Invoker.Reports.{
  report_syslog, report_none, report_warning, report_error, new_reports,
}
use touch_applauncherd.Invoker.Reports.Opened.{
  Operation, sets_output, reports, dies, apply_all, IsInOrder, apply_all-IsInOrder,
}
use touch_applauncherd.Invoker.Search.{
  is_absolute, search_program, search_env, search_path, tokens, tokens_from, merge_paths, last,
  take_found, from_cwd,
}
use touch_applauncherd.Invoker.Search.Found.{Found, search_program_lem}
use touch_applauncherd.Invoker.Options.{
  Numbers, Options, m_app, qt_app, main, default_options, parse_options, parse_option, parse_type,
  get_delay,
}
use touch_applauncherd.Invoker.Exit.{put_answer, main-exit_status}
use touch_applauncherd.Invoker.Options.Parsed.{IsValid, parse_options-IsValid}

-- PATH has two entries, and only the second has the program.
abbrev system : Os
system = record (queue_os []) {
  getenv = λ h name. some (codes "/bin:rel");
  access_ok = λ h path. text_eq path (codes "rel/a");
}

abbrev invoker : Invoker
invoker = record { g_invoked_pid = minus_one; calls = [] }

abbrev after_search : Invoker
after_search = reached (search_program system (codes "a") invoker)

search_program_lem_example :
    (is_absolute (codes "/home/rel/a") ≡ true) × Found system (codes "a") [] (codes "/home/rel/a")
unfolding search_program search_env search_path tokens tokens_from merge_paths last take_found
    from_cwd
search_program_lem_example =
    search_program_lem system (codes "a") (codes "/home/rel/a") invoker after_search refl refl

-- Every number is read as 3.
abbrev numbers : Numbers
numbers = record { strtoul = λ s. (false, 3); ulong_max = 0 }

abbrev parsed : Options
parsed = record {
  app_type = qt_app;
  magic_options = 2;
  wait_term = false;
  delay = 0;
  respawn_delay = 3;
}

parse_options-IsValid_example : IsValid parsed
unfolding parse_options parse_option parse_type get_delay default_options
parse_options-IsValid_example =
    parse_options-IsValid numbers
      ((b't', codes "qt") ∷ (b'n', []) ∷ (b'r', codes "3") ∷ (b'G', []) ∷ []) parsed refl

-- A booster that answers, with the pid 77 and the status 3.
abbrev answer : List Item
answer = put_answer true 77 invoker_msg_exit 3 []

abbrev answering : Os
answering = record (queue_os answer) { socket_fd = λ h. pos 5 }

abbrev answering_stream : Stream answering (pos 5)
answering_stream =
    let stream = queue_stream answer in
    record {
      pending = stream.pending;
      read_pending = stream.read_pending;
      pending-read = stream.pending-read;
      recvmsg_pending = stream.recvmsg_pending;
      pending-recvmsg = stream.pending-recvmsg;
      pending_other = stream.pending_other;
    }

abbrev with_type : Options
with_type = record parsed { app_type = m_app; magic_options = 1; wait_term = true }

abbrev after_putenv : Invoker
after_putenv = record invoker { calls = Call.putenv (codes "POSIXLY_CORRECT=1") ∷ [] }

main-exit_status_example :
    (u : Invoker) × (main answering numbers
        (codes "invoker")
        ((b't', codes "m") ∷ [])
        (codes "/bin/a" ∷ [])
        []
        invoker
      ≡ done (pos 3) u)
unfolding parse_options parse_option parse_type default_options search_program to_int
main-exit_status_example =
    main-exit_status answering (pos 5) answering_stream numbers (codes "invoker") (codes "/bin/a")
      (codes "/bin/a") ((b't', codes "m") ∷ []) [] [] with_type 77 invoker_msg_exit 3 [] invoker
      after_putenv refl refl refl refl refl refl refl refl (omega arith) (omega arith) (omega arith)
      refl

-- Reports on the console and then in the log, and the end when nothing is reported any more.
abbrev operations : List Operation
operations =
    reports report_error (codes "one")
    ∷ sets_output report_syslog
    ∷ reports report_warning (codes "two")
    ∷ sets_output report_none
    ∷ dies 1 (codes "three")
    ∷ []

apply_all-IsInOrder_example : IsInOrder (reached (apply_all operations new_reports))
unfolding new_reports
apply_all-IsInOrder_example =
    apply_all-IsInOrder operations new_reports (record { open_for_syslog = refl; in_order = refl })
