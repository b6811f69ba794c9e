-- ===== src/Launch/Returned.antt =====
-- The end of a launch at both ends: main() of the invoker (src/invoker/invoker.c) around the end of the
-- application in its booster (src/launcherlib/booster.cpp).
mod Tests
use touch_applauncherd.Common.{
  ℕ, Bool, ◌≡◌, refl, false, ap, sym, ◌∙◌, true, List, [], ◌∷◌, some, Text, codes, find_text,
  is_empty, arith,
}
use touch_applauncherd.Common.Exits.{Outcome, done, exited, ◌>>◌, reached, bind-done, exit_success}
use touch_applauncherd.Common.Int.{ℤ, pos, int_eq, is_neg, IsInt, to_u32, to_u32-lt, to_int-to_u32}
use touch_applauncherd.Common.Bytes.{le32}
use touch_applauncherd.Os.{Os, Call, History}
use touch_applauncherd.Protocol.{invoker_msg_ack, invoker_msg_pid, invoker_msg_exit}
use touch_applauncherd.Wire.{Item, Stream, put_msg, sent_onto, sent_onto-write}
use touch_applauncherd.Connection.{Connection}
use touch_applauncherd.Connection.Actions.{answered}
use touch_applauncherd.Booster.{Booster}
use touch_applauncherd.Booster.Report.{connect}
use touch_applauncherd.Daemon.{Pipe}
use touch_applauncherd.MDeclarativeCache.{Qt}
use touch_applauncherd.Booster.Kinds.{Kind}
use touch_applauncherd.Booster.Initializing.{
  prepare, receive_request, take_over, go_on, initialize, live,
}
use touch_applauncherd.Booster.Silent.{launch_process-Silent}
use touch_applauncherd.Booster.Talking.{Talks, take_over-Talks}
use touch_applauncherd.Booster.Running.{launch_process, run}
use touch_applauncherd.Booster.Status.{Reports, finished, run-Reports, sent_onto-reported}
use touch_applauncherd.Invoker.{Invoker}
use touch_applauncherd.Invoker.Search.{search_program}
use touch_applauncherd.Invoker.Options.{
  is_unknown, is_some, Numbers, Options, default_options, parse_options, main,
}
use touch_applauncherd.Invoker.Exit.{put_answer, socket_path, main-exit_status}

-- The answer to an invoker that waits, on the wire.
sent_onto-answered :
    (dup : List ℤ → List ℤ) (fd pid : ℤ) (h : History) (items : List Item)
    → sent_onto dup fd (answered fd pid true h) items
      ≡ sent_onto dup fd h
          (put_msg invoker_msg_ack (put_msg invoker_msg_pid (put_msg (to_u32 pid) items)))
unfolding put_msg
sent_onto-answered dup fd pid h items =
    let acked = Call.write fd (le32 invoker_msg_ack) ∷ h in
    sent_onto-write dup fd (le32 (to_u32 pid)) (Call.write fd (le32 invoker_msg_pid) ∷ acked) items
    ∙ sent_onto-write dup fd (le32 invoker_msg_pid) acked _
    ∙ sent_onto-write dup fd (le32 invoker_msg_ack) h _

-- A booster that serves the request of an invoker that waits on `fd`: from its start `a` it gets to `b`
-- with the request, and to `d` when it has taken it over; main() of the application returns in `t`.
module _ (booster : Os) (dup : List ℤ → List ℤ) (fd : ℕ) (qt : Qt) (kind : Kind) (fuel : ℕ)
    (parent_argv : List Text) (pipe : Pipe) (socket_fd : ℤ) (boot_mode : Bool) where
  pub record Serves (c : Connection) (a b d t : Booster) (ret_val : ℤ) : Type 0 where
    pub receives :
        (prepare booster qt kind parent_argv pipe boot_mode
            >> receive_request booster kind socket_fd fuel)
          a
        ≡ done (some true) b
    pub connected : b.m_connection ≡ some c
    pub reports : Reports booster fd c
    pub named : is_empty b.m_app_data.m_file_name ≡ false
    -- What the booster has sent on the connection is the answer to the request.
    pub only_answered :
        (items : List Item)
        → sent_onto dup (pos fd) b.calls items
          ≡ sent_onto dup (pos fd) (answered (pos fd) booster.getpid true []) items
    -- The pipe to the daemon and the files that are opened have other descriptors.
    pub apart : int_eq b.m_pipe_fd.write_end (pos fd) ≡ false
    pub fresh : (h : History) (path : Text) → int_eq (booster.open_fd h path) (pos fd) ≡ false
    pub takes_over : take_over booster kind parent_argv b ≡ done tt d
    pub returns : launch_process booster d ≡ done ret_val t
    pub is_int : IsInt ret_val

  module _ (c : Connection) (a b d t : Booster) (ret_val : ℤ) (at : Serves c a b d t ret_val) where
    taken_over :
        (items : List Item)
        → Talks booster dup
            (pos fd)
            items
            (sent_onto dup (pos fd) b.calls items)
            c
            b.m_app_data.m_file_name
            d
    taken_over items =
        (take_over-Talks booster dup (pos fd) items _ c b.m_app_data.m_file_name kind
            parent_argv).kept
          b d tt (record { puts = refl; connected = at.connected; named = refl; apart = at.apart })
          at.takes_over

    reconnected : connect c d ≡ d
    reconnected = λ j. record d { m_connection = sym (taken_over []).connected j }

    run-finished : run booster d ≡ done tt (finished booster fd c ret_val t)
    run-finished =
        ap (run booster) (sym reconnected)
        ∙ run-Reports booster fd c d t ret_val (ap is_empty (taken_over []).named ∙ at.named)
            at.reports (ap (launch_process booster) reconnected ∙ at.returns)

    live-finished :
        live booster qt kind fuel parent_argv pipe socket_fd boot_mode a
        ≡ exited exit_success (finished booster fd c ret_val t)
    unfolding live initialize go_on
    live-finished =
        let (x, u, prepares, gets) =
          bind-done (prepare booster qt kind parent_argv pipe boot_mode)
            (λ _. receive_request booster kind socket_fd fuel) a b (some true) at.receives in
        rw prepares (rw gets (rw at.takes_over (rw run-finished refl)))

    -- What the booster has sent on the connection when it ends.
    sent_onto-finished :
        sent_onto dup (pos fd) (finished booster fd c ret_val t).calls []
        ≡ put_answer true (to_u32 booster.getpid) invoker_msg_exit (to_u32 ret_val) []
    unfolding put_msg le32 sent_onto
    sent_onto-finished =
        let quiet : (items : List Item)
            → sent_onto dup (pos fd) t.calls items ≡ sent_onto dup (pos fd) b.calls items =
          λ items.
            (launch_process-Silent booster dup (pos fd) items _ at.fresh).kept d t ret_val
              (taken_over items).puts at.returns in
        sent_onto-reported booster dup fd ret_val t []
        ∙ quiet _
        ∙ at.only_answered _
        ∙ sent_onto-answered dup (pos fd) booster.getpid [] _

    -- A booster gets a request over a connection whose invoker waits, answers it and sends nothing else,
    -- takes the request over, and launches the application, whose main() returns an int; the pipe to
    -- the daemon and the files that are opened have other descriptors. The invoker's main() is called
    -- by its name, with options that it gets through, that name a type and let it wait; the program is
    -- found and is a file, and the connection to the type's booster succeeds, over which what that
    -- booster sends until its end arrives. Then the booster reports that value, closes all and exits with
    -- success, whatever the value is, and the invoker's main() returns what the application's main()
    -- returned.
    pub main-live :
        (client : Os) (peer : ℤ) (stream : Stream client peer) (numbers : Numbers)
        (argv0 arg prog_name : Text) (opts : List (ℕ × Text)) (args environ : List Text)
        (o : Options) (s i : Invoker)
        → is_some (find_text (codes "invoker") argv0) ≡ true
        → parse_options numbers opts default_options ≡ done tt o
        → o.wait_term ≡ true
        → search_program client arg
            (record s { calls = Call.putenv (codes "POSIXLY_CORRECT=1") ∷ s.calls })
          ≡ done prog_name i
        → client.stat_result i.calls prog_name ≡ some true
        → is_unknown o.app_type ≡ false
        → is_neg peer ≡ false
        → client.socket_fd (Call.stat prog_name ∷ i.calls) ≡ peer
        → client.connect_ok
            (Call.socket ∷ Call.stat prog_name ∷ i.calls)
            peer
            (socket_path o.app_type)
          ≡ true
        → let end = live booster qt kind fuel parent_argv pipe socket_fd boot_mode a in
          stream.pending i.calls ≡ sent_onto dup (pos fd) (reached end).calls []
          → (end ≡ exited exit_success (finished booster fd c ret_val t))
            × (u : Invoker) × (main client numbers argv0 opts (arg ∷ args) environ s
                ≡ done ret_val u)
    main-live client peer stream numbers argv0 arg prog_name opts args environ o s i named gets
          waits finds is_file known open_fd made connects wire =
        let pid = to_u32 booster.getpid in
        let there : stream.pending i.calls
            ≡ put_answer o.wait_term pid invoker_msg_exit (to_u32 ret_val) [] =
          wire
          ∙ ap (λ (o : Outcome Booster Bool). sent_onto dup (pos fd) (reached o).calls [])
              live-finished
          ∙ sent_onto-finished
          ∙ ap (λ w. put_answer w pid invoker_msg_exit (to_u32 ret_val) []) (sym waits) in
        let (u, runs) =
          main-exit_status client peer stream numbers argv0 arg prog_name opts args environ o pid
            invoker_msg_exit (to_u32 ret_val) [] s i named gets finds is_file known open_fd made
            connects (to_u32-lt booster.getpid) (omega arith) (to_u32-lt ret_val) there in
        (
          live-finished,
          u,
          runs ∙ ap (λ (r : ℤ). done r u) (rw waits (to_int-to_u32 ret_val at.is_int)),
        )
