-- ===== src/Invoker/Exit.antt =====
-- main() of src/invoker/invoker.c, by the status that it returns.
use touch_applauncherd.Common.{
  ℕ, ◌^◌, ◌<◌, ◌≡◌, refl, ◌∙◌, Bool, true, false, ◌==◌, if◌then◌else◌, List, [], ◌∷◌, some, Text,
  codes, find_text, length, arith, Bool-cases, inl, inr,
}
use touch_applauncherd.Common.Exits.{done}
use touch_applauncherd.Common.Int.{ℤ, pos, minus_one, is_neg, int_eq_iff, to_int}
use touch_applauncherd.Os.{Os, Call}
use touch_applauncherd.Protocol.{invoker_msg_ack, invoker_msg_pid}
use touch_applauncherd.Wire.{Item, put_msg, Stream}
use touch_applauncherd.Booster.Kinds.{m_booster, qt_booster, q_declarative_booster, socket_id}
use touch_applauncherd.Booster.Kinds.MBooster
use touch_applauncherd.Booster.Kinds.QtBooster
use touch_applauncherd.Booster.Kinds.QDeclarativeBooster
use touch_applauncherd.Invoker.{Invoker, invoke_remote}
use touch_applauncherd.Invoker.Answers.{exit_status, send_request-Acks, wait_for_lem}
use touch_applauncherd.Invoker.Search.{search_program}
use touch_applauncherd.Invoker.Options.{
  AppType, m_app, qt_app, qdecl_app, unknown_app, is_unknown, is_some, Numbers, Options,
  default_options, parse_options, parsed, invoker_init, invoke, run_program, main,
}

-- What a booster answers: the acknowledgement, and to an invoker that waits its pid, and two words more.
abbrev pub put_answer : (waits : Bool) (pid word value : ℕ) → List Item → List Item
put_answer true pid word value rest =
    put_msg invoker_msg_ack
      (put_msg invoker_msg_pid (put_msg pid (put_msg word (put_msg value rest))))
put_answer false pid word value rest = put_msg invoker_msg_ack rest

-- The socket of the booster for each type of application.
abbrev pub socket_path : AppType → Text
socket_path m_app = socket_id m_booster
socket_path qt_app = socket_id qt_booster
socket_path qdecl_app = socket_id q_declarative_booster
socket_path unknown_app = []

module _ (os : Os) (fd : ℤ) (stream : Stream os fd) where
  invoke_remote_lem :
      (argc : ℕ) (argv : List Text) (argv0 prog_name : Text) (options : ℕ) (waits : Bool)
      (delay : ℤ) (environ : List Text) (p w v : ℕ) (rest : List Item) (s : Invoker)
      → p < 2 ^ 32
      → w < 2 ^ 32
      → v < 2 ^ 32
      → stream.pending s.calls ≡ put_answer waits p w v rest
      → (t : Invoker) × (invoke_remote os fd argc argv argv0 prog_name options waits delay environ s
          ≡ done (if waits then exit_status w v else pos 0) t)
  unfolding invoke_remote
  invoke_remote_lem argc argv argv0 prog_name options true delay environ p w v rest s hp hw hv
        there =
      let (t, runs, left) =
        (send_request-Acks os fd stream argc argv argv0 prog_name options delay environ).acked s _
          there in
      let (u, waits, _) = wait_for_lem os fd stream p w v rest t hp hw hv left in (u, rw runs waits)
  invoke_remote_lem argc argv argv0 prog_name options false delay environ p w v rest s hp hw hv
        there =
      let (t, runs, left) =
        (send_request-Acks os fd stream argc argv argv0 prog_name options delay environ).acked s
          rest there in
      (t, rw runs refl)

  -- A connection to the socket of a known type.
  invoker_init_lem :
      (app_type : AppType) (s : Invoker)
      → is_unknown app_type ≡ false
      → is_neg fd ≡ false
      → os.socket_fd s.calls ≡ fd
      → os.connect_ok (Call.socket ∷ s.calls) fd (socket_path app_type) ≡ true
      → invoker_init os app_type s
        ≡ done fd
            (record s { calls = Call.connect fd (socket_path app_type) ∷ Call.socket ∷ s.calls })
  unfolding invoker_init socket_id MBooster.socket_id QtBooster.socket_id
      QDeclarativeBooster.socket_id MBooster.plugin QtBooster.plugin QDeclarativeBooster.plugin
  invoker_init_lem m_app s known open_fd made connects = ground (arith, made, open_fd, connects)
  invoker_init_lem qt_app s known open_fd made connects = ground (arith, made, open_fd, connects)
  invoker_init_lem qdecl_app s known open_fd made connects = ground (arith, made, open_fd, connects)
  invoker_init_lem unknown_app s known open_fd made connects = absurd cc

  invoke_lem :
      (o : Options) (argv : List Text) (argv0 prog_name : Text) (environ : List Text) (p w v : ℕ)
      (rest : List Item) (s : Invoker)
      → is_unknown o.app_type ≡ false
      → is_neg fd ≡ false
      → os.socket_fd s.calls ≡ fd
      → os.connect_ok (Call.socket ∷ s.calls) fd (socket_path o.app_type) ≡ true
      → p < 2 ^ 32
      → w < 2 ^ 32
      → v < 2 ^ 32
      → stream.pending s.calls ≡ put_answer o.wait_term p w v rest
      → (t : Invoker) × (invoke os o argv argv0 prog_name environ s
          ≡ done (if o.wait_term then exit_status w v else pos 0) t)
  unfolding invoke
  invoke_lem o argv argv0 prog_name environ p w v rest s known open_fd made connects hp hw hv
        there =
      let connected : Invoker = record s {
        calls = Call.connect fd (socket_path o.app_type) ∷ Call.socket ∷ s.calls;
      } in
      let inits : invoker_init os o.app_type s ≡ done fd connected =
        invoker_init_lem o.app_type s known open_fd made connects in
      let still : stream.pending connected.calls ≡ put_answer o.wait_term p w v rest =
        stream.pending_other (Call.socket ∷ s.calls) _ refl
        ∙ stream.pending_other s.calls Call.socket refl
        ∙ there in
      let (t, runs) =
        invoke_remote_lem (length argv) argv argv0 prog_name o.magic_options o.wait_term
          (to_int o.respawn_delay) environ p w v rest connected hp hw hv still in
      (
        record t { calls = Call.close fd ∷ t.calls },
        ground (arith, inits, runs, open_fd, int_eq_iff fd minus_one),
      )

  -- The exit status. When main() of the invoker is called by its name with options that it gets through
  -- and that name a type, when the program is found and is a file, and when the connection to the
  -- socket of the type's booster succeeds, then it returns: if it is to wait, the value that the
  -- booster reports after the acknowledgement and its pid, or 250 if another word than the report's
  -- comes there; if it is not to wait, 0 once the request is acknowledged.
  pub main-exit_status :
      (numbers : Numbers) (argv0 arg prog_name : Text) (opts : List (ℕ × Text))
      (args environ : List Text) (o : Options) (p w v : ℕ) (rest : List Item) (s t : Invoker)
      → is_some (find_text (codes "invoker") argv0) ≡ true
      → parse_options numbers opts default_options ≡ done tt o
      → search_program os arg
          (record s { calls = Call.putenv (codes "POSIXLY_CORRECT=1") ∷ s.calls })
        ≡ done prog_name t
      → os.stat_result t.calls prog_name ≡ some true
      → is_unknown o.app_type ≡ false
      → is_neg fd ≡ false
      → os.socket_fd (Call.stat prog_name ∷ t.calls) ≡ fd
      → os.connect_ok (Call.socket ∷ Call.stat prog_name ∷ t.calls) fd (socket_path o.app_type)
        ≡ true
      → p < 2 ^ 32
      → w < 2 ^ 32
      → v < 2 ^ 32
      → stream.pending t.calls ≡ put_answer o.wait_term p w v rest
      → (u : Invoker) × (main os numbers argv0 opts (arg ∷ args) environ s
          ≡ done (if o.wait_term then exit_status w v else pos 0) u)
  unfolding main run_program parsed
  main-exit_status numbers argv0 arg prog_name opts args environ o p w v rest s t named gets finds
        is_file known open_fd made connects hp hw hv there =
      let stated : Invoker = record t { calls = Call.stat prog_name ∷ t.calls } in
      let (u, runs) =
        invoke_lem o (arg ∷ args) arg prog_name environ p w v rest stated known open_fd made
          connects hp hw hv (stream.pending_other t.calls (Call.stat prog_name) refl ∙ there) in
      elim (Bool-cases (o.delay == 0)) [
        | inl at_once ↦ (u, ground (arith, named, gets, finds, is_file, known, runs, at_once))
        | inr later ↦ (
          record u { calls = Call.sleep (pos o.delay) ∷ u.calls },
          ground (arith, named, gets, finds, is_file, known, runs, later),
        )
      ]
