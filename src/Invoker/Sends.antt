-- ===== src/Invoker/Sends.antt =====
-- What the invoker's writes put on the wire: the request that the protocol lays out, whatever the
-- launcher answers.
use touch_applauncherd.Common.{
  ℕ, ◌+◌, ◌%◌, ◌^◌, ◌<◌, ◌≡◌, refl, ap, ◌∙◌, List, [], ◌∷◌, ◌++◌, map, some, Text, All, length,
  arith,
}
use touch_applauncherd.Common.Exits.{Run, done, reached, ◌>>◌, pure}
use touch_applauncherd.Common.Int.{ℤ, pos, int_eq_self, to_u32}
use touch_applauncherd.Common.Bytes.{le32}
use touch_applauncherd.Os.{Os, Call, History}
use touch_applauncherd.Wire.{
  Item, byte, rights, put_msg, put_str, put_strs, put_request, magic_of, call_items, sent_onto,
  sent_onto-write,
}
use touch_applauncherd.Invoker.{
  Invoker, log_call, invoke_send_msg, invoke_send_str, invoker_send_magic, invoker_send_name,
  invoker_send_exec, send_argv, invoker_send_args, invoker_send_prio, invoker_send_delay,
  invoker_send_ids, invoker_send_env, invoker_send_io, invoke_recv_msg, invoke_recv_ack,
  invoker_send_end, send_request, prog_prio,
}
use touch_applauncherd.Protocol.{
  invoker_msg_name, invoker_msg_exec, invoker_msg_args, invoker_msg_env, invoker_msg_prio,
  invoker_msg_delay, invoker_msg_ids, invoker_msg_io, invoker_msg_end,
}

-- A string whose size with its NUL fits a word.
abbrev pub FitsWord : Text → Type 0
FitsWord s = length s + 1 < 2 ^ 32

-- The wait for the acknowledgement makes one call, and may end the process.
ack_calls :
    (os : Os) (fd : ℤ) (t : Invoker)
    → (reached ((invoke_recv_ack os fd >> pure tt) t)).calls ≡ Call.read fd 4 ∷ t.calls
unfolding invoke_recv_ack invoke_recv_msg
ack_calls os fd t = ground arith

module _ (dup : List ℤ → List ℤ) (fd : ℤ) where
  -- The step comes back, and has put these items on the wire in front of what comes later.
  pub record Puts (m : Run Invoker (Unit {0})) (items : List Item → List Item) : Type 0 where
    pub after :
        (s : Invoker)
        → (t : Invoker) × (m s ≡ done tt t)
          × ((rest : List Item)
              → sent_onto dup fd t.calls rest ≡ sent_onto dup fd s.calls (items rest))

  Puts-then :
      {m k : Run Invoker (Unit {0})} {f g : List Item → List Item}
      → Puts m f
      → Puts k g
      → Puts (m >> k) (λ rest. f (g rest))
  Puts-then {g = g} p q = record {
    after = λ s.
        let (t, runs, sent) = p.after s in
        let (u, runs', sent') = q.after t in (u, rw runs runs', λ rest. sent' rest ∙ sent (g rest));
  }

  write_lem :
      (bytes : List ℕ) → Puts (log_call (Call.write fd bytes)) (λ rest. map byte bytes ++ rest)
  write_lem bytes = record {
    after = λ s. (
      record s { calls = Call.write fd bytes ∷ s.calls },
      refl,
      sent_onto-write dup fd bytes s.calls,
    );
  }

  sendmsg_lem :
      (io : List ℤ) → Puts (log_call (Call.sendmsg fd io)) (λ rest. rights (dup io) ∷ rest)
  unfolding sent_onto
  sendmsg_lem io = record {
    after = λ s.
        let now : (rest : List Item)
            → call_items dup fd (Call.sendmsg fd io) rest ≡ rights (dup io) ∷ rest =
          λ rest. rw (int_eq_self fd, call_items) in
        (
          record s { calls = Call.sendmsg fd io ∷ s.calls },
          refl,
          λ rest. ap (sent_onto dup fd s.calls) (now rest),
        );
  }

  invoke_send_msg_lem : (m : ℕ) → Puts (invoke_send_msg fd m) (put_msg m)
  unfolding invoke_send_msg put_msg
  invoke_send_msg_lem m = write_lem (le32 m)

  invoke_send_str_lem :
      (str : Text) → FitsWord str → Puts (invoke_send_str fd (some str)) (put_str str)
  unfolding invoke_send_str put_str
  invoke_send_str_lem str h =
      let e : (length str + 1) % 2 ^ 32 ≡ length str + 1 = omega arith in
      rw e (Puts-then (invoke_send_msg_lem (length str + 1)) (write_lem (str ++ 0 ∷ [])))

  send_argv_lem :
      (argv : List Text)
      → All FitsWord argv
      → Puts (send_argv fd (length argv) argv) (put_strs argv)
  unfolding send_argv put_strs
  send_argv_lem [] h = record { after = λ s. (s, refl, λ rest. refl) }
  send_argv_lem (arg ∷ argv) h = Puts-then (invoke_send_str_lem arg h.0) (send_argv_lem argv h.1)

  tagged :
      (tag m : ℕ)
      → Puts
          (do invoke_send_msg fd tag; invoke_send_msg fd m)
          (λ rest. put_msg tag (put_msg m rest))
  tagged tag m = Puts-then (invoke_send_msg_lem tag) (invoke_send_msg_lem m)

  invoker_send_args_lem :
      (argv : List Text)
      → All FitsWord argv
      → Puts
          (invoker_send_args fd (length argv) argv)
          (λ rest. put_msg invoker_msg_args (put_msg (length argv) (put_strs argv rest)))
  unfolding invoker_send_args
  invoker_send_args_lem argv h =
      Puts-then (invoke_send_msg_lem invoker_msg_args)
        (Puts-then (invoke_send_msg_lem (length argv)) (send_argv_lem argv h))

  invoker_send_env_lem :
      (vars : List Text)
      → All FitsWord vars
      → Puts
          (invoker_send_env fd vars)
          (λ rest. put_msg invoker_msg_env (put_msg (length vars) (put_strs vars rest)))
  unfolding invoker_send_env
  invoker_send_env_lem vars h =
      Puts-then (invoke_send_msg_lem invoker_msg_env)
        (Puts-then (invoke_send_msg_lem (length vars)) (send_argv_lem vars h))

  -- The step puts the items on the wire, and whether it then comes back or exits nothing more.
  record Ends (m : Run Invoker (Unit {0})) (items : List Item → List Item) : Type 0 where
    ends :
        (s : Invoker) (rest : List Item)
        → sent_onto dup fd (reached (m s)).calls rest ≡ sent_onto dup fd s.calls (items rest)

  Puts-Ends :
      {m k : Run Invoker (Unit {0})} {f g : List Item → List Item}
      → Puts m f
      → Ends k g
      → Ends (m >> k) (λ rest. f (g rest))
  Puts-Ends {g = g} p q = record {
    ends = λ s rest. let (t, runs, sent) = p.after s in rw runs (q.ends t rest ∙ sent (g rest));
  }

  invoker_send_end_lem : (os : Os) → Ends (invoker_send_end os fd) (put_msg invoker_msg_end)
  unfolding invoker_send_end sent_onto
  invoker_send_end_lem os = record {
    ends = λ s rest.
        let (t, runs, sent) = (invoke_send_msg_lem invoker_msg_end).after s in
        rw runs (ap (λ (h : History). sent_onto dup fd h rest) (ack_calls os fd t) ∙ sent rest);
  }

  -- A request's calls: whatever the launcher answers, the items on the wire are the request.
  pub sent_onto-send_request :
      (os : Os) (argv : List Text) (argv0 prog_name : Text) (options : ℕ) (delay : ℤ)
      (environ : List Text) (s : Invoker) (rest : List Item)
      → All FitsWord argv
      → FitsWord argv0
      → FitsWord prog_name
      → All FitsWord environ
      → sent_onto dup fd
          (reached
            (send_request os fd (length argv) argv argv0 prog_name options delay environ s)).calls
          rest
        ≡ sent_onto dup fd s.calls (
            put_request
              (record {
                options = options;
                name = argv0;
                exec = prog_name;
                args = argv;
                priority = to_u32 (prog_prio os s.calls);
                delay = to_u32 delay;
                uid = to_u32 os.getuid;
                gid = to_u32 os.getgid;
                io = dup (pos 0 ∷ pos 1 ∷ pos 2 ∷ []);
                env = environ;
              })
              rest)
  unfolding send_request put_request invoker_send_magic invoker_send_name invoker_send_exec
      invoker_send_prio invoker_send_delay invoker_send_ids invoker_send_io
  sent_onto-send_request os argv argv0 prog_name options delay environ s rest ok ok0 okp oke =
      let chain = Puts-Ends (invoke_send_msg_lem (magic_of options)) (
        Puts-Ends (Puts-then (invoke_send_msg_lem invoker_msg_name) (invoke_send_str_lem argv0 ok0))
          (Puts-Ends
            (Puts-then (invoke_send_msg_lem invoker_msg_exec) (invoke_send_str_lem prog_name okp))
            (Puts-Ends (invoker_send_args_lem argv ok) (
              Puts-Ends (tagged invoker_msg_prio (to_u32 (prog_prio os s.calls))) (
                Puts-Ends (tagged invoker_msg_delay (to_u32 delay)) (
                  Puts-Ends
                    (Puts-then (invoke_send_msg_lem invoker_msg_ids) (
                      Puts-then (invoke_send_msg_lem (to_u32 os.getuid))
                        (invoke_send_msg_lem (to_u32 os.getgid))))
                    (Puts-Ends
                      (Puts-then (invoke_send_msg_lem invoker_msg_io)
                        (sendmsg_lem (pos 0 ∷ pos 1 ∷ pos 2 ∷ [])))
                      (Puts-Ends (invoker_send_env_lem environ oke)
                        (invoker_send_end_lem os))))))))) in
      chain.ends s rest
