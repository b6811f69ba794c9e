-- ===== src/Connection/Requests.antt =====
-- The receive handlers of src/launcherlib/connection.cpp on their parts of a request.
use touch_applauncherd.Common.{
  ℕ, suc, ◌+◌, ◌^◌, ◌<◌, ◌≡◌, refl, sym, ap, ◌∙◌, if◌then◌else◌, inl, inr, true, false, List, [],
  ◌∷◌, ◌++◌, map, append_assoc, append-nil, some, Text, NoNul, All, length, set_at, replicate,
  bit_and, arith, Bool-cases, take_all, ==_self, subst, length-append,
}
use touch_applauncherd.Common.Int.{ℤ}
use touch_applauncherd.Os.{Os, Call, History}
use touch_applauncherd.AppData.{Arg, str, wild}
use touch_applauncherd.Wire.{Item, rights, put_msg, put_str, put_strs, Stream}
use touch_applauncherd.Connection.{Connection, Session, set_conn, str_len_max}
use touch_applauncherd.Connection.Reading.{
  environ, At, Yields, fd_eq, Live, recv_msg_lem, recv_str_lem,
}
use touch_applauncherd.Connection.Receive.{
  receive_magic, receive_app_name, receive_exec, receive_priority, receive_delay, receive_ids,
  receive_argv, receive_args, receive_vars, receive_env, receive_io, bad_magic, wants_wait,
  max_args, max_vars, store_arg, io_of, putenv_sanitize,
}
use touch_applauncherd.Protocol.{invoker_msg_magic_option_mask, invoker_msg_name}

-- A string that fits the protocol.
abbrev pub IsSendable : Text → Type 0
IsSendable s = NoNul s × (length s < str_len_max)

-- The variables that reach the environment.
abbrev pub kept : List Text → List Text
kept [] = []
kept (v ∷ vs) = if putenv_sanitize v then v ∷ kept vs else kept vs

-- The next argument replaces the first entry that was never written.
store_arg-next :
    (pre : List Arg) (n i : ℕ) (arg : Text) (c : Connection)
    → i ≡ length pre
    → c.m_argv ≡ some (pre ++ replicate (suc n) wild)
    → (store_arg i (str arg) c).m_argv ≡ some ((pre ++ str arg ∷ []) ++ replicate n wild)
store_arg-next pre n i arg c e argv = ground (
  arith,
  set_at pre (replicate n wild) wild (str arg),
  append_assoc pre (str arg ∷ []) (replicate n wild),
)

-- No word makes the test of the magic number report an error.
pub bad_magic-false : (magic : ℕ) → bad_magic magic ≡ false
bad_magic-false magic = ground arith

module _ (os : Os) (fd : ℤ) (stream : Stream os fd) where
  -- The session after a change of the connection alone.
  changed :
      (f : Connection → Connection) (s : Session) {c : Connection} {items : List Item}
      {env : List Text}
      → At os fd stream c items env s
      → At os fd stream (f c) items env (set_conn f s)
  changed f s at = record { conn_eq = ap f at.conn_eq; items_eq = at.items_eq; env_eq = at.env_eq }

  pub receive_exec_lem :
      (exec : Text) (s : Session) {c : Connection} {rest : List Item} {env : List Text}
      → IsSendable exec
      → Live os fd stream c
      → At os fd stream c (put_str exec rest) env s
      → Yields os fd stream (receive_exec os) s true (record c { m_file_name = exec }) rest env
  unfolding receive_exec
  receive_exec_lem exec s ok live at =
      let (t, runs, at') = recv_str_lem os fd stream exec s ok.0 ok.1 live at in
      (_, ground (arith, runs), changed (λ d. record d { m_file_name = exec }) t at')

  pub receive_priority_lem :
      (priority : ℕ) (s : Session) {c : Connection} {rest : List Item} {env : List Text}
      → priority < 2 ^ 32
      → Live os fd stream c
      → At os fd stream c (put_msg priority rest) env s
      → Yields os fd stream
          (receive_priority os)
          s
          true
          (record c { m_priority = priority })
          rest
          env
  unfolding receive_priority
  receive_priority_lem priority s h live at =
      let (t, runs, at') = recv_msg_lem os fd stream s.conn.m_priority priority s h live at in
      (_, ground (arith, runs), changed (λ d. record d { m_priority = priority }) t at')

  pub receive_delay_lem :
      (delay : ℕ) (s : Session) {c : Connection} {rest : List Item} {env : List Text}
      → delay < 2 ^ 32
      → Live os fd stream c
      → At os fd stream c (put_msg delay rest) env s
      → Yields os fd stream (receive_delay os) s true (record c { m_delay = delay }) rest env
  unfolding receive_delay
  receive_delay_lem delay s h live at =
      let (t, runs, at') = recv_msg_lem os fd stream s.conn.m_delay delay s h live at in
      (_, ground (arith, runs), changed (λ d. record d { m_delay = delay }) t at')

  pub receive_ids_lem :
      (uid gid : ℕ) (s : Session) {c : Connection} {rest : List Item} {env : List Text}
      → uid < 2 ^ 32
      → gid < 2 ^ 32
      → Live os fd stream c
      → At os fd stream c (put_msg uid (put_msg gid rest)) env s
      → Yields os fd stream (receive_ids os) s true (record c { m_uid = uid; m_gid = gid }) rest env
  unfolding receive_ids
  receive_ids_lem uid gid s {c = c} h k live at =
      let (t, runs, at') = recv_msg_lem os fd stream s.conn.m_uid uid s h live at in
      let set_uid = λ (d : Connection). record d { m_uid = uid } in
      let live' : Live os fd stream (set_uid c) = record {
        no_test = live.no_test;
        on_fd = live.on_fd;
      } in
      let (u, runs', at'') =
        recv_msg_lem os fd stream s.conn.m_gid gid (set_conn set_uid t) k live'
          (changed set_uid t at') in
      (_, ground (arith, runs, runs'), changed (λ d. record d { m_gid = gid }) u at'')

  pub receive_magic_lem :
      (magic : ℕ) (s : Session) {c : Connection} {rest : List Item} {env : List Text}
      → magic < 2 ^ 32
      → Live os fd stream c
      → At os fd stream c (put_msg magic rest) env s
      → Yields os fd stream
          (receive_magic os)
          s
          (bit_and magic invoker_msg_magic_option_mask)
          (record c { m_send_pid = wants_wait magic })
          rest
          env
  unfolding receive_magic
  receive_magic_lem magic s h live at =
      let (t, runs, at') = recv_msg_lem os fd stream 0 magic s h live at in
      (
        _,
        ground (arith, runs, bad_magic-false magic),
        changed (λ d. record d { m_send_pid = wants_wait magic }) t at',
      )

  pub receive_app_name_lem :
      (name : Text) (s : Session) {c : Connection} {rest : List Item} {env : List Text}
      → IsSendable name
      → Live os fd stream c
      → At os fd stream c (put_msg invoker_msg_name (put_str name rest)) env s
      → Yields os fd stream (receive_app_name os) s name c rest env
  unfolding receive_app_name
  receive_app_name_lem name s ok live at =
      let (t, runs, at') = recv_msg_lem os fd stream 0 invoker_msg_name s (omega arith) live at in
      let (u, runs', at'') = recv_str_lem os fd stream name t ok.0 ok.1 live at' in
      (u, ground (arith, runs, runs'), at'')

  receive_argv_lem :
      (args : List Text) (pre : List Arg) (i : ℕ) (s : Session) {c : Connection} {rest : List Item}
      {env : List Text}
      → i ≡ length pre
      → All IsSendable args
      → c.m_argv ≡ some (pre ++ replicate (length args) wild)
      → Live os fd stream c
      → At os fd stream c (put_strs args rest) env s
      → Yields os fd stream
          (receive_argv os (length args) i)
          s
          true
          (record c { m_argv = some (pre ++ map str args) })
          rest
          env
  unfolding receive_argv put_strs
  receive_argv_lem [] pre i s {c = c} e ok argv live at =
      let here : c ≡ record c { m_argv = some (pre ++ []) } = λ j. record c { m_argv = argv j } in
      (s, refl, record { conn_eq = at.conn_eq ∙ here; items_eq = at.items_eq; env_eq = at.env_eq })
  receive_argv_lem (arg ∷ args) pre i s {c = c} {rest = rest} {env = env} e ok argv live at =
      let (t, runs, at') = recv_str_lem os fd stream arg s ok.0.0 ok.0.1 live at in
      let store = store_arg i (str arg) in
      let live' : Live os fd stream (store c) = record {
        no_test = live.no_test;
        on_fd = live.on_fd;
      } in
      let (u, runs', at'') =
        receive_argv_lem args (pre ++ str arg ∷ []) (i + 1) (set_conn store t) {c = store c}
          (omega (arith, length-append pre (str arg ∷ []))) ok.1
          (store_arg-next pre (length args) i arg c e argv) live' (changed store t at') in
      (
        u,
        ground (arith, runs, runs'),
        subst (λ (a : List Arg). At os fd stream (record c { m_argv = some a }) rest env u)
            (append_assoc pre (str arg ∷ []) (map str args)) at'',
      )

  pub receive_args_lem :
      (args : List Text) (s : Session) {c : Connection} {rest : List Item} {env : List Text}
      → 0 < length args
      → length args < max_args
      → All IsSendable args
      → Live os fd stream c
      → At os fd stream c (put_msg (length args) (put_strs args rest)) env s
      → Yields os fd stream
          (receive_args os)
          s
          true
          (record c { m_argc = length args; m_argv = some (map str args) })
          rest
          env
  unfolding receive_args
  receive_args_lem args s {c = c} some_args few ok live at =
      let n = length args in
      let (t, runs, at') = recv_msg_lem os fd stream s.conn.m_argc n s (omega arith) live at in
      let set_argc = λ (d : Connection). record d { m_argc = n } in
      let alloc = λ (d : Connection). record d { m_argv = some (replicate n wild) } in
      let c' = alloc (set_argc c) in
      let live' : Live os fd stream c' = record { no_test = live.no_test; on_fd = live.on_fd } in
      let (u, runs', at'') =
        receive_argv_lem args [] 0 (set_conn alloc (set_conn set_argc t)) {c = c'} refl ok refl
          live' (changed alloc (set_conn set_argc t) (changed set_argc t at')) in
      (u, ground (arith, runs, runs'), at'')

  receive_vars_lem :
      (vars : List Text) (s : Session) {c : Connection} {rest : List Item} {env : List Text}
      → All IsSendable vars
      → Live os fd stream c
      → At os fd stream c (put_strs vars rest) env s
      → Yields os fd stream (receive_vars os (length vars)) s true c rest (env ++ kept vars)
  unfolding receive_vars put_strs environ
  receive_vars_lem [] s {c = c} {rest = rest} {env = env} ok live at =
      (s, refl, subst (λ (e : List Text). At os fd stream c rest e s) (sym (append-nil env)) at)
  receive_vars_lem (v ∷ vs) s {c = c} {rest = rest} {env = env} ok live at =
      let (t, runs, at') = recv_str_lem os fd stream v s ok.0.0 ok.0.1 live at in
      elim (Bool-cases (putenv_sanitize v)) [
        | inl keep ↦
            let t' = record t { calls = Call.putenv v ∷ t.calls } in
            let put : At os fd stream c (put_strs vs rest) (env ++ v ∷ []) t' = record {
              conn_eq = at'.conn_eq;
              items_eq = stream.pending_other t.calls (Call.putenv v) refl ∙ at'.items_eq;
              env_eq = ap (λ (e : List Text). e ++ v ∷ []) at'.env_eq;
            } in
            let (u, runs', at'') = receive_vars_lem vs t' ok.1 live put in
            (
              u,
              ground (arith, runs, runs', keep),
              rw keep (
                  subst (λ (e : List Text). At os fd stream c rest e u)
                    (append_assoc env (v ∷ []) (kept vs)) at''),
            )
        | inr skip ↦
            let (u, runs', at'') = receive_vars_lem vs t ok.1 live at' in
            (u, ground (arith, runs, runs', skip), rw skip at'')
      ]

  pub receive_env_lem :
      (vars : List Text) (s : Session) {c : Connection} {rest : List Item} {env : List Text}
      → 0 < length vars
      → length vars < max_vars
      → All IsSendable vars
      → Live os fd stream c
      → At os fd stream c (put_msg (length vars) (put_strs vars rest)) env s
      → Yields os fd stream (receive_env os) s true c rest (env ++ kept vars)
  unfolding receive_env
  receive_env_lem vars s some_vars few ok live at =
      let (t, runs, at') = recv_msg_lem os fd stream 0 (length vars) s (omega arith) live at in
      let (u, runs', at'') = receive_vars_lem vars t ok live at' in
      (u, ground (arith, runs, runs'), at'')

  io_of_rights :
      (h : History) (io : List ℤ) (rest : List Item)
      → length io ≡ 3
      → stream.pending h ≡ rights io ∷ rest
      → io_of os (os.recvmsg_result h fd) ≡ some io
  io_of_rights h io rest three there = rw (
    stream.recvmsg_pending h io rest there three,
    ==_self os.cmsg_len_io,
    ==_self os.sol_socket,
    ==_self os.scm_rights,
    take_all 3 io three,
  )

  pub receive_io_lem :
      (io : List ℤ) (s : Session) {c : Connection} {rest : List Item} {env : List Text}
      → length io ≡ 3
      → Live os fd stream c
      → At os fd stream c (rights io ∷ rest) env s
      → Yields os fd stream (receive_io os) s true (record c { m_io = io }) rest env
  unfolding receive_io environ
  receive_io_lem io s {rest = rest} three live at =
      let on_fd : s.conn.m_fd ≡ fd = fd_eq os fd stream s live at in
      let t = record s { calls = Call.recvmsg s.conn.m_fd ∷ s.calls } in
      let got_io : io_of os (os.recvmsg_result s.calls s.conn.m_fd) ≡ some io =
        rw on_fd (io_of_rights s.calls io rest three at.items_eq) in
      (
        set_conn (λ d. record d { m_io = io }) t,
        ground (arith, got_io),
        changed (λ d. record d { m_io = io }) t
            (record {
              conn_eq = at.conn_eq;
              items_eq = rw on_fd (stream.pending-recvmsg s.calls io _ at.items_eq);
              env_eq = at.env_eq;
            }),
      )
