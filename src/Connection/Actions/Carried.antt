-- ===== src/Connection/Actions/Carried.antt =====
-- The loop of receiveActions in src/launcherlib/connection.cpp, on actions in any order.
use touch_applauncherd.Common.{
  ℕ, zero, suc, ◌^◌, ◌<◌, ◌≡◌, refl, sym, ap, ◌∙◌, Bool, true, false, ◌==◌, List, [], ◌∷◌, Option,
  none, some, Text, All, length, Step, ◌>>◌, arith, subst, Bool-cases, inl, inr,
}
use touch_applauncherd.Common.Int.{ℤ}
use touch_applauncherd.Os.{Os, Call, History}
use touch_applauncherd.Wire.{Item, put_msg, Stream}
use touch_applauncherd.Connection.{
  Connection, Session, recv_msg, send_msg, send_pid, write, log_call,
}
use touch_applauncherd.Connection.Reading.{
  environ, At, Yields, Live, recv_msg_lem, test_eq, fd_eq, Live-kept,
}
use touch_applauncherd.Connection.Receive.{
  continue, dispatch, finish, receive_actions, receive_exec, receive_args, receive_env,
  receive_priority, receive_delay, receive_io, receive_ids,
}
use touch_applauncherd.Connection.Requests.{
  receive_exec_lem, receive_args_lem, receive_env_lem, receive_priority_lem, receive_delay_lem,
  receive_io_lem, receive_ids_lem,
}
use touch_applauncherd.Protocol.{
  invoker_msg_exec, invoker_msg_args, invoker_msg_env, invoker_msg_prio, invoker_msg_delay,
  invoker_msg_ids, invoker_msg_io, invoker_msg_end,
}
use touch_applauncherd.Connection.Actions.{
  Action, exec, args, prio, delay, ids, io, set_env, put_action, put_all, IsReceivable, wish,
  wish_env, wishes, wishes_env, starts_action, answered,
}

module _ (os : Os) (fd : ℤ) (stream : Stream os fd) where
  actions_step :
      (fuel action : ℕ) (s t u : Session)
      → recv_msg os 0 s ≡ ((true, action), t)
      → dispatch os action t ≡ (none, u)
      → receive_actions os (suc fuel) s ≡ receive_actions os fuel u
  unfolding receive_actions
  actions_step fuel action s t u e d = ground (arith, e, d)

  -- One round of the loop, by what the action's handler does. What holds of the rest of the loop
  -- holds of the whole.
  round :
      (Good : Option Bool × Session → Type 0) (fuel tag : ℕ) (m : Step Session Bool) (s : Session)
      {c d : Connection} {items rest : List Item} {env vars : List Text}
      → tag < 2 ^ 32
      → Live os fd stream c
      → At os fd stream c (put_msg tag items) env s
      → ((t : Session) → dispatch os tag t ≡ continue m t)
      → ((t : Session) → At os fd stream c items env t → Yields os fd stream m t true d rest vars)
      → ((u : Session) → At os fd stream d rest vars u → Good (receive_actions os fuel u))
      → Good (receive_actions os (suc fuel) s)
  round Good fuel tag m s h live at goes handles rest_good =
      let (t, runs, at') = recv_msg_lem os fd stream 0 tag s h live at in
      let (u, runs', at'') = handles t at' in
      subst Good
        (sym (
          actions_step fuel tag s t u runs
            (goes t ∙ ap (λ (p : Bool × Session). (none, p.1)) runs')))
        (rest_good u at'')

  finish_calls :
      (s : Session)
      → s.conn.m_test_mode ≡ false
      → finish os s
        ≡ (some true, record s { calls = answered s.conn.m_fd os.getpid s.conn.m_send_pid s.calls })
  unfolding finish send_msg send_pid write
  finish_calls s live = ground arith

  answered_keeps :
      (pid : ℤ) (waits : Bool) (h : History)
      → (stream.pending (answered fd pid waits h) ≡ stream.pending h)
        × (environ (answered fd pid waits h) ≡ environ h)
  unfolding environ
  answered_keeps pid true h = (
    stream.pending_other _ _ refl ∙ stream.pending_other _ _ refl ∙ stream.pending_other h _ refl,
    refl,
  )
  answered_keeps pid false h = (stream.pending_other h _ refl, refl)

  -- What comes of a request: `return true`, the connection and the environment filled in, and
  -- the answer as the last calls.
  abbrev pub Served : Connection → List Item → List Text → Option Bool × Session → Type 0
  Served c rest env (r, t) =
      (r ≡ some true)
      × At os fd stream c rest env t
      × ((h : History) × (t.calls ≡ answered fd os.getpid c.m_send_pid h))

  -- What comes of a word that is no action: `return false`, and nothing is answered.
  abbrev pub Refused : Connection → List Item → List Text → Option Bool × Session → Type 0
  Refused c rest env (r, t) = (r ≡ some false) × At os fd stream c rest env t

  last_round :
      (fuel : ℕ) (s : Session) {c : Connection} {rest : List Item} {env : List Text}
      → Live os fd stream c
      → At os fd stream c (put_msg invoker_msg_end rest) env s
      → Served c rest env (receive_actions os (suc fuel) s)
  unfolding receive_actions dispatch
  last_round fuel s {c = c} {rest = rest} {env = env} live at =
      let (t, runs, at') = recv_msg_lem os fd stream 0 invoker_msg_end s (omega arith) live at in
      let answer = answered t.conn.m_fd os.getpid t.conn.m_send_pid t.calls in
      let e : answer ≡ answered fd os.getpid c.m_send_pid t.calls =
        ap (λ (f : ℤ). answered f os.getpid t.conn.m_send_pid t.calls)
          (fd_eq os fd stream t live at')
        ∙ ap (λ (d : Connection). answered fd os.getpid d.m_send_pid t.calls) at'.conn_eq in
      let keeps = answered_keeps os.getpid c.m_send_pid t.calls in
      let ends : receive_actions os (suc fuel) s ≡ (some true, record t { calls = answer }) =
        ground (arith, runs, finish_calls t (test_eq os fd stream t live at')) in
      subst (Served c rest env) (sym ends) (
        refl,
        record {
          conn_eq = at'.conn_eq;
          items_eq = ap stream.pending e ∙ keeps.0 ∙ at'.items_eq;
          env_eq = ap environ e ∙ keeps.1 ∙ at'.env_eq;
        },
        (t.calls, e),
      )

  cleared :
      (t : Session) {c : Connection} {items : List Item} {env : List Text}
      → At os fd stream c items env t
      → At os fd stream c items [] (record t { calls = Call.clearenv ∷ t.calls })
  unfolding environ
  cleared t at = record {
    conn_eq = at.conn_eq;
    items_eq = stream.pending_other t.calls Call.clearenv refl ∙ at.items_eq;
    env_eq = refl;
  }

  -- One action, and what holds of the rest of the loop.
  action_round :
      (Good : Option Bool × Session → Type 0) (fuel : ℕ) (a : Action) (s : Session) {c : Connection}
      {rest : List Item} {vars : List Text}
      → IsReceivable a
      → Live os fd stream c
      → At os fd stream c (put_action a rest) vars s
      → ((u : Session)
          → At os fd stream (wish a c) rest (wish_env a vars) u
          → Good (receive_actions os fuel u))
      → Good (receive_actions os (suc fuel) s)
  unfolding put_action dispatch
  action_round Good fuel (exec file) s ok live at =
      round Good fuel invoker_msg_exec (receive_exec os) s (omega arith) live at (λ t. refl)
        λ t a. receive_exec_lem os fd stream file t ok live a
  action_round Good fuel (args ss) s ok live at =
      round Good fuel invoker_msg_args (receive_args os) s (omega arith) live at (λ t. refl)
        λ t a. receive_args_lem os fd stream ss t ok.0 ok.1 ok.2 live a
  action_round Good fuel (prio n) s ok live at =
      round Good fuel invoker_msg_prio (receive_priority os) s (omega arith) live at (λ t. refl)
        λ t a. receive_priority_lem os fd stream n t ok live a
  action_round Good fuel (delay n) s ok live at =
      round Good fuel invoker_msg_delay (receive_delay os) s (omega arith) live at (λ t. refl)
        λ t a. receive_delay_lem os fd stream n t ok live a
  action_round Good fuel (ids uid gid) s ok live at =
      round Good fuel invoker_msg_ids (receive_ids os) s (omega arith) live at (λ t. refl)
        λ t a. receive_ids_lem os fd stream uid gid t ok.0 ok.1 live a
  action_round Good fuel (io fds) s ok live at =
      round Good fuel invoker_msg_io (receive_io os) s (omega arith) live at (λ t. refl)
        λ t a. receive_io_lem os fd stream fds t ok live a
  action_round Good fuel (set_env ss) s ok live at =
      round Good fuel invoker_msg_env (log_call Call.clearenv >> receive_env os) s (omega arith)
        live at (λ t. refl)
        λ t a.
          receive_env_lem os fd stream ss (record t { calls = Call.clearenv ∷ t.calls }) ok.0 ok.1
            ok.2 live (cleared t a)

  wish-Live : (a : Action) {c : Connection} → Live os fd stream c → Live os fd stream (wish a c)
  wish-Live (exec file) live = Live-kept os fd stream live refl refl
  wish-Live (args ss) live = Live-kept os fd stream live refl refl
  wish-Live (prio n) live = Live-kept os fd stream live refl refl
  wish-Live (delay n) live = Live-kept os fd stream live refl refl
  wish-Live (ids uid gid) live = Live-kept os fd stream live refl refl
  wish-Live (io fds) live = Live-kept os fd stream live refl refl
  wish-Live (set_env ss) live = live

  -- A word that is neither an action's nor the end's.
  stray_round :
      (fuel w : ℕ) (s : Session) {c : Connection} {rest : List Item} {vars : List Text}
      → w < 2 ^ 32
      → starts_action w ≡ false
      → (w == invoker_msg_end) ≡ false
      → Live os fd stream c
      → At os fd stream c (put_msg w rest) vars s
      → Refused c rest vars (receive_actions os (suc fuel) s)
  unfolding receive_actions dispatch
  stray_round fuel w s {c = c} {rest = rest} {vars = vars} fits no_action no_end live at =
      let (t, runs, at') = recv_msg_lem os fd stream 0 w s fits live at in
      let ends : receive_actions os (suc fuel) s ≡ (some false, t) = ground (arith, runs) in
      subst (Refused c rest vars) (sym ends) (refl, at')

  -- The end of the actions, by the word that comes in the place of one more.
  abbrev pub Concluded : Bool → Connection → List Item → List Text → Option Bool × Session → Type 0
  Concluded true = Served
  Concluded false = Refused

  word_round :
      (fuel w : ℕ) (s : Session) (rest : List Item) {c : Connection} {vars : List Text}
      → w < 2 ^ 32
      → starts_action w ≡ false
      → Live os fd stream c
      → At os fd stream c (put_msg w rest) vars s
      → Concluded (w == invoker_msg_end) c rest vars (receive_actions os (suc fuel) s)
  word_round fuel w s rest {c = c} {vars = vars} fits no_action live at =
      elim (Bool-cases (w == invoker_msg_end)) [
        | inl end ↦ rw end (
            last_round fuel s live (
              subst (λ (n : ℕ). At os fd stream c (put_msg n rest) vars s) (ground (arith, end))
                at))
        | inr stray ↦ rw stray (stray_round fuel w s fits no_action stray live at)
      ]

  -- The loop of receiveActions carries out the actions that come, whatever they are and in whatever
  -- order, if it has more fuel than there are actions.
  pub receive_actions-put_all :
      (actions : List Action) (fuel w : ℕ) (s : Session) (rest : List Item) {c : Connection}
      {vars : List Text}
      → All IsReceivable actions
      → w < 2 ^ 32
      → starts_action w ≡ false
      → length actions < fuel
      → Live os fd stream c
      → At os fd stream c (put_all actions (put_msg w rest)) vars s
      → Concluded
          (w == invoker_msg_end)
          (wishes actions c)
          rest
          (wishes_env actions vars)
          (receive_actions os fuel s)
  unfolding put_all
  receive_actions-put_all actions zero w s rest ok fits no_action enough live at =
      absurd (omega arith)
  receive_actions-put_all [] (suc fuel) w s rest ok fits no_action enough live at =
      word_round fuel w s rest fits no_action live at
  receive_actions-put_all (a ∷ actions) (suc fuel) w s rest {c = c} {vars = vars} ok fits no_action
        enough live at =
      action_round
        (Concluded (w == invoker_msg_end) (wishes (a ∷ actions) c) rest
          (wishes_env (a ∷ actions) vars))
        fuel a s ok.0 live at
        λ u at'.
          receive_actions-put_all actions fuel w u rest ok.1 fits no_action (omega arith)
            (wish-Live a live) at'
