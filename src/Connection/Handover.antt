-- ===== src/Connection/Handover.antt =====
-- receiveApplicationData of src/launcherlib/connection.cpp on a request as the protocol lays it out.
use touch_applauncherd.Common.{
  ℕ, ◌^◌, ◌≤◌, ◌<◌, ◌≡◌, refl, ap, ◌∙◌, Bool, true, false, not, ◌&&◌, ltb, ◌==◌, holds_below,
  holds_below-at, List, [], ◌∷◌, map, Option, some, Text, All, length, is_empty, bit_and, arith,
  subst, if◌then◌else◌,
}
use mathlib.Core.Bool.{xor}
use touch_applauncherd.Common.Int.{ℤ, pos, to_int, to_int-small, int_eq, minus_one}
use touch_applauncherd.Os.{Os}
use touch_applauncherd.AppData.{
  AppData, str, set_options, options, set_app_name, set_file_name, set_priority, set_delay,
  set_argc, set_argv, set_io_descriptors, set_ids,
}
use touch_applauncherd.Wire.{Item, put_msg, put_str, put_request, magic_of, Request, Stream}
use touch_applauncherd.Connection.{Connection, Session}
use touch_applauncherd.Connection.Reading.{At, Live, Live-kept}
use touch_applauncherd.Connection.Receive.{
  receive_actions, receive_application_data, hand_over, wants_wait, max_args, max_vars,
  receive_magic, receive_app_name,
}
use touch_applauncherd.Connection.Requests.{
  IsSendable, kept, receive_magic_lem, receive_app_name_lem,
}
use touch_applauncherd.Connection.Actions.{
  Action, exec, args, prio, delay, ids, io, set_env, put_action, put_all, IsReceivable, wishes,
  wishes_env, starts_action,
}
use touch_applauncherd.Connection.Actions.Carried.{Concluded, Served, receive_actions-put_all}
use touch_applauncherd.Protocol.{invoker_msg_name, invoker_msg_magic_option_mask, invoker_msg_end}

-- A request that the receiver takes: sizes within its bounds and words that fit.
pub record IsRequest (q : Request) : Type 0 where
  pub options_fit : q.options < 256
  pub name_ok : IsSendable q.name
  pub named : is_empty q.name ≡ false
  pub exec_ok : IsSendable q.exec
  pub some_args : 0 < length q.args
  pub few_args : length q.args < max_args
  pub args_ok : All IsSendable q.args
  pub priority_fits : q.priority < 2 ^ 32
  pub delay_fits : q.delay < 2 ^ 32
  pub uid_fits : q.uid < 2 ^ 32
  pub gid_fits : q.gid < 2 ^ 32
  pub io_three : length q.io ≡ 3
  pub some_vars : 0 < length q.env
  pub few_vars : length q.env < max_vars
  pub env_ok : All IsSendable q.env

-- The connection once the actions of a request have been carried out.
abbrev pub given : Request → Connection → Connection
given q c = record c {
  m_file_name = q.exec;
  m_argc = length q.args;
  m_argv = some (map str q.args);
  m_priority = q.priority;
  m_delay = q.delay;
  m_uid = q.uid;
  m_gid = q.gid;
  m_io = q.io;
}

-- What the application data hold then.
abbrev pub asked : Request → AppData → AppData
asked q a = record a {
  m_options = q.options;
  m_app_name = q.name;
  m_file_name = q.exec;
  m_argc = pos (length q.args);
  m_argv = some (map str q.args);
  m_prio = to_int q.priority;
  m_delay = to_int q.delay;
  m_io_descriptors = q.io;
  m_uid = q.uid;
  m_gid = q.gid;
}

-- What an option byte becomes: the magic word is a word, and gives back the byte and its wait bit.
magic_test : ℕ → Bool
magic_test o =
    bit_and (magic_of o) invoker_msg_magic_option_mask == o
    && (not (xor (wants_wait (magic_of o)) (wants_wait o)) && ltb (magic_of o) (2 ^ 32))

magic_table : holds_below magic_test 256 ≡ true
unfolding holds_below magic_test xor
magic_table = refl

magic_of_byte :
    (o : ℕ)
    → o < 256
    → (bit_and (magic_of o) invoker_msg_magic_option_mask ≡ o)
      × (wants_wait (magic_of o) ≡ wants_wait o)
      × (magic_of o < 2 ^ 32)
unfolding magic_test xor
magic_of_byte o h = ground (arith, holds_below-at magic_test 256 o h magic_table)

-- An option byte is not taken for an error.
options_byte :
    (o : ℕ) (a : AppData) → o < 256 → int_eq (options (set_options o a)) minus_one ≡ false
unfolding options set_options to_int
options_byte o a h = ground arith

hand_over-given :
    (q : Request) (c : Connection) (a : AppData)
    → length q.args < max_args
    → hand_over (given q c) (set_app_name q.name (set_options q.options a)) ≡ asked q a
unfolding hand_over set_app_name set_options set_file_name set_priority set_delay set_argc set_argv
    set_io_descriptors set_ids
hand_over-given q c a few = rw (to_int-small (length q.args) (omega arith))

-- The application data after a request that ended, or that was refused.
abbrev pub received_data : Bool → Connection → AppData → AppData
received_data ended c named = if ended then hand_over c named else named

-- The request's actions, in the order in which the invoker sends them.
abbrev pub actions : Request → List Action
actions q =
    exec q.exec
    ∷ args q.args
    ∷ prio q.priority
    ∷ delay q.delay
    ∷ ids q.uid q.gid
    ∷ io q.io
    ∷ set_env q.env
    ∷ []

actions-IsReceivable : (q : Request) → IsRequest q → All IsReceivable (actions q)
actions-IsReceivable q ok =
    let env_ok : All IsReceivable (set_env q.env ∷ []) =
      ((ok.some_vars, ok.few_vars, ok.env_ok), tt) in
    let ids_ok : All IsReceivable (ids q.uid q.gid ∷ io q.io ∷ set_env q.env ∷ []) =
      ((ok.uid_fits, ok.gid_fits), (ok.io_three, env_ok)) in
    (
      ok.exec_ok,
      ((ok.some_args, ok.few_args, ok.args_ok), (ok.priority_fits, (ok.delay_fits, ids_ok))),
    )

put_request-actions :
    (q : Request) (rest : List Item)
    → put_request q rest
      ≡ put_msg (magic_of q.options) (
          put_msg invoker_msg_name
            (put_str q.name (put_all (actions q) (put_msg invoker_msg_end rest))))
unfolding put_request put_all put_action
put_request-actions q rest = refl

module _ (os : Os) (fd : ℤ) (stream : Stream os fd) where
  receive_application_data_runs :
      (fuel o : ℕ) (name : Text) (ended : Bool) (a : AppData) (s t u v : Session)
      → receive_magic os s ≡ (o, t)
      → int_eq (options (set_options o a)) minus_one ≡ false
      → receive_app_name os t ≡ (name, u)
      → is_empty name ≡ false
      → receive_actions os fuel u ≡ (some ended, v)
      → receive_application_data os fuel a s
        ≡ ((some ended, received_data ended v.conn (set_app_name name (set_options o a))), v)
  unfolding receive_application_data set_app_name
  receive_application_data_runs fuel o name ended a s t u v m o_ok n n_ok r =
      ground (arith, m, o_ok, n, n_ok, r)

  Concluded-result :
      (ended : Bool) (c : Connection) (rest : List Item) (vars : List Text)
      (r : Option Bool × Session)
      → Concluded os fd stream ended c rest vars r
      → (r.0 ≡ some ended) × (r.1.conn ≡ c)
  Concluded-result true c rest vars (r, t) (returns, at, answer) = (returns, at.conn_eq)
  Concluded-result false c rest vars (r, t) (returns, at) = (returns, at.conn_eq)

  -- Whatever actions a peer asks for after an option byte and a name that is not empty, and in whatever
  -- order, the connection carries them out one after the other, a later one in the place of an earlier
  -- one of its kind. If the word after them is the end, it answers and hands the result over; if it
  -- is any other word that is no action, the request is refused with no answer and only the options and
  -- the name are stored. The fuel is to be more than the actions; they are within the protocol's bounds.
  pub receive_application_data-put_all :
      (o w : ℕ) (name : Text) (as_sent : List Action) (fuel : ℕ) (a : AppData) (s : Session)
      (rest : List Item) {c : Connection} {vars : List Text}
      → o < 256
      → IsSendable name
      → is_empty name ≡ false
      → All IsReceivable as_sent
      → w < 2 ^ 32
      → starts_action w ≡ false
      → length as_sent < fuel
      → Live os fd stream c
      → At os fd stream c
          (put_msg
            (magic_of o)
            (put_msg invoker_msg_name (put_str name (put_all as_sent (put_msg w rest)))))
          vars
          s
      → let ((r, b), t) = receive_application_data os fuel a s in
        let wished = wishes as_sent (record c { m_send_pid = wants_wait o }) in
        let ended = w == invoker_msg_end in
        (b ≡ received_data ended wished (set_app_name name (set_options o a)))
        × Concluded os fd stream ended wished rest (wishes_env as_sent vars) (r, t)
  receive_application_data-put_all o w name as_sent fuel a s rest {c = c} {vars = vars} o_fits
        name_ok named ok w_fits no_action enough live at =
      let ended = w == invoker_msg_end in
      let c' = record c { m_send_pid = wants_wait o } in
      let wished = wishes as_sent c' in
      let (fit_back, fit_wait, fit_word) = magic_of_byte o o_fits in
      let (t, runs, at1) = receive_magic_lem os fd stream (magic_of o) s fit_word live at in
      let live' : Live os fd stream c' = Live-kept os fd stream live refl refl in
      let at1' =
        subst
          (λ (b : Bool).
            At os fd stream (record c { m_send_pid = b })
              (put_msg invoker_msg_name (put_str name (put_all as_sent (put_msg w rest)))) vars t)
          fit_wait at1 in
      let (u, runs', at2) = receive_app_name_lem os fd stream name t name_ok live' at1' in
      let good =
        receive_actions-put_all os fd stream as_sent fuel w u rest ok w_fits no_action enough live'
          at2 in
      let v = (receive_actions os fuel u).1 in
      let (returns, filled) =
        Concluded-result ended wished rest (wishes_env as_sent vars) (receive_actions os fuel u)
          good in
      let whole =
        receive_application_data_runs fuel o name ended a s t u v
          (runs ∙ ap (λ (n : ℕ). (n, t)) fit_back) (options_byte o a o_fits) runs' named
          (ap (λ (r : Option Bool). (r, v)) returns) in
      let at_end : Concluded os fd stream ended wished rest (wishes_env as_sent vars)
          (some ended, v) =
        subst
          (λ (r : Option Bool).
            Concluded os fd stream ended wished rest (wishes_env as_sent vars) (r, v))
          returns good in
      rw whole (
        ap (λ (d : Connection). received_data ended d (set_app_name name (set_options o a))) filled,
        at_end,
      )

  -- A request that is laid out on the stream is read whole.
  pub receive_application_data-put_request :
      (q : Request) (fuel : ℕ) (a : AppData) (s : Session) {c : Connection} {rest : List Item}
      {env : List Text}
      → IsRequest q
      → 8 ≤ fuel
      → Live os fd stream c
      → At os fd stream c (put_request q rest) env s
      → let ((r, b), t) = receive_application_data os fuel a s in
        (b ≡ asked q a)
        × Served os fd stream
            (given q (record c { m_send_pid = wants_wait q.options }))
            rest
            (kept q.env)
            (r, t)
  receive_application_data-put_request q fuel a s {c = c} {rest = rest} {env = vars} ok enough live
        at =
      let (filled, served) =
        receive_application_data-put_all q.options invoker_msg_end q.name (actions q) fuel a s rest
          ok.options_fit ok.name_ok ok.named (actions-IsReceivable q ok) (omega arith) refl
          (omega arith) live
          (subst (λ (items : List Item). At os fd stream c items vars s)
            (put_request-actions q rest) at) in
      (
        filled ∙ hand_over-given q (record c { m_send_pid = wants_wait q.options }) a ok.few_args,
        served,
      )
