-- ===== src/Launch.antt =====
-- The two ends of the protocol together: what the invoker sends (src/invoker/invoker.c) is what the
-- booster's connection receives (src/launcherlib/connection.cpp).
pub mod Returned
pub mod Tests
use touch_applauncherd.Common.{
  ℕ, ◌+◌, ◌^◌, ◌≤◌, ◌<◌, ◌≡◌, refl, ◌∙◌, true, false, List, [], ◌∷◌, map, some, Text, All, length,
  is_empty, arith,
}
use touch_applauncherd.Common.Exits.{reached}
use touch_applauncherd.Common.Int.{ℤ, pos, to_u32, IsInt, to_int-to_u32, to_u32-lt}
use touch_applauncherd.Os.{Os, History}
use touch_applauncherd.AppData.{AppData, str}
use touch_applauncherd.Wire.{Item, Request, Stream, sent_onto, put_request}
use touch_applauncherd.Invoker.{Invoker, send_request, prog_prio}
use touch_applauncherd.Invoker.Sends.{FitsWord, sent_onto-send_request}
use touch_applauncherd.Connection.{Session}
use touch_applauncherd.Connection.Reading.{environ, Live}
use touch_applauncherd.Connection.Receive.{receive_application_data, max_args, max_vars, wants_wait}
use touch_applauncherd.Connection.Requests.{IsSendable, kept}
use touch_applauncherd.Connection.Actions.{answered}
use touch_applauncherd.Connection.Handover.{IsRequest, asked, receive_application_data-put_request}

-- What an invocation is made of: `invoke_remote`'s arguments and the invoker's environment.
pub record Invocation : Type 0 where
  pub argv0 : Text
  pub argv : List Text
  pub prog_name : Text
  pub options : ℕ
  pub respawn_delay : ℤ
  pub environ : List Text

-- Within the bounds of the protocol: 1 to 1023 arguments and variables, strings without NUL of
-- less than 4096 bytes, and a name that is not empty.
pub record IsWithinBounds (v : Invocation) : Type 0 where
  pub options_fit : v.options < 256
  pub name_ok : IsSendable v.argv0
  pub named : is_empty v.argv0 ≡ false
  pub prog_name_ok : IsSendable v.prog_name
  pub some_args : 0 < length v.argv
  pub few_args : length v.argv < max_args
  pub args_ok : All IsSendable v.argv
  pub delay_fits : IsInt v.respawn_delay
  pub some_vars : 0 < length v.environ
  pub few_vars : length v.environ < max_vars
  pub vars_ok : All IsSendable v.environ

All-FitsWord : (ss : List Text) → All IsSendable ss → All FitsWord ss
All-FitsWord [] h = tt
All-FitsWord (s ∷ ss) h = (omega arith, All-FitsWord ss h.1)

module _ (client : Os) (dup : List ℤ → List ℤ) where
  -- The application data that an invocation asks for.
  abbrev pub launched : Invocation → Invoker → AppData → AppData
  launched v i a = record a {
    m_options = v.options;
    m_app_name = v.argv0;
    m_file_name = v.prog_name;
    m_argc = pos (length v.argv);
    m_argv = some (map str v.argv);
    m_prio = prog_prio client i.calls;
    m_delay = v.respawn_delay;
    m_io_descriptors = dup (pos 0 ∷ pos 1 ∷ pos 2 ∷ []);
    m_uid = to_u32 client.getuid;
    m_gid = to_u32 client.getgid;
  }

  -- The calls of the invoker up to the acknowledgement.
  abbrev pub sends : ℤ → Invocation → Invoker → History
  sends peer v i =
      (reached (
        send_request client peer (length v.argv) v.argv v.argv0 v.prog_name v.options
          v.respawn_delay v.environ i)).calls

  request : Invocation → Invoker → Request
  request v i = record {
    options = v.options;
    name = v.argv0;
    exec = v.prog_name;
    args = v.argv;
    priority = to_u32 (prog_prio client i.calls);
    delay = to_u32 v.respawn_delay;
    uid = to_u32 client.getuid;
    gid = to_u32 client.getgid;
    io = dup (pos 0 ∷ pos 1 ∷ pos 2 ∷ []);
    env = v.environ;
  }

  request-IsRequest :
      (v : Invocation) (i : Invoker)
      → IsWithinBounds v
      → length (dup (pos 0 ∷ pos 1 ∷ pos 2 ∷ [])) ≡ 3
      → IsRequest (request v i)
  unfolding request
  request-IsRequest v i ok three = record {
    options_fit = ok.options_fit;
    name_ok = ok.name_ok;
    named = ok.named;
    exec_ok = ok.prog_name_ok;
    some_args = ok.some_args;
    few_args = ok.few_args;
    args_ok = ok.args_ok;
    priority_fits = to_u32-lt (prog_prio client i.calls);
    delay_fits = to_u32-lt v.respawn_delay;
    uid_fits = to_u32-lt client.getuid;
    gid_fits = to_u32-lt client.getgid;
    io_three = three;
    some_vars = ok.some_vars;
    few_vars = ok.few_vars;
    env_ok = ok.vars_ok;
  }

  -- If the connection's queue holds what the invoker sent, and nothing was sent before, then a
  -- booster that reads the request with at least 8 rounds for its action loop reports success, and
  -- its application data hold the invocation: options, name, program, arguments, priority, respawn
  -- delay, descriptors and ids. Its environment is then the invoker's, less the variables without
  -- `=`, and its last calls are the acknowledgement, with its pid if the options ask to wait.
  pub receive_application_data-send_request :
      (os : Os) (fd peer : ℤ) (stream : Stream os fd) (v : Invocation) (i : Invoker) (fuel : ℕ)
      (a : AppData) (s : Session)
      → IsWithinBounds v
      → IsInt (prog_prio client i.calls)
      → length (dup (pos 0 ∷ pos 1 ∷ pos 2 ∷ [])) ≡ 3
      → 8 ≤ fuel
      → s.conn.m_test_mode ≡ false
      → s.conn.m_fd ≡ fd
      → ((rest : List Item) → sent_onto dup peer i.calls rest ≡ rest)
      → stream.pending s.calls ≡ sent_onto dup peer (sends peer v i) []
      → let ((r, b), t) = receive_application_data os fuel a s in
        (r ≡ some true)
        × (b ≡ launched v i a)
        × (environ t.calls ≡ kept v.environ)
        × ((h : History) × (t.calls ≡ answered fd os.getpid (wants_wait v.options) h))
  unfolding request
  receive_application_data-send_request os fd peer stream v i fuel a s ok prio three enough live
        on_fd first queued =
      let ok_args = All-FitsWord v.argv ok.args_ok in
      let ok_vars = All-FitsWord v.environ ok.vars_ok in
      let on_wire : stream.pending s.calls ≡ put_request (request v i) [] =
        queued
        ∙ sent_onto-send_request dup peer client v.argv v.argv0 v.prog_name v.options
            v.respawn_delay v.environ i [] ok_args (omega arith) (omega arith) ok_vars
        ∙ first (put_request (request v i) []) in
      let live' : Live os fd stream s.conn = record { no_test = live; on_fd = on_fd } in
      let (filled, (returns, at, (h, answer))) =
        receive_application_data-put_request os fd stream (request v i) fuel a s
          (request-IsRequest v i ok three) enough live'
          (record { conn_eq = refl; items_eq = on_wire; env_eq = refl }) in
      let signed : asked (request v i) a ≡ launched v i a = λ j. record (launched v i a) {
        m_prio = to_int-to_u32 (prog_prio client i.calls) prio j;
        m_delay = to_int-to_u32 v.respawn_delay ok.delay_fits j;
      } in
      (returns, filled ∙ signed, at.env_eq, (h, answer))
