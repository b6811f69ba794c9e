-- ===== src/Launch/Tests.antt =====
-- A launch of one program from the invoker's writes to the booster's application data.
use touch_applauncherd.Common.{◌≡◌, refl, true, false, List, [], ◌∷◌, none, some, codes, arith}
use touch_applauncherd.Common.Int.{ℤ, pos, minus_one}
use touch_applauncherd.Os.{Os, History}
use touch_applauncherd.AppData.{new_app_data}
use touch_applauncherd.Wire.{Item, sent_onto}
use touch_applauncherd.Wire.Queued.{queue_os, queue_stream}
use touch_applauncherd.Invoker.{Invoker}
use touch_applauncherd.Connection.{Session}
use touch_applauncherd.Connection.Reading.{environ}
use touch_applauncherd.Connection.Receive.{receive_application_data, wants_wait}
use touch_applauncherd.Connection.Requests.{kept}
use touch_applauncherd.Connection.Actions.{answered}
use touch_applauncherd.Launch.{
  Invocation, IsWithinBounds, launched, sends, receive_application_data-send_request,
}

abbrev pub invocation : Invocation
invocation = record {
  argv0 = codes "/bin/a";
  argv = codes "/bin/a" ∷ codes "-x" ∷ [];
  prog_name = codes "/bin/a";
  options = 1;
  respawn_delay = pos 3;
  environ = codes "PWD=/" ∷ codes "junk" ∷ [];
}

invocation-IsWithinBounds : IsWithinBounds invocation
invocation-IsWithinBounds = ground arith

abbrev pub invoker : Invoker
invoker = record { g_invoked_pid = minus_one; calls = [] }

-- Descriptors 0, 1 and 2 arrive as 10, 11 and 12.
abbrev pub renumbered : List ℤ → List ℤ
renumbered io = pos 10 ∷ pos 11 ∷ pos 12 ∷ []

abbrev pub client : Os
client = queue_os []

abbrev pub queue : List Item
queue = sent_onto renumbered (pos 4) (sends client renumbered (pos 4) invocation invoker) []

abbrev session : Session
session = record {
  conn = record {
    m_test_mode = false;
    m_fd = pos 5;
    m_cur_socket = pos 3;
    m_file_name = [];
    m_argc = 0;
    m_argv = none;
    m_io = minus_one ∷ minus_one ∷ minus_one ∷ [];
    m_priority = 0;
    m_delay = 0;
    m_send_pid = false;
    m_gid = 0;
    m_uid = 0;
  };
  calls = [];
}

receive_application_data-send_request_example :
    let ((r, b), t) = receive_application_data (queue_os queue) 8 new_app_data session in
    (r ≡ some true)
    × (b ≡ launched client renumbered invocation invoker new_app_data)
    × (environ t.calls ≡ kept invocation.environ)
    × ((h : History) × (t.calls ≡ answered (pos 5) (pos 77) (wants_wait invocation.options) h))
unfolding sent_onto
receive_application_data-send_request_example =
    receive_application_data-send_request client renumbered (queue_os queue) (pos 5) (pos 4)
      (queue_stream queue) invocation invoker 8 new_app_data session invocation-IsWithinBounds
      (omega arith) refl (omega arith) refl refl (λ rest. refl) refl
