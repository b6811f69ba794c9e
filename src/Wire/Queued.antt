-- ===== src/Wire/Queued.antt =====
-- A system on which the assumptions about a stream hold: its only socket hands out a fixed queue.
-- The tests run on it.
use touch_applauncherd.Common.{
  ℕ, zero, suc, true, false, ◌≡◌, refl, ap, ◌∙◌, List, [], ◌∷◌, ◌++◌, map, none, some, ◌+◌, ◌*◌,
  codes, if◌then◌else◌, length, drop,
}
use touch_applauncherd.Common.Int.{ℤ, pos, int_eq}
use touch_applauncherd.Os.{
  Os, Call, History, failed, got, RecvmsgResult, recvmsg_failed, received, in_parent, running,
  connection,
}
use touch_applauncherd.Wire.{Item, byte, rights, consumes, Stream}

abbrev pub left_over : List Item → ℤ → History → List Item
left_over input fd [] = input
left_over input fd (Call.read f n ∷ h) =
    if int_eq f fd then drop n (left_over input fd h) else left_over input fd h
left_over input fd (Call.recvmsg f ∷ h) =
    if int_eq f fd then drop 1 (left_over input fd h) else left_over input fd h
left_over input fd (c ∷ h) = left_over input fd h

abbrev pub take_bytes : ℕ → List Item → List ℕ
take_bytes zero items = []
take_bytes (suc n) [] = []
take_bytes (suc n) (byte b ∷ items) = b ∷ take_bytes n items
take_bytes (suc n) (rights io ∷ items) = []

abbrev pub queue_recvmsg : List Item → RecvmsgResult
queue_recvmsg [] = recvmsg_failed
queue_recvmsg (byte b ∷ items) = received 0 none
queue_recvmsg (rights io ∷ items) =
    received 0 (some (record { cmsg_len = 28; cmsg_level = 1; cmsg_type = 1; fds = io }))

-- Descriptor 5 is the socket with the queue; everything else succeeds.
abbrev pub queue_os : List Item → Os
queue_os input = record {
  accept_fd = λ h f. pos 5;
  read_result =
      λ h f n. if int_eq f (pos 5) then got (take_bytes n (left_over input (pos 5) h)) else failed;
  fresh = λ h n. [];
  write_ok = λ h f bytes. true;
  recvmsg_result = λ h f. queue_recvmsg (left_over input (pos 5) h);
  cmsg_len_io = 28;
  sol_socket = 1;
  scm_rights = 1;
  putenv_ok = λ h v. true;
  getpid = pos 77;
  peer_pid = λ h f. some (pos 42);
  socket_fd = λ h. pos 9;
  unlink_ok = λ h p. true;
  bind_ok = λ h f p. true;
  listen_ok = λ h f. true;
  fork_result = λ h. in_parent (suc (length h));
  wait_result = λ h p. running;
  get_priority = λ h. (false, pos 0);
  getuid = pos 1000;
  getgid = pos 100;
  open_lock_fd = λ h. pos 3;
  set_lock_ok = λ h f. true;
  booster_plugin_dir = codes "/usr/lib";
  single_instance_path = codes "/usr/lib/si.so";
  glob_paths = λ p. none;
  dlopen_handle = λ p. none;
  dlsym = λ handle name. some (handle * 10 + length name);
  call_char = λ f. b'm';
  call_text = λ f. codes "/tmp/boostm";
  kill_ok = λ h p s. true;
  set_priority_ok = λ h n. true;
  getegid = 100;
  boosted_group = none;
  open_fd = λ h p. pos 6;
  basename = λ s. s;
  getenv = λ h name. none;
  lock_result = λ h f name. true;
  activate_result = λ h f name. true;
  main_result = λ h f argc argv. pos 0;
  loop_event = λ h. connection;
  socketpair_ok = λ h. true;
  pipe_ends = λ h. some (pos 20, pos 21);
  dup_fd = λ h fd. pos 1;
  setsid_ok = λ h. true;
  execve_ok = λ h p. true;
  access_ok = λ h p. true;
  cwd = codes "/home";
  stat_result = λ h p. some true;
  chdir_ok = λ h path. true;
  mkdir_ok = λ h path. true;
  chmod_ok = λ h path. true;
  connect_ok = λ h fd path. true;
}

pub take_bytes_lem :
    (bytes : List ℕ) (rest : List Item) → take_bytes (length bytes) (map byte bytes ++ rest) ≡ bytes
take_bytes_lem [] rest = refl
take_bytes_lem (b ∷ bytes) rest = ap (◌∷◌ b) (take_bytes_lem bytes rest)

pub drop_bytes :
    (bytes : List ℕ) (rest : List Item) → drop (length bytes) (map byte bytes ++ rest) ≡ rest
drop_bytes [] rest = refl
drop_bytes (b ∷ bytes) rest = drop_bytes bytes rest

pub left_over_other :
    (input : List Item) (fd : ℤ) (h : History) (c : Call)
    → consumes fd c ≡ false
    → left_over input fd (c ∷ h) ≡ left_over input fd h
left_over_other input fd h (Call.read f n) e = rw e
left_over_other input fd h (Call.recvmsg f) e = rw e
left_over_other input fd h c e = refl

abbrev pub queue_stream : (input : List Item) → Stream (queue_os input) (pos 5)
queue_stream input = record {
  pending = left_over input (pos 5);
  read_pending =
      λ h bytes rest e. ap got (ap (take_bytes (length bytes)) e ∙ take_bytes_lem bytes rest);
  pending-read = λ h bytes rest e. ap (drop (length bytes)) e ∙ drop_bytes bytes rest;
  recvmsg_pending = λ h io rest e three. ap queue_recvmsg e;
  pending-recvmsg = λ h io rest e. ap (drop 1) e;
  pending_other = left_over_other input (pos 5);
}
