-- ===== src/Protocol.antt =====
-- src/common/protocol.h: the words of the protocol between the invoker and a booster.
use touch_applauncherd.Common.{ℕ}

abbrev pub invoker_msg_mask : ℕ
invoker_msg_mask = 0xffff0000

abbrev pub invoker_msg_magic : ℕ
invoker_msg_magic = 0xb0070000

abbrev pub invoker_msg_magic_version_mask : ℕ
invoker_msg_magic_version_mask = 0x0000ff00

abbrev pub invoker_msg_magic_version : ℕ
invoker_msg_magic_version = 0x00000300

abbrev pub invoker_msg_magic_option_mask : ℕ
invoker_msg_magic_option_mask = 0x000000ff

abbrev pub invoker_msg_magic_option_wait : ℕ
invoker_msg_magic_option_wait = 0x00000001

abbrev pub invoker_msg_magic_option_dlopen_global : ℕ
invoker_msg_magic_option_dlopen_global = 0x00000002

abbrev pub invoker_msg_magic_option_dlopen_deep : ℕ
invoker_msg_magic_option_dlopen_deep = 0x00000004

abbrev pub invoker_msg_magic_option_single_instance : ℕ
invoker_msg_magic_option_single_instance = 0x00000008

abbrev pub invoker_msg_name : ℕ
invoker_msg_name = 0x5a5e0000

abbrev pub invoker_msg_exec : ℕ
invoker_msg_exec = 0xe8ec0000

abbrev pub invoker_msg_args : ℕ
invoker_msg_args = 0xa4650000

abbrev pub invoker_msg_env : ℕ
invoker_msg_env = 0xe5710000

abbrev pub invoker_msg_prio : ℕ
invoker_msg_prio = 0xa1ce0000

abbrev pub invoker_msg_delay : ℕ
invoker_msg_delay = 0xb2de0012

abbrev pub invoker_msg_ids : ℕ
invoker_msg_ids = 0xb2df4000

abbrev pub invoker_msg_io : ℕ
invoker_msg_io = 0x10fd0000

abbrev pub invoker_msg_end : ℕ
invoker_msg_end = 0xdead0000

abbrev pub invoker_msg_pid : ℕ
invoker_msg_pid = 0x1d1d0000

abbrev pub invoker_msg_exit : ℕ
invoker_msg_exit = 0xe4170000

abbrev pub invoker_msg_ack : ℕ
invoker_msg_ack = 0x600d0000

abbrev pub invoker_msg_bad_creds : ℕ
invoker_msg_bad_creds = 0x60035800
