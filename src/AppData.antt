-- ===== src/AppData.antt =====
-- src/launcherlib/appdata.h and appdata.cpp: what the invoker asks for. The build is the one
-- without HAVE_CREDS. `entry` is the address of main().
use touch_applauncherd.Common.{
  ℕ, zero, suc, Bool, not, ◌==◌, List, [], ◌∷◌, Text, Option, none, some, bit_and,
}
use touch_applauncherd.Common.Int.{ℤ, pos, negsuc, to_int}
use touch_applauncherd.Protocol.{
  invoker_msg_magic_option_dlopen_global, invoker_msg_magic_option_dlopen_deep,
  invoker_msg_magic_option_single_instance,
}

-- A `const char *` in argv: a C string, NULL, or memory that was never written.
pub data Arg : Type 0 where
  str : Text → Arg
  null : Arg
  wild : Arg

pub record AppData : Type 0 where
  pub m_options : ℕ
  pub m_argc : ℤ
  pub m_argv : Option (List Arg)
  pub m_app_name : Text
  pub m_file_name : Text
  pub m_prio : ℤ
  pub m_delay : ℤ
  pub m_entry : Option ℕ
  pub m_io_descriptors : List ℤ
  pub m_gid : ℕ
  pub m_uid : ℕ

unfoldable pub new_app_data : AppData
new_app_data = record {
  m_options = 0;
  m_argc = pos 0;
  m_argv = none;
  m_app_name = [];
  m_file_name = [];
  m_prio = pos 0;
  m_delay = pos 0;
  m_entry = none;
  m_io_descriptors = [];
  m_gid = 0;
  m_uid = 0;
}

unfoldable pub set_options : ℕ → AppData → AppData
set_options options a = record a { m_options = options }

-- The uint32_t field read as an int.
unfoldable pub options : AppData → ℤ
options a = to_int a.m_options

unfoldable pub dlopen_global : AppData → Bool
dlopen_global a = not (bit_and a.m_options invoker_msg_magic_option_dlopen_global == 0)

unfoldable pub dlopen_deep : AppData → Bool
dlopen_deep a = not (bit_and a.m_options invoker_msg_magic_option_dlopen_deep == 0)

unfoldable pub single_instance : AppData → Bool
single_instance a = not (bit_and a.m_options invoker_msg_magic_option_single_instance == 0)

unfoldable pub set_argc : ℤ → AppData → AppData
set_argc argc a = record a { m_argc = argc }

unfoldable pub set_argv : Option (List Arg) → AppData → AppData
set_argv argv a = record a { m_argv = argv }

unfoldable pub set_app_name : Text → AppData → AppData
set_app_name name a = record a { m_app_name = name }

unfoldable pub set_file_name : Text → AppData → AppData
set_file_name name a = record a { m_file_name = name }

unfoldable pub set_priority : ℤ → AppData → AppData
set_priority prio a = record a { m_prio = prio }

unfoldable pub set_delay : ℤ → AppData → AppData
set_delay delay a = record a { m_delay = delay }

unfoldable pub set_entry : Option ℕ → AppData → AppData
set_entry entry a = record a { m_entry = entry }

unfoldable pub set_io_descriptors : List ℤ → AppData → AppData
set_io_descriptors io a = record a { m_io_descriptors = io }

unfoldable pub set_ids : (user_id group_id : ℕ) → AppData → AppData
set_ids user_id group_id a = record a { m_uid = user_id; m_gid = group_id }

-- The loop of `deleteArgv`: `delete` of a text or of NULL is harmless, and of a wild pointer is a
-- fault, `none`. So is a step past the end of the array.
unfoldable pub delete_args : ℕ → List Arg → Option (List Arg)
delete_args zero args = some args
delete_args (suc n) [] = none
delete_args (suc n) (str s ∷ args) = delete_args n args
delete_args (suc n) (null ∷ args) = delete_args n args
delete_args (suc n) (wild ∷ args) = none

abbrev rounds : ℤ → ℕ
rounds (pos n) = n
rounds (negsuc n) = 0

unfoldable pub delete_argv : AppData → Option AppData
unfolding delete_args
delete_argv a = elim a.m_argv [
  | none ↦ some a
  | some args ↦ elim (delete_args (rounds a.m_argc) args) [
    | none ↦ none
    | some rest ↦ some (record a { m_argv = none })
  ]
]
