-- ===== src/Connection/Reading.antt =====
-- recvMsg and recvStr of src/launcherlib/connection.cpp on a stream in which words and strings were
-- queued.
use touch_applauncherd.Common.{
  ℕ, suc, ◌+◌, ◌-◌, ◌^◌, ◌<◌, ◌≡◌, sym, ap, ◌∙◌, Bool, true, false, List, [], ◌∷◌, ◌++◌, map,
  append_assoc, Option, some, Text, NoNul, c_str-append, length, length-append, drop, set_at, Step,
  le→ltb_false, ◌>>=◌, arith,
}
use native.Mathlib.Nat.{le_refl}
use touch_applauncherd.Common.Int.{ℤ}
use touch_applauncherd.Common.Bytes.{le32, from_le32-le32, length-le32}
use touch_applauncherd.Os.{Os, Call, History, ReadResult, got}
use touch_applauncherd.Wire.{Item, byte, put_msg, put_str, Stream}
use touch_applauncherd.Connection.{
  Connection, Session, read, recv_msg, recv_str, recv_body, str_len_max, text_of, word_read,
}

-- The environment that the calls so far have made, first variable first.
abbrev pub change_env : Call → List Text → List Text
change_env Call.clearenv vars = []
change_env (Call.putenv var) vars = vars ++ var ∷ []
change_env _ vars = vars

unfoldable pub environ : History → List Text
environ [] = []
environ (c ∷ h) = change_env c (environ h)

-- A body with its NUL, read into fresh memory, is the string.
text_of_lem :
    (str : Text) (block : List ℕ)
    → NoNul str
    → text_of (got (str ++ 0 ∷ [])) block (length str + 1) ≡ some str
text_of_lem str block h =
    let rest = drop (length str + 1) block in
    let last : length str + 1 - 1 ≡ length str = omega arith in
    rw (
      length-append str (0 ∷ []),
      le→ltb_false (length str + 1) (length str + 1) (le_refl _),
      last,
      append_assoc str (0 ∷ []) rest,
      set_at str rest 0 0,
      c_str-append str rest h,
    )

module _ (os : Os) (fd : ℤ) (stream : Stream os fd) where
  open stream use {pending, read_pending, pending-read, pending_other}

  -- A session with a given connection, items still to be read, and environment.
  pub record At (c : Connection) (items : List Item) (env : List Text) (s : Session) : Type 0 where
    pub conn_eq : s.conn ≡ c
    pub items_eq : pending s.calls ≡ items
    pub env_eq : environ s.calls ≡ env

  -- The step comes back with `a`, in such a session.
  abbrev pub Yields :
      {A : Type 0} → Step Session A → Session → A → Connection → List Item → List Text → Type 0
  Yields m s a c items env = (t : Session) × (m s ≡ (a, t)) × At c items env t

  pub Yields-bind :
      {A B : Type 0} (m : Step Session A) (f : A → Step Session B) (s : Session) {a : A} {b : B}
      {c d : Connection} {items rest : List Item} {env vars : List Text}
      → Yields m s a c items env
      → ((t : Session) → At c items env t → Yields (f a) t b d rest vars)
      → Yields (m >>= f) s b d rest vars
  Yields-bind m f s (t, runs, at) k = let (u, runs', at') = k t at in (u, rw runs runs', at')

  -- A connection that talks to the stream.
  pub record Live (c : Connection) : Type 0 where
    pub no_test : c.m_test_mode ≡ false
    pub on_fd : c.m_fd ≡ fd

  pub Live-kept :
      {c d : Connection} → Live c → d.m_test_mode ≡ c.m_test_mode → d.m_fd ≡ c.m_fd → Live d
  Live-kept live e f = record { no_test = e ∙ live.no_test; on_fd = f ∙ live.on_fd }

  pub fd_eq :
      (s : Session) {c : Connection} {items : List Item} {env : List Text}
      → Live c
      → At c items env s
      → s.conn.m_fd ≡ fd
  fd_eq s live at = ap (λ (c : Connection). c.m_fd) at.conn_eq ∙ live.on_fd

  pub test_eq :
      (s : Session) {c : Connection} {items : List Item} {env : List Text}
      → Live c
      → At c items env s
      → s.conn.m_test_mode ≡ false
  test_eq s live at = ap (λ (c : Connection). c.m_test_mode) at.conn_eq ∙ live.no_test

  read_lem :
      (bytes : List ℕ) (n : ℕ) (s : Session) {c : Connection} {rest : List Item} {env : List Text}
      → length bytes ≡ n
      → Live c
      → At c (map byte bytes ++ rest) env s
      → Yields (read os n) s (got bytes) c rest env
  unfolding read environ
  read_lem bytes n s {rest = rest} size live at =
      let on_fd : s.conn.m_fd ≡ fd = fd_eq s live at in
      let there = at.items_eq in
      (
        record s { calls = Call.read s.conn.m_fd n ∷ s.calls },
        cc (read_pending s.calls bytes rest there),
        record {
          conn_eq = at.conn_eq;
          items_eq = rw (on_fd, ← size) (pending-read s.calls bytes rest there);
          env_eq = at.env_eq;
        },
      )

  recv_msg_reads :
      (old : ℕ) (s : Session)
      → s.conn.m_test_mode ≡ false
      → recv_msg os old s ≡ (word_read (read os 4 s).0, (read os 4 s).1)
  unfolding recv_msg
  recv_msg_reads old s live = ground arith

  word_read-le32 : (m : ℕ) → m < 2 ^ 32 → word_read (got (le32 m)) ≡ (true, m)
  word_read-le32 m h = rw (length-le32 m) (ap (λ (w : ℕ). (true, w)) (from_le32-le32 m h))

  pub recv_msg_lem :
      (old m : ℕ) (s : Session) {c : Connection} {rest : List Item} {env : List Text}
      → m < 2 ^ 32
      → Live c
      → At c (put_msg m rest) env s
      → Yields (recv_msg os old) s (true, m) c rest env
  unfolding put_msg
  recv_msg_lem old m s h live at =
      let (t, runs, at') = read_lem (le32 m) 4 s (length-le32 m) live at in
      (
        t,
        recv_msg_reads old s (test_eq s live at)
            ∙ ap (λ (p : ReadResult × Session). (word_read p.0, p.1)) runs
            ∙ ap (λ (v : Bool × ℕ). (v, t)) (word_read-le32 m h),
        at',
      )

  recv_body_lem :
      (str : Text) (s : Session) {c : Connection} {rest : List Item} {env : List Text}
      → NoNul str
      → Live c
      → At c (map byte (str ++ 0 ∷ []) ++ rest) env s
      → Yields (recv_body os (length str + 1)) s (some str) c rest env
  unfolding recv_body
  recv_body_lem str s h live at =
      let size = length str + 1 in
      let (t, runs, at') =
        read_lem (str ++ 0 ∷ []) size s (length-append str (0 ∷ []) ∙ omega arith) live at in
      (
        t,
        ap (λ (p : ReadResult × Session). (text_of p.0 (os.fresh s.calls size) size, p.1)) runs
            ∙ ap (λ (v : Option Text). (v, t)) (text_of_lem str (os.fresh s.calls size) h),
        at',
      )

  recv_str_reads :
      (n : ℕ) (s t : Session)
      → s.conn.m_test_mode ≡ false
      → recv_msg os 0 s ≡ ((true, suc n), t)
      → n < str_len_max
      → recv_str os s ≡ recv_body os (suc n) t
  unfolding recv_str
  recv_str_reads n s t live e h = ground arith

  pub recv_str_lem :
      (str : Text) (s : Session) {c : Connection} {rest : List Item} {env : List Text}
      → NoNul str
      → length str < str_len_max
      → Live c
      → At c (put_str str rest) env s
      → Yields (recv_str os) s (some str) c rest env
  unfolding put_str
  recv_str_lem str s h short live at =
      let (t, runs, at') = recv_msg_lem 0 (length str + 1) s (omega arith) live at in
      let (u, runs', at'') = recv_body_lem str t h live at' in
      let e : length str + 1 ≡ suc (length str) = omega arith in
      (
        u,
        recv_str_reads (length str) s t (test_eq s live at)
              (runs ∙ ap (λ (n : ℕ). ((true, n), t)) e) short
            ∙ ap (λ (n : ℕ). recv_body os n t) (sym e)
            ∙ runs',
        at'',
      )
