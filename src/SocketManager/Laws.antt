-- ===== src/SocketManager/Laws.antt =====
-- The operations of src/launcherlib/socketmanager.cpp, by what they do to the table and which calls
-- they make.
use touch_applauncherd.Common.{
  ◌≡◌, ◌≢◌, refl, false, ◌⊎◌, inl, inr, List, [], ◌∷◌, none, some, Text, text_eq, if◌then◌else◌,
  take, arith, Option-cases, Bool-cases,
}
use touch_applauncherd.Common.Exits.{done}
use touch_applauncherd.Common.Int.{ℤ, is_neg, is_pos}
use touch_applauncherd.Common.Map.{lookup, text_key, lookup-insert}
use touch_applauncherd.Os.{Os, Call, History}
use touch_applauncherd.SocketManager.{
  SocketManager, create_socket, init_socket, close_entries, close_all_sockets, max_len,
}

module _ (os : Os) where
  pub init_socket_lem :
      (path : Text) (s t : SocketManager)
      → init_socket os path s ≡ done tt t
      → let fd = os.socket_fd s.calls in
        ((lookup path s.m_socket_hash ≢ none) × (t ≡ s))
        ⊎ ((lookup path s.m_socket_hash ≡ none)
            × (is_neg fd ≡ false)
            × (t.calls
                ≡ Call.chmod path
                  ∷ Call.listen fd
                  ∷ Call.bind fd (take max_len path)
                  ∷ Call.unlink path
                  ∷ Call.socket
                  ∷ s.calls)
            × ((other : Text)
                → lookup other t.m_socket_hash
                  ≡ (if text_eq path other then some fd else lookup other s.m_socket_hash)))
  unfolding init_socket create_socket
  init_socket_lem path s t e = elim (Option-cases (lookup path s.m_socket_hash)) [
    | inl missing ↦ inr (
      missing,
      ground arith,
      ground arith,
      λ other. ground (arith, lookup-insert path other (os.socket_fd s.calls) s.m_socket_hash),
    )
    | inr (fd, there) ↦ inl (ground arith, ground arith)
  ]

-- The calls that close the sockets of a table, newest first: one for each positive descriptor.
abbrev pub closings : List (Text × ℤ) → History → History
closings [] h = h
closings ((path, fd) ∷ rest) h = closings rest (if is_pos fd then Call.close fd ∷ h else h)

close_entries_lem :
    (entries : List (Text × ℤ)) (s : SocketManager)
    → close_entries entries s ≡ done tt (record s { calls = closings entries s.calls })
unfolding close_entries
close_entries_lem [] s = refl
close_entries_lem ((path, fd) ∷ rest) s = elim (Bool-cases (is_pos fd)) [
  | inl open_fd ↦
      ground (arith, open_fd, close_entries_lem rest (record s { calls = Call.close fd ∷ s.calls }))
  | inr other ↦ ground (arith, other, close_entries_lem rest s)
]

-- Closing all sockets closes every positive descriptor of the table once, in the order of the
-- paths, and leaves the table empty.
pub close_all_sockets_lem :
    (s : SocketManager)
    → close_all_sockets s
      ≡ done tt (record { m_socket_hash = []; calls = closings s.m_socket_hash s.calls })
unfolding close_all_sockets
close_all_sockets_lem s = ground (arith, close_entries_lem s.m_socket_hash s)
