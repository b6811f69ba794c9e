-- ===== src/Daemon/Closing.antt =====
-- closeUnusedSockets of src/launcherlib/daemon.cpp: which sockets a booster closes.
use touch_applauncherd.Common.{
  ℕ, ◌≡◌, refl, sym, ◌∙◌, Bool, true, false, not, ◌&&◌, ◌||◌, ◌==◌, if◌then◌else◌, List, [], ◌∷◌,
  ◌++◌, append_assoc, none, some, Text, text_eq, arith, Bool-cases, Option-cases, inl, inr,
}
use touch_applauncherd.Common.Exits.{done}
use touch_applauncherd.Common.Int.{ℤ, int_eq}
use touch_applauncherd.Common.Map.{
  lookup, erase, text_key, text_eq_iff, IsMap, lookup-Above, erase-IsMap, lookup-erase,
}
use touch_applauncherd.Os.{Os, Call, History}
use touch_applauncherd.BoosterPluginRegistry.{Registry, BoosterPluginEntry}
use touch_applauncherd.SocketManager.{SocketManager, close_socket}
use touch_applauncherd.Daemon.{Daemon, close_others}

-- Whether a plugin of another type has the socket path.
abbrev pub is_of_others : Os → ℕ → Registry → Text → Bool
is_of_others os type [] path = false
is_of_others os type (e ∷ es) path =
    (not (e.type == type) && text_eq (os.call_text e.socket_name_func) path)
    || is_of_others os type es path

-- Whether a descriptor is in the table under a path of a plugin of another type.
abbrev pub is_socket_of_others : Os → ℕ → Registry → ℤ → List (Text × ℤ) → Bool
is_socket_of_others os type es fd [] = false
is_socket_of_others os type es fd ((path, f) ∷ m) =
    (int_eq f fd && is_of_others os type es path) || is_socket_of_others os type es fd m

-- Whether the calls close a descriptor.
abbrev pub has_closed : ℤ → History → Bool
has_closed fd [] = false
has_closed fd (Call.close f ∷ h) = int_eq f fd || has_closed fd h
has_closed fd (c ∷ h) = has_closed fd h

module _ (os : Os) (type : ℕ) where
  others_none : (fd : ℤ) (m : List (Text × ℤ)) → is_socket_of_others os type [] fd m ≡ false
  others_none fd [] = refl
  others_none fd ((path, f) ∷ m) = ground (arith, others_none fd m)

  -- A plugin of the type itself counts for nothing, and so does one whose path is not in the table.
  others_own :
      (e : BoosterPluginEntry) (es : Registry) (fd : ℤ) (m : List (Text × ℤ))
      → (e.type == type) ≡ true
      → is_socket_of_others os type (e ∷ es) fd m ≡ is_socket_of_others os type es fd m
  others_own e es fd [] own = refl
  others_own e es fd ((path, f) ∷ m) own = ground (arith, own, others_own e es fd m own)

  others_absent :
      (e : BoosterPluginEntry) (es : Registry) (fd : ℤ) (m : List (Text × ℤ))
      → lookup (os.call_text e.socket_name_func) m ≡ none
      → is_socket_of_others os type (e ∷ es) fd m ≡ is_socket_of_others os type es fd m
  unfolding lookup
  others_absent e es fd [] missing = refl
  others_absent e es fd ((path, f) ∷ m) missing = ground (
    arith,
    missing,
    others_absent e es fd m,
    text_eq_iff path (os.call_text e.socket_name_func),
    text_eq_iff (os.call_text e.socket_name_func) path,
  )

  -- The socket of a plugin of another type is the one that its path has in the table.
  others_present :
      (e : BoosterPluginEntry) (es : Registry) (fd f : ℤ) (m : List (Text × ℤ))
      → (e.type == type) ≡ false
      → IsMap m
      → lookup (os.call_text e.socket_name_func) m ≡ some f
      → is_socket_of_others os type (e ∷ es) fd m ≡ (
          int_eq f fd
          || is_socket_of_others os type es fd (erase (os.call_text e.socket_name_func) m))
  unfolding lookup erase
  others_present e es fd f [] other unique there = absurd cc
  others_present e es fd f ((path, g) ∷ m) other unique there = ground (
    arith,
    other,
    there,
    others_present e es fd f m other unique.1,
    others_absent e es fd m,
    lookup-Above path m unique.0,
    text_eq_iff path (os.call_text e.socket_name_func),
    text_eq_iff (os.call_text e.socket_name_func) path,
  )

-- The daemon with another table of sockets and other calls.
abbrev pub sockets_of : Daemon → SocketManager
sockets_of d = record { m_socket_hash = d.m_socket_hash; calls = d.calls }

abbrev pub put_sockets : SocketManager → Daemon → Daemon
put_sockets s d = record d { m_socket_hash = s.m_socket_hash; calls = s.calls }

has_closed-append :
    (fd : ℤ) (h k : History) → has_closed fd (h ++ k) ≡ (has_closed fd h || has_closed fd k)
has_closed-append fd [] k = refl
has_closed-append fd (Call.close f ∷ h) k = ground (arith, has_closed-append fd h k)
has_closed-append fd (c ∷ h) k = has_closed-append fd h k

-- What `closeUnusedSockets` leaves in the table, and the calls that it makes.
pub record ClosesOthers (os : Os) (type : ℕ) (es : Registry) (d : Daemon) : Type 0 where
  pub left : SocketManager
  pub closed : History
  pub runs : close_others os type es d ≡ done tt (put_sockets left d)
  pub unique : IsMap left.m_socket_hash
  pub found :
      (path : Text)
      → lookup path left.m_socket_hash
        ≡ (if is_of_others os type es path then none else lookup path d.m_socket_hash)
  pub calls : left.calls ≡ closed ++ d.calls
  pub closes : (fd : ℤ) → has_closed fd closed ≡ is_socket_of_others os type es fd d.m_socket_hash

pub close_others_lem :
    (os : Os) (type : ℕ) (es : Registry) (d : Daemon)
    → IsMap d.m_socket_hash
    → ClosesOthers os type es d
unfolding close_others close_socket
close_others_lem os type [] d m = record {
  left = sockets_of d;
  closed = [];
  runs = refl;
  unique = m;
  found = λ path. refl;
  calls = refl;
  closes = λ fd. sym (others_none os type fd d.m_socket_hash);
}
close_others_lem os type (e ∷ es) d m = elim (Bool-cases (e.type == type)) [
  | inl own ↦
      let rest = close_others_lem os type es d m in
      record {
        left = rest.left;
        closed = rest.closed;
        runs = ground (arith, own, rest.runs);
        unique = rest.unique;
        found = λ path. ground (arith, own, rest.found path);
        calls = rest.calls;
        closes = λ fd. rest.closes fd ∙ sym (others_own os type e es fd d.m_socket_hash own);
      }
  | inr other ↦
      let path = os.call_text e.socket_name_func in
      elim (Option-cases (lookup path d.m_socket_hash)) [
        | inl missing ↦
            let rest = close_others_lem os type es d m in
            record {
              left = rest.left;
              closed = rest.closed;
              runs = ground (arith, other, missing, rest.runs);
              unique = rest.unique;
              found = λ q. ground (arith, other, missing, rest.found q, text_eq_iff path q);
              calls = rest.calls;
              closes = λ fd.
                  rest.closes fd ∙ sym (others_absent os type e es fd d.m_socket_hash missing);
            }
        | inr (f, there) ↦
            let u : Daemon = record d {
              m_socket_hash = erase path d.m_socket_hash;
              calls = Call.close f ∷ d.calls;
            } in
            let rest = close_others_lem os type es u (erase-IsMap path d.m_socket_hash m) in
            record {
              left = rest.left;
              closed = rest.closed ++ Call.close f ∷ [];
              runs = ground (arith, other, there, rest.runs);
              unique = rest.unique;
              found =
                  λ q. ground (arith, other, rest.found q, lookup-erase path q d.m_socket_hash m);
              calls = rest.calls ∙ sym (append_assoc rest.closed (Call.close f ∷ []) d.calls);
              closes = λ fd. ground (
                arith,
                has_closed-append fd rest.closed (Call.close f ∷ []),
                rest.closes fd,
                others_present os type e es fd f d.m_socket_hash other m there,
              );
            }
      ]
]
