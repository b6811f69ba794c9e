-- ===== src/Invoker/Search/Found.antt =====
-- What `search_program` of src/invoker/search.c finds.
use touch_applauncherd.Common.{
  ◌≡◌, ap, ◌∙◌, subst, true, false, List, [], ◌∷◌, Option, some, Text, codes, contains, arith,
  Bool-cases, inl, inr, Option-cases,
}
use touch_applauncherd.Common.Exits.{done, ◌>>=◌, bind-done}
use touch_applauncherd.Os.{Os, Call, History}
use touch_applauncherd.Invoker.{Invoker}
use touch_applauncherd.Invoker.Search.{
  merge_paths, is_absolute, tokens, search_path, from_cwd, take_found, search_env, search_program,
}

-- The path was found: it is the first of the candidates, in the order of the tokens, that can be
-- executed.
pub data IsFirst (os : Os) (progname : Text) : List Text → History → Text → Type 0 where
  here :
      {token : Text} {path : List Text} {h : History}
      → os.access_ok h (merge_paths token progname) ≡ true
      → IsFirst os progname (token ∷ path) h (merge_paths token progname)
  later :
      {token : Text} {path : List Text} {h : History} {launch : Text}
      → os.access_ok h (merge_paths token progname) ≡ false
      → IsFirst os progname path (Call.access (merge_paths token progname) ∷ h) launch
      → IsFirst os progname (token ∷ path) h launch

search_path-IsFirst :
    (os : Os) (progname : Text) (path : List Text) (s t : Invoker) (launch : Text)
    → search_path os path progname s ≡ done (some launch) t
    → IsFirst os progname path s.calls launch
unfolding search_path
search_path-IsFirst os progname [] s t launch e = absurd cc
search_path-IsFirst os progname (token ∷ path) s t launch e =
    let called : Invoker = record s {
      calls = Call.access (merge_paths token progname) ∷ s.calls;
    } in
    elim (Bool-cases (os.access_ok s.calls (merge_paths token progname))) [
      | inl runs ↦
          let same : merge_paths token progname ≡ launch = ground (arith, runs, e) in
          subst (IsFirst os progname (token ∷ path) s.calls) same (here runs)
      | inr other ↦
          later other
            (search_path-IsFirst os progname path called t launch (ground (arith, other, e)))
    ]

merge_paths-is_absolute :
    (base_path rel_path : Text)
    → is_absolute base_path ≡ true
    → is_absolute (merge_paths base_path rel_path) ≡ true
unfolding merge_paths
merge_paths-is_absolute [] rel_path e = absurd cc
merge_paths-is_absolute (x ∷ s) rel_path e = e

-- Where the path of a program may come from.
pub data Found (os : Os) (progname : Text) (h : History) : Text → Type 0 where
  itself : is_absolute progname ≡ true → Found os progname h progname
  relative :
      is_absolute progname ≡ false
      → contains progname b'/' ≡ true
      → Found os progname h (merge_paths os.cwd progname)
  in_path :
      {path launch : Text}
      → contains progname b'/' ≡ false
      → os.getenv h (codes "PATH") ≡ some path
      → IsFirst os progname (tokens path) h launch
      → Found os progname h (from_cwd os launch)

search_env_lem :
    (os : Os) (progname path : Text) (s t : Invoker)
    → contains progname b'/' ≡ false
    → search_env os progname s ≡ done path t
    → Found os progname s.calls path
unfolding search_env take_found
search_env_lem os progname path s t no_slash e =
    elim (Option-cases (os.getenv s.calls (codes "PATH"))) [
      | inl unset ↦ absurd (ground (arith, unset, e))
      | inr (env, set_to) ↦
          let searched : (search_path os (tokens env) progname >>= take_found os) s ≡ done path t =
            ground (arith, set_to, e) in
          let (found, u, runs, taken) =
            bind-done (search_path os (tokens env) progname) (take_found os) s t path searched in
          elim (Option-cases found) [
            | inl nowhere ↦ absurd (ground (arith, nowhere, taken))
            | inr (launch, at) ↦
                let is : from_cwd os launch ≡ path = ground (arith, at, taken) in
                subst (Found os progname s.calls) is (
                  in_path no_slash set_to (
                    search_path-IsFirst os progname (tokens env) s u launch
                      (runs ∙ ap (λ (r : Option Text). done r u) at)))
          ]
    ]

from_cwd-is_absolute :
    (os : Os) (launch : Text) → is_absolute os.cwd ≡ true → is_absolute (from_cwd os launch) ≡ true
unfolding from_cwd
from_cwd-is_absolute os launch cwd = elim (Bool-cases (is_absolute launch)) [
  | inl absolute ↦ rw absolute absolute
  | inr other ↦ rw other (merge_paths-is_absolute os.cwd launch cwd)
]

Found-is_absolute :
    (os : Os) (progname : Text) (h : History) (path : Text)
    → is_absolute os.cwd ≡ true
    → Found os progname h path
    → is_absolute path ≡ true
Found-is_absolute os progname h path cwd (itself absolute) = absolute
Found-is_absolute os progname h path cwd (relative other slash) =
    merge_paths-is_absolute os.cwd progname cwd
Found-is_absolute os progname h path cwd
      (in_path {path = env} {launch = launch} no_slash set_to first) =
    from_cwd-is_absolute os launch cwd

search_program-Found :
    (os : Os) (progname path : Text) (s t : Invoker)
    → search_program os progname s ≡ done path t
    → Found os progname s.calls path
unfolding search_program
search_program-Found os progname path s t e = elim (Bool-cases (is_absolute progname)) [
  | inl absolute ↦
      let is : progname ≡ path = ground (arith, absolute, e) in
      subst (Found os progname s.calls) is (itself absolute)
  | inr other ↦ elim (Bool-cases (contains progname b'/')) [
    | inl slash ↦
        let is : merge_paths os.cwd progname ≡ path = ground (arith, other, slash, e) in
        subst (Found os progname s.calls) is (relative other slash)
    | inr no_slash ↦
        search_env_lem os progname path s t no_slash (ground (arith, other, no_slash, e))
  ]
]

-- If the current directory is an absolute path and `search_program` comes back, the path is absolute,
-- and it is the program's name, if that is absolute; or the name in the current directory, if it
-- has a slash; or else the first of the candidates made with the entries of PATH, in their order, that
-- can be executed, taken in the current directory if that entry was relative.
pub search_program_lem :
    (os : Os) (progname path : Text) (s t : Invoker)
    → is_absolute os.cwd ≡ true
    → search_program os progname s ≡ done path t
    → (is_absolute path ≡ true) × Found os progname s.calls path
search_program_lem os progname path s t cwd e =
    let found = search_program-Found os progname path s t e in
    (Found-is_absolute os progname s.calls path cwd found, found)
