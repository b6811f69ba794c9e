-- ===== src/Invoker/Search.antt =====
-- src/invoker/search.c: the path of the program to launch.
pub mod Found
use touch_applauncherd.Common.{
  ℕ, Bool, false, ◌&&◌, ◌==◌, if◌then◌else◌, List, [], ◌∷◌, ◌++◌, Option, none, some, Text, codes,
  contains, is_empty,
}
use touch_applauncherd.Common.Exits.{Run, ◌>>=◌, ◌>>◌, pure, exit, get}
use touch_applauncherd.Os.{Os, Call}
use touch_applauncherd.Invoker.{Invoker, log_call}

-- The last character; a text is not empty here.
unfoldable pub last : Text → ℕ
last [] = 0
last (x ∷ []) = x
last (x ∷ y ∷ s) = last (y ∷ s)

unfoldable pub merge_paths : (base_path rel_path : Text) → Text
merge_paths base_path rel_path =
    base_path ++ ((if last base_path == b'/' then [] else codes "/") ++ rel_path)

abbrev pub is_absolute : Text → Bool
is_absolute [] = false
is_absolute (x ∷ s) = x == b'/'

-- The tokens of `strtok_r(path, ":")`, none of them empty; `word` is the one begun.
unfoldable pub tokens_from : (word path : Text) → List Text
tokens_from word [] = if is_empty word then [] else word ∷ []
tokens_from word (x ∷ path) =
    let longer = tokens_from (word ++ x ∷ []) path in
    let next = tokens_from [] path in
    if x == b':' then (if is_empty word then next else word ∷ next) else longer

unfoldable pub tokens : Text → List Text
tokens path = tokens_from [] path

module _ (os : Os) where
  -- The loop over the tokens; `none` is NULL.
  unfoldable pub search_path : List Text → Text → Run Invoker (Option Text)
  search_path [] progname = pure none
  search_path (token ∷ path) progname = do
    let launch = merge_paths token progname
    s ← get
    log_call (Call.access launch)
    if os.access_ok s.calls launch then pure (some launch) else search_path path progname

  -- A relative path is taken in the current directory.
  unfoldable pub from_cwd : Text → Text
  from_cwd launch = if is_absolute launch then launch else merge_paths os.cwd launch

  -- What follows the loop.
  unfoldable pub take_found : Option Text → Run Invoker Text
  take_found none = exit 1
  take_found (some launch) = pure (from_cwd launch)

  -- A program whose name has no slash.
  unfoldable pub search_env : Text → Run Invoker Text
  search_env progname = do
    s ← get
    elim (os.getenv s.calls (codes "PATH")) [
      | none ↦ exit 1
      | some path ↦ (do found ← search_path (tokens path) progname; take_found found)
    ]

  unfoldable pub search_program : Text → Run Invoker Text
  search_program progname =
      if is_absolute progname
      then pure progname
      else if contains progname b'/'
      then pure (merge_paths os.cwd progname)
      else search_env progname
