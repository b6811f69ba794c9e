-- ===== src/MDeclarativeCache.antt =====
-- src/qdeclarativebooster/mdeclarativecache_p.h and mdeclarativecache.cpp: the objects that a QML
-- booster makes before it has an application to run. The static methods of MDeclarativeCache only
-- pass the calls on. Objects are numbers that `new` gives.
pub mod Handing
pub mod Paths
mod Tests
use touch_applauncherd.Common.{
  ℕ, suc, ◌+◌, ◌-◌, Bool, true, false, ltb, ◌==◌, if◌then◌else◌, List, [], ◌∷◌, ◌++◌, Option, none,
  some, Text, length, drop, take, replicate, Step, ◌>>=◌, ◌>>◌, pure, gets, modify,
}

-- What the cache takes from Qt, X11 and the C library.
pub record Qt : Type 0 where
  -- The name of the application before it is known, with the pid in it.
  pub app_name : Text
  -- The last component of a path, and the upper case of a text.
  pub file_name : Text → Text
  pub to_upper : Text → Text
  pub has_display : Bool
  -- QCoreApplication::applicationDirPath() and applicationFilePath().
  pub dir_path : Text
  pub file_path : Text

pub data XCall : Type 0 where
  set_command : ℕ → List Text → XCall
  set_class_hint : ℕ → (name class : Text) → XCall

-- `q_argv` is what QCoreApplication::argv() points to, once there is an application; that is
-- `initialArgv`, as `holds_initial_argv` notes, if `populate` made the application.
pub record MDeclarativeCache : Type 0 where
  pub q_application_instance : Option ℕ
  pub q_declarative_view_instance : Option ℕ
  pub initial_argc : ℕ
  pub q_argv : List Text
  pub holds_initial_argv : Bool
  pub app_dir_path : Text
  pub app_file_path : Text
  pub cache_populated : Bool
  pub next_object : ℕ
  pub x_calls : List XCall

abbrev pub argv_limit : ℕ
argv_limit = 32

unfoldable pub new_cache : MDeclarativeCache
new_cache = record {
  q_application_instance = none;
  q_declarative_view_instance = none;
  initial_argc = argv_limit;
  q_argv = [];
  holds_initial_argv = false;
  app_dir_path = [];
  app_file_path = [];
  cache_populated = false;
  next_object = 0;
  x_calls = [];
}

-- `new`
unfoldable pub new_object : Step MDeclarativeCache ℕ
new_object c = (c.next_object, record c { next_object = suc c.next_object })

-- The index of the last occurrence.
unfoldable pub last_index_of : ℕ → Text → Option ℕ
last_index_of b [] = none
last_index_of b (x ∷ s) = elim (last_index_of b s) [
  | none ↦ if x == b then some 0 else none
  | some i ↦ some (suc i)
]

-- `chop(size - lastIndexOf("/"))`: with no slash, more than all is chopped off.
unfoldable pub dir_of : Text → Text
dir_of path = elim (last_index_of b'/' path) [ none ↦ [] | some i ↦ take i path ]

abbrev pub arg0 : List Text → Text
arg0 [] = []
arg0 (arg ∷ argv) = arg

-- The class of the window: the name with a capital.
unfoldable pub class_of : Qt → Text → Text
class_of qt [] = qt.to_upper []
class_of qt (x ∷ name) = qt.to_upper (x ∷ []) ++ name

-- The first arguments, copied over older ones.
unfoldable pub copy_args : ℕ → List Text → List Text → List Text
copy_args n argv old = take n argv ++ drop (length (take n argv)) old

module _ (qt : Qt) where
  unfoldable pub populate : Step MDeclarativeCache (Unit {0})
  populate = do
    modify λ c. record c { cache_populated = true }
    c ← gets (λ c. c)
    let argv = qt.app_name ∷ replicate (c.initial_argc - 1) []
    elim c.q_application_instance [
      | none ↦ (do
        app ← new_object
        modify λ c. record c {
          q_application_instance = some app;
          q_argv = argv;
          holds_initial_argv = true;
        })
      | some app ↦ modify λ c. record c {
        q_argv = if c.holds_initial_argv then copy_args (length argv) argv c.q_argv else c.q_argv;
      }
    ]
    view ← new_object
    modify λ c. record c { q_declarative_view_instance = some view }

  -- The properties of the window of the cached view.
  unfoldable pub set_properties : List Text → MDeclarativeCache → MDeclarativeCache
  set_properties argv c = elim c.q_declarative_view_instance [
    | none ↦ c
    | some view ↦
        if qt.has_display
        then record c {
          x_calls =
              set_class_hint view (qt.file_name (arg0 argv))
                (class_of qt (qt.file_name (arg0 argv)))
              ∷ set_command view argv
              ∷ c.x_calls;
        }
        else c
  ]

  unfoldable pub set_paths : List Text → MDeclarativeCache → MDeclarativeCache
  set_paths argv c =
      if c.cache_populated
      then record c { app_file_path = arg0 argv; app_dir_path = dir_of (arg0 argv) }
      else c

  -- `argv` has `argc` entries.
  unfoldable pub q_application : List Text → Step MDeclarativeCache ℕ
  q_application argv = do
    c ← gets (λ c. c)
    elim c.q_application_instance [
      | none ↦ (do
        app ← new_object
        modify λ c. record c { q_application_instance = some app; q_argv = argv }
        pure app)
      | some app ↦ (do
        modify λ c. record c {
          q_argv = copy_args argv_limit argv c.q_argv;
          initial_argc = if ltb (length argv) argv_limit then length argv else argv_limit;
        }
        modify (set_properties argv)
        modify (set_paths argv)
        pure app)
    ]

  unfoldable pub application_dir_path : MDeclarativeCache → Text
  application_dir_path c = if c.cache_populated then c.app_dir_path else qt.dir_path

  unfoldable pub application_file_path : MDeclarativeCache → Text
  application_file_path c = if c.cache_populated then c.app_file_path else qt.file_path

-- The cached view is handed out once.
unfoldable pub q_declarative_view : Step MDeclarativeCache ℕ
q_declarative_view = do
  c ← gets (λ c. c)
  elim c.q_declarative_view_instance [
    | none ↦ new_object
    | some view ↦ (do modify λ c. record c { q_declarative_view_instance = none }; pure view)
  ]
