-- ===== src/MDeclarativeCache/Tests.antt =====
-- A QML application at /bin/a.
use touch_applauncherd.Common.{
  ◌≡◌, refl, take, replicate, true, List, [], ◌∷◌, ◌++◌, ◌⊎◌, none, Text, codes,
}
use touch_applauncherd.MDeclarativeCache.{
  MDeclarativeCache, Qt, argv_limit, new_cache, populate, q_application, q_declarative_view,
  application_dir_path, application_file_path, last_index_of,
}
use touch_applauncherd.MDeclarativeCache.Handing.{
  start, populates, asks_application, asks_view, Distinct, Reach-Distinct,
}
use touch_applauncherd.MDeclarativeCache.Paths.{application_paths, application_arguments}

abbrev qt : Qt
qt = record {
  app_name = codes "pre";
  file_name = λ path. codes "a";
  to_upper = λ s. codes "A";
  has_display = true;
  dir_path = [];
  file_path = [];
}

abbrev argv : List Text
argv = codes "/bin/a" ∷ codes "-x" ∷ []

abbrev started : MDeclarativeCache
started = (q_application qt argv (populate qt new_cache).1).1

Reach-Distinct_example :
    Distinct
      ((q_declarative_view (q_declarative_view started).1).0 ∷ (q_declarative_view started).0 ∷ [])
Reach-Distinct_example =
    Reach-Distinct qt
      ((q_declarative_view (q_declarative_view started).1).0 ∷ (q_declarative_view started).0 ∷ [])
      (q_declarative_view (q_declarative_view started).1).1
      (asks_view (asks_view (asks_application argv (populates start))))

application_paths_example :
    let c' = started in
    (application_file_path qt c' ≡ codes "/bin/a")
    × (((last_index_of b'/' (codes "/bin/a") ≡ none) × (application_dir_path qt c' ≡ []))
        ⊎ ((name : Text) × (codes "/bin/a" ≡ application_dir_path qt c' ++ b'/' ∷ name)
            × (last_index_of b'/' name ≡ none)))
application_paths_example = application_paths qt argv new_cache

-- Forty arguments.
abbrev long_argv : List Text
long_argv = codes "/bin/a" ∷ replicate 39 (codes "-x")

application_arguments_example :
    let c' = (q_application qt long_argv (populate qt new_cache).1).1 in
    (c'.holds_initial_argv ≡ true) × (take c'.initial_argc c'.q_argv ≡ take argv_limit long_argv)
unfolding new_cache
application_arguments_example = application_arguments qt long_argv new_cache refl
