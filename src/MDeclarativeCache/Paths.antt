-- ===== src/MDeclarativeCache/Paths.antt =====
-- The application's arguments and paths in src/qdeclarativebooster/mdeclarativecache.cpp.
use touch_applauncherd.Common.{
  ℕ, suc, ◌≡◌, refl, sym, ap, ◌∙◌, List, [], ◌∷◌, ◌++◌, ◌⊎◌, Bool-cases, none, some, Text, arith,
  Option-cases, inl, inr, ◌==◌, take, zero, true, ltb, if◌then◌else◌, length,
}
use touch_applauncherd.MDeclarativeCache.{
  MDeclarativeCache, Qt, argv_limit, copy_args, populate, new_object, q_application,
  application_dir_path, application_file_path, dir_of, last_index_of, arg0, set_paths,
  set_properties,
}

-- A path is its directory, a slash and a name without one.
last_index_of_lem :
    (b : ℕ) (s : Text) (i : ℕ)
    → last_index_of b s ≡ some i
    → (name : Text) × (s ≡ take i s ++ b ∷ name) × (last_index_of b name ≡ none)
unfolding last_index_of
last_index_of_lem b [] i e = absurd cc
last_index_of_lem b (x ∷ s) i e = elim (Option-cases (last_index_of b s)) [
  | inl missing ↦ elim (Bool-cases (x == b)) [
    | inl here ↦
        let at0 : i ≡ 0 = ground (arith, e, missing, here) in
        let same : x ≡ b = ground (arith, here) in (s, rw (at0, same) refl, missing)
    | inr no_more ↦ absurd (ground (arith, e, missing, no_more))
  ]
  | inr (j, there) ↦
      let (name, split, last) = last_index_of_lem b s j there in
      let later : i ≡ suc j = ground (arith, e, there) in (name, rw later (ap (◌∷◌ x) split), last)
]

-- Once the cache was populated, the paths that an application is told are those of its own argv[0]:
-- the file path is argv[0], and the directory is what stands before its last slash, or
-- nothing if it has no slash.
pub application_paths :
    (qt : Qt) (argv : List Text) (c : MDeclarativeCache)
    → let c' = (q_application qt argv (populate qt c).1).1 in
      (application_file_path qt c' ≡ arg0 argv)
      × (((last_index_of b'/' (arg0 argv) ≡ none) × (application_dir_path qt c' ≡ []))
          ⊎ ((name : Text) × (arg0 argv ≡ application_dir_path qt c' ++ b'/' ∷ name)
              × (last_index_of b'/' name ≡ none)))
unfolding populate q_application new_object application_dir_path application_file_path dir_of
    set_paths set_properties
application_paths qt argv c = (
  ground arith,
  elim (Option-cases (last_index_of b'/' (arg0 argv))) [
    | inl missing ↦ inl (missing, ground (arith, missing))
    | inr (i, there) ↦
        let (name, split, last) = last_index_of_lem b'/' (arg0 argv) i there in
        let dir : application_dir_path qt (q_application qt argv (populate qt c).1).1
            ≡ take i (arg0 argv) =
          ground (arith, there) in
        inr (name, split ∙ ap (λ (d : Text). d ++ b'/' ∷ name) (sym dir), last)
  ],
)

take_own : (argv rest : List Text) → take (length argv) (argv ++ rest) ≡ argv
take_own [] rest = refl
take_own (arg ∷ argv) rest = ap (◌∷◌ arg) (take_own argv rest)

length-take_cut :
    (n : ℕ) (argv : List Text)
    → (if ltb (length argv) n then length argv else n) ≡ length (take n argv)
length-take_cut zero argv = ground arith
length-take_cut (suc n) [] = ground arith
length-take_cut (suc n) (arg ∷ argv) = ground (arith, length-take_cut n argv)

-- If the cache makes the application when it is populated, the arguments that QCoreApplication then counts,
-- once the real ones are known, are just the first 32 of those, all of them if they are no more.
pub application_arguments :
    (qt : Qt) (argv : List Text) (c : MDeclarativeCache)
    → c.q_application_instance ≡ none
    → let c' = (q_application qt argv (populate qt c).1).1 in
      (c'.holds_initial_argv ≡ true) × (take c'.initial_argc c'.q_argv ≡ take argv_limit argv)
unfolding populate q_application new_object copy_args set_paths set_properties
application_arguments qt argv c fresh = (
  ground (arith, fresh),
  ground (arith, fresh, length-take_cut argv_limit argv, take_own (take argv_limit argv)),
)
