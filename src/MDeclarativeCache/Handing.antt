-- ===== src/MDeclarativeCache/Handing.antt =====
-- qDeclarativeView() of src/qdeclarativebooster/mdeclarativecache.cpp over any sequence of calls.
use touch_applauncherd.Common.{
  ℕ, suc, ◌≤◌, ◌<◌, ◌≡◌, ◌≢◌, sym, ◌∙◌, List, [], ◌∷◌, some, Text, All, arith, Option-cases, inl,
  inr,
}
use touch_applauncherd.MDeclarativeCache.{
  MDeclarativeCache, Qt, new_cache, new_object, populate, q_application, q_declarative_view,
  set_properties, set_paths,
}

-- The calls of the cache that a program makes, in any order; `views` are the views that it was handed,
-- last first.
pub data Reach (qt : Qt) : List ℕ → MDeclarativeCache → Type 0 where
  start : Reach qt [] new_cache
  populates :
      {views : List ℕ} {c : MDeclarativeCache} → Reach qt views c → Reach qt views (populate qt c).1
  asks_application :
      {views : List ℕ} {c : MDeclarativeCache} (argv : List Text)
      → Reach qt views c
      → Reach qt views (q_application qt argv c).1
  asks_view :
      {views : List ℕ} {c : MDeclarativeCache}
      → Reach qt views c
      → Reach qt ((q_declarative_view c).0 ∷ views) (q_declarative_view c).1

-- Every object that is known was made, and the cached view was not handed out.
record IsFresh (views : List ℕ) (c : MDeclarativeCache) : Type 0 where
  made : All (λ v. v < c.next_object) views
  cached :
      (v : ℕ)
      → c.q_declarative_view_instance ≡ some v
      → (v < c.next_object) × All (λ w. w ≢ v) views

abbrev pub Distinct : List ℕ → Type 0
Distinct [] = Unit {0}
Distinct (v ∷ views) = All (λ w. w ≢ v) views × Distinct views

All-made : (n m : ℕ) (views : List ℕ) → n ≤ m → All (λ v. v < n) views → All (λ v. v < m) views
All-made n m [] h all = tt
All-made n m (v ∷ views) h all = (omega arith, All-made n m views h all.1)

All-ne : (n : ℕ) (views : List ℕ) → All (λ v. v < n) views → All (λ v. v ≢ n) views
All-ne n [] all = tt
All-ne n (v ∷ views) all = (omega arith, All-ne n views all.1)

-- What `populate` does to the view and to the objects made.
populate_view :
    (qt : Qt) (c : MDeclarativeCache)
    → let c' = (populate qt c).1 in
      (n : ℕ) × (c.next_object ≤ n)
      × (c'.next_object ≡ suc n)
      × (c'.q_declarative_view_instance ≡ some n)
unfolding populate new_object
populate_view qt c = elim (Option-cases c.q_application_instance) [
  | inl missing ↦ (suc c.next_object, omega arith, ground (arith, missing), ground (arith, missing))
  | inr (app, there) ↦ (c.next_object, omega arith, ground (arith, there), ground (arith, there))
]

q_application_view :
    (qt : Qt) (argv : List Text) (c : MDeclarativeCache)
    → let c' = (q_application qt argv c).1 in
      (c.next_object ≤ c'.next_object)
      × (c'.q_declarative_view_instance ≡ c.q_declarative_view_instance)
unfolding q_application new_object set_properties set_paths
q_application_view qt argv c = ground arith

populate-IsFresh :
    (qt : Qt) (views : List ℕ) (c : MDeclarativeCache)
    → IsFresh views c
    → IsFresh views (populate qt c).1
populate-IsFresh qt views c f =
    let (n, le, made, view) = populate_view qt c in
    let old = All-made c.next_object n views le f.made in
    record {
      made = rw made (All-made n (suc n) views (omega arith) old);
      cached = λ v e.
          let same : n ≡ v = ground (arith, view, e) in
          rw (made, ← same) (omega arith, All-ne n views old);
    }

q_application-IsFresh :
    (qt : Qt) (argv : List Text) (views : List ℕ) (c : MDeclarativeCache)
    → IsFresh views c
    → IsFresh views (q_application qt argv c).1
q_application-IsFresh qt argv views c f =
    let (le, view) = q_application_view qt argv c in
    record {
      made = All-made c.next_object _ views le f.made;
      cached = λ v e. let (lt, ne) = f.cached v (sym view ∙ e) in (omega arith, ne);
    }

q_declarative_view-IsFresh :
    (views : List ℕ) (c : MDeclarativeCache)
    → IsFresh views c
    → All (λ w. w ≢ (q_declarative_view c).0) views
      × IsFresh ((q_declarative_view c).0 ∷ views) (q_declarative_view c).1
unfolding q_declarative_view new_object
q_declarative_view-IsFresh views c f = elim (Option-cases c.q_declarative_view_instance) [
  | inl missing ↦ rw missing (
    All-ne c.next_object views f.made,
    record {
      made = (omega arith, All-made c.next_object (suc c.next_object) views (omega arith) f.made);
      cached = λ v e. absurd (ground (arith, missing, e));
    },
  )
  | inr (view, there) ↦
      let (lt, ne) = f.cached view there in
      rw there (ne, record { made = (lt, f.made); cached = λ v e. absurd cc })
]

Reach-IsFresh :
    (qt : Qt) {views : List ℕ} {c : MDeclarativeCache}
    → Reach qt views c
    → Distinct views × IsFresh views c
unfolding new_cache
Reach-IsFresh qt start = (tt, record { made = tt; cached = λ v e. absurd cc })
Reach-IsFresh qt (populates {views} {c} r) =
    let (distinct, f) = Reach-IsFresh qt r in (distinct, populate-IsFresh qt views c f)
Reach-IsFresh qt (asks_application {views} {c} argv r) =
    let (distinct, f) = Reach-IsFresh qt r in (distinct, q_application-IsFresh qt argv views c f)
Reach-IsFresh qt (asks_view {views} {c} r) =
    let (distinct, f) = Reach-IsFresh qt r in
    let (new, f') = q_declarative_view-IsFresh views c f in ((new, distinct), f')

-- However a program calls the cache, no view is handed out twice.
pub Reach-Distinct :
    (qt : Qt) (views : List ℕ) (c : MDeclarativeCache) → Reach qt views c → Distinct views
Reach-Distinct qt views c r = (Reach-IsFresh qt r).0
