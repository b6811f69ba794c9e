-- ===== src/SingleInstancePlugin/Directories.antt =====
-- mkpath of src/single-instance/main.cpp, by the directories that it asks for.
use touch_applauncherd.Common.{
  ℕ, ◌≡◌, ◌≢◌, refl, subst, ◌⊎◌, inl, inr, Bool, true, false, if◌then◌else◌, [], ◌∷◌, ◌++◌, Text,
  text_eq, text_eq_self, ◌||◌, append_assoc, arith, Bool-cases,
}
use touch_applauncherd.Common.Exits.{done, ◌>>=◌, pure, bind-done}
use touch_applauncherd.Common.Invariant.{Invariant, Invariant-bind, Invariant-pure, Invariant-if}
use touch_applauncherd.Os.{Os, Call, History}
use touch_applauncherd.SingleInstancePlugin.{Plugin, ends_part, make_part, make_parts, mkpath}

-- Whether a directory was asked for.
abbrev pub has_asked : Text → History → Bool
has_asked part [] = false
has_asked part (Call.mkdir path ∷ h) = text_eq path part || has_asked part h
has_asked part (c ∷ h) = has_asked part h

HasAsked : Text → Plugin → Type 0
HasAsked part p = has_asked part p.calls ≡ true

module _ (os : Os) (part : Text) where
  make_part-HasAsked : (other : Text) → Invariant (HasAsked part) (make_part os other)
  unfolding make_part HasAsked
  make_part-HasAsked other = record { kept = λ s t a at e. ground (arith, at, e) }

  make_parts-HasAsked : (start rest : Text) → Invariant (HasAsked part) (make_parts os start rest)
  unfolding make_parts
  make_parts-HasAsked start [] = Invariant-pure true
  make_parts-HasAsked start (x ∷ rest) =
      Invariant-bind (if ends_part x rest then make_part os (start ++ x ∷ []) else pure true) _
        (Invariant-if (ends_part x rest) _ _ (make_part-HasAsked (start ++ x ∷ []))
          (Invariant-pure true))
        λ made.
          Invariant-if made _ _ (make_parts-HasAsked (start ++ x ∷ []) rest) (Invariant-pure false)

make_part-asks :
    (os : Os) (part : Text) (p t : Plugin) (made : Bool)
    → make_part os part p ≡ done made t
    → HasAsked part t
unfolding make_part HasAsked
make_part-asks os part p t made e = ground (arith, text_eq_self part, e)

-- What ends in `x` is a part of the path: the whole, or a slash follows and `x` is none.
abbrev pub EndsPart : ℕ → Text → Type 0
EndsPart x rest = (rest ≡ []) ⊎ ((later : Text) × (rest ≡ b'/' ∷ later) × (x ≢ b'/'))

EndsPart-ends_part : (x : ℕ) (rest : Text) → EndsPart x rest → ends_part x rest ≡ true
unfolding ends_part
EndsPart-ends_part x [] at = refl
EndsPart-ends_part x (y ∷ rest) (inl none_left) = absurd cc
EndsPart-ends_part x (y ∷ rest) (inr (later, split, other)) = ground (arith, split, other)

make_parts-asks :
    (os : Os) (start a rest : Text) (x : ℕ) (p t : Plugin)
    → EndsPart x rest
    → make_parts os start (a ++ x ∷ rest) p ≡ done true t
    → HasAsked (start ++ (a ++ x ∷ [])) t
unfolding make_parts
make_parts-asks os start [] rest x p t at e =
    let asks : (make_part os (start ++ x ∷ []) >>= λ made.
    if made then make_parts os (start ++ x ∷ []) rest else pure false)
          p
        ≡ done true t =
      ground (arith, EndsPart-ends_part x rest at, e) in
    let (made, u, makes, goes_on) = bind-done (make_part os (start ++ x ∷ [])) _ p t true asks in
    (Invariant-if made (make_parts os (start ++ x ∷ []) rest) (pure false)
        (make_parts-HasAsked os (start ++ x ∷ []) (start ++ x ∷ []) rest)
        (Invariant-pure false)).kept
      u t true (make_part-asks os (start ++ x ∷ []) p u made makes) goes_on
make_parts-asks os start (y ∷ a) rest x p t at e =
    let part = start ++ y ∷ [] in
    let (made, u, makes, goes_on) =
      bind-done (if ends_part y (a ++ x ∷ rest) then make_part os part else pure true) _ p t true
        e in
    elim (Bool-cases made) [
      | inl was ↦
          subst (λ part. HasAsked part t) (append_assoc start (y ∷ []) (a ++ x ∷ []))
            (make_parts-asks os part a rest x u t at (ground (arith, was, goes_on)))
      | inr never ↦ absurd (ground (arith, never, goes_on))
    ]

-- If mkpath succeeds, it has asked for the directory of every part of the path: the whole path, and
-- what stands before a slash and does not end in one itself.
pub mkpath-asks :
    (os : Os) (a rest : Text) (x : ℕ) (p t : Plugin)
    → EndsPart x rest
    → mkpath os (a ++ x ∷ rest) p ≡ done true t
    → has_asked (a ++ x ∷ []) t.calls ≡ true
unfolding mkpath HasAsked
mkpath-asks os a rest x p t at e = make_parts-asks os [] a rest x p t at e
