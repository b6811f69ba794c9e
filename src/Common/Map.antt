-- ===== src/Common/Map.antt =====
-- std::map as an association list: a store to a present key writes in place, a new key goes before
-- the first greater one, so that an iteration meets the keys in their order.
use mathlib.Core.Path.{◌≡◌, refl}
use mathlib.Core.Logic.{◌↔◌}
use mathlib.Core.Bool.{Bool, true, false}
use mathlib.Core.Option.{Option, none, some}
use mathlib.Core.List.{List, [], ◌∷◌}
use native.Mathlib.Omega.{arith}
use Prim.Native.Nat.{ℕ}
use touch_applauncherd.Common.Tests.{ltb, ◌==◌, ==_iff, if◌then◌else◌}
use touch_applauncherd.Common.Lists.{Text, text_eq, text_eq_self, text_eq→eq}
use touch_applauncherd.Common.Int.{ℤ, pos, negsuc, int_eq, int_eq_iff, int_lt}

-- The two tests that a key type provides, and the strict total order that they are of.
pub record Key (K : Type 0) : Type 0 where
  pub same : K → K → Bool
  pub below : K → K → Bool
  pub same_iff : (a b : K) → (same a b ≡ true) ↔ (a ≡ b)
  pub below_ne : (a b : K) → below a b ≡ true → same b a ≡ false
  pub below_trans : (a b c : K) → below a b ≡ true → below b c ≡ true → below a c ≡ true
  pub below_total : (a b : K) → same b a ≡ false → below a b ≡ false → below b a ≡ true

module _ {K V : Type 0} ⦃key : Key K⦄ where
  -- `find(k)`
  unfoldable pub lookup : K → List (K × V) → Option V
  lookup k [] = none
  lookup k ((j, v) ∷ m) = if key.same j k then some v else lookup k m

  -- `m[k] = v`
  unfoldable pub insert : K → V → List (K × V) → List (K × V)
  insert k v [] = (k, v) ∷ []
  insert k v ((j, w) ∷ m) =
      if key.same j k
      then (k, v) ∷ m
      else if key.below k j
      then (k, v) ∷ (j, w) ∷ m
      else (j, w) ∷ insert k v m

  -- `erase(find(k))`
  unfoldable pub erase : K → List (K × V) → List (K × V)
  erase k [] = []
  erase k ((j, w) ∷ m) = if key.same j k then m else (j, w) ∷ erase k m

  pub lookup-insert :
      (k j : K) (v : V) (m : List (K × V))
      → lookup j (insert k v m) ≡ (if key.same k j then some v else lookup j m)
  unfolding lookup insert
  lookup-insert k j v [] = refl
  lookup-insert k j v ((i, w) ∷ m) =
      ground (arith, key.same_iff i k, key.same_iff i j, key.same_iff k j, lookup-insert k j v m)

  pub lookup-insert_self : (k : K) (v : V) (m : List (K × V)) → lookup k (insert k v m) ≡ some v
  lookup-insert_self k v m = ground (arith, lookup-insert k k v m, key.same_iff k k)

  -- The keys rise along the list, all above a bound; so no key stands twice.
  abbrev pub Above : K → List (K × V) → Type 0
  Above k [] = Unit {0}
  Above k ((j, w) ∷ m) = (key.below k j ≡ true) × Above k m

  abbrev pub IsMap : List (K × V) → Type 0
  IsMap [] = Unit {0}
  IsMap ((j, w) ∷ m) = Above j m × IsMap m

  Above-mono : (k j : K) (m : List (K × V)) → key.below k j ≡ true → Above j m → Above k m
  Above-mono k j [] h a = tt
  Above-mono k j ((i, w) ∷ m) h a = (key.below_trans k j i h a.0, Above-mono k j m h a.1)

  pub lookup-Above : (k : K) (m : List (K × V)) → Above k m → lookup k m ≡ none
  unfolding lookup
  lookup-Above k [] a = refl
  lookup-Above k ((j, w) ∷ m) a = rw (key.below_ne k j a.0) (lookup-Above k m a.1)

  insert-Above :
      (i k : K) (v : V) (m : List (K × V))
      → key.below i k ≡ true
      → Above i m
      → Above i (insert k v m)
  unfolding insert
  insert-Above i k v [] h a = (h, tt)
  insert-Above i k v ((j, w) ∷ m) h a = ground (arith, insert-Above i k v m h a.1)

  pub insert-IsMap : (k : K) (v : V) (m : List (K × V)) → IsMap m → IsMap (insert k v m)
  unfolding insert
  insert-IsMap k v [] h = (tt, tt)
  insert-IsMap k v ((j, w) ∷ m) h = ground (
    arith,
    key.same_iff j k,
    key.below_total k j,
    Above-mono k j m,
    insert-Above j k v m,
    insert-IsMap k v m h.1,
  )

  pub lookup-erase :
      (k j : K) (m : List (K × V))
      → IsMap m
      → lookup j (erase k m) ≡ (if key.same k j then none else lookup j m)
  unfolding lookup erase
  lookup-erase k j [] h = ground arith
  lookup-erase k j ((i, w) ∷ m) h = ground (
    arith,
    key.same_iff i k,
    key.same_iff i j,
    key.same_iff k j,
    lookup-Above i m h.0,
    lookup-erase k j m h.1,
  )

  erase-Above : (i k : K) (m : List (K × V)) → Above i m → Above i (erase k m)
  unfolding erase
  erase-Above i k [] a = tt
  erase-Above i k ((j, w) ∷ m) a = ground (arith, erase-Above i k m a.1)

  pub erase-IsMap : (k : K) (m : List (K × V)) → IsMap m → IsMap (erase k m)
  unfolding erase
  erase-IsMap k [] h = tt
  erase-IsMap k ((j, w) ∷ m) h = ground (arith, erase-IsMap k m h.1, erase-Above j k m h.0)

-- Keys of `std::map<char, …>`.
pub ltb_ne : (a b : ℕ) → ltb a b ≡ true → (b == a) ≡ false
ltb_ne a b h = ground arith

pub ltb_trans : (a b c : ℕ) → ltb a b ≡ true → ltb b c ≡ true → ltb a c ≡ true
ltb_trans a b c h k = ground arith

pub ltb_total : (a b : ℕ) → (b == a) ≡ false → ltb a b ≡ false → ltb b a ≡ true
ltb_total a b h k = ground arith

instance abbrev pub nat_key : Key ℕ
nat_key = record {
  same = ◌==◌;
  below = ltb;
  same_iff = ==_iff;
  below_ne = ltb_ne;
  below_trans = ltb_trans;
  below_total = ltb_total;
}

-- The order of `std::string`.
abbrev text_lt : Text → Text → Bool
text_lt [] [] = false
text_lt [] (y ∷ ys) = true
text_lt (x ∷ xs) [] = false
text_lt (x ∷ xs) (y ∷ ys) = if x == y then text_lt xs ys else ltb x y

pub text_lt_ne : (s t : Text) → text_lt s t ≡ true → text_eq t s ≡ false
text_lt_ne [] [] h = cc
text_lt_ne [] (y ∷ ys) h = refl
text_lt_ne (x ∷ xs) [] h = cc
text_lt_ne (x ∷ xs) (y ∷ ys) h = ground (arith, text_lt_ne xs ys)

pub text_lt_trans : (s t u : Text) → text_lt s t ≡ true → text_lt t u ≡ true → text_lt s u ≡ true
text_lt_trans [] [] u h k = cc
text_lt_trans [] (y ∷ ys) [] h k = cc
text_lt_trans [] (y ∷ ys) (z ∷ zs) h k = refl
text_lt_trans (x ∷ xs) [] u h k = cc
text_lt_trans (x ∷ xs) (y ∷ ys) [] h k = cc
text_lt_trans (x ∷ xs) (y ∷ ys) (z ∷ zs) h k = ground (arith, text_lt_trans xs ys zs)

pub text_lt_total : (s t : Text) → text_eq t s ≡ false → text_lt s t ≡ false → text_lt t s ≡ true
text_lt_total [] [] h k = cc
text_lt_total [] (y ∷ ys) h k = cc
text_lt_total (x ∷ xs) [] h k = refl
text_lt_total (x ∷ xs) (y ∷ ys) h k = ground (arith, text_lt_total xs ys)

pub text_eq_iff : (s t : Text) → (text_eq s t ≡ true) ↔ (s ≡ t)
text_eq_iff s t = (text_eq→eq s t, λ e. rw e (text_eq_self t))

instance abbrev pub text_key : Key Text
text_key = record {
  same = text_eq;
  below = text_lt;
  same_iff = text_eq_iff;
  below_ne = text_lt_ne;
  below_trans = text_lt_trans;
  below_total = text_lt_total;
}

-- Keys of `std::map<pid_t, …>`.
pub int_lt_ne : (a b : ℤ) → int_lt a b ≡ true → int_eq b a ≡ false
int_lt_ne (pos a) (pos b) h = ground arith
int_lt_ne (pos a) (negsuc b) h = cc
int_lt_ne (negsuc a) (pos b) h = refl
int_lt_ne (negsuc a) (negsuc b) h = ground arith

pub int_lt_trans : (a b c : ℤ) → int_lt a b ≡ true → int_lt b c ≡ true → int_lt a c ≡ true
int_lt_trans a b c h k = ground arith

pub int_lt_total : (a b : ℤ) → int_eq b a ≡ false → int_lt a b ≡ false → int_lt b a ≡ true
int_lt_total a b h k = ground arith

instance abbrev pub int_key : Key ℤ
int_key = record {
  same = int_eq;
  below = int_lt;
  same_iff = int_eq_iff;
  below_ne = int_lt_ne;
  below_trans = int_lt_trans;
  below_total = int_lt_total;
}
