-- ===== src/Common/Exits.antt =====
-- Code that may not come back: it comes back with a value, exits with a status, or is a forked
-- child that goes on as another part of the program, which a number names. Either way the state
-- that it reached stays.
use mathlib.Core.Bool.{Bool}
use Prim.Native.Nat.{ℕ}
use mathlib.Core.Path.{◌≡◌, refl}
use mathlib.Core.Logic.{◌≢◌}
use touch_applauncherd.Common.Tests.{if◌then◌else◌}

-- EXIT_SUCCESS and EXIT_FAILURE
abbrev pub exit_success : ℕ
exit_success = 0

abbrev pub exit_failure : ℕ
exit_failure = 1

pub data Outcome (S A : Type 0) : Type 0 where
  done : A → S → Outcome S A
  exited : ℕ → S → Outcome S A
  becomes : ℕ → S → Outcome S A

abbrev pub Run : Type 0 → Type 0 → Type 0
Run S A = S → Outcome S A

-- The state in which the code came back or exited.
abbrev pub reached : {S A : Type 0} → Outcome S A → S
reached (done a s) = s
reached (exited code s) = s
reached (becomes what s) = s

abbrev pub and_then : {S A B : Type 0} → (A → Run S B) → Outcome S A → Outcome S B
and_then f (done a s) = f a s
and_then f (exited code s) = exited code s
and_then f (becomes what s) = becomes what s

abbrev pub place : {S T A : Type 0} → (T → S → S) → S → Outcome T A → Outcome S A
place put s (done a t) = done a (put t s)
place put s (exited code t) = exited code (put t s)
place put s (becomes what t) = becomes what (put t s)

infixl 5 ◌>>=◌ ◌>>◌
abbrev pub ◌>>=◌ : {S A B : Type 0} → Run S A → (A → Run S B) → Run S B
◌>>=◌ m f s = and_then f (m s)

abbrev pub ◌>>◌ : {S A B : Type 0} → Run S A → Run S B → Run S B
m >> k = m >>= λ _. k

abbrev pub pure : {S A : Type 0} → A → Run S A
pure a s = done a s

abbrev pub exit : {S A : Type 0} → ℕ → Run S A
exit code s = exited code s

abbrev pub get : {S : Type 0} → Run S S
get s = done s s

abbrev pub modify : {S : Type 0} → (S → S) → Run S (Unit {0})
modify f s = done tt (f s)

-- `if (b) m;`
abbrev pub when : {S : Type 0} → Bool → Run S (Unit {0}) → Run S (Unit {0})
when b m = if b then m else pure tt

-- What code leaves alone whether it comes back or exits, its continuation leaves alone too.
pub reached-bind {ℓ} :
    {S A B : Type 0} (P : S → Type ℓ) (m : Run S A) (f : A → Run S B) (s : S)
    → P (reached (m s))
    → ((a : A) (t : S) → P t → P (reached (f a t)))
    → P (reached ((m >>= f) s))
reached-bind {S} {A} P m f s p k = after (m s) p
  where
    after : (o : Outcome S A) → P (reached o) → P (reached (and_then f o))
    after (done a t) q = k a t q
    after (exited code t) q = q
    after (becomes what t) q = q

-- Code does not come back with a value if what follows its first part does not.
pub bind-ne-done :
    {S A B : Type 0} (m : Run S A) (f : A → Run S B) (s t : S) (b : B)
    → ((a : A) (u : S) → m s ≡ done a u → f a u ≢ done b t)
    → (m >>= f) s ≢ done b t
bind-ne-done {S} {A} {B} m f s t b never = after (m s) refl
  where
    after : (o : Outcome S A) → m s ≡ o → and_then f o ≢ done b t
    after (done a u) is = never a u is
    after (exited code u) is = λ e. absurd cc
    after (becomes what u) is = λ e. absurd cc

-- Code that comes back went through the value of its first part.
pub bind-done :
    {S A B : Type 0} (m : Run S A) (f : A → Run S B) (s t : S) (b : B)
    → (m >>= f) s ≡ done b t
    → (a : A) × (u : S) × (m s ≡ done a u) × (f a u ≡ done b t)
bind-done {S} {A} {B} m f s t b = after (m s) refl
  where
    after :
        (o : Outcome S A)
        → m s ≡ o
        → and_then f o ≡ done b t
        → (a : A) × (u : S) × (m s ≡ done a u) × (f a u ≡ done b t)
    after (done a u) is e = (a, u, is, e)
    after (exited code u) is e = absurd cc
    after (becomes what u) is e = absurd cc

-- A step on a part of the state.
abbrev pub within : {S T A : Type 0} → (S → T) → (T → S → S) → Run T A → Run S A
within part put m s = place put s (m (part s))
