-- ===== src/Common/Monad.antt =====
-- Code over an explicit state that always comes back to its caller.
use mathlib.Core.Bool.{Bool}
use touch_applauncherd.Common.Tests.{if◌then◌else◌}

abbrev pub Step : Type 0 → Type 0 → Type 0
Step S A = S → A × S

infixl 5 ◌>>=◌ ◌>>◌
abbrev pub ◌>>=◌ : {S A B : Type 0} → Step S A → (A → Step S B) → Step S B
◌>>=◌ m f s = let (a, s') = m s in f a s'

abbrev pub ◌>>◌ : {S A B : Type 0} → Step S A → Step S B → Step S B
m >> k = m >>= λ _. k

abbrev pub pure : {S A : Type 0} → A → Step S A
pure a s = (a, s)

abbrev pub get : {S : Type 0} → Step S S
get s = (s, s)

abbrev pub gets : {S A : Type 0} → (S → A) → Step S A
gets f s = (f s, s)

abbrev pub modify : {S : Type 0} → (S → S) → Step S (Unit {0})
modify f s = (tt, f s)

-- `if (b) m;`
abbrev pub when : {S : Type 0} → Bool → Step S (Unit {0}) → Step S (Unit {0})
when b m = if b then m else pure tt
