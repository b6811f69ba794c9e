-- ===== src/Common/Invariant.antt =====
-- What holds of a state and of every state that code comes back with.
use Prim.Native.Nat.{ℕ}
use mathlib.Core.Bool.{Bool, true, false}
use mathlib.Core.Path.{◌≡◌, ap, subst}
use touch_applauncherd.Common.Tests.{if◌then◌else◌}
use touch_applauncherd.Common.Exits.{
  Run, Outcome, done, reached, ◌>>=◌, pure, exit, get, modify, when, bind-done,
}

pub record Invariant {ℓ} {S A : Type 0} (P : S → Type ℓ) (m : Run S A) : Type ℓ where
  pub kept : (s t : S) (a : A) → P s → m s ≡ done a t → P t

-- The state that an outcome came back with.
state-done : {S A : Type 0} (a b : A) (s t : S) → done a s ≡ done b t → s ≡ t
state-done a b s t e = ap (λ (o : Outcome _ _). reached o) e

module _ {ℓ} {S : Type 0} {P : S → Type ℓ} where
  pub Invariant-bind :
      {A B : Type 0} (m : Run S A) (f : A → Run S B)
      → Invariant P m
      → ((a : A) → Invariant P (f a))
      → Invariant P (m >>= f)
  Invariant-bind m f first next = record {
    kept = λ s t b at e.
        let (a, u, runs, goes_on) = bind-done m f s t b e in
        (next a).kept u t b (first.kept s u a at runs) goes_on;
  }

  pub Invariant-pure : {A : Type 0} (a : A) → Invariant P (pure a)
  Invariant-pure a = record { kept = λ s t b at e. subst P (state-done a b s t e) at }

  pub Invariant-exit : {A : Type 0} (code : ℕ) → Invariant P (exit {A = A} code)
  Invariant-exit code = record { kept = λ s t b at e. absurd cc }

  pub Invariant-modify : (f : S → S) → ((s : S) → P s → P (f s)) → Invariant P (modify f)
  Invariant-modify f h = record {
    kept = λ s t b at e. subst P (state-done tt b (f s) t e) (h s at);
  }

  pub Invariant-if :
      {A : Type 0} (b : Bool) (m k : Run S A)
      → Invariant P m
      → Invariant P k
      → Invariant P (if b then m else k)
  Invariant-if true m k h g = h
  Invariant-if false m k h g = g

  pub Invariant-get :
      {A : Type 0} (f : S → Run S A) → ((s : S) → P s → Invariant P (f s)) → Invariant P (get >>= f)
  Invariant-get f h = record { kept = λ s t b at e. (h s at).kept s t b at e }

  pub Invariant-when : (b : Bool) (m : Run S (Unit {0})) → Invariant P m → Invariant P (when b m)
  Invariant-when b m h = Invariant-if b m (pure tt) h (Invariant-pure tt)

-- What holds of every state that code comes back with, whatever it started from.
pub record Ensures {ℓ} {S A : Type 0} (P : S → Type ℓ) (m : Run S A) : Type ℓ where
  pub met : (s t : S) (a : A) → m s ≡ done a t → P t

module _ {ℓ} {S : Type 0} {P : S → Type ℓ} where
  -- The last part decides.
  pub Ensures-bind :
      {A B : Type 0} (m : Run S A) (f : A → Run S B)
      → ((a : A) → Ensures P (f a))
      → Ensures P (m >>= f)
  Ensures-bind m f last = record {
    met =
        λ s t b e. let (a, u, runs, goes_on) = bind-done m f s t b e in (last a).met u t b goes_on;
  }
