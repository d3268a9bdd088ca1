-- ===== src/Prelude/Outcome.antt =====
-- `Result` with the error type of each component, and the call that passes an error on.
use mathlib.Core.Path.{◌≡◌, refl}
use mathlib.Core.Logic.{◌⊎◌, inl, inr}

-- A value, or the error that stood in its way.
pub data Result (E : Type 0) (A : Type 0) : Type 0 where
  err : E → Result E A
  ok : A → Result E A

module _ {E A : Type 0} where
  -- The source's `?`: what follows runs on the value, an error is passed on.
  infixl 5 ◌>>=◌
  abbrev pub ◌>>=◌ : {B : Type 0} → Result E A → (A → Result E B) → Result E B
  err failed >>= next = err failed
  ok value >>= next = next value

  -- A call that succeeds has succeeded in both of its steps.
  pub >>=-eq-ok :
      {B : Type 0} (first : Result E A) (next : A → Result E B) {last : B}
      → (first >>= next) ≡ ok last
      → (value : A) × (first ≡ ok value) × (next value ≡ ok last)
  >>=-eq-ok (err failed) next done = cc
  >>=-eq-ok (ok value) next done = (value, refl, done)

  pub Result-cases :
      (r : Result E A) → ((value : A) × (r ≡ ok value)) ⊎ ((failed : E) × (r ≡ err failed))
  Result-cases (err failed) = inr (failed, refl)
  Result-cases (ok value) = inl (value, refl)
