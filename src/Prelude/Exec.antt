-- ===== src/Prelude/Exec.antt =====
-- Functions that change a state and may return an error: what was done before the error stays done.
use mathlib.Core.Bool.{Bool, true, false}
use mathlib.Core.Path.{◌≡◌, refl}
use mathlib.Core.Logic.{◌⊎◌, inl, inr}

pub data Result (E A : Type 0) : Type 0 where
  ok : A → Result E A
  err : E → Result E A

abbrev pub Exec : Type 0 → Type 0 → Type 0 → Type 0
Exec E S A = S → Result E A × S

module _ {E S A : Type 0} where
  abbrev pub pure : A → Exec E S A
  pure a s = (ok a, s)

  abbrev pub raise : E → Exec E S A
  raise e s = (err e, s)

  abbrev pub lift : Result E A → Exec E S A
  lift r s = (r, s)

  abbrev pub continue : {B : Type 0} → Result E A → (A → Exec E S B) → Exec E S B
  continue (ok a) f s = f a s
  continue (err e) f s = (err e, s)

  infixl 10 ◌>>=◌ ◌>>◌
  abbrev pub ◌>>=◌ : {B : Type 0} → Exec E S A → (A → Exec E S B) → Exec E S B
  ◌>>=◌ m f s = let (r, s') = m s in continue r f s'

  abbrev pub ◌>>◌ : {B : Type 0} → Exec E S A → Exec E S B → Exec E S B
  m >> n = m >>= λ _. n

-- `if err := step(); err != nil { cleanup; return e }`, where `fails` says whether the step fails.
abbrev pub attempt : {E S : Type 0} → Bool → Exec E S (Unit {0}) → E → Exec E S (Unit {0})
attempt true cleanup e = cleanup >> raise e
attempt false cleanup e = pure tt

-- `if test { m }`
abbrev pub when : {E S : Type 0} → Bool → Exec E S (Unit {0}) → Exec E S (Unit {0})
when true m s = m s
when false m s = (ok tt, s)

pub Result-cases :
    {E A : Type 0} (r : Result E A) → ((a : A) × (r ≡ ok a)) ⊎ ((e : E) × (r ≡ err e))
Result-cases (ok a) = inl (a, refl)
Result-cases (err e) = inr (e, refl)
