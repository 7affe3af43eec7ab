-- ===== src/Common/Results.antt =====
-- Results of fallible code. The type of the errors is a parameter, for each component its own.
use mathlib.Core.Path.{◌≡◌, refl}

pub data Result {ℓ κ} (E : Type κ) (A : Type ℓ) : Type (ℓ ⊔ κ) where
  ok : A → Result E A
  err : E → Result E A

module _ {ℓ κ μ} {Fault : Type μ} {Value : Type ℓ} {Next : Type κ} where
  infixl 5 ◌>>=◌
  abbrev pub ◌>>=◌ : Result Fault Value → (Value → Result Fault Next) → Result Fault Next
  err fault >>= next = err fault
  ok value >>= next = next value

  -- Both steps of a chain that succeeds have succeeded.
  pub >>=-eq-ok :
      (first : Result Fault Value) (next : Value → Result Fault Next) {result : Next}
      → (first >>= next) ≡ ok result
      → (value : Value) × (first ≡ ok value) × (next value ≡ ok result)
  >>=-eq-ok (err fault) next chain = cc
  >>=-eq-ok (ok value) next chain = (value, refl, chain)
