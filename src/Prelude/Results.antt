-- ===== src/Prelude/Results.antt =====
-- Go's value-or-error pairs: a function returns one of the two.
use mathlib.Core.Path.{◌≡◌, refl}
use mathlib.Core.Logic.{◌⊎◌, inl, inr}
use mathlib.Core.Bool.{Bool, true, false}

pub data Result {ℓ κ} (Failure : Type ℓ) (Value : Type κ) : Type (ℓ ⊔ κ) where
  err : Failure → Result Failure Value
  ok : Value → Result Failure Value

module _ {ℓ κ} {Failure : Type ℓ} {Value : Type κ} where
  -- Which of the two a function has returned, with the equation.
  pub Result-cases :
      (r : Result Failure Value)
      → ((failure : Failure) × (r ≡ err failure)) ⊎ ((value : Value) × (r ≡ ok value))
  Result-cases (err failure) = inl (failure, refl)
  Result-cases (ok value) = inr (value, refl)

module _ {ℓ κ μ} {Failure : Type ℓ} {Value : Type κ} {Next : Type μ} where
  infixl 5 ◌>>=◌
  -- `if err != nil { return err }` before what comes next.
  abbrev pub ◌>>=◌ : Result Failure Value → (Value → Result Failure Next) → Result Failure Next
  err failure >>= next = err failure
  ok value >>= next = next value

  -- A chain that succeeds has succeeded at its first link.
  pub >>=-eq-ok :
      (first : Result Failure Value) (next : Value → Result Failure Next) {final : Next}
      → (first >>= next) ≡ ok final
      → (value : Value) × (first ≡ ok value) × (next value ≡ ok final)
  >>=-eq-ok (err failure) next reached = cc
  >>=-eq-ok (ok value) next reached = (value, refl, reached)

module _ {ℓ κ μ} {Failure : Type ℓ} {Value : Type κ} {Next : Type μ} where
  infixl 5 ◌>>◌
  -- The same where only the error of the first counts.
  abbrev pub ◌>>◌ : Result Failure Value → Result Failure Next → Result Failure Next
  m >> next = m >>= λ _. next

-- `if test { return failure }`, and what a chain knows once it has gone on after one.
abbrev pub refuse {ℓ} : {Failure : Type ℓ} → Bool → Failure → Result Failure (Unit {0})
refuse true failure = err failure
refuse false failure = ok tt

pub refuse-eq-ok {ℓ κ} :
    {Failure : Type ℓ} {Value : Type κ} (test : Bool) (failure : Failure)
    (next : Result Failure Value) {value : Value}
    → (refuse test failure >> next) ≡ ok value
    → (test ≡ false) × (next ≡ ok value)
refuse-eq-ok true failure next reached = cc
refuse-eq-ok false failure next reached = (refl, reached)

-- Two values that are returned for one are the same.
pub ok-injective {ℓ κ} :
    {Failure : Type ℓ} {Value : Type κ} {x y : Value}
    → ◌≡◌ {A = Result Failure Value} (ok x) (ok y)
    → x ≡ y
ok-injective h = cc
