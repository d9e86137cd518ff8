-- ===== src/Prelude/Results.antt =====
-- Calls that may throw: the value, or the error thrown. Passed on by `Prelude`.
use mathlib.Core.Bool.{Bool, true, false}
use mathlib.Core.Path.{◌≡◌, refl}

pub data Result {ℓ} (E : Type 0) (A : Type ℓ) : Type ℓ where
  ok : A → Result E A
  err : E → Result E A

-- `assert(test, message)`: it throws unless the test holds.
abbrev pub assert : {Thrown : Type 0} → Bool → Thrown → Result Thrown (Unit {0})
assert false thrown = err thrown
assert true thrown = ok tt

-- What comes next, unless a call has thrown.
module _ {ℓ κ} {Thrown : Type 0} {Value : Type ℓ} {Next : Type κ} where
  infixl 5 ◌>>=◌
  abbrev pub ◌>>=◌ : Result Thrown Value → (Value → Result Thrown Next) → Result Thrown Next
  err thrown >>= next = err thrown
  ok value >>= next = next value

  -- If the whole ends in a value, so did the first call.
  pub >>=-eq-ok :
      (call : Result Thrown Value) (next : Value → Result Thrown Next) {last : Next}
      → (call >>= next) ≡ ok last
      → (value : Value) × (call ≡ ok value) × (next value ≡ ok last)
  >>=-eq-ok (err thrown) next ended = cc
  >>=-eq-ok (ok value) next ended = (value, refl, ended)

infixl 5 ◌>>◌
abbrev pub ◌>>◌ {κ} :
    {Thrown : Type 0} {Next : Type κ}
    → Result Thrown (Unit {0})
    → Result Thrown Next
    → Result Thrown Next
check >> next = check >>= λ nothing. next

pub ok-injective {ℓ} :
    {E : Type 0} {A : Type ℓ} {a b : A} → ◌≡◌ {A = Result E A} (ok a) (ok b) → a ≡ b
ok-injective h = cc
