-- ===== src/Prelude/Outcome.antt =====
-- A computation that may raise: Python's exceptions as values.
use mathlib.Core.Bool.{Bool, true, false}
use mathlib.Core.Path.{◌≡◌, refl}
use mathlib.Core.Logic.{◌⊎◌, inl, inr}

-- The exception, or the value.
pub data Result {ℓ κ} (Fault : Type ℓ) (Value : Type κ) : Type (ℓ ⊔ κ) where
  err : Fault → Result Fault Value
  ok : Value → Result Fault Value

module _ {ℓ} {Fault : Type ℓ} where
  -- `if not condition: raise fault`
  abbrev pub require : Bool → Fault → Result Fault (Unit {0})
  require false fault = err fault
  require true _ = ok tt

  -- `if condition: raise fault`
  abbrev pub raise_if : Bool → Fault → Result Fault (Unit {0})
  raise_if false _ = ok tt
  raise_if true fault = err fault

infixl 5 ◌>>=◌
abbrev pub ◌>>=◌ {ℓ κ μ} :
    {Fault : Type ℓ} {Value : Type κ} {Next : Type μ}
    → Result Fault Value
    → (Value → Result Fault Next)
    → Result Fault Next
err fault >>= _ = err fault
ok value >>= next = next value

infixl 5 ◌>>◌
abbrev pub ◌>>◌ {ℓ κ} :
    {Fault : Type ℓ} {Next : Type κ}
    → Result Fault (Unit {0})
    → Result Fault Next
    → Result Fault Next
first >> then_this = first >>= λ _. then_this

module _ {ℓ κ} {E : Type ℓ} {A : Type κ} where
  pub Result-cases : (r : Result E A) → ((a : A) × (r ≡ ok a)) ⊎ ((e : E) × (r ≡ err e))
  Result-cases (ok a) = inl (a, refl)
  Result-cases (err e) = inr (e, refl)

-- What a bind that did not raise has come through.
pub >>=-eq-ok {ℓ κ μ} :
    {Fault : Type ℓ} {Value : Type κ} {Next : Type μ} (first : Result Fault Value)
    (next : Value → Result Fault Next) {result : Next}
    → (first >>= next) ≡ ok result
    → (value : Value) × (first ≡ ok value) × (next value ≡ ok result)
>>=-eq-ok (err fault) next raised = cc
>>=-eq-ok (ok value) next came_through = (value, refl, came_through)

-- The same, for a proof that goes on from the step's value.
pub succeeded {ℓ κ μ ν} :
    {E : Type ℓ} {A : Type κ} {B : Type μ} {P : Type ν} (m : Result E A) (f : A → Result E B)
    {b : B}
    → (m >>= f) ≡ ok b
    → ((a : A) → m ≡ ok a → f a ≡ ok b → P)
    → P
succeeded (ok a) f h k = k a refl h
succeeded (err e) f h k = absurd (cc)

-- A guard that did not raise.
pub passed_guard {ℓ κ ν} :
    {E : Type ℓ} {B : Type κ} {P : Type ν} (c : Bool) (e : E) (m : Result E B) {b : B}
    → (raise_if c e >> m) ≡ ok b
    → (c ≡ false → m ≡ ok b → P)
    → P
passed_guard true e m h k = absurd (cc)
passed_guard false e m h k = k refl h

pub met_requirement {ℓ κ ν} :
    {E : Type ℓ} {B : Type κ} {P : Type ν} (c : Bool) (e : E) (m : Result E B) {b : B}
    → (require c e >> m) ≡ ok b
    → (c ≡ true → m ≡ ok b → P)
    → P
met_requirement true e m h k = k refl h
met_requirement false e m h k = absurd (cc)

pub require_sound {ℓ} :
    {E : Type ℓ} (c : Bool) (e : E) {u : Unit {0}} → require c e ≡ ok u → c ≡ true
require_sound true e h = refl
require_sound false e h = absurd (cc)
