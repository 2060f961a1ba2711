-- ===== src/Shared/Faults.antt =====
-- What a C++ call can do besides returning: a failed `assert`, or an exception.
use mathlib.Core.Bool.{Bool, true, false}
use mathlib.Core.Path.{◌≡◌, refl}

pub data Fault : Type 0 where
  assertion runtime_error out_of_range system_error null_pointer : Fault

pub data Result {ℓ} (Value : Type ℓ) : Type ℓ where
  err : Fault → Result Value
  ok : Value → Result Value

-- `assert (b)`, in a build that checks assertions.
abbrev pub assert : Bool → Result (Unit {0})
assert false = err Fault.assertion
assert true = ok tt

-- `if (b) throw ...`
abbrev pub throw_if : Bool → Fault → Result (Unit {0})
throw_if true fault = err fault
throw_if false fault = ok tt

-- One call behind another; a fault ends both.
infixl 5 ◌>>=◌
abbrev pub ◌>>=◌ {κ ℓ} :
    {Next : Type κ} {Value : Type ℓ} → Result Value → (Value → Result Next) → Result Next
err fault >>= then_call = err fault
ok value >>= then_call = then_call value

infixl 5 ◌>>◌
abbrev pub ◌>>◌ {κ} : {Next : Type κ} → Result (Unit {0}) → Result Next → Result Next
first >> second = first >>= λ _. second

-- What a call that returned says of the calls in it.
pub bind_inv {κ ℓ} :
    {Next : Type κ} {Value : Type ℓ} (call : Result Value) (then_call : Value → Result Next)
    {done : Next}
    → (call >>= then_call) ≡ ok done
    → (value : Value) × (call ≡ ok value) × (then_call value ≡ ok done)
bind_inv (ok value) then_call e = (value, refl, e)
bind_inv (err fault) then_call e = cc

pub ok_inj {ℓ} : {Value : Type ℓ} (x y : Value) → ok x ≡ ok y → x ≡ y
ok_inj x y e = cc

-- Calls that are two calls each, and a call behind a value that is only made.
pub bind_split {κ ℓ m} :
    {Last : Type κ} {Next : Type ℓ} {Value : Type m} (call : Result Value)
    (both : Value → Result Last) (first : Value → Result Next) (second : Next → Result Last)
    → ((value : Value) → both value ≡ (first value >>= second))
    → (call >>= both) ≡ ((call >>= first) >>= second)
bind_split (ok value) both first second e = e value
bind_split (err fault) both first second e = refl

pub bind_made {κ ℓ m} :
    {Last : Type κ} {Next : Type ℓ} {Value : Type m} (call : Result Value) (make : Value → Next)
    (second : Next → Result Last)
    → ((call >>= λ value. ok (make value)) >>= second) ≡ (call >>= λ value. second (make value))
bind_made (ok value) make second = refl
bind_made (err fault) make second = refl
