-- ===== src/Prelude/Results.antt =====
-- Python's exceptions as values. A result is a value or the class of the exception raised.
use mathlib.Core.Path.{◌≡◌, refl}
use mathlib.Core.Logic.{◌⊎◌, inl, inr}
use mathlib.Core.Bool.{Bool, true, false}

-- The classes that the modelled code raises. `assert` raises `assertion_error`.
pub data Error : Type 0 where
  assertion_error index_error key_error value_error runtime_error type_error zero_division_error :
      Error

pub data Result {ℓ} (A : Type ℓ) : Type ℓ where
  ok : A → Result A
  raise : Error → Result A

-- `if not test: raise`, also `assert test`.
abbrev pub guard : Bool → Error → Result (Unit {0})
guard false class = raise class
guard true class = ok tt

-- What follows a call is not run once the call raised.
infixl 5 ◌>>=◌
abbrev pub ◌>>=◌ {ℓ κ} : {A : Type ℓ} {B : Type κ} → Result A → (A → Result B) → Result B
raise class >>= next = raise class
ok value >>= next = next value

infixl 5 ◌>>◌
abbrev pub ◌>>◌ {κ} : {B : Type κ} → Result (Unit {0}) → Result B → Result B
call >> next = call >>= λ _. next

-- What a successful chain says of its first part.
pub >>=-eq-ok {ℓ κ} :
    {A : Type ℓ} {B : Type κ} (call : Result A) (next : A → Result B) {last : B}
    → (call >>= next) ≡ ok last
    → (value : A) × (call ≡ ok value) × (next value ≡ ok last)
>>=-eq-ok (raise class) next h = cc
>>=-eq-ok (ok value) next h = (value, refl, h)

pub guard-eq-ok : (t : Bool) (e : Error) {u : Unit {0}} → guard t e ≡ ok u → t ≡ true
guard-eq-ok true e h = refl
guard-eq-ok false e h = cc

-- A chain that raised did so in its first part or behind it.
pub >>=-eq-raise {ℓ κ} :
    {A : Type ℓ} {B : Type κ} (call : Result A) (next : A → Result B) {class : Error}
    → (call >>= next) ≡ raise class
    → (call ≡ raise class) ⊎ ((value : A) × (call ≡ ok value) × (next value ≡ raise class))
>>=-eq-raise (raise f) next h = inl cc
>>=-eq-raise (ok value) next h = inr (value, refl, h)
