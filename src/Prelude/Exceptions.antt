-- ===== src/Prelude/Exceptions.antt =====
-- The exceptions that the code raises, and computations that may raise one.
use Prim.Native.String.{String}
use mathlib.Core.Path.{◌≡◌, refl}
use mathlib.Core.Logic.{◌⊎◌, inl, inr}
use mathlib.Core.Bool.{Bool, true, false}
use mathlib.Core.Option.{Option, none, some}

pub data Exception : Type 0 where
  value_error : String → Exception
  key_error : String → Exception
  assertion_error : Exception
  integrity_error : String → Exception
  runtime_invariant : String → Exception
  recovery_error : String → Exception
  lifecycle_error : String → Exception
  budget_exhausted : Exception

pub data Except {ℓ} (A : Type ℓ) : Type ℓ where
  ok : A → Except A
  raise : Exception → Except A

-- A check that returns nothing.
abbrev pub Checked : Type 0
Checked = Except (Unit {0})

-- `if not test: raise error`
abbrev pub require : Bool → Exception → Checked
require false error = raise error
require true error = ok tt

-- `if value is None: raise error`
abbrev pub required {ℓ} : {A : Type ℓ} → Option A → Exception → Except A
required none error = raise error
required (some value) error = ok value

-- What follows is done only where nothing was raised.
module _ {ℓ κ} {A : Type ℓ} {B : Type κ} where
  infixl 5 ◌>>=◌
  abbrev pub ◌>>=◌ : Except A → (A → Except B) → Except B
  raise error >>= next = raise error
  ok value >>= next = next value

  -- Where a chain returns, each part of it has.
  pub >>=-eq-ok :
      (first : Except A) (next : A → Except B) {b : B}
      → (first >>= next) ≡ ok b
      → (value : A) × (first ≡ ok value) × (next value ≡ ok b)
  >>=-eq-ok (raise error) next returned = cc
  >>=-eq-ok (ok value) next returned = (value, refl, returned)

infixl 5 ◌>>◌
abbrev pub ◌>>◌ {ℓ} : {B : Type ℓ} → Checked → Except B → Except B
check >> rest = check >>= λ nothing. rest

-- A computation raises or returns.
pub Except-cases :
    {A : Type 0} (x : Except A) → ((e : Exception) × (x ≡ raise e)) ⊎ ((a : A) × (x ≡ ok a))
Except-cases (ok a) = inr (a, refl)
Except-cases (raise e) = inl (e, refl)

-- Where a check is followed by what returns, both have passed.
pub >>-eq-ok {ℓ} :
    {B : Type ℓ} (check : Checked) (rest : Except B) {b : B}
    → (check >> rest) ≡ ok b
    → (check ≡ ok tt) × (rest ≡ ok b)
>>-eq-ok (raise error) rest e = cc
>>-eq-ok (ok u) rest e = (refl, e)
