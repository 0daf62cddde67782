-- ===== src/Core/Errors.antt =====
-- backend/app/core/errors.py, with the built-in exceptions that the modelled code can raise.
-- What a call returns or raises is a `Result`.
use mathlib.Core.List.{List}
use mathlib.Core.Bool.{Bool, true, false}
use Prim.Native.String.{String}

pub data Error : Type 0 where
  zero_division : Error
  key_error : String → Error
  value_error : String → Error
  integration_not_verified : String → Error
  data_unavailable : Error
  approval_error : Error
  policy_violation : List String → Error
  live_safety : List String → Error
  type_error : Error

pub data Result {ℓ} (A : Type ℓ) : Type ℓ where
  raised : Error → Result A
  ok : A → Result A

-- An exception ends the block that it is raised in.
infixl 5 ◌>>=◌
abbrev pub ◌>>=◌ {ℓ} : {A B : Type ℓ} (call : Result A) (rest : A → Result B) → Result B
raised e >>= rest = raised e
ok value >>= rest = rest value

infixl 5 ◌>>◌
abbrev pub ◌>>◌ {ℓ} : {B : Type ℓ} (call : Result (Unit {ℓ})) (rest : Result B) → Result B
call >> rest = call >>= λ _. rest

-- `if not test: raise error`
abbrev pub require : Bool → Error → Result (Unit {0})
require true error = ok tt
require false error = raised error
