-- ===== src/Core/Outcomes.antt =====
-- Postconditions of calls that return or raise.
use mathlib.Core.Bool.{Bool, true, false}
use mathlib.Core.Path.{◌≡◌, refl}
use meme_agent.Base.{if◌then◌else◌}
use meme_agent.Core.Errors.{Result, ok, raised, zero_division, ◌>>=◌}

-- A call returns a value with the property, or raises ZeroDivisionError and nothing else.
abbrev pub Ensures : {A : Type 0} → (A → Type 0) → Result A → Type 0
Ensures P (ok a) = P a
Ensures P (raised e) = e ≡ zero_division

-- Any value will do.
abbrev pub Anything : {A : Type 0} → A → Type 0
Anything a = Unit

module _ {A : Type 0} (P : A → Type 0) where
  pub Ensures-if :
      (b : Bool) (x y : Result A)
      → (b ≡ true → Ensures P x)
      → (b ≡ false → Ensures P y)
      → Ensures P (if b then x else y)
  Ensures-if true x y h k = h refl
  Ensures-if false x y h k = k refl

  pub Ensures-bind :
      {B : Type 0} (m : Result B) (f : B → Result A)
      → Ensures Anything m
      → ((b : B) → m ≡ ok b → Ensures P (f b))
      → Ensures P (m >>= f)
  Ensures-bind (ok b) f h k = k b refl
  Ensures-bind (raised e) f h k = h

pub ok-injective : {A : Type 0} (a b : A) → ok a ≡ ok b → a ≡ b
ok-injective a b h = cc

-- The call returns.
abbrev pub Returns : {A : Type 0} → Result A → Type 0
Returns (ok a) = Unit
Returns (raised e) = ⊥

module _ {A : Type 0} where
  pub Returns-if :
      (b : Bool) (x y : Result A)
      → Returns x
      → (b ≡ false → Returns y)
      → Returns (if b then x else y)
  Returns-if true x y h k = h
  Returns-if false x y h k = k refl

  pub Returns-bind :
      {B : Type 0} (m : Result B) (f : B → Result A)
      → Returns m
      → ((b : B) → Returns (f b))
      → Returns (m >>= f)
  Returns-bind (ok b) f h k = k b
  Returns-bind (raised e) f h k = h

  pub value_of : (m : Result A) → Returns m → (a : A) × (m ≡ ok a)
  value_of (ok a) h = (a, refl)
  value_of (raised e) h = absurd h

-- A block that returns: its first call returned a value, and the rest went on from there.
pub >>=-eq-ok :
    {A B : Type 0} {result : B} (rest : A → Result B) (call : Result A)
    → (call >>= rest) ≡ ok result
    → (value : A) × ((call ≡ ok value) × (rest value ≡ ok result))
>>=-eq-ok rest (raised error) returns = cc
>>=-eq-ok rest (ok value) returns = (value, (refl, returns))
