-- ===== src/Base/Options.antt =====
-- Optional values: filling one from another.
use mathlib.Core.Path.{◌≡◌, refl}
use mathlib.Core.Option.{Option, none, some}

module _ {A : Type 0} where
  -- What is known stays, and what is missing is taken from the second.
  pub record IsFilled (first second filled : Option A) : Type 0 where
    pub keeps : (x : A) → first ≡ some x → filled ≡ some x
    pub fills : first ≡ none → filled ≡ second

  pub none-IsFilled : (second : Option A) → IsFilled none second second
  none-IsFilled second = record { keeps = λ x e. cc; fills = λ e. refl }

  pub some-IsFilled : (x : A) (second : Option A) → IsFilled (some x) second (some x)
  some-IsFilled x second = record { keeps = λ y e. e; fills = λ e. cc }
