-- ===== src/Float.antt =====
-- Python's `float`, which the program computes with everywhere, as an interface: the operations that
-- the code uses and the facts about them that the theorems need. `Fixed` is one value of it.
pub mod Int
pub mod Fixed
pub mod Order
use meme_agent.Base.{ℕ, ◌≡◌, Bool, true, false, not, ◌⊎◌, List, [], ◌∷◌, if◌then◌else◌}
use meme_agent.Core.Errors.{Result, ok, raised, zero_division}

-- The operations. `dec m e` is the literal m * 10^-e and `seconds a b` is
-- `(a - b).total_seconds()` of two datetimes, which are microseconds since an epoch; `ratio a b` is
-- the true division of two ints of which the second one is not 0.
pub record FloatOps (F : Type 0) : Type 0 where
  pub plus : F → F → F
  pub minus : F → F → F
  pub times : F → F → F
  pub quotient : F → F → F
  pub negate : F → F
  pub less : F → F → Bool
  pub less_eq : F → F → Bool
  pub is_zero : F → Bool
  pub dec : ℕ → ℕ → F
  pub seconds : ℕ → ℕ → F
  pub round_to : ℕ → F → F
  pub ratio : ℕ → ℕ → F

module _ {F : Type 0} ⦃n : FloatOps F⦄ where
  infixl 65 ◌+◌ ◌-◌
  infixl 70 ◌*◌
  infix 70 ◌÷◌
  infix 4 ◌≼◌
  abbrev pub ◌+◌ : F → F → F
  ◌+◌ = n.plus

  abbrev pub ◌-◌ : F → F → F
  ◌-◌ = n.minus

  abbrev pub ◌*◌ : F → F → F
  ◌*◌ = n.times

  -- `/` raises ZeroDivisionError on a zero divisor.
  abbrev pub ◌÷◌ : F → F → Result F
  a ÷ b = if n.is_zero b then raised zero_division else ok (n.quotient a b)

  -- `/` by a divisor that is a literal other than 0, which cannot raise.
  abbrev pub over : F → F → F
  over = n.quotient

  abbrev pub neg : F → F
  neg = n.negate

  -- `a < b`, `a <= b`, `a > b`, `a >= b`
  abbrev pub lt : F → F → Bool
  lt = n.less

  abbrev pub le : F → F → Bool
  le = n.less_eq

  abbrev pub gt : F → F → Bool
  gt a b = n.less b a

  abbrev pub ge : F → F → Bool
  ge a b = n.less_eq b a

  abbrev pub dec : ℕ → ℕ → F
  dec = n.dec

  -- An `int` where the code mixes it with floats.
  abbrev pub num : ℕ → F
  num k = n.dec k 0

  abbrev pub seconds : ℕ → ℕ → F
  seconds = n.seconds

  -- `round(x, k)`
  abbrev pub round : F → ℕ → F
  round x k = n.round_to k x

  -- Truth of a float.
  abbrev pub truthy : F → Bool
  truthy x = not (n.is_zero x)

  -- `min(a, b)` and `max(a, b)` keep the first argument unless the second one is strictly better.
  abbrev pub min : F → F → F
  min a b = if lt b a then b else a

  abbrev pub max : F → F → F
  max a b = if lt a b then b else a

  -- `min` of a list with a first element.
  abbrev pub min_of : F → List F → F
  min_of best [] = best
  min_of best (x ∷ xs) = min_of (min best x) xs

  -- `sum` starts from 0 and adds from the left.
  abbrev pub sum_from : F → List F → F
  sum_from acc [] = acc
  sum_from acc (x ∷ xs) = sum_from (acc + x) xs

  abbrev pub sum : List F → F
  sum = sum_from (num 0)

  abbrev pub ◌≼◌ : F → F → Type 0
  a ≼ b = le a b ≡ true

-- The order of the finite floats, and that sums, differences and rounding respect it.
pub record IsOrdered (F : Type 0) ⦃n : FloatOps F⦄ : Type 0 where
  pub le_refl : (a : F) → a ≼ a
  pub le_trans : (a b c : F) → a ≼ b → b ≼ c → a ≼ c
  pub le_total : (a b : F) → (a ≼ b) ⊎ (b ≼ a)
  pub lt-eq-not-le : (a b : F) → lt a b ≡ not (le b a)
  pub add_mono : (a b c d : F) → a ≼ b → c ≼ d → a + c ≼ b + d
  pub sub_nonneg : (a b : F) → b ≼ a → num 0 ≼ a - b
  pub sub-le : (a b : F) → num 0 ≼ b → a - b ≼ a
  pub sub_nonpos : (a b : F) → a ≼ b → a - b ≼ num 0
  pub pos_nonzero : (a : F) → lt (num 0) a ≡ true → n.is_zero a ≡ false
  pub round_mono : (a b : F) → a ≼ b → round a 6 ≼ round b 6
  pub round_zero : ◌≼◌ {F = F} (num 0) (round (num 0) 6)
  pub zero_le_dec : (m e : ℕ) → ◌≼◌ {F = F} (num 0) (dec m e)
  pub add_zero-le : (a : F) → a + num 0 ≼ a
  pub le-add_zero : (a : F) → a ≼ a + num 0
