-- ===== src/Float/Order.antt =====
-- Consequences of the order of the floats: tests that fail, minima and maxima, sums.
use meme_agent.Base.{◌≡◌, true, false, List, [], ◌∷◌, All, arith}
use meme_agent.Float.{FloatOps, IsOrdered, ◌+◌, ◌≼◌, lt, min, max, min_of, num, sum_from}

module _ {F : Type 0} ⦃n : FloatOps F⦄ (order : IsOrdered F) where
  open order use {le_refl, le_trans, le_total, lt-eq-not-le, add_mono, add_zero-le, le-add_zero}

  pub le-of-not-lt : (a b : F) → lt b a ≡ false → a ≼ b
  le-of-not-lt a b h = ground (arith, lt-eq-not-le b a)

  pub le-of-lt : (a b : F) → lt a b ≡ true → a ≼ b
  le-of-lt a b h = ground (arith, lt-eq-not-le a b, le_total a b)

  pub min-le_left : (a b : F) → min a b ≼ a
  min-le_left a b = ground (arith, le-of-lt b a, le_refl a)

  pub min-le_right : (a b : F) → min a b ≼ b
  min-le_right a b = ground (arith, le-of-not-lt a b, le_refl b)

  pub le-min : (c a b : F) → c ≼ a → c ≼ b → c ≼ min a b
  le-min c a b h k = ground arith

  pub le-max_left : (a b : F) → a ≼ max a b
  le-max_left a b = ground (arith, le-of-lt a b, le_refl a)

  pub le-max_right : (a b : F) → b ≼ max a b
  le-max_right a b = ground (arith, le-of-not-lt b a, le_refl b)

  pub max-le : (a b c : F) → a ≼ c → b ≼ c → max a b ≼ c
  max-le a b c h k = ground arith

  pub min_of-le_first : (x : F) (xs : List F) → min_of x xs ≼ x
  min_of-le_first x [] = le_refl x
  min_of-le_first x (y ∷ ys) = le_trans _ _ _ (min_of-le_first (min x y) ys) (min-le_left x y)

  pub min_of-le : (x : F) (xs : List F) → All (λ y. min_of x xs ≼ y) xs
  min_of-le x [] = tt
  min_of-le x (y ∷ ys) =
      (le_trans _ _ _ (min_of-le_first (min x y) ys) (min-le_right x y), min_of-le (min x y) ys)

  pub add-le : (a b : F) → b ≼ num 0 → a + b ≼ a
  add-le a b h = le_trans _ _ _ (add_mono a a b (num 0) (le_refl a) h) (add_zero-le a)

  pub le-add : (a b : F) → num 0 ≼ b → a ≼ a + b
  le-add a b h = le_trans _ _ _ (le-add_zero a) (add_mono a a (num 0) b (le_refl a) h)

  -- Terms that are not positive never raise a sum, and terms that are not negative never lower it.
  pub sum_from-le : (acc : F) (xs : List F) → All (λ x. x ≼ num 0) xs → sum_from acc xs ≼ acc
  sum_from-le acc [] h = le_refl acc
  sum_from-le acc (x ∷ xs) (h, hs) = le_trans _ _ _ (sum_from-le (acc + x) xs hs) (add-le acc x h)

  pub le-sum_from : (acc : F) (xs : List F) → All (λ x. num 0 ≼ x) xs → acc ≼ sum_from acc xs
  le-sum_from acc [] h = le_refl acc
  le-sum_from acc (x ∷ xs) (h, hs) = le_trans _ _ _ (le-add acc x h) (le-sum_from (acc + x) xs hs)
