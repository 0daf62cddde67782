-- ===== src/Strategies/Gates.antt =====
-- What gates that have passed say of the values they test.
use meme_agent.Base.{
  ◌≡◌, refl, Bool, true, false, not, ◌≢◌, ◌||◌, Option, none, some, [], ◌∷◌, ◌++◌, All, Dict, arith,
}
use meme_agent.Float.{FloatOps, gt, num, ◌≼◌}
use meme_agent.Strategies.Scales.{positive, reaches, unknown_or_reaches, unknown_or_within}
use meme_agent.Strategies.Signal.{failed_gates, is_empty}
use meme_agent.Strategies.Trend.{not_one_way}

-- Every gate has passed.
abbrev pub AllPass : Dict Bool → Type 0
AllPass gates = All (λ (k, passed). passed ≡ true) gates

pub failed_gates-AllPass :
    (gates : Dict Bool) → is_empty (failed_gates gates) ≡ true → AllPass gates
failed_gates-AllPass [] h = tt
failed_gates-AllPass ((k, true) ∷ gates) h = (refl, failed_gates-AllPass gates h)
failed_gates-AllPass ((k, false) ∷ gates) h = cc

pub AllPass-append : (xs ys : Dict Bool) → AllPass (xs ++ ys) → AllPass xs × AllPass ys
AllPass-append [] ys h = (tt, h)
AllPass-append (x ∷ xs) ys (p, h) = let (a, b) = AllPass-append xs ys h in ((p, a), b)

pub not_one_way-true : (o : Option Bool) → not_one_way o ≡ true → o ≢ some false
not_one_way-true none h e = cc
not_one_way-true (some b) h e = cc

pub known_active :
    (known active : Bool) → (not known || active) ≡ true → known ≡ true → active ≡ true
known_active known active h e = ground arith

module _ {F : Type 0} ⦃n : FloatOps F⦄ where
  -- The value is known and at least the limit.
  abbrev pub IsAtLeast : Option F → F → Type 0
  IsAtLeast o least = (x : F) × ((o ≡ some x) × (least ≼ x))

  -- The value is at least, or at most, the limit if it is known.
  abbrev pub IsAtLeastIfKnown : Option F → F → Type 0
  IsAtLeastIfKnown o least = (x : F) → o ≡ some x → least ≼ x

  abbrev pub IsWithinIfKnown : Option F → F → Type 0
  IsWithinIfKnown o most = (x : F) → o ≡ some x → x ≼ most

  pub positive-true :
      (o : Option F) → positive o ≡ true → (x : F) × ((o ≡ some x) × (gt x (num 0) ≡ true))
  positive-true none h = cc
  positive-true (some x) h = (x, (refl, h))

  pub reaches-true : (o : Option F) (least : F) → reaches o least ≡ true → IsAtLeast o least
  reaches-true none least h = cc
  reaches-true (some x) least h = (x, (refl, h))

  pub unknown_or_reaches-true :
      (o : Option F) (least : F) → unknown_or_reaches o least ≡ true → IsAtLeastIfKnown o least
  unknown_or_reaches-true none least h x e = cc
  unknown_or_reaches-true (some y) least h x e = cc

  pub unknown_or_within-true :
      (o : Option F) (most : F) → unknown_or_within o most ≡ true → IsWithinIfKnown o most
  unknown_or_within-true none most h x e = cc
  unknown_or_within-true (some y) most h x e = cc
