-- ===== src/Risk/PerUser/Unique.antt =====
-- The reasons that are raised: each one once, and none lost.
use meme_agent.Base.{String, eq_iff, false, not, ◌&&◌, ◌≡◌, List, [], ◌∷◌, elem, arith}
use text.Mathlib.TextPositions.{eq_refl}
use meme_agent.Risk.PerUser.{unique}

elem-unique_seen :
    (s : String) (seen rs : List String)
    → elem s (unique seen rs) ≡ (not (elem s seen) && elem s rs)
unfolding unique
elem-unique_seen s seen [] = ground arith
elem-unique_seen s seen (r ∷ rs) =
    ground (arith, eq_iff r s, elem-unique_seen s seen rs, elem-unique_seen s (r ∷ seen) rs)

-- No reason stands behind itself.
abbrev pub NoRepeat : List String → Type 0
NoRepeat [] = Unit
NoRepeat (r ∷ rs) = (elem r rs ≡ false) × NoRepeat rs

NoRepeat-unique_seen : (seen rs : List String) → NoRepeat (unique seen rs)
unfolding unique
NoRepeat-unique_seen seen [] = tt
NoRepeat-unique_seen seen (r ∷ rs) = ground (
  arith,
  eq_refl r,
  elem-unique_seen r (r ∷ seen) rs,
  NoRepeat-unique_seen seen rs,
  NoRepeat-unique_seen (r ∷ seen) rs,
)

-- The reasons that are raised have the same members as the reasons that were collected, without
-- repetition.
unique_lem :
    (rs : List String)
    → NoRepeat (unique [] rs) × ((s : String) → elem s (unique [] rs) ≡ elem s rs)
unique_lem rs = (NoRepeat-unique_seen [] rs, λ s. elem-unique_seen s [] rs)
