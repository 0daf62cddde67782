-- ===== src/Domain/History.antt =====
-- backend/app/domain/history.py: the samples of a token's liquidity, market capitalisation and price, and
-- the growth since about 1, 6 and 24 hours ago. Times are microseconds.
pub mod Bounded
use Prim.Native.Nat.{◌+◌ as add, ◌-◌ as minus, ◌*◌ as times}
use meme_agent.Base.{
  ℕ, String, Bool, true, false, not, ◌&&◌, ◌||◌, Option, none, some, List, [], ◌∷◌, ◌++◌, Dict, leb,
  ltb, if◌then◌else◌,
}
use meme_agent.Float.{FloatOps, ◌-◌, ◌*◌, num, over, round}
use meme_agent.Strategies.Scales.{positive}

pub record Sample (F : Type 0) : Type 0 where
  pub at : ℕ
  pub liquidity : Option F
  pub market_cap : Option F
  pub price : Option F

abbrev pub second : ℕ
second = 1_000_000

abbrev pub min_spacing : ℕ
min_spacing = 600_000_000

abbrev pub max_age : ℕ
max_age = 93_600_000_000

-- `WINDOW_SECONDS`
abbrev pub window_seconds : Dict ℕ
window_seconds = ("1h", 3600) ∷ ("6h", 21_600) ∷ ("24h", 86_400) ∷ []

abbrev pub last_of : {F : Type 0} → Sample F → List (Sample F) → Sample F
last_of s [] = s
last_of s (t ∷ ts) = last_of t ts

-- Nothing is sampled yet, or the last sample is old enough.
abbrev pub is_due : {F : Type 0} → ℕ → List (Sample F) → Bool
is_due ts [] = true
is_due ts (s ∷ hist) = leb (add (last_of s hist).at min_spacing) ts

-- Samples that have become too old are dropped from the front.
unfoldable pub drop_old : {F : Type 0} → ℕ → List (Sample F) → List (Sample F)
drop_old ts [] = []
drop_old ts (s ∷ hist) =
    let rest = drop_old ts hist in if ltb (add s.at max_age) ts then rest else s ∷ hist

-- The distance of two times.
abbrev pub gap : ℕ → ℕ → ℕ
gap a b = add (minus a b) (minus b a)

-- From 0.85 to 1.6 times the window.
abbrev pub is_near : ℕ → ℕ → Bool
is_near secs age = leb (times secs 850_000) age && leb age (times secs 1_600_000)

module _ {F : Type 0} ⦃n : FloatOps F⦄ where
  -- `v if _ok(v) else None`
  abbrev pub if_ok : Option F → Option F
  if_ok v = if positive v then v else none

  unfoldable pub update_history :
      List (Sample F) → ℕ → Option F → Option F → Option F → List (Sample F)
  unfolding drop_old
  update_history hist ts liquidity market_cap price =
      let sample : Sample F = record {
        at = ts;
        liquidity = if_ok liquidity;
        market_cap = if_ok market_cap;
        price = if_ok price;
      } in
      if not (positive liquidity || positive market_cap || positive price)
      then hist
      else drop_old ts (if is_due ts hist then hist ++ sample ∷ [] else hist)

  abbrev pub closer : Option (ℕ × F) → ℕ → F → Option (ℕ × F)
  closer none g v = some (g, v)
  closer (some (h, u)) g v = if ltb g h then some (g, v) else some (h, u)

  -- A sample that counts: a value above 0 of about the age of the window.
  abbrev pub consider : ℕ → ℕ → Option F → Option (ℕ × F) → Option (ℕ × F)
  consider secs age none best = best
  consider secs age (some v) best =
      if positive (some v) && is_near secs age
      then closer best (gap age (times secs second)) v
      else best

  unfoldable pub closest :
      (Sample F → Option F) → ℕ → ℕ → List (Sample F) → Option (ℕ × F) → Option (ℕ × F)
  closest field ts secs [] best = best
  closest field ts secs (s ∷ hist) best =
      closest field ts secs hist (consider secs (minus ts s.at) (field s) best)

  abbrev pub grown : String → F → Option (ℕ × F) → Dict F
  grown w current none = []
  grown w current (some (g, v)) = (w, round ((over current v - num 1) * num 100) 2) ∷ []

  abbrev pub growth_over : List (Sample F) → ℕ → (Sample F → Option F) → F → Dict ℕ → Dict F
  growth_over hist ts field current [] = []
  growth_over hist ts field current ((w, secs) ∷ ws) =
      grown w current (closest field ts secs hist none) ++ growth_over hist ts field current ws

  abbrev pub growth_of : List (Sample F) → ℕ → (Sample F → Option F) → Option F → Dict F
  growth_of hist ts field none = []
  growth_of hist ts field (some current) =
      if positive (some current) then growth_over hist ts field current window_seconds else []

  -- The percent change of a field; a sample from after `ts` has age 0, which is near no window.
  unfoldable pub growth : List (Sample F) → ℕ → (Sample F → Option F) → Option F → Dict F
  unfolding closest
  growth hist ts field current = growth_of hist ts field current
