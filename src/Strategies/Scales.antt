-- ===== src/Strategies/Scales.antt =====
-- The scales that the strategies share (backend/app/strategies/liquidity_trend.py and more.py): scores
-- from 0 to 100, averages over what is known, and the readings of a window.
use meme_agent.Base.{
  ℕ, String, ◌==◌, Bool, true, false, ◌&&◌, ◌||◌, Option, none, some, List, [], ◌∷◌, map, get, ltb,
  if◌then◌else◌,
}
use meme_agent.Float.{FloatOps, ◌-◌, ◌*◌, le, gt, ge, num, over, min, max, sum, truthy}
use meme_agent.Domain.Market.{MarketState, WindowStats, present}

abbrev pub map_some : {A B : Type 0} → (A → B) → Option A → Option B
map_some f none = none
map_some f (some a) = some (f a)

-- `d.get(k, default)` where the default may be missing.
abbrev pub first_of : {A : Type 0} → Option A → Option A → Option A
first_of none b = b
first_of (some a) b = some a

abbrev pub positive_count : Option ℕ → Bool
positive_count none = false
positive_count (some k) = ltb 0 k

module _ {F : Type 0} ⦃n : FloatOps F⦄ where
  -- The pairs of `_wavg` whose value is known.
  abbrev pub known : List (Option F × F) → List (F × F)
  known [] = []
  known ((none, w) ∷ ps) = known ps
  known ((some v, w) ∷ ps) = (v, w) ∷ known ps

  unfoldable pub lin : Option F → F → F → Option F
  lin none lo hi = none
  lin (some x) lo hi =
      if le hi lo && le lo hi
      then some (if ge x hi then num 100 else num 0)
      else some (max (num 0) (min (num 1) (over (x - lo) (hi - lo))) * num 100)

  abbrev pub average : List (F × F) → Option F
  average [] = none
  average (p ∷ ps) =
      some (over (sum (map (λ (v, w). v * w) (p ∷ ps))) (sum (map (λ (v, w). w) (p ∷ ps))))

  -- The weights are positive literals, so their sum is not 0.
  unfoldable pub wavg : List (Option F × F) → Option F
  wavg pairs = average (known pairs)

  unfoldable pub inv : Option F → Option F
  inv v = map_some (λ x. num 100 - x) v

  -- A count as a float.
  abbrev pub count : Option ℕ → Option F
  count o = map_some (λ k. num k) o

  -- The log of a number that is at least 1.
  abbrev pub log_of : (F → F) → F → F
  log_of log10 x = log10 (max x (num 1))

  abbrev pub from_window : (WindowStats F → Option F) → Option (WindowStats F) → Option F
  from_window part none = none
  from_window part (some w) = part w

  unfoldable pub wvol : MarketState F → String → Option F
  wvol m w =
      first_of (from_window (λ s. s.volume_usd) (get w m.windows))
        (if w == "5m" then m.volume_5m else if w == "15m" then m.volume_15m else none)

  unfoldable pub wchg : MarketState F → String → Option F
  wchg m w =
      first_of (from_window (λ s. s.price_change_pct) (get w m.windows))
        (if w == "5m" then m.price_change_5m else if w == "15m" then m.price_change_15m else none)

  -- `a / b if b else None` of two optional numbers, the first one known.
  abbrev pub share_of : F → Option F → Option F
  share_of a none = none
  share_of a (some b) = if truthy b then some (over a b) else none

  abbrev pub positive : Option F → Bool
  positive none = false
  positive (some x) = gt x (num 0)

  -- Whether the last hour is known, and whether anything was traded in it; the 5m fields stand in for
  -- an unknown hour.
  abbrev pub five_minutes : MarketState F → Bool × Bool
  five_minutes m = (
    present m.volume_5m || present m.buys_5m || present m.sells_5m || present m.unique_buyers_5m,
    positive m.volume_5m
        || positive_count m.buys_5m
        || positive_count m.sells_5m
        || positive_count m.unique_buyers_5m,
  )

  abbrev pub hour : MarketState F → Option (WindowStats F) → Bool × Bool
  hour m none = five_minutes m
  hour m (some w) =
      if present w.buys || present w.sells || present w.volume_usd
      then (true, positive_count w.buys || positive_count w.sells || positive w.volume_usd)
      else five_minutes m

  unfoldable pub recent_activity : MarketState F → Bool × Bool
  recent_activity m = hour m (get "1h" m.windows)

  -- `x is not None and x >= least`
  abbrev pub reaches : Option F → F → Bool
  reaches none least = false
  reaches (some x) least = ge x least

  -- `x is None or x >= least`
  abbrev pub unknown_or_reaches : Option F → F → Bool
  unknown_or_reaches none least = true
  unknown_or_reaches (some x) least = ge x least

  -- `x is None or x <= most`
  abbrev pub unknown_or_within : Option F → F → Bool
  unknown_or_within none most = true
  unknown_or_within (some x) most = le x most
