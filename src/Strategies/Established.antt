-- ===== src/Strategies/Established.antt =====
-- backend/app/strategies/more.py: what liquidity growth, trend pullback and volume breakout share.
pub mod Growth
pub mod Pullback
pub mod Breakout
use Prim.Native.Nat.{◌+◌ as add}
use meme_agent.Base.{
  ℕ, String, Bool, false, not, ◌&&◌, ◌||◌, Option, none, some, [], ◌∷◌, ◌++◌, Dict, get, ltb,
  if◌then◌else◌,
}
use meme_agent.Core.Errors.{Result, ok, ◌>>=◌}
use meme_agent.Float.{FloatOps, ◌+◌, ◌-◌, ◌*◌, ◌÷◌, neg, le, gt, ge, num, dec, over, min, max}
use meme_agent.Domain.Market.{
  MarketState, WindowStats, age_seconds, buyers_in, sellers_in, has_two_way_trading,
}
use meme_agent.Venues.Cost.{abs}
use meme_agent.Strategies.Scales.{
  first_of, lin, wavg, inv, count, log_of, share_of, wvol, wchg, positive, recent_activity, reaches,
  unknown_or_reaches, unknown_or_within,
}
use meme_agent.Strategies.Signal.{StrategySignal, Identity, total_score, signal}
use meme_agent.Strategies.Trend.{not_one_way}

-- What `_signal` reads of a configuration.
pub record BaseConfig (F : Type 0) : Type 0 where
  pub id : Identity
  pub weights : Dict F
  pub min_score : F
  pub min_liquidity_usdc : F
  pub min_age_seconds : F

module _ {F : Type 0} ⦃n : FloatOps F⦄ where
  abbrev pub depth_of : (F → F) → F → Option F → Option F → Option F
  depth_of log10 min_liq market_cap none = none
  depth_of log10 min_liq market_cap (some liquidity) =
      let lo = log_of log10 min_liq in
      wavg (
        (lin (some (log_of log10 liquidity)) lo (lo + log10 (num 30)), dec 6 1)
        ∷ (lin (share_of liquidity market_cap) (dec 2 2) (dec 25 2), dec 4 1)
        ∷ [])

  unfoldable pub depth : (F → F) → MarketState F → F → Option F
  depth log10 m min_liq = depth_of log10 min_liq m.market_cap m.liquidity

  -- The longest window whose growth is known, else the plain figure.
  abbrev pub longest_growth : MarketState F → Option F
  longest_growth m = first_of (get "24h" m.holder_growth) (
      first_of (get "6h" m.holder_growth) (first_of (get "1h" m.holder_growth) m.holder_growth_pct))

  unfoldable pub holders : MarketState F → Option F
  holders m = wavg (
      (inv (lin m.top10_holder_pct (num 15) (num 70)), dec 5 1)
      ∷ (lin (longest_growth m) (neg (num 5)) (num 15), dec 2 1)
      ∷ (lin (count m.holder_count) (num 50) (num 2000), dec 3 1)
      ∷ [])

  -- The share of buys in a number of trades that is not 0.
  abbrev pub count_share : Option ℕ → Option ℕ → Option F
  count_share (some b) (some s) = if ltb 0 (add b s) then some (n.ratio b (add b s)) else none
  count_share _ _ = none

  abbrev pub volume_share : Option F → Option F → Option F
  volume_share (some b) (some s) = if gt (b + s) (num 0) then some (over b (b + s)) else none
  volume_share _ _ = none

  abbrev pub flow_of : Option (WindowStats F) → Option F
  flow_of none = none
  flow_of (some w) =
      lin (first_of (volume_share w.buy_volume_usd w.sell_volume_usd) (count_share w.buys w.sells))
        (dec 4 1) (dec 7 1)

  -- Buy pressure in a window, from 40% to 70%.
  unfoldable pub flow : MarketState F → String → Option F
  flow m w = flow_of (get w m.windows)

  unfoldable pub base_gates : BaseConfig F → MarketState F → ℕ → F → Dict Bool
  base_gates c m now total =
      let (known, active) = recent_activity m in
      ("price_present", positive m.price)
      ∷ ("liquidity_present", reaches m.liquidity c.min_liquidity_usdc)
      ∷ ("min_score", ge total c.min_score)
      ∷ ("min_age", unknown_or_reaches (age_seconds m now) c.min_age_seconds)
      ∷ ("recent_activity", not known || active)
      ∷ ("two_way_trading", not_one_way (has_two_way_trading m))
      ∷ ("holder_not_extreme", unknown_or_within m.top10_holder_pct (num 95))
      ∷ []

  -- `_signal`; the extra gates have names of their own.
  unfoldable pub base_signal :
      BaseConfig F
      → MarketState F
      → ℕ
      → Dict (Option F)
      → Dict Bool
      → String
      → Result (StrategySignal F)
  unfolding base_gates
  base_signal c m now comps extra_gates reasons_ok = do
    total ← total_score c.weights comps
    ok (signal c.id c.weights comps total (base_gates c m now total ++ extra_gates) reasons_ok)

  -- `_lin(x, lo, hi) if x is None or x <= turn else _inv(_lin(x, turn, end))`
  abbrev pub rise_and_fall : F → F → F → F → Option F → Option F
  rise_and_fall lo hi turn end none = none
  rise_and_fall lo hi turn end (some x) =
      if le x turn then lin (some x) lo hi else inv (lin (some x) turn end)
