-- ===== src/Strategies/Established/Growth.antt =====
-- Liquidity growth, of backend/app/strategies/more.py.
use meme_agent.Base.{ℕ, Bool, ◌&&◌, Option, none, some, [], ◌∷◌, Dict, get}
use meme_agent.Core.Errors.{Result}
use meme_agent.Float.{FloatOps, neg, num, dec, max}
use meme_agent.Domain.Market.{MarketState, buyers_in, sellers_in}
use meme_agent.Strategies.Scales.{
  first_of, lin, wavg, count, wvol, wchg, reaches, unknown_or_within,
}
use meme_agent.Strategies.Signal.{StrategySignal}
use meme_agent.Strategies.Established.{BaseConfig, depth, holders, flow, rise_and_fall, base_signal}

pub record LiquidityGrowthConfig (F : Type 0) : Type 0 where
  pub base : BaseConfig F
  pub min_liquidity_growth_pct : F
  pub max_price_change_1h_pct : F
  pub max_price_change_24h_pct : F

module _ {F : Type 0} ⦃n : FloatOps F⦄ where
  abbrev pub larger : Option F → Option F → Option F
  larger none b = b
  larger (some a) none = some a
  larger (some a) (some b) = some (max a b)

module _ {F : Type 0} ⦃n : FloatOps F⦄ (c : LiquidityGrowthConfig F) (m : MarketState F) where
  -- The growth of the liquidity alone, then with that of the market capitalisation.
  abbrev pub with_cap_growth : Option F → Option F
  with_cap_growth none = none
  with_cap_growth (some g) = wavg (
      (some g, dec 8 1)
      ∷ (
        lin (first_of (get "6h" m.market_cap_growth) (get "1h" m.market_cap_growth)) (neg (num 5))
            (num 40),
        dec 2 1,
      )
      ∷ [])

  unfoldable pub growth_component : Option F
  growth_component = with_cap_growth (
      wavg (
        (lin (get "1h" m.liquidity_growth) (num 0) (num 25), dec 4 1)
        ∷ (lin (get "6h" m.liquidity_growth) (num 0) (num 60), dec 4 1)
        ∷ (lin (get "24h" m.liquidity_growth) (num 0) (num 150), dec 2 1)
        ∷ []))

  unfoldable pub confirmation : Option F
  confirmation = wavg (
      (rise_and_fall (neg (num 5)) (num 15) (num 25) (num 80) (wchg m "6h"), dec 6 1)
      ∷ (rise_and_fall (neg (num 3)) (num 8) (num 15) (num 40) (wchg m "1h"), dec 4 1)
      ∷ [])

  unfoldable pub growth_activity : Option F
  growth_activity = wavg (
      (lin (count (buyers_in m "1h")) (num 0) (num 40), dec 3 1)
      ∷ (lin (count (sellers_in m "1h")) (num 0) (num 30), dec 15 2)
      ∷ (lin (wvol m "1h") (num 0) (num 100_000), dec 25 2)
      ∷ (lin (wvol m "24h") (num 0) (num 1_000_000), dec 15 2)
      ∷ (flow m "1h", dec 15 2)
      ∷ [])

  -- Unknown history fails.
  unfoldable pub growth_gates : Dict Bool
  growth_gates =
      (
        "liquidity_growing",
        reaches (larger (get "1h" m.liquidity_growth) (get "6h" m.liquidity_growth))
            c.min_liquidity_growth_pct,
      )
      ∷ (
        "not_overextended",
        unknown_or_within (wchg m "1h") c.max_price_change_1h_pct
            && unknown_or_within (wchg m "24h") c.max_price_change_24h_pct,
      )
      ∷ []

  unfoldable pub liquidity_growth_score : (F → F) → ℕ → Result (StrategySignal F)
  unfolding base_signal growth_gates
  liquidity_growth_score log10 now =
      base_signal c.base m now
        (("liquidity_growth", growth_component)
          ∷ ("price_confirmation", confirmation)
          ∷ ("activity", growth_activity)
          ∷ ("holder_quality", holders m)
          ∷ ("depth", depth log10 m c.base.min_liquidity_usdc)
          ∷ [])
        growth_gates "all liquidity-growth gates passed"
