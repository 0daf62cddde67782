-- ===== src/Strategies/Established/Pullback.antt =====
-- Trend pullback, of backend/app/strategies/more.py.
use meme_agent.Base.{ℕ, Bool, false, ◌&&◌, Option, none, some, [], ◌∷◌, Dict}
use meme_agent.Core.Errors.{Result}
use meme_agent.Float.{FloatOps, ◌-◌, ◌*◌, neg, le, num, dec, over, min, max}
use meme_agent.Domain.Market.{MarketState}
use meme_agent.Venues.Cost.{abs}
use meme_agent.Strategies.Scales.{lin, wavg, wchg, reaches, unknown_or_reaches}
use meme_agent.Strategies.Signal.{StrategySignal}
use meme_agent.Strategies.Established.{BaseConfig, depth, holders, flow, base_signal}

pub record TrendPullbackConfig (F : Type 0) : Type 0 where
  pub base : BaseConfig F
  pub min_trend_6h_pct : F
  pub min_trend_24h_pct : F
  pub pullback_max_1h_pct : F
  pub pullback_floor_1h_pct : F

module _ {F : Type 0} ⦃n : FloatOps F⦄ where
  abbrev pub between : F → F → Option F → Bool
  between lo hi none = false
  between lo hi (some x) = le lo x && le x hi

module _ {F : Type 0} ⦃n : FloatOps F⦄ (c : TrendPullbackConfig F) (m : MarketState F) where
  -- The best dips are modest, with the peak at -5%, and not falling faster in the last 15 minutes.
  abbrev pub pullback_of : Option F → Option F
  pullback_of none = none
  pullback_of (some change) =
      let distance = abs (over (change - neg (num 5)) (num 7)) * num 100 in
      wavg (
        (some (max (num 0) (num 100 - min (num 100) distance)), dec 7 1)
        ∷ (lin (wchg m "15m") (neg (num 3)) (num 1), dec 3 1)
        ∷ [])

  unfoldable pub trend_strength : Option F
  trend_strength = wavg (
      (lin (wchg m "6h") (num 0) (num 20), dec 55 2)
      ∷ (lin (wchg m "24h") (num 0) (num 40), dec 45 2)
      ∷ [])

  unfoldable pub pullback_gates : Dict Bool
  pullback_gates =
      (
        "uptrend",
        reaches (wchg m "6h") c.min_trend_6h_pct
            && unknown_or_reaches (wchg m "24h") c.min_trend_24h_pct,
      )
      ∷ ("in_pullback", between c.pullback_floor_1h_pct c.pullback_max_1h_pct (wchg m "1h"))
      ∷ []

  unfoldable pub trend_pullback_score : (F → F) → ℕ → Result (StrategySignal F)
  unfolding base_signal pullback_gates
  trend_pullback_score log10 now =
      base_signal c.base m now
        (("trend_strength", trend_strength)
          ∷ ("pullback_quality", pullback_of (wchg m "1h"))
          ∷ ("flow", wavg ((flow m "1h", dec 5 1) ∷ (flow m "4h", dec 5 1) ∷ []))
          ∷ ("depth", depth log10 m c.base.min_liquidity_usdc)
          ∷ ("holder_quality", holders m)
          ∷ [])
        pullback_gates "all trend-pullback gates passed"
