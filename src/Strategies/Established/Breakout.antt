-- ===== src/Strategies/Established/Breakout.antt =====
-- Volume breakout, of backend/app/strategies/more.py.
use meme_agent.Base.{ℕ, Bool, Option, none, some, [], ◌∷◌, Dict, get, if◌then◌else◌}
use meme_agent.Core.Errors.{Result, ok, ◌>>=◌}
use meme_agent.Float.{FloatOps, ◌÷◌, neg, le, num, dec, over}
use meme_agent.Domain.Market.{MarketState, WindowStats, buyers_in}
use meme_agent.Strategies.Scales.{
  lin, wavg, count, wvol, wchg, reaches, unknown_or_reaches, unknown_or_within,
}
use meme_agent.Strategies.Signal.{StrategySignal}
use meme_agent.Strategies.Established.{
  BaseConfig, depth, holders, flow, count_share, rise_and_fall, base_signal,
}

pub record VolumeBreakoutConfig (F : Type 0) : Type 0 where
  pub base : BaseConfig F
  pub min_volume_surge : F
  pub min_buy_share_1h : F
  pub max_price_change_1h_pct : F

module _ {F : Type 0} ⦃n : FloatOps F⦄ where
  abbrev pub surge_of : Option F → Option F → Result (Option F)
  surge_of (some v1) (some v24) =
      if le v24 (num 0) then ok none else (do r ← v1 ÷ over v24 (num 24); ok (some r))
  surge_of _ _ = ok none

  -- The last hour against the average hour of the last day.
  unfoldable pub surge_ratio : MarketState F → Result (Option F)
  surge_ratio m = surge_of (wvol m "1h") (wvol m "24h")

  abbrev pub trade_share : Option (WindowStats F) → Option F
  trade_share none = none
  trade_share (some w) = count_share w.buys w.sells

module _ {F : Type 0} ⦃n : FloatOps F⦄ (c : VolumeBreakoutConfig F) (m : MarketState F) where
  -- Unknown volume history is no breakout.
  unfoldable pub breakout_gates : Option F → Dict Bool
  breakout_gates ratio =
      ("volume_surge", reaches ratio c.min_volume_surge)
      ∷ ("buy_pressure", unknown_or_reaches (trade_share (get "1h" m.windows)) c.min_buy_share_1h)
      ∷ ("not_exhausted", unknown_or_within (wchg m "1h") c.max_price_change_1h_pct)
      ∷ []

  unfoldable pub volume_breakout_score : (F → F) → ℕ → Result (StrategySignal F)
  unfolding base_signal breakout_gates
  volume_breakout_score log10 now = do
    ratio ← surge_ratio m
    base_signal c.base m now
        (("volume_surge", lin ratio (num 1) (num 6))
          ∷ (
            "buy_pressure",
            wavg (
                (flow m "1h", dec 6 1)
                ∷ (lin (count (buyers_in m "1h")) (num 0) (num 40), dec 4 1)
                ∷ []),
          )
          ∷ (
            "price_follow_through",
            wavg (
                (rise_and_fall (num 0) (num 15) (num 25) (num 60) (wchg m "1h"), dec 6 1)
                ∷ (lin (wchg m "15m") (neg (num 2)) (num 6), dec 4 1)
                ∷ []),
          )
          ∷ ("depth", depth log10 m c.base.min_liquidity_usdc)
          ∷ ("holder_quality", holders m)
          ∷ [])
        (breakout_gates ratio) "all volume-breakout gates passed"
