-- ===== src/Strategies/Trend.antt =====
-- backend/app/strategies/liquidity_trend.py: established tokens with deep liquidity. The upgrade of
-- settings saved before exit profiles existed is not modelled.
use meme_agent.Base.{ℕ, Bool, true, not, ◌||◌, Option, none, some, [], ◌∷◌, Dict}
use meme_agent.Core.Errors.{Result, ok, ◌>>=◌}
use meme_agent.Float.{FloatOps, ◌+◌, neg, ge, num, dec, over, max}
use meme_agent.Domain.Market.{
  MarketState, age_seconds, buyers_in, sellers_in, trades_in, has_two_way_trading,
}
use meme_agent.Strategies.Scales.{
  lin, wavg, inv, count, log_of, share_of, wvol, wchg, positive, recent_activity, reaches,
  unknown_or_reaches, unknown_or_within,
}
use meme_agent.Strategies.Signal.{StrategySignal, Identity, total_score, signal}

pub record LiquidityTrendConfig (F : Type 0) : Type 0 where
  pub id : Identity
  pub weights : Dict F
  pub min_score : F
  pub min_liquidity_usdc : F
  pub min_market_cap_usdc : F
  pub max_top10_for_score : F
  pub min_age_seconds : F
  pub require_recent_activity : Bool

-- `m.has_two_way_trading() is not False`
abbrev pub not_one_way : Option Bool → Bool
not_one_way none = true
not_one_way (some b) = b

module _ {F : Type 0} ⦃n : FloatOps F⦄ where
  -- `m.market_cap or 0`
  abbrev pub or_nil : Option F → F
  or_nil none = num 0
  or_nil (some x) = x

  -- A volume against the liquidity, which counts as at least 1.
  abbrev pub against : F → F → F → Option F → Option F
  against liquidity lo hi none = none
  against liquidity lo hi (some v) = lin (some (over v (max liquidity (num 1)))) lo hi

module _ {F : Type 0} ⦃n : FloatOps F⦄ (c : LiquidityTrendConfig F) (m : MarketState F) where
  abbrev pub depth_of : (F → F) → Option F → Option F
  depth_of log10 none = none
  depth_of log10 (some liquidity) =
      let lo = log_of log10 c.min_liquidity_usdc in
      let cap = log_of log10 c.min_market_cap_usdc in
      wavg (
        (lin (some (log_of log10 liquidity)) lo (lo + log10 (num 30)), dec 4 1)
        ∷ (lin (some (log_of log10 (or_nil m.market_cap))) cap (cap + num 2), dec 25 2)
        ∷ (lin (share_of liquidity m.market_cap) (dec 2 2) (dec 25 2), dec 2 1)
        ∷ (inv (lin m.expected_price_impact_pct (dec 3 1) (num 4)), dec 15 2)
        ∷ [])

  unfoldable pub liquidity_depth : (F → F) → Option F
  liquidity_depth log10 = depth_of log10 m.liquidity

  -- Nothing where the liquidity is unknown or 0.
  abbrev pub volume_of : Option F → Option F
  volume_of none = none
  volume_of (some liquidity) = elim (share_of (num 1) (some liquidity)) [
    | none ↦ none
    | some _ ↦ wavg (
        (against liquidity (dec 1 2) (dec 5 1) (wvol m "5m"), dec 4 1)
        ∷ (against liquidity (dec 5 2) (num 2) (wvol m "24h"), dec 6 1)
        ∷ [])
  ]

  unfoldable pub market_quality : ℕ → Option F
  market_quality now = wavg (
      (lin (age_seconds m now) (num 300) (num 86_400), dec 35 2)
      ∷ (volume_of m.liquidity, dec 35 2)
      ∷ (inv (lin m.volatility_pct (num 5) (num 50)), dec 3 1)
      ∷ [])

  unfoldable pub holder_quality : Option F
  holder_quality = wavg (
      (inv (lin m.top10_holder_pct (num 15) c.max_top10_for_score), dec 5 1)
      ∷ (lin m.holder_growth_pct (neg (num 5)) (num 15), dec 2 1)
      ∷ (lin (count m.holder_count) (num 50) (num 2000), dec 3 1)
      ∷ [])

  unfoldable pub activity : Option F
  activity = wavg (
      (lin (count (buyers_in m "5m")) (num 0) (num 40), dec 1 1)
      ∷ (lin (count (buyers_in m "1h")) (num 0) (num 40), dec 2 1)
      ∷ (lin (count (buyers_in m "24h")) (num 0) (num 150), dec 15 2)
      ∷ (lin (count (sellers_in m "1h")) (num 0) (num 30), dec 1 1)
      ∷ (lin (count (sellers_in m "24h")) (num 0) (num 100), dec 5 2)
      ∷ (lin (count (trades_in m "5m")) (num 0) (num 80), dec 5 2)
      ∷ (lin (count (trades_in m "1h")) (num 0) (num 150), dec 1 1)
      ∷ (lin (wvol m "5m") (num 0) (num 50_000), dec 5 2)
      ∷ (lin (wvol m "1h") (num 0) (num 100_000), dec 1 1)
      ∷ (lin (wvol m "24h") (num 0) (num 1_000_000), dec 1 1)
      ∷ [])

  unfoldable pub momentum : Option F
  momentum = wavg (
      (lin (wchg m "5m") (neg (num 10)) (num 20), dec 15 2)
      ∷ (lin (wchg m "15m") (neg (num 15)) (num 40), dec 15 2)
      ∷ (lin (wchg m "1h") (neg (num 20)) (num 40), dec 25 2)
      ∷ (lin (wchg m "4h") (neg (num 30)) (num 60), dec 25 2)
      ∷ (lin (wchg m "6h") (neg (num 35)) (num 80), dec 2 1)
      ∷ [])

  -- Only activity that is known to be none fails.
  unfoldable pub gates : ℕ → F → Dict Bool
  gates now total =
      let (known, active) = recent_activity m in
      ("price_present", positive m.price)
      ∷ ("liquidity_present", reaches m.liquidity c.min_liquidity_usdc)
      ∷ ("min_score", ge total c.min_score)
      ∷ ("min_age", unknown_or_reaches (age_seconds m now) c.min_age_seconds)
      ∷ ("recent_activity", not c.require_recent_activity || not known || active)
      ∷ ("two_way_trading", not_one_way (has_two_way_trading m))
      ∷ ("holder_not_extreme", unknown_or_within m.top10_holder_pct (num 95))
      ∷ []

  abbrev pub components : (F → F) → ℕ → Dict (Option F)
  components log10 now =
      ("liquidity_depth", liquidity_depth log10)
      ∷ ("market_quality", market_quality now)
      ∷ ("holder_quality", holder_quality)
      ∷ ("activity", activity)
      ∷ ("momentum", momentum)
      ∷ []

  unfoldable pub score : (F → F) → ℕ → Result (StrategySignal F)
  unfolding gates
  score log10 now = do
    total ← total_score c.weights (components log10 now)
    ok (
        signal c.id c.weights (components log10 now) total (gates now total)
          "all liquidity-trend gates passed")
