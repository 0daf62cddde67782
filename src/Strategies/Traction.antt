-- ===== src/Strategies/Traction.antt =====
-- backend/app/strategies/traction_momentum.py: only measurable, sustained traction qualifies.
use Prim.Native.Nat.{◌+◌ as add, ◌*◌ as times}
use meme_agent.Base.{
  ℕ, Bool, not, ◌||◌, Option, none, some, [], ◌∷◌, ◌++◌, Dict, ltb, leb, if◌then◌else◌,
}
use meme_agent.Core.Errors.{Result, ok, ◌>>=◌}
use meme_agent.Float.{FloatOps, ◌+◌, ◌-◌, neg, ge, num, dec, over}
use meme_agent.Domain.Market.{
  MarketState, present, or_zero, age_seconds, drawdown_from_high_pct, buy_sell_volume_ratio,
}
use meme_agent.Domain.Market.Flow.{net_pressure}
use meme_agent.Strategies.Scales.{
  lin, wavg, inv, count, log_of, share_of, positive, reaches, unknown_or_reaches,
}
use meme_agent.Strategies.Signal.{StrategySignal, Identity, total_score, signal}

pub record TractionMomentumConfig (F : Type 0) : Type 0 where
  pub id : Identity
  pub weights : Dict F
  pub min_score : F
  pub min_unique_buyers_5m : ℕ
  pub full_score_unique_buyers_5m : ℕ
  pub min_buy_sell_volume_ratio : F
  pub min_age_seconds : F
  pub momentum_full_score_5m_pct : F
  pub momentum_full_score_15m_pct : F
  pub min_liquidity_for_scoring_usdc : F
  pub established_age_seconds : F
  pub established_liquidity_usdc : F
  pub unknown_creator_score : F

module _ {F : Type 0} ⦃n : FloatOps F⦄ where
  -- A count that is at least 1.
  abbrev pub at_least_one : ℕ → F
  at_least_one k = if ltb k 1 then num 1 else num k

module _ {F : Type 0} ⦃n : FloatOps F⦄ (c : TractionMomentumConfig F) (m : MarketState F) where
  abbrev pub momentum_of : Option F → Option F → Option F
  momentum_of none fall = none
  momentum_of (some change) fall =
      let pace = (elim m.price_change_15m as (λ _. F) [ none ↦ num 0 | some x ↦ over x (num 3) ]) in
      wavg (
        (lin (some change) (num 0) c.momentum_full_score_5m_pct, dec 4 1)
        ∷ (lin m.price_change_15m (num 0) c.momentum_full_score_15m_pct, dec 2 1)
        ∷ (lin (some (change - pace)) (neg (num 5)) (num 15), dec 2 1)
        ∷ (inv (lin fall (num 0) (num 30)), dec 2 1)
        ∷ [])

  -- The drawdown is read only where the change of 5 minutes is known.
  unfoldable pub momentum : Result (Option F)
  momentum = elim m.price_change_5m [
    | none ↦ ok none
    | some change ↦ do fall ← drawdown_from_high_pct m; ok (momentum_of (some change) fall)
  ]

  abbrev pub growth : ℕ → Option ℕ → Option F
  growth b5 none = none
  growth b5 (some before) =
      lin (some (over (num b5 - num before) (at_least_one before))) (num 0) (num 2)

  abbrev pub acceleration : ℕ → Option ℕ → Option F
  acceleration b5 none = none
  acceleration b5 (some b1) =
      lin (some (over (num (times b1 5)) (at_least_one b5))) (dec 8 1) (num 2)

  unfoldable pub buyer_growth : Option F
  buyer_growth = elim m.unique_buyers_5m [
    | none ↦ none
    | some b5 ↦ wavg (
        (
          lin (some (num b5)) (num c.min_unique_buyers_5m) (num c.full_score_unique_buyers_5m),
          dec 4 1,
        )
        ∷ (growth b5 m.unique_buyers_prev_5m, dec 4 1)
        ∷ (acceleration b5 m.unique_buyers_1m, dec 2 1)
        ∷ [])
  ]

  abbrev pub pressure_of : Option F → Option F
  pressure_of ratio = wavg (
      (lin ratio (num 1) (num 3), dec 5 1) ∷ (lin (net_pressure m) (num 0) (dec 6 1), dec 5 1) ∷ [])

  abbrev pub liquidity_score : (F → F) → Option F → Option F
  liquidity_score log10 none = none
  liquidity_score log10 (some liquidity) =
      let lo = log_of log10 c.min_liquidity_for_scoring_usdc in
      wavg (
        (lin (some (log_of log10 liquidity)) lo (lo + log10 (num 20)), dec 35 2)
        ∷ (lin (share_of liquidity m.market_cap) (dec 2 2) (dec 15 2), dec 25 2)
        ∷ (inv (lin m.expected_price_impact_pct (dec 5 1) (num 5)), dec 25 2)
        ∷ (lin m.liquidity_change_5m_pct (neg (num 10)) (num 20), dec 15 2)
        ∷ [])

  unfoldable pub holders : Option F
  holders = wavg (
      (inv (lin m.top10_holder_pct (num 20) (num 60)), dec 5 1)
      ∷ (lin m.holder_growth_pct (num 0) (num 20), dec 25 2)
      ∷ (lin (count m.holder_count) (num 20) (num 300), dec 25 2)
      ∷ [])

  unfoldable pub creator : Option F
  creator =
      if not m.creator_known
      then some c.unknown_creator_score
      else wavg (
          (inv (lin m.creator_sold_pct (num 0) (num 20)), dec 6 1)
          ∷ (inv (lin m.creator_balance_pct (num 5) (num 30)), dec 4 1)
          ∷ [])

  abbrev pub turnover : Option F → Option F
  turnover none = none
  turnover (some volume) = share_of volume m.liquidity

  abbrev pub transactions : Option ℕ
  transactions =
      if present m.buys_5m || present m.sells_5m
      then some (add (or_zero m.buys_5m) (or_zero m.sells_5m))
      else none

  unfoldable pub market_quality : ℕ → Option F
  market_quality now = wavg (
      (lin (count transactions) (num 10) (num 150), dec 3 1)
      ∷ (inv (lin m.volatility_pct (num 5) (num 40)), dec 25 2)
      ∷ (lin (age_seconds m now) (num 300) (num 3600), dec 2 1)
      ∷ (lin (turnover m.volume_5m) (dec 5 2) (num 1), dec 25 2)
      ∷ [])

  unfoldable pub established : ℕ → Bool
  established now =
      reaches (age_seconds m now) c.established_age_seconds
      || reaches m.liquidity c.established_liquidity_usdc

  -- The gates of a token that is not established come last.
  unfoldable pub gates : ℕ → Option F → Option F → F → Dict Bool
  unfolding established
  gates now quality ratio total =
      let hard =
        ("required_data_present", present quality)
        ∷ ("min_score", ge total c.min_score)
        ∷ ("min_age", unknown_or_reaches (age_seconds m now) c.min_age_seconds)
        ∷ [] in
      if established now
      then hard
      else hard
        ++ ("min_unique_buyers_5m", leb c.min_unique_buyers_5m (or_zero m.unique_buyers_5m))
          ∷ ("buy_sell_ratio", reaches ratio c.min_buy_sell_volume_ratio)
          ∷ ("positive_5m_momentum", positive m.price_change_5m)
          ∷ []

  abbrev pub components : (F → F) → ℕ → Option F → Option F → Dict (Option F)
  components log10 now moving ratio =
      ("momentum", moving)
      ∷ ("buyer_growth", buyer_growth)
      ∷ ("buy_sell_pressure", pressure_of ratio)
      ∷ ("liquidity_quality", liquidity_score log10 m.liquidity)
      ∷ ("holder_distribution", holders)
      ∷ ("creator_behavior", creator)
      ∷ ("market_quality", market_quality now)
      ∷ []

  unfoldable pub score : (F → F) → ℕ → Result (StrategySignal F)
  unfolding momentum gates
  score log10 now = do
    moving ← momentum
    ratio ← buy_sell_volume_ratio m
    let comps = components log10 now moving ratio
    total ← total_score c.weights comps
    ok (
        signal c.id c.weights comps total
          (gates now (liquidity_score log10 m.liquidity) ratio total) "all traction gates passed")
