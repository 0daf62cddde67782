-- ===== src/Risk/MarketRules.antt =====
-- The rules of backend/app/risk/engine.py on the market: liquidity, price and age, execution, MEV.
use meme_agent.Base.{
  Bool, true, false, ◌&&◌, Option, none, some, List, [], ◌∷◌, ◌++◌, elem, map, lower, if◌then◌else◌,
}
use meme_agent.Core.Errors.{Result, ok, ◌>>=◌}
use meme_agent.Core.Types.{
  warn, veto, is_live, liquidity_risk, market_risk, execution_risk, mev_risk,
}
use meme_agent.Execution.Math.{estimate_price_impact_pct}
use meme_agent.Float.{FloatOps, ◌÷◌, neg, lt, le, gt, num, truthy}
use meme_agent.Domain.Market.{age_seconds, data_age_seconds}
use meme_agent.Risk.Model.{RiskContext, RiskFlag, flag_of, veto_if}
use meme_agent.Risk.TokenRules.{exceeds}

module _ {F : Type 0} ⦃n : FloatOps F⦄ where
  abbrev pub falls_to : Option F → F → Bool
  falls_to none limit = false
  falls_to (some x) limit = le x limit

  abbrev pub younger : Option F → F → Bool
  younger none limit = false
  younger (some x) limit = lt x limit

  -- The order as a share of the pool; a pool that is not positive counts as 1.
  unfoldable pub trade_ratio : F → F → Result F
  trade_ratio amount liquidity = if gt liquidity (num 0) then amount ÷ liquidity else ok (num 1)

  abbrev pub liquidity_known : RiskContext F → F → Result (List RiskFlag)
  liquidity_known x liquidity = do
    ratio ← trade_ratio x.intent.amount_usdc liquidity
    ok (
        veto_if (lt liquidity x.limits.min_liquidity_usdc) "LIQUIDITY_BELOW_MIN" liquidity_risk
        ++ veto_if (gt ratio x.limits.max_trade_liquidity_ratio) "TRADE_LIQUIDITY_RATIO"
            liquidity_risk
        ++ veto_if
            (falls_to x.market.liquidity_change_5m_pct (neg x.limits.max_liquidity_drop_5m_pct))
            "LIQUIDITY_DRAINING" liquidity_risk)

  abbrev pub liquidity_flags : RiskContext F → Option F → Result (List RiskFlag)
  liquidity_flags x none = ok (flag_of veto "LIQUIDITY_UNKNOWN" liquidity_risk ∷ [])
  liquidity_flags x (some liquidity) = liquidity_known x liquidity

  unfoldable pub liquidity_rules : RiskContext F → Result (List RiskFlag)
  liquidity_rules x = liquidity_flags x x.market.liquidity

  abbrev pub no_price : Option F → Bool
  no_price none = true
  no_price (some p) = le p (num 0)

  unfoldable pub market_rules : RiskContext F → Result (List RiskFlag)
  market_rules x =
      let m = x.market in
      let l = x.limits in
      let token = lower m.token_address in
      ok (
        if no_price m.price
        then flag_of veto "PRICE_UNAVAILABLE" market_risk ∷ []
        else (veto_if (gt (data_age_seconds m x.now) l.max_data_age_seconds) "STALE_DATA"
              market_risk
            ++ veto_if (elem token x.controls.blacklisted_tokens) "TOKEN_BLACKLISTED" market_risk
            ++ veto_if (elem token (map lower l.non_tradable_addresses)) "NON_TRADABLE_ASSET"
                market_risk
            ++ veto_if (younger (age_seconds m x.now) l.min_token_age_seconds) "TOKEN_TOO_NEW"
                market_risk
            ++ veto_if (exceeds m.price_change_5m l.max_price_change_5m_chase_pct)
                "OVERHEATED_CHASE" market_risk
            ++ veto_if (m.is_demo && is_live x.intent.mode) "DEMO_DATA_IN_LIVE" market_risk))

  -- The impact that the provider reports, or else the estimate on a known pool that is not 0.
  abbrev pub expected_impact : F → Option F → Option F → Result (Option F)
  expected_impact amount (some impact) liquidity = ok (some impact)
  expected_impact amount none none = ok none
  expected_impact amount none (some liquidity) =
      if truthy liquidity
      then (do impact ← estimate_price_impact_pct amount liquidity; ok (some impact))
      else ok none

  abbrev pub impact_flags : F → Option F → List RiskFlag
  impact_flags limit none = flag_of veto "IMPACT_UNKNOWN" execution_risk ∷ []
  impact_flags limit (some impact) =
      veto_if (gt impact limit) "PRICE_IMPACT_TOO_HIGH" execution_risk

  unfoldable pub execution_rules : RiskContext F → Result (List RiskFlag)
  execution_rules x = do
    impact ←
        expected_impact x.intent.amount_usdc x.market.expected_price_impact_pct x.market.liquidity
    ok (
        veto_if (gt x.intent.max_slippage_pct x.limits.max_slippage_pct) "SLIPPAGE_LIMIT_EXCEEDED"
          execution_risk
        ++ impact_flags x.limits.max_price_impact_pct impact)

  abbrev pub mev_flags : F → Option F → List RiskFlag
  mev_flags limit none = flag_of warn "MEV_UNASSESSED" mev_risk ∷ []
  mev_flags limit (some score) = veto_if (gt score limit) "MEV_RISK_HIGH" mev_risk

  unfoldable pub mev_rules : RiskContext F → Result (List RiskFlag)
  mev_rules x = ok (mev_flags x.limits.max_mev_score x.market.mev_risk_score)
