-- ===== src/Risk/PortfolioRules.antt =====
-- `portfolio_rules` of backend/app/risk/engine.py. Reading the daily result rolls the day of the
-- portfolio, so the rule returns the portfolio beside its flags.
use meme_agent.Base.{
  ℕ, Bool, true, false, not, ◌&&◌, Option, none, some, List, ◌++◌, elem, get, leb, text_or_empty,
  if◌then◌else◌,
}
use meme_agent.Core.Errors.{Result, ok}
use meme_agent.Core.Types.{portfolio_risk}
use meme_agent.Float.{FloatOps, ◌+◌, neg, lt, le, gt, num, dec, seconds}
use meme_agent.Domain.Market.{key, truthy_text}
use meme_agent.Portfolio.State.{
  PortfolioState, daily_pnl, has_open_position, open_count, token_exposure, total_exposure,
  chain_exposure, launchpad_exposure,
}
use meme_agent.Risk.Model.{RiskContext, RiskFlag, veto_if}

module _ {F : Type 0} ⦃n : FloatOps F⦄ where
  abbrev pub cooling_down : ℕ → Option ℕ → F → Bool
  cooling_down now none cooldown = false
  cooling_down now (some last) cooldown = lt (seconds now last) cooldown

  -- The flags that the switches raise.
  unfoldable pub control_flags : RiskContext F → List RiskFlag
  control_flags x =
      let m = x.market in
      let ctl = x.controls in
      veto_if ctl.emergency_stop "EMERGENCY_STOP" portfolio_risk
      ++ veto_if ctl.global_pause "GLOBAL_PAUSE" portfolio_risk
      ++ veto_if (elem x.intent.strategy_id ctl.paused_strategies) "STRATEGY_PAUSED" portfolio_risk
      ++ veto_if (elem m.chain ctl.paused_chains) "CHAIN_PAUSED" portfolio_risk
      ++ veto_if (not (elem m.chain x.limits.allowed_chains)) "CHAIN_NOT_ALLOWED" portfolio_risk
      ++ veto_if
          (truthy_text m.launchpad && elem (text_or_empty m.launchpad) ctl.blacklisted_launchpads)
          "LAUNCHPAD_BLACKLISTED" portfolio_risk

  -- The flags on the amount, the cash and the daily result.
  unfoldable pub amount_flags : RiskContext F → PortfolioState F → F → List RiskFlag
  amount_flags x p pnl =
      let amt = x.intent.amount_usdc in
      veto_if (le amt (num 0)) "NON_POSITIVE_AMOUNT" portfolio_risk
      ++ veto_if (gt amt (x.limits.max_trade_usdc + dec 1 9)) "MAX_TRADE_EXCEEDED" portfolio_risk
      ++ veto_if (gt amt (p.cash_usdc + dec 1 9)) "INSUFFICIENT_FUNDS" portfolio_risk
      ++ veto_if (le pnl (neg x.limits.max_daily_loss_usdc)) "DAILY_LOSS_LIMIT" portfolio_risk

  -- The flags on positions and pending orders.
  unfoldable pub position_flags : RiskContext F → PortfolioState F → List RiskFlag
  position_flags x p =
      let m = x.market in
      (if has_open_position p m.token_address
        then veto_if true "DUPLICATE_POSITION" portfolio_risk
        else veto_if (leb x.limits.max_open_positions (open_count p)) "MAX_OPEN_POSITIONS"
            portfolio_risk)
      ++ veto_if (elem (key m) p.pending_tokens) "DUPLICATE_ORDER" portfolio_risk

  -- The flags on exposures and the cooldown.
  unfoldable pub exposure_flags : RiskContext F → PortfolioState F → List RiskFlag
  exposure_flags x p =
      let m = x.market in
      let l = x.limits in
      let amt = x.intent.amount_usdc in
      veto_if (gt (token_exposure p m.token_address + amt) (l.max_position_usdc + dec 1 9))
        "MAX_POSITION_EXCEEDED" portfolio_risk
      ++ veto_if (gt (total_exposure p + amt) (l.max_total_exposure_usdc + dec 1 9))
          "MAX_TOTAL_EXPOSURE" portfolio_risk
      ++ veto_if (gt (chain_exposure p m.chain + amt) (l.max_chain_exposure_usdc + dec 1 9))
          "MAX_CHAIN_EXPOSURE" portfolio_risk
      ++ veto_if
          (truthy_text m.launchpad
            && gt (launchpad_exposure p (text_or_empty m.launchpad) + amt)
                (l.max_launchpad_exposure_usdc + dec 1 9))
          "MAX_LAUNCHPAD_EXPOSURE" portfolio_risk
      ++ veto_if (cooling_down x.now (get (key m) p.last_trade_at) (num l.cooldown_seconds))
          "COOLDOWN_ACTIVE" portfolio_risk

  unfoldable pub portfolio_rules : RiskContext F → PortfolioState F × Result (List RiskFlag)
  unfolding control_flags amount_flags position_flags exposure_flags
  portfolio_rules x =
      let (p, pnl) = daily_pnl x.now x.portfolio in
      (
        p,
        ok (
            control_flags x
            ++ (amount_flags x p pnl ++ (position_flags x p ++ exposure_flags x p))),
      )
