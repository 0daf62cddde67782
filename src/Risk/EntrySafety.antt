-- ===== src/Risk/EntrySafety.antt =====
-- What an approved entry satisfies.
use Prim.Native.Nat.{◌<◌}
use meme_agent.Base.{
  ℕ, String, values, keep, map, true, false, ◌≡◌, ap, some, ◌==◌, length, elem, lower,
}
use meme_agent.Core.Types.{approve, buy}
use meme_agent.Float.{FloatOps, IsOrdered, ◌+◌, ◌≼◌, sum, neg, num, dec, lt}
use meme_agent.Domain.Market.{present, data_age_seconds}
use meme_agent.Portfolio.State.{
  PortfolioState, roll, daily_pnl, has_open_position, open_count, total_exposure, chain_exposure,
  positions-roll, cash_usdc-roll, first_with_token, position_for_token, open_positions,
}
use meme_agent.Portfolio.Position.{is_open, market_value}
use meme_agent.Risk.Model.{RiskContext}
use meme_agent.Risk.TokenRules.{is_false}
use meme_agent.Risk.TokenRules.{is_false}
use meme_agent.Risk.RuleFacts.{
  control_flags-clear, amount_flags-clear, position_flags-clear, exposure_flags-clear,
  liquidity_rules-clear, market_rules-clear, contract_rules-clear, execution_rules-clear,
  portfolio_rules-clear, priced,
}
use meme_agent.Risk.Engine.{default_rules, assess}
use meme_agent.Risk.FailClosed.{assess_approves_iff}

module _ {F : Type 0} ⦃n : FloatOps F⦄ where
  -- The conditions of an entry, on the portfolio before the assessment.
  pub record EntryIsSafe (x : RiskContext F) : Type 0 where
    pub running : x.controls.emergency_stop ≡ false
    pub unpaused : x.controls.global_pause ≡ false
    pub chain_allowed : elem x.market.chain x.limits.allowed_chains ≡ true
    pub not_blacklisted : elem (lower x.market.token_address) x.controls.blacklisted_tokens ≡ false
    pub sellable : is_false x.market.contract.sell_simulation_ok ≡ false
    pub fresh : data_age_seconds x.market x.now ≼ x.limits.max_data_age_seconds
    pub liquid :
        (liquidity : F) × (x.market.liquidity ≡ some liquidity)
        × (x.limits.min_liquidity_usdc ≼ liquidity)
    pub slippage_le : x.intent.max_slippage_pct ≼ x.limits.max_slippage_pct
    pub priced_entry : (price : F) × (x.market.price ≡ some price) × (lt (num 0) price ≡ true)
    pub amount_positive : lt (num 0) x.intent.amount_usdc ≡ true
    pub amount_le : x.intent.amount_usdc ≼ x.limits.max_trade_usdc + dec 1 9
    pub cash_suffices : x.intent.amount_usdc ≼ x.portfolio.cash_usdc + dec 1 9
    pub loss_limit : lt (neg x.limits.max_daily_loss_usdc) (daily_pnl x.now x.portfolio).1 ≡ true
    pub no_duplicate : has_open_position x.portfolio x.market.token_address ≡ false
    pub room : open_count x.portfolio < x.limits.max_open_positions
    pub exposure_le :
        total_exposure x.portfolio + x.intent.amount_usdc
        ≼ x.limits.max_total_exposure_usdc + dec 1 9
    pub chain_exposure_le :
        chain_exposure x.portfolio x.market.chain + x.intent.amount_usdc
        ≼ x.limits.max_chain_exposure_usdc + dec 1 9

  queries-roll :
      (now : ℕ) (p : PortfolioState F) (token chain : String)
      → (has_open_position (roll now p) token ≡ has_open_position p token)
        × (open_count (roll now p) ≡ open_count p)
        × (total_exposure (roll now p) ≡ total_exposure p)
        × (chain_exposure (roll now p) chain ≡ chain_exposure p chain)
  unfolding has_open_position position_for_token open_positions open_count total_exposure
      chain_exposure
  queries-roll now p token chain =
      let e = positions-roll now p in
      (
        ap (λ d. present (first_with_token (lower token) (keep is_open (values d)))) e,
        ap (λ d. length (keep is_open (values d))) e,
        ap (λ d. sum (map market_value (keep is_open (values d)))) e,
        ap (λ d. sum (map market_value (keep (λ q. q.chain == chain) (keep is_open (values d))))) e,
      )

  -- An entry that the default rules approve meets all conditions of `EntryIsSafe`.
  pub assess-EntryIsSafe :
      IsOrdered F
      → (x : RiskContext F) → x.intent.side ≡ buy
      → (assess default_rules x).1.decision ≡ approve
      → EntryIsSafe x
  assess-EntryIsSafe order x entry approved =
      let (contract, (liquidity, (_, (_, (_, (market, (execution, (_, (portfolio, _))))))))) =
        (assess_approves_iff default_rules x entry).0 approved in
      let (control, amount, position, exposure) =
        portfolio_rules-clear x portfolio.0 portfolio.1 portfolio.2 in
      let p = roll x.now x.portfolio in
      let same = queries-roll x.now x.portfolio x.market.token_address x.market.chain in
      let on = control_flags-clear x control in
      let money = amount_flags-clear order x p (daily_pnl x.now x.portfolio).1 amount in
      let held = position_flags-clear x p position in
      let exposed = exposure_flags-clear order x p exposure in
      let seen = market_rules-clear order x market.0 market.1 market.2 in
      record {
        running = on.0;
        unpaused = on.1;
        chain_allowed = on.4;
        not_blacklisted = seen.2;
        sellable = contract_rules-clear order x contract.0 contract.1 contract.2;
        fresh = seen.1;
        liquid = liquidity_rules-clear order x liquidity.0 liquidity.1 liquidity.2;
        slippage_le = execution_rules-clear order x execution.0 execution.1 execution.2;
        priced_entry = priced order x.market.price seen.0;
        amount_positive = money.0;
        amount_le = money.1;
        cash_suffices = rw cash_usdc-roll at money.2;
        loss_limit = money.3;
        no_duplicate = rw same.0 at held.0;
        room = rw same.1 at held.1;
        exposure_le = rw same.2 at exposed.1;
        chain_exposure_le = rw same.3 at exposed.2;
      }
