-- ===== src/Risk/RuleFacts.antt =====
-- What each risk rule guarantees where it raises no veto.
use Prim.Native.Nat.{◌<◌}
use meme_agent.Base.{
  true, false, ◌≡◌, refl, Option, some, none, List, ◌++◌, any-append, elem, get, lower, arith,
}
use meme_agent.Core.Errors.{ok}
use meme_agent.Core.Types.{is_veto}
use meme_agent.Float.{FloatOps, IsOrdered, ◌+◌, ◌≼◌, neg, num, dec, lt}
use meme_agent.Float.Order.{le-of-not-lt}
use meme_agent.Domain.Market.{key, data_age_seconds, has_two_way_trading}
use meme_agent.Portfolio.State.{
  PortfolioState, roll, daily_pnl, has_open_position, open_count, token_exposure, total_exposure,
  chain_exposure,
}
use meme_agent.Risk.Model.{RiskContext, RiskFlag}
use meme_agent.Risk.TokenRules.{contract_rules, capability_flags, measured_flags, is_false, is_true}
use meme_agent.Risk.MarketRules.{
  liquidity_rules, no_price, market_rules, execution_rules, liquidity_flags,
}
use meme_agent.Risk.PortfolioRules.{
  control_flags, amount_flags, position_flags, exposure_flags, portfolio_rules, cooling_down,
}
use meme_agent.Risk.Engine.{is_vetoed}

pub ok-injective : {A : Type 0} {a b : A} → ok a ≡ ok b → a ≡ b
ok-injective e = cc

pub clear-append :
    (a b : List RiskFlag)
    → is_vetoed (a ++ b) ≡ false
    → (is_vetoed a ≡ false) × (is_vetoed b ≡ false)
clear-append a b h = ground (arith, any-append (λ f. is_veto f.severity) a b)

module _ {F : Type 0} ⦃n : FloatOps F⦄ where
  pub control_flags-clear :
      (x : RiskContext F)
      → is_vetoed (control_flags x) ≡ false
      → (x.controls.emergency_stop ≡ false)
        × (x.controls.global_pause ≡ false)
        × (elem x.intent.strategy_id x.controls.paused_strategies ≡ false)
        × (elem x.market.chain x.controls.paused_chains ≡ false)
        × (elem x.market.chain x.limits.allowed_chains ≡ true)
  unfolding control_flags
  control_flags-clear x h = ground arith

  pub position_flags-clear :
      (x : RiskContext F) (p : PortfolioState F)
      → is_vetoed (position_flags x p) ≡ false
      → (has_open_position p x.market.token_address ≡ false)
        × (open_count p < x.limits.max_open_positions)
        × (elem (key x.market) p.pending_tokens ≡ false)
  unfolding position_flags
  position_flags-clear x p h = ground arith

  module _ (order : IsOrdered F) where
    open order use {lt-eq-not-le}

    pub amount_flags-clear :
        (x : RiskContext F) (p : PortfolioState F) (pnl : F)
        → is_vetoed (amount_flags x p pnl) ≡ false
        → (lt (num 0) x.intent.amount_usdc ≡ true)
          × (x.intent.amount_usdc ≼ x.limits.max_trade_usdc + dec 1 9)
          × (x.intent.amount_usdc ≼ p.cash_usdc + dec 1 9)
          × (lt (neg x.limits.max_daily_loss_usdc) pnl ≡ true)
    unfolding amount_flags
    amount_flags-clear x p pnl h = ground (
      arith,
      lt-eq-not-le (num 0) x.intent.amount_usdc,
      lt-eq-not-le (neg x.limits.max_daily_loss_usdc) pnl,
      le-of-not-lt order x.intent.amount_usdc (x.limits.max_trade_usdc + dec 1 9),
      le-of-not-lt order x.intent.amount_usdc (p.cash_usdc + dec 1 9),
    )

    pub exposure_flags-clear :
        (x : RiskContext F) (p : PortfolioState F)
        → is_vetoed (exposure_flags x p) ≡ false
        → let amount = x.intent.amount_usdc in
          (token_exposure p x.market.token_address + amount ≼ x.limits.max_position_usdc + dec 1 9)
          × (total_exposure p + amount ≼ x.limits.max_total_exposure_usdc + dec 1 9)
          × (chain_exposure p x.market.chain + amount ≼ x.limits.max_chain_exposure_usdc + dec 1 9)
          × (cooling_down {F = F} x.now
                (get (key x.market) p.last_trade_at)
                (num x.limits.cooldown_seconds)
              ≡ false)
    unfolding exposure_flags
    exposure_flags-clear x p h = ground (
      arith,
      le-of-not-lt order (token_exposure p x.market.token_address + x.intent.amount_usdc)
          (x.limits.max_position_usdc + dec 1 9),
      le-of-not-lt order (total_exposure p + x.intent.amount_usdc)
          (x.limits.max_total_exposure_usdc + dec 1 9),
      le-of-not-lt order (chain_exposure p x.market.chain + x.intent.amount_usdc)
          (x.limits.max_chain_exposure_usdc + dec 1 9),
    )

    pub liquidity_flags-clear :
        (x : RiskContext F) (o : Option F) (flags : List RiskFlag)
        → liquidity_flags x o ≡ ok flags
        → is_vetoed flags ≡ false
        → (liquidity : F) × (o ≡ some liquidity) × (x.limits.min_liquidity_usdc ≼ liquidity)
    liquidity_flags-clear x none flags e h = absurd (ground arith)
    liquidity_flags-clear x (some liquidity) flags e h =
        (liquidity, refl, ground (arith, le-of-not-lt order x.limits.min_liquidity_usdc liquidity))

    pub liquidity_rules-clear :
        (x : RiskContext F) (flags : List RiskFlag)
        → liquidity_rules x ≡ ok flags
        → is_vetoed flags ≡ false
        → (liquidity : F) × (x.market.liquidity ≡ some liquidity)
          × (x.limits.min_liquidity_usdc ≼ liquidity)
    unfolding liquidity_rules
    liquidity_rules-clear x flags e h = liquidity_flags-clear x x.market.liquidity flags e h

    pub priced :
        (o : Option F) → no_price o ≡ false → (p : F) × (o ≡ some p) × (lt (num 0) p ≡ true)
    priced none h = cc
    priced (some p) h = (p, refl, ground (arith, lt-eq-not-le (num 0) p))

    pub market_rules-clear :
        (x : RiskContext F) (flags : List RiskFlag)
        → market_rules x ≡ ok flags
        → is_vetoed flags ≡ false
        → (no_price x.market.price ≡ false)
          × (data_age_seconds x.market x.now ≼ x.limits.max_data_age_seconds)
          × (elem (lower x.market.token_address) x.controls.blacklisted_tokens ≡ false)
    unfolding market_rules
    market_rules-clear x flags e h =
        ground (
          arith,
          le-of-not-lt order (data_age_seconds x.market x.now) x.limits.max_data_age_seconds,
        )

    pub sell_simulation-clear :
        (x : RiskContext F)
        → is_vetoed (measured_flags x) ≡ false
        → is_false x.market.contract.sell_simulation_ok ≡ false
    unfolding measured_flags
    sell_simulation-clear x h = ground arith

    pub contract_rules-clear :
        (x : RiskContext F) (flags : List RiskFlag)
        → contract_rules x ≡ ok flags
        → is_vetoed flags ≡ false
        → is_false x.market.contract.sell_simulation_ok ≡ false
    unfolding contract_rules
    contract_rules-clear x flags e h =
        let c = capability_flags (is_true (has_two_way_trading x.market)) x in
        sell_simulation-clear x (clear-append c (measured_flags x) (rw (ok-injective e) h)).1

    pub execution_rules-clear :
        (x : RiskContext F) (flags : List RiskFlag)
        → execution_rules x ≡ ok flags
        → is_vetoed flags ≡ false
        → x.intent.max_slippage_pct ≼ x.limits.max_slippage_pct
    unfolding execution_rules
    execution_rules-clear x flags e h =
        ground (arith, le-of-not-lt order x.intent.max_slippage_pct x.limits.max_slippage_pct)

  -- The flags of `portfolio_rules` split into their four groups, on the rolled portfolio.
  pub portfolio_rules-clear :
      (x : RiskContext F) (flags : List RiskFlag)
      → (portfolio_rules x).1 ≡ ok flags
      → is_vetoed flags ≡ false
      → let p = roll x.now x.portfolio in
        (is_vetoed (control_flags x) ≡ false)
        × (is_vetoed (amount_flags x p (daily_pnl x.now x.portfolio).1) ≡ false)
        × (is_vetoed (position_flags x p) ≡ false)
        × (is_vetoed (exposure_flags x p) ≡ false)
  unfolding portfolio_rules daily_pnl
  portfolio_rules-clear x flags e h =
      let p = roll x.now x.portfolio in
      let pnl = (daily_pnl x.now x.portfolio).1 in
      let (a, r) =
        clear-append (control_flags x)
          (amount_flags x p pnl ++ (position_flags x p ++ exposure_flags x p))
          (rw (ok-injective e) h) in
      let (b, s) =
        clear-append (amount_flags x p pnl) (position_flags x p ++ exposure_flags x p) r in
      let (c, d) = clear-append (position_flags x p) (exposure_flags x p) s in (a, b, c, d)
