-- ===== src/Tests/Assessing.antt =====
-- The theorems on the risk engine, at concrete data.
use meme_agent.Base.{true, ◌≡◌, ◌↔◌, refl, sym, get, lower}
use meme_agent.Core.Types.{approve}
use meme_agent.Float.{◌+◌, lt, dec}
use meme_agent.Float.Int.{◌+ℤ◌, ◌-ℤ◌, scaled_times, scaled_quotient}
use meme_agent.Float.Fixed.{Fixed, fixed_ops, Fixed-IsOrdered}
use meme_agent.Domain.Market.{one_sided_trading, has_two_way_trading, data_age_seconds, age_seconds}
use meme_agent.Portfolio.State.{
  daily_pnl, has_open_position, open_count, token_exposure, total_exposure, chain_exposure,
  launchpad_exposure,
}
use meme_agent.Portfolio.Position.{market_value, unrealized_pnl}
use meme_agent.Risk.Model.{RiskContext, default_limits}
use meme_agent.Risk.TokenRules.{contract_rules, trading_rules, holder_rules, creator_rules}
use meme_agent.Risk.MarketRules.{
  liquidity_rules, market_rules, execution_rules, mev_rules, trade_ratio,
}
use meme_agent.Risk.PortfolioRules.{portfolio_rules}
use meme_agent.Risk.Engine.{default_rules, assess}
use meme_agent.Risk.EntrySafety.{EntryIsSafe, assess-EntryIsSafe}
use meme_agent.Risk.FailClosed.{AllClear, assess_approves_iff}
use meme_agent.Risk.Sizing.{IsSized, max_entry_amount, max_entry_amount_bounds}
use meme_agent.Tests.Data.{context, entry, market, holding, empty_portfolio}

context_approved : (assess default_rules context).1.decision ≡ approve
unfolding assess contract_rules trading_rules holder_rules creator_rules liquidity_rules
    market_rules execution_rules mev_rules portfolio_rules trade_ratio scaled_quotient ◌+ℤ◌ ◌-ℤ◌
    scaled_times one_sided_trading has_two_way_trading data_age_seconds age_seconds get lower
    daily_pnl has_open_position open_count token_exposure total_exposure chain_exposure
    launchpad_exposure market_value unrealized_pnl
context_approved = refl

assess-EntryIsSafe_example : EntryIsSafe context
assess-EntryIsSafe_example = assess-EntryIsSafe Fixed-IsOrdered context refl context_approved

assess_approves_iff_example :
    ((assess default_rules context).1.decision ≡ approve) ↔ AllClear default_rules context
assess_approves_iff_example = assess_approves_iff default_rules context refl

max_entry_amount_bounds_example :
    IsSized market holding default_limits (max_entry_amount market holding default_limits)
max_entry_amount_bounds_example =
    max_entry_amount_bounds Fixed-IsOrdered market holding default_limits

-- Cash of 1.000000600, which rounds up to 1.000001.
abbrev all_in : RiskContext Fixed
all_in = record context {
  portfolio = record empty_portfolio { cash_usdc = dec 1_000_000_600 9 };
  intent = record entry { amount_usdc = dec 1_000_001_000 9 };
}

all_in_size : max_entry_amount market all_in.portfolio default_limits ≡ dec 1_000_001_000 9
unfolding max_entry_amount token_exposure total_exposure chain_exposure ◌-ℤ◌ scaled_times
all_in_size = refl

all_in_sized : dec 1_000_001_000 9 ≡ max_entry_amount market all_in.portfolio default_limits
all_in_sized = sym all_in_size

all_in_over :
    lt
      (all_in.portfolio.cash_usdc + dec 1 9)
      (max_entry_amount market all_in.portfolio default_limits)
    ≡ true
unfolding ◌+ℤ◌
all_in_over = rw all_in_size refl
