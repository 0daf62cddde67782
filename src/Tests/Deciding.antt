-- ===== src/Tests/Deciding.antt =====
-- Decisions on concrete data.
use meme_agent.Base.{◌≡◌, refl, none, some, [], get, lower}
use meme_agent.Core.Errors.{ok}
use meme_agent.Core.Types.{live, buy, approve, buy_action, ai_enabled}
use meme_agent.Float.{num, dec}
use meme_agent.Float.Int.{◌+ℤ◌, ◌-ℤ◌, scaled_times, scaled_quotient}
use meme_agent.Float.Fixed.{Fixed, fixed_ops, Fixed-IsOrdered}
use meme_agent.Domain.Market.{
  one_sided_trading, has_two_way_trading, data_age_seconds, age_seconds, key as market_key,
}
use meme_agent.Portfolio.State.{
  daily_pnl, has_open_position, open_count, token_exposure, total_exposure, chain_exposure,
  launchpad_exposure, total_value,
}
use meme_agent.Portfolio.Position.{market_value, unrealized_pnl}
use meme_agent.Risk.Approval.{sig, approve_trade}
use meme_agent.Risk.Model.{default_limits, RiskAssessment}
use meme_agent.Domain.Trade.{ApprovedTrade}
use meme_agent.Risk.EntrySafety.{EntryIsSafe}
use meme_agent.Risk.PerUser.{merge_wallet_policy}
use meme_agent.Decision.Bought.{IsJustified, evaluate-IsJustified}
use meme_agent.Decision.Vetoed.{evaluate_manual_override-safe}
use meme_agent.Risk.TokenRules.{contract_rules, trading_rules, holder_rules, creator_rules}
use meme_agent.Risk.MarketRules.{
  liquidity_rules, market_rules, execution_rules, mev_rules, trade_ratio,
}
use meme_agent.Risk.PortfolioRules.{portfolio_rules}
use meme_agent.Risk.Engine.{default_rules, assess, run_rules, risk_score}
use meme_agent.Risk.Sizing.{max_entry_amount}
use meme_agent.Decision.Model.{AiDecision, DecisionPipeline, Consultation, DecisionRecord}
use meme_agent.Decision.Evaluating.{evaluate, decide, choose_venue}
use meme_agent.Decision.Consulting.{consult}
use meme_agent.Decision.Cases.{request, context_of, tightened}
use meme_agent.Decision.Overriding.{evaluate_manual_override, override_case}
use meme_agent.Tests.Data.{noon, market, context, signer}
use meme_agent.Tests.Strategies.{growth_signal}

-- The AI buys for 2 USDC, and nothing else happens meanwhile.
abbrev advice : AiDecision Fixed
advice = record {
  action = buy_action;
  confidence = dec 8 1;
  recommended_position_percent = num 0;
  recommended_order_usdc = num 2;
  venue = none;
}

abbrev consultation : Consultation Fixed
consultation = record {
  decision_id = "d1";
  assessment_id = "a1";
  analyze = λ signal pre amount. record { status = "OK"; decision = some advice };
  meanwhile = λ portfolio controls. (portfolio, controls);
}

abbrev pipeline : DecisionPipeline Fixed
pipeline = record {
  strategy = record {
    id = record { strategy_id = "liquidity_growth"; version = 1 };
    watch_score = num 18;
    score = λ m now. ok growth_signal;
  };
  rules = default_rules;
  limits = default_limits;
  signer = signer;
  key = "secret of sixteen";
  ai_mode = ai_enabled;
  min_ai_conf = dec 6 1;
  min_order = num 1;
  window = 300;
  policy = none;
  venue_router = none;
  entry_key = λ mode key id window. key;
}

abbrev assessment : RiskAssessment Fixed
assessment = record {
  decision = approve;
  flags = [];
  risk_score = num 0;
  side = buy;
  token_address = "0xAb";
  amount_usdc = num 2;
  mode = live;
}

abbrev trade : ApprovedTrade Fixed
trade = record {
  request = record {
    idempotency_key = "arc:0xab";
    mode = live;
    chain = "arc";
    token_address = "0xAb";
    side = buy;
    amount_usdc = some (num 2);
    quantity = none;
    max_slippage_pct = num 2;
    reference_price = some (num 2);
    reference_liquidity_usdc = some (num 50_000);
    launchpad = none;
    decision_id = "d1";
    strategy_id = "liquidity_growth";
    strategy_version = 1;
    position_id = none;
    venue = none;
    max_price_impact_pct = some (num 2);
    max_total_cost_pct = some (num 5);
  };
  assessment_id = "a1";
  decision = approve;
  signature = "secret of sixteenarc:0xab|a1";
}

abbrev bought : DecisionRecord Fixed
bought = record {
  id = "d1";
  created_at = noon;
  mode = live;
  token_key = "arc:0xab";
  strategy = record { strategy_id = "liquidity_growth"; version = 1 };
  signal = growth_signal;
  pre_risk = assessment;
  ai = some (record { status = "OK"; decision = some advice });
  final_risk = some assessment;
  sized_amount_usdc = num 2;
  final_action = buy_action;
  approved_trade = some trade;
}

evaluated_bought :
    (evaluate pipeline consultation market context.portfolio context.controls live noon).1
    ≡ ok bought
unfolding evaluate decide consult request choose_venue max_entry_amount merge_wallet_policy assess
    contract_rules trading_rules holder_rules creator_rules liquidity_rules market_rules
    execution_rules mev_rules portfolio_rules trade_ratio scaled_quotient ◌+ℤ◌ ◌-ℤ◌ scaled_times
    one_sided_trading has_two_way_trading data_age_seconds age_seconds get lower daily_pnl
    has_open_position open_count token_exposure total_exposure chain_exposure launchpad_exposure
    market_value unrealized_pnl approve_trade sig total_value run_rules risk_score market_key
evaluated_bought = refl

evaluate-IsJustified_example :
    IsJustified pipeline Fixed-IsOrdered consultation market context.portfolio context.controls live
      noon bought
evaluate-IsJustified_example =
    evaluate-IsJustified pipeline Fixed-IsOrdered consultation market context.portfolio
      context.controls live noon bought evaluated_bought refl

-- The user buys anyway: the same trade, without the AI.
abbrev overridden : DecisionRecord Fixed
overridden = record bought {
  ai = none;
  approved_trade = some (record trade {
    request = record (trade.request) { max_price_impact_pct = none; max_total_cost_pct = none };
  });
}

evaluated_overridden :
    (evaluate_manual_override pipeline "r1" "d1" "a1" market context.portfolio context.controls live
      noon none).1
    ≡ ok overridden
unfolding evaluate_manual_override override_case request max_entry_amount merge_wallet_policy assess
    contract_rules trading_rules holder_rules creator_rules liquidity_rules market_rules
    execution_rules mev_rules portfolio_rules trade_ratio scaled_quotient ◌+ℤ◌ ◌-ℤ◌ scaled_times
    one_sided_trading has_two_way_trading data_age_seconds age_seconds get lower daily_pnl
    has_open_position open_count token_exposure total_exposure chain_exposure launchpad_exposure
    market_value unrealized_pnl approve_trade sig total_value run_rules risk_score market_key
evaluated_overridden = refl

evaluate_manual_override-safe_example : EntryIsSafe (
    context_of pipeline market
      (num 2)
      live
      context.portfolio
      context.controls
      noon
      (tightened pipeline))
evaluate_manual_override-safe_example =
    evaluate_manual_override-safe pipeline Fixed-IsOrdered "r1" "d1" "a1" market context.portfolio
      context.controls live noon none overridden evaluated_overridden refl refl
