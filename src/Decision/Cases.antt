-- ===== src/Decision/Cases.antt =====
-- What the stages of `DecisionPipeline._evaluate` in backend/app/services/decision.py share: the case,
-- the record of a decision, the request and the assessment of an entry.
use Prim.Native.Nat.{◌/◌, ◌*◌ as times}
use meme_agent.Base.{ℕ, String, Option, none, some, nat_eq, if◌then◌else◌}
use meme_agent.Core.Errors.{Result, ok, raised, zero_division, ◌>>=◌}
use meme_agent.Core.Types.{TradingMode, Action, buy}
use meme_agent.Float.{FloatOps}
use meme_agent.Domain.Market.{MarketState, key as market_key}
use meme_agent.Domain.Trade.{TradeRequest, ApprovedTrade}
use meme_agent.Portfolio.Controls.{ControlState}
use meme_agent.Portfolio.State.{PortfolioState}
use meme_agent.Risk.Engine.{assess}
use meme_agent.Risk.Model.{RiskLimits, RiskContext, RiskAssessment}
use meme_agent.Risk.PerUser.{merge_wallet_policy}
use meme_agent.Strategies.Scales.{map_some}
use meme_agent.Strategies.Signal.{StrategySignal}
use meme_agent.Decision.Model.{AiOutcome, DecisionPipeline, DecisionRecord}

-- What all stages of one evaluation share.
pub record Case (F : Type 0) : Type 0 where
  pub market : MarketState F
  pub mode : TradingMode
  pub now : ℕ
  pub limits : RiskLimits F
  pub signal : StrategySignal F
  pub amount : F
  pub pre : RiskAssessment F

-- A stage ends the evaluation or passes on what it found.
pub data Stage (F : Type 0) (A : Type 0) : Type 0 where
  decided : DecisionRecord F → Stage F A
  onwards : A → Stage F A

module _ {F : Type 0} ⦃n : FloatOps F⦄ (p : DecisionPipeline F) where
  -- `rec`
  abbrev pub record_of :
      String
      → Case F
      → Action
      → Option (AiOutcome F)
      → Option (RiskAssessment F)
      → F
      → Option (ApprovedTrade F)
      → DecisionRecord F
  record_of decision_id c action ai final amount approved = record {
    id = decision_id;
    created_at = c.now;
    mode = c.mode;
    token_key = market_key c.market;
    strategy = p.strategy.id;
    signal = c.signal;
    pre_risk = c.pre;
    ai = ai;
    final_risk = final;
    sized_amount_usdc = amount;
    final_action = action;
    approved_trade = approved;
  }

  -- The number of the entry window; times are microseconds.
  abbrev pub bucket : ℕ → Result ℕ
  bucket now =
      if nat_eq p.window 0 then raised zero_division else ok (now / times p.window 1_000_000)

  unfoldable pub request :
      MarketState F
      → F
      → TradingMode
      → ℕ
      → String
      → F
      → Option (RiskLimits F)
      → Option String
      → Result (TradeRequest F)
  request m amount mode now decision_id slippage limits venue = do
    b ← bucket now
    ok record {
      idempotency_key = p.entry_key mode (market_key m) p.strategy.id b;
      mode = mode;
      chain = m.chain;
      token_address = m.token_address;
      side = buy;
      amount_usdc = some amount;
      quantity = none;
      max_slippage_pct = slippage;
      reference_price = m.price;
      reference_liquidity_usdc = m.liquidity;
      launchpad = m.launchpad;
      decision_id = decision_id;
      strategy_id = p.strategy.id.strategy_id;
      strategy_version = p.strategy.id.version;
      position_id = none;
      venue = venue;
      max_price_impact_pct = map_some (λ l. l.max_price_impact_pct) limits;
      max_total_cost_pct = map_some (λ l. l.max_total_cost_pct) limits;
    }

  abbrev pub context_of :
      MarketState F
      → F
      → TradingMode
      → PortfolioState F
      → ControlState
      → ℕ
      → RiskLimits F
      → RiskContext F
  context_of m amount mode portfolio controls now limits = record {
    market = m;
    intent = record {
      side = buy;
      amount_usdc = amount;
      max_slippage_pct = limits.max_slippage_pct;
      mode = mode;
      strategy_id = p.strategy.id.strategy_id;
    };
    portfolio = portfolio;
    limits = limits;
    controls = controls;
    now = now;
  }

  -- `_assess`, which may roll the portfolio's day.
  abbrev pub assess_entry :
      MarketState F
      → F
      → TradingMode
      → PortfolioState F
      → ControlState
      → ℕ
      → RiskLimits F
      → PortfolioState F × RiskAssessment F
  assess_entry m amount mode portfolio controls now limits =
      assess p.rules (context_of m amount mode portfolio controls now limits)

  abbrev pub tightened : RiskLimits F
  tightened = merge_wallet_policy p.limits p.policy
