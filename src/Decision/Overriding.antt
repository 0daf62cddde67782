-- ===== src/Decision/Overriding.antt =====
-- `DecisionPipeline.evaluate_manual_override` of backend/app/services/decision.py: the user buys against
-- the opinion of strategy and AI, and is held to the same risk engine.
use meme_agent.Base.{ℕ, String, not, Option, none, some, if◌then◌else◌}
use meme_agent.Core.Errors.{Result, ok, raised, ◌>>=◌}
use meme_agent.Core.Types.{TradingMode, buy_action, reject_action, is_approve}
use meme_agent.Float.{FloatOps, truthy}
use meme_agent.Domain.Market.{MarketState}
use meme_agent.Portfolio.Controls.{ControlState}
use meme_agent.Portfolio.State.{PortfolioState}
use meme_agent.Risk.Approval.{approve_trade}
use meme_agent.Risk.Sizing.{max_entry_amount}
use meme_agent.Strategies.Signal.{StrategySignal}
use meme_agent.Decision.Model.{DecisionPipeline, DecisionRecord}
use meme_agent.Decision.Cases.{Case, record_of, request, assess_entry, tightened}
use meme_agent.Decision.Evaluating.{case_of}

module _ {F : Type 0} ⦃n : FloatOps F⦄ (p : DecisionPipeline F) where
  -- `amount_override if amount_override else ...`
  abbrev pub override_or : Option F → F → F
  override_or none amount = amount
  override_or (some x) amount = if truthy x then x else amount

  -- The id of a record that is not approved is drawn apart, as `record_id`.
  unfoldable pub override_case : String → String → String → Case F → Result (DecisionRecord F)
  override_case record_id decision_id assessment_id c =
      if not (is_approve c.pre.decision)
      then ok (record_of p record_id c reject_action none none c.amount none)
      else (do
        req ←
            request p c.market c.amount c.mode c.now decision_id c.limits.max_slippage_pct none none
        approved ← approve_trade p.signer p.key req assessment_id c.pre
        ok (record_of p decision_id c buy_action none (some c.pre) c.amount (some approved)))

  abbrev pub override_scored :
      String
      → String
      → String
      → MarketState F
      → PortfolioState F
      → ControlState
      → TradingMode
      → ℕ
      → Option F
      → Result (StrategySignal F)
      → PortfolioState F × Result (DecisionRecord F)
  override_scored record_id decision_id assessment_id m portfolio controls mode now override
        (raised e) =
      (portfolio, raised e)
  override_scored record_id decision_id assessment_id m portfolio controls mode now override
        (ok signal) =
      let amount = override_or override (max_entry_amount m portfolio (tightened p)) in
      let (portfolio', pre) = assess_entry p m amount mode portfolio controls now (tightened p) in
      (
        portfolio',
        override_case record_id decision_id assessment_id (case_of p m mode now signal amount pre),
      )

  unfoldable pub evaluate_manual_override :
      String
      → String
      → String
      → MarketState F
      → PortfolioState F
      → ControlState
      → TradingMode
      → ℕ
      → Option F
      → PortfolioState F × Result (DecisionRecord F)
  unfolding override_case
  evaluate_manual_override record_id decision_id assessment_id m portfolio controls mode now
        override =
      override_scored record_id decision_id assessment_id m portfolio controls mode now override
        (p.strategy.score m now)
