-- ===== src/Decision/Model.antt =====
-- The data of `DecisionPipeline` in backend/app/services/decision.py, and the AI's answer
-- (backend/app/ai/schemas.py).
use meme_agent.Base.{ℕ, String, Option, List}
use meme_agent.Core.Errors.{Result}
use meme_agent.Core.Types.{TradingMode, Action, AiMode}
use meme_agent.Domain.Market.{MarketState}
use meme_agent.Domain.Trade.{ApprovedTrade}
use meme_agent.Portfolio.Controls.{ControlState}
use meme_agent.Portfolio.State.{PortfolioState}
use meme_agent.Risk.Approval.{Signer}
use meme_agent.Risk.Engine.{RiskRule}
use meme_agent.Risk.Model.{RiskLimits, RiskAssessment}
use meme_agent.Strategies.Signal.{Identity, StrategySignal}
use meme_agent.Venues.Router.{VenueRouter}
use meme_agent.Wallets.Policy.{WalletPolicy}

pub record AiDecision (F : Type 0) : Type 0 where
  pub action : Action
  pub confidence : F
  pub recommended_position_percent : F
  pub recommended_order_usdc : F
  pub venue : Option String

pub record AiOutcome (F : Type 0) : Type 0 where
  pub status : String
  pub decision : Option (AiDecision F)

-- What the pipeline asks of a strategy: any of the five.
pub record Strategy (F : Type 0) : Type 0 where
  pub id : Identity
  pub watch_score : F
  pub score : MarketState F → ℕ → Result (StrategySignal F)

-- `entry_key` is the start of the SHA-256 digest of the mode, the key of the token, the strategy and
-- the number of the entry window, joined as text.
pub record DecisionPipeline (F : Type 0) : Type 0 where
  pub strategy : Strategy F
  pub rules : List (RiskRule F)
  pub limits : RiskLimits F
  pub signer : Signer F
  pub key : String
  pub ai_mode : AiMode
  pub min_ai_conf : F
  pub min_order : F
  pub window : ℕ
  pub policy : Option (WalletPolicy F)
  pub venue_router : Option (VenueRouter F)
  pub entry_key : TradingMode → String → Identity → ℕ → String

-- What one evaluation draws from outside: the ids, the AI's answer to a signal, an assessment and the
-- largest order, and what other tasks do to the portfolio and the switches while the AI answers.
pub record Consultation (F : Type 0) : Type 0 where
  pub decision_id : String
  pub assessment_id : String
  pub analyze : StrategySignal F → RiskAssessment F → F → AiOutcome F
  pub meanwhile : PortfolioState F → ControlState → PortfolioState F × ControlState

pub record DecisionRecord (F : Type 0) : Type 0 where
  pub id : String
  pub created_at : ℕ
  pub mode : TradingMode
  pub token_key : String
  pub strategy : Identity
  pub signal : StrategySignal F
  pub pre_risk : RiskAssessment F
  pub ai : Option (AiOutcome F)
  pub final_risk : Option (RiskAssessment F)
  pub sized_amount_usdc : F
  pub final_action : Action
  pub approved_trade : Option (ApprovedTrade F)
