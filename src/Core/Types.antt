-- ===== src/Core/Types.antt =====
-- backend/app/core/types.py: the enums, with a Boolean equality where the code compares them.
use mathlib.Core.Bool.{Bool, true, false}

pub data TradingMode : Type 0 where
  paper live : TradingMode

pub data Side : Type 0 where
  buy sell : Side

pub data RiskCategory : Type 0 where
  contract_risk liquidity_risk holder_risk creator_risk market_risk execution_risk mev_risk :
      RiskCategory
  portfolio_risk : RiskCategory

pub data Severity : Type 0 where
  info warn veto : Severity

pub data RiskDecision : Type 0 where
  approve reject : RiskDecision

pub data OrderStatus : Type 0 where
  filled partially_filled failed rejected pending_signature submitted timeout : OrderStatus

pub data ExitReason : Type 0 where
  hard_stop take_profit trailing_stop stagnation momentum_deterioration : ExitReason
  liquidity_deterioration risk_escalation ai_exit manual emergency : ExitReason

pub data WalletCapability : Type 0 where
  autonomous_delegated per_trade_signing paper_only : WalletCapability

pub data Action : Type 0 where
  buy_action watch_action reject_action hold_action sell_action : Action

pub data AiMode : Type 0 where
  ai_enabled ai_disabled : AiMode

abbrev pub is_veto : Severity → Bool
is_veto veto = true
is_veto info = false
is_veto warn = false

abbrev pub is_approve : RiskDecision → Bool
is_approve approve = true
is_approve reject = false

abbrev pub is_live : TradingMode → Bool
is_live live = true
is_live paper = false

abbrev pub is_sell : Side → Bool
is_sell sell = true
is_sell buy = false

abbrev pub same_capability : WalletCapability → WalletCapability → Bool
same_capability autonomous_delegated autonomous_delegated = true
same_capability per_trade_signing per_trade_signing = true
same_capability paper_only paper_only = true
same_capability _ _ = false

-- `status in (FILLED, PARTIALLY_FILLED)`
abbrev pub is_fill : OrderStatus → Bool
is_fill filled = true
is_fill partially_filled = true
is_fill _ = false
