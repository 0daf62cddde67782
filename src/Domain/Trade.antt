-- ===== src/Domain/Trade.antt =====
-- backend/app/domain/trade.py: the value objects that risk, wallets, venues and execution share.
-- Fields that no modelled code reads (symbol, pool, reason, label) are left out.
use meme_agent.Base.{ℕ, String, Bool, Option}
use meme_agent.Core.Types.{TradingMode, Side, RiskDecision, OrderStatus}

pub record TradeRequest (F : Type 0) : Type 0 where
  pub idempotency_key : String
  pub mode : TradingMode
  pub chain : String
  pub token_address : String
  pub side : Side
  pub amount_usdc : Option F
  pub quantity : Option F
  pub max_slippage_pct : F
  pub reference_price : Option F
  pub reference_liquidity_usdc : Option F
  pub launchpad : Option String
  pub decision_id : String
  pub strategy_id : String
  pub strategy_version : ℕ
  pub position_id : Option String
  pub venue : Option String
  pub max_price_impact_pct : Option F
  pub max_total_cost_pct : Option F

pub record ApprovedTrade (F : Type 0) : Type 0 where
  pub request : TradeRequest F
  pub assessment_id : String
  pub decision : RiskDecision
  pub signature : String

-- The entries of `diagnostics` that code reads.
pub record Diagnostics (F : Type 0) : Type 0 where
  pub sell_tax_pct : Option F
  pub route : Option String

pub record Quote (F : Type 0) : Type 0 where
  pub side : Side
  pub token_address : String
  pub amount_in : F
  pub expected_out : F
  pub price : F
  pub price_impact_pct : F
  pub fee_usdc : F
  pub router_address : String
  pub pool_liquidity_usdc : Option F
  pub venue : String
  pub fee_pct : Option F
  pub diagnostics : Diagnostics F
  pub quoted_at : ℕ
  pub expires_at : ℕ
  pub source : String

pub record UnsignedTransaction (F : Type 0) : Type 0 where
  pub chain : String
  pub chain_id : ℕ
  pub to : String
  pub calldata : String
  pub token_address : String
  pub amount_usdc : F
  pub slippage_pct : F
  pub built_by : String
  pub function_signature : Option String
  pub purpose : Option String

pub record ExecutionResult (F : Type 0) : Type 0 where
  pub order_id : String
  pub idempotency_key : String
  pub mode : TradingMode
  pub status : OrderStatus
  pub simulated : Bool
  pub side : Side
  pub token_address : String
  pub tx_hash : Option String
  pub signing_request_id : Option String
  pub provider_tx_id : Option String
  pub requested_amount_usdc : Option F
  pub filled_quantity : F
  pub avg_price : Option F
  pub notional_usdc : F
  pub fee_usdc : F
  pub slippage_pct : Option F
  pub price_impact_pct : Option F
  pub position_id : Option String
  pub error : Option String
  pub at : ℕ
