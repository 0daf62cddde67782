-- ===== src/Execution/Live.antt =====
-- `ArcExecutionEngine` of backend/app/execution/live.py: its settings and state, and what it calls of
-- the chain, the wallet and the clock. Their answers are arguments; audit records are left out, and of
-- an error text only the leading code is kept.
pub mod Preflight
pub mod Approving
pub mod Executing
pub mod Cleared
pub mod Building
pub mod Sending
pub mod Booking
pub mod Resending
use Prim.Native.String
use meme_agent.Base.{ℕ, String, Bool, false, Option, none, some, List, ◌==◌, if◌then◌else◌}
use meme_agent.Core.Errors.{Result, ok, ◌>>=◌}
use meme_agent.Core.Types.{live, OrderStatus}
use meme_agent.Float.{FloatOps, num}
use meme_agent.Domain.Trade.{TradeRequest, Quote, UnsignedTransaction, ExecutionResult}
use meme_agent.Portfolio.State.{PortfolioState}
use meme_agent.Risk.Approval.{Signer}
use meme_agent.Wallets.Policy.{WalletAuthorization}
use meme_agent.Wallets.Submission.{Provider}
use meme_agent.Execution.Idempotency.{Claims}

-- `LiveSettings`, with the approver that the engine asks.
pub record LiveConfig (F : Type 0) : Type 0 where
  pub signer : Signer F
  pub key : String
  pub live_trading_enabled : Bool
  pub max_quote_age_s : F
  pub max_quote_deviation_pct : F
  pub fee_aware_deviation : Bool
  pub tx_deadline_s : ℕ

-- `SubmissionResult` of backend/app/wallets/base.py.
pub record SubmissionResult : Type 0 where
  pub status : String
  pub tx_hash : Option String
  pub signing_request_id : Option String
  pub provider_tx_id : Option String

-- `TxReceipt` and `FillDetails` of backend/app/chains/base.py.
pub record TxReceipt : Type 0 where
  pub tx_hash : String
  pub status : ℕ

pub record FillDetails (F : Type 0) : Type 0 where
  pub filled_quantity : F
  pub avg_price : F
  pub fee_usdc : F

-- What one pre-flight and the build after it draw from outside.
pub record Attempt (F : Type 0) : Type 0 where
  pub healthy : Result Bool
  pub authorization : Result (Option (WalletAuthorization F))
  pub authorized_at : ℕ
  pub usdc_balance : Result F
  pub quote : TradeRequest F → Result (Quote F)
  pub now : ℕ
  pub deadline_from : ℕ
  pub build_swap_tx : Quote F → TradeRequest F → ℕ → Result (UnsignedTransaction F)

-- What one call of the engine draws from outside. A call builds at most twice.
pub record World (F : Type 0) : Type 0 where
  pub chain_id : ℕ
  pub live_trading_verified : Bool
  pub router_allowlist : List String
  pub wallet : Provider F SubmissionResult
  pub first : Attempt F
  pub second : Attempt F
  pub approved_at : ℕ
  pub submitted_at : ℕ
  pub resolve_tx_hash : String → Result (Option String)
  pub simulate : UnsignedTransaction F → Result Bool
  pub wait_for_receipt : String → Result (Option TxReceipt)
  pub parse_fill : TxReceipt → Quote F → Result (FillDetails F)
  pub order_id : String
  pub position_id : String
  pub finished_at : ℕ
  pub at : ℕ

-- The portfolio and the claimed keys, with the transactions that the wallet was asked to submit: token
-- approvals and swaps, in order.
pub record LiveState (F : Type 0) : Type 0 where
  pub portfolio : PortfolioState F
  pub claims : Claims (ExecutionResult F)
  pub approvals : List (UnsignedTransaction F)
  pub swaps : List (UnsignedTransaction F)

abbrev pub Outcome : Type 0 → Type 0
Outcome F = LiveState F × Result (ExecutionResult F)

-- A text that may be missing counts when it is not empty.
abbrev pub present : Option String → Option String
present none = none
present (some s) = if s == "" then none else some s

module _ {F : Type 0} ⦃n : FloatOps F⦄ where
  -- `_res`
  abbrev pub res : World F → TradeRequest F → OrderStatus → ExecutionResult F
  res w req status = record {
    order_id = w.order_id;
    idempotency_key = req.idempotency_key;
    mode = live;
    status = status;
    simulated = false;
    side = req.side;
    token_address = req.token_address;
    tx_hash = none;
    signing_request_id = none;
    provider_tx_id = none;
    requested_amount_usdc = none;
    filled_quantity = num 0;
    avg_price = none;
    notional_usdc = num 0;
    fee_usdc = num 0;
    slippage_pct = none;
    price_impact_pct = none;
    position_id = none;
    error = none;
    at = w.at;
  }

  abbrev pub res_error : World F → TradeRequest F → OrderStatus → String → ExecutionResult F
  res_error w req status why = record (res w req status) { error = some why }

module _ {F : Type 0} where
  -- The hash of a submission, asked of the provider where it gave its own id only.
  unfoldable pub find_hash : World F → SubmissionResult → Result (Option String)
  find_hash w sub = elim (present sub.tx_hash) [
    | some h ↦ ok (some h)
    | none ↦ elim (present sub.provider_tx_id) [
      | none ↦ ok none
      | some id ↦ do h ← w.resolve_tx_hash id; ok (present h)
    ]
  ]
