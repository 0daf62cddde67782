-- ===== src/Execution/Paper.antt =====
-- `PaperExecutionEngine` of backend/app/execution/paper.py. A call takes the state and returns the new
-- one beside what it returns or raises. What a call draws from outside (order and position ids, the
-- clock's readings) and what the market data provider answers are arguments. Labels and symbols are
-- left out.
pub mod Buying
pub mod Selling
pub mod Branches
pub mod Purchases
pub mod Sales
pub mod Forgery
use meme_agent.Base.{
  ℕ, String, Bool, true, false, not, ◌&&◌, ◌||◌, Option, none, some, List, [], ◌∷◌, ◌++◌, Dict, get,
  put, text_or_empty, if◌then◌else◌,
}
use meme_agent.Core.Errors.{Result, ok, raised, data_unavailable, approval_error}
use meme_agent.Core.Types.{
  TradingMode, paper, Side, buy as buy_side, sell as sell_side, is_live, is_sell, OrderStatus,
  filled, partially_filled, failed, is_fill,
}
use meme_agent.Float.{FloatOps, ◌+◌, ◌-◌, ◌*◌, ◌÷◌, num, dec, le, gt, ge, min, over, truthy}
use meme_agent.Domain.Market.{MarketState}
use meme_agent.Domain.Trade.{TradeRequest, ApprovedTrade, ExecutionResult}
use meme_agent.Portfolio.Position.{Position, is_open}
use meme_agent.Portfolio.State.{PortfolioState}
use meme_agent.Portfolio.Mutations.{Buy, apply_buy, apply_sell}
use meme_agent.Risk.Approval.{Signer, verify}
use meme_agent.Execution.Math.{estimate_price_impact_pct}

-- The engine's settings, with the approver that it asks.
pub record PaperConfig (F : Type 0) : Type 0 where
  pub signer : Signer F
  pub key : String
  pub fee_bps : F
  pub extra_slip_bps : F
  pub max_fill_ratio : F

pub record PaperState (F : Type 0) : Type 0 where
  pub portfolio : PortfolioState F
  pub results : Dict (ExecutionResult F)
  pub orders : List (ExecutionResult F)

-- `uuid4()` and the clock, as one call reads them: the clock for the portfolio and for the result.
pub record Draws : Type 0 where
  pub order_id : String
  pub position_id : String
  pub now : ℕ
  pub at : ℕ

abbrev pub same_side : Side → Side → Bool
same_side a b = if is_sell a then is_sell b else not (is_sell b)

abbrev pub Outcome : Type 0 → Type 0
Outcome F = PaperState F × Result (ExecutionResult F)

module _ {F : Type 0} where
  -- What raises before anything is changed ends the call.
  abbrev pub on : {A : Type 0} → Result A → PaperState F → (A → Outcome F) → Outcome F
  on (raised e) s f = (s, raised e)
  on (ok a) s f = f a

  -- `if req.idempotency_key in self._results: return self._results[...]`
  abbrev pub stored_or : PaperState F → Option (ExecutionResult F) → Outcome F → Outcome F
  stored_or s none out = out
  stored_or s (some r) out = (s, ok r)

  unfoldable pub once : PaperState F → String → Outcome F → Outcome F
  once s key out = stored_or s (get key s.results) out

  -- `_result`: every result joins the orders, and a fill is kept under its key.
  unfoldable pub record_result : PaperState F → ExecutionResult F → Outcome F
  record_result s r = (
    record s {
      orders = s.orders ++ (r ∷ []);
      results = if is_fill r.status then put r.idempotency_key r s.results else s.results;
    },
    ok r,
  )

  unfoldable pub check : PaperConfig F → ApprovedTrade F → Side → Result (TradeRequest F)
  check cfg t side =
      if not (verify cfg.signer cfg.key t)
      then raised approval_error
      else if is_live t.request.mode || not (same_side t.request.side side)
      then raised approval_error
      else ok t.request

module _ {F : Type 0} ⦃n : FloatOps F⦄ where
  -- A market with a positive price and a liquidity that is not 0: these two.
  abbrev pub usable : Option F → Option F → Option (F × F)
  usable (some p) (some l) = if truthy p && gt p (num 0) && truthy l then some (p, l) else none
  usable _ _ = none

  -- `_market`, on what `get_market_state` answers.
  unfoldable pub market : Result (MarketState F) → Result (Option (F × F))
  market (ok m) = ok (usable m.price m.liquidity)
  market (raised data_unavailable) = ok none
  market (raised e) = raised e

  -- A result with the defaults of `ExecutionResult`.
  abbrev pub blank : TradeRequest F → Draws → OrderStatus → ExecutionResult F
  blank req d status = record {
    order_id = d.order_id;
    idempotency_key = req.idempotency_key;
    mode = paper;
    status = status;
    simulated = true;
    side = req.side;
    token_address = req.token_address;
    tx_hash = none;
    signing_request_id = none;
    provider_tx_id = none;
    requested_amount_usdc = none;
    filled_quantity = num 0;
    avg_price = none;
    notional_usdc = num 0;
    fee_usdc = num 0;
    slippage_pct = none;
    price_impact_pct = none;
    position_id = none;
    error = none;
    at = d.at;
  }

  -- `x or 0.0`
  abbrev pub amount_or_zero : Option F → F
  amount_or_zero none = num 0
  amount_or_zero (some x) = if truthy x then x else num 0

  abbrev pub slippage : PaperConfig F → F → F
  slippage cfg impact = impact + over cfg.extra_slip_bps (num 100)
