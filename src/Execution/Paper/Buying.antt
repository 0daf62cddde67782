-- ===== src/Execution/Paper/Buying.antt =====
-- `PaperExecutionEngine.buy` of backend/app/execution/paper.py.
use meme_agent.Base.{String, ◌||◌, Option, none, some, if◌then◌else◌}
use meme_agent.Core.Errors.{Result, ok, raised}
use meme_agent.Core.Types.{buy as buy_side, filled, partially_filled, failed}
use meme_agent.Float.{FloatOps, ◌+◌, ◌-◌, ◌*◌, ◌÷◌, num, dec, le, gt, ge, min, over}
use meme_agent.Domain.Market.{MarketState}
use meme_agent.Domain.Trade.{TradeRequest, ApprovedTrade, ExecutionResult}
use meme_agent.Portfolio.Position.{Position}
use meme_agent.Portfolio.State.{PortfolioState}
use meme_agent.Portfolio.Mutations.{Buy, apply_buy}
use meme_agent.Execution.Math.{estimate_price_impact_pct}
use meme_agent.Execution.Paper.{
  PaperConfig, PaperState, Draws, Outcome, on, once, record_result, check, market, blank,
  amount_or_zero, slippage,
}

-- What a simulated purchase comes to.
pub record Fill (F : Type 0) : Type 0 where
  pub amount : F
  pub qty : F
  pub price : F
  pub paid : F
  pub fee : F
  pub slip : F
  pub impact : F

module _ {F : Type 0} ⦃n : FloatOps F⦄ where
  abbrev pub refuse_buy : TradeRequest F → Draws → F → String → PaperState F → Outcome F
  refuse_buy req d amount why s =
      record_result s
        (record (blank req d failed) { error = some why; requested_amount_usdc = some amount })

  abbrev pub buy_of : TradeRequest F → F → F → F → Buy F
  buy_of req qty price cost = record {
    chain = req.chain;
    launchpad = req.launchpad;
    token = req.token_address;
    qty = qty;
    price = price;
    cost_usdc = cost;
    strategy_id = req.strategy_id;
    strategy_version = req.strategy_version;
    decision_id = req.decision_id;
  }

  abbrev pub buy_result : TradeRequest F → Draws → Fill F → Position F → ExecutionResult F
  buy_result req d f pos =
      record (blank req d (if ge f.paid (f.amount - dec 1 9) then filled else partially_filled)) {
        requested_amount_usdc = some f.amount;
        filled_quantity = f.qty;
        avg_price = some f.price;
        notional_usdc = f.paid;
        fee_usdc = f.fee;
        slippage_pct = some f.slip;
        price_impact_pct = some f.impact;
        position_id = some pos.id;
      }

  -- After `apply_buy`, whose state is kept where it raises too.
  abbrev pub booked_buy :
      TradeRequest F
      → Draws
      → Fill F
      → PaperState F
      → PortfolioState F × Result (Position F)
      → Outcome F
  booked_buy req d f s (p, raised e) = (record s { portfolio = p }, raised e)
  booked_buy req d f s (p, ok pos) =
      record_result (record s { portfolio = p }) (buy_result req d f pos)

  abbrev pub book_buy : TradeRequest F → Draws → Fill F → PaperState F → Outcome F
  book_buy req d f s =
      booked_buy req d f s
        (apply_buy d.position_id (buy_of req f.qty f.price f.paid) d.now s.portfolio)

  abbrev pub slipped_buy : TradeRequest F → Draws → F → F → F → ExecutionResult F
  slipped_buy req d amount slip impact = record (blank req d failed) {
    error = some "SLIPPAGE_EXCEEDED";
    requested_amount_usdc = some amount;
    slippage_pct = some slip;
    price_impact_pct = some impact;
  }

  abbrev pub fill_of : PaperConfig F → F → F → F → F → F → Fill F
  fill_of cfg amount price paid impact qty = record {
    amount = amount;
    qty = qty;
    price = price;
    paid = paid;
    fee = over (paid * cfg.fee_bps) (num 10_000);
    slip = slippage cfg impact;
    impact = impact;
  }

  -- The part after the slippage check.
  abbrev pub priced_buy :
      PaperConfig F → TradeRequest F → Draws → F → F → F → F → PaperState F → Outcome F
  priced_buy cfg req d amount price paid impact s =
      let fee = over (paid * cfg.fee_bps) (num 10_000) in
      let fill_price = price * (num 1 + over (slippage cfg impact) (num 100)) in
      on ((paid - fee) ÷ fill_price) s
        (λ qty. book_buy req d (fill_of cfg amount fill_price paid impact qty) s)

  unfoldable pub fill_buy :
      PaperConfig F → TradeRequest F → Draws → F → F → F → F → PaperState F → Outcome F
  fill_buy cfg req d amount price paid impact s =
      if gt (slippage cfg impact) req.max_slippage_pct
      then record_result s (slipped_buy req d amount (slippage cfg impact) impact)
      else priced_buy cfg req d amount price paid impact s

  unfoldable pub buy_at :
      PaperConfig F → TradeRequest F → Draws → F → PaperState F → Option (F × F) → Outcome F
  unfolding fill_buy
  buy_at cfg req d amount s none = refuse_buy req d amount "NO_MARKET_DATA" s
  buy_at cfg req d amount s (some (price, liquidity)) =
      let paid = min amount (liquidity * cfg.max_fill_ratio) in
      if le amount (num 0) || gt amount (s.portfolio.cash_usdc + dec 1 9)
      then refuse_buy req d amount "INSUFFICIENT_FUNDS" s
      else on (estimate_price_impact_pct paid liquidity) s
          (λ impact. fill_buy cfg req d amount price paid impact s)

  unfoldable pub buy :
      PaperConfig F → ApprovedTrade F → Draws → Result (MarketState F) → PaperState F → Outcome F
  unfolding buy_at
  buy cfg t d fetched s = on (check cfg t buy_side) s (λ req.
      once s req.idempotency_key
        (on (market fetched) s (λ m. buy_at cfg req d (amount_or_zero req.amount_usdc) s m)))
