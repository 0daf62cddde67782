-- ===== src/Execution/Paper/Selling.antt =====
-- `PaperExecutionEngine.sell` of backend/app/execution/paper.py.
use meme_agent.Base.{String, not, Option, none, some, get, text_or_empty, if◌then◌else◌}
use meme_agent.Core.Errors.{Result, ok, raised}
use meme_agent.Core.Types.{sell as sell_side, filled, failed}
use meme_agent.Float.{FloatOps, ◌-◌, ◌*◌, num, gt, min, over}
use meme_agent.Domain.Market.{MarketState}
use meme_agent.Domain.Trade.{TradeRequest, ApprovedTrade, ExecutionResult}
use meme_agent.Portfolio.Position.{Position, is_open}
use meme_agent.Portfolio.State.{PortfolioState}
use meme_agent.Portfolio.Mutations.{apply_sell}
use meme_agent.Execution.Math.{estimate_price_impact_pct}
use meme_agent.Execution.Paper.{
  PaperConfig, PaperState, Draws, Outcome, on, once, record_result, check, market, blank,
  amount_or_zero, slippage,
}

module _ {F : Type 0} ⦃n : FloatOps F⦄ where
  abbrev pub refuse_sell :
      TradeRequest F → Draws → Option String → String → PaperState F → Outcome F
  refuse_sell req d position why s =
      record_result s (record (blank req d failed) { error = some why; position_id = position })

  -- After `apply_sell`, whose state is kept where it raises too.
  abbrev pub booked_sell :
      ExecutionResult F → PaperState F → PortfolioState F × Result F → Outcome F
  booked_sell r s (p, raised e) = (record s { portfolio = p }, raised e)
  booked_sell r s (p, ok pnl) = record_result (record s { portfolio = p }) r

  abbrev pub slipped_sell : TradeRequest F → Draws → String → F → F → ExecutionResult F
  slipped_sell req d position slip impact = record (blank req d failed) {
    error = some "SLIPPAGE_EXCEEDED";
    slippage_pct = some slip;
    price_impact_pct = some impact;
    position_id = some position;
  }

  abbrev pub fill_price : PaperConfig F → F → F → F
  fill_price cfg price impact = price * (num 1 - over (slippage cfg impact) (num 100))

  abbrev pub fee_on : PaperConfig F → F → F
  fee_on cfg gross = over (gross * cfg.fee_bps) (num 10_000)

  abbrev pub sell_result :
      PaperConfig F → TradeRequest F → Draws → String → F → F → F → ExecutionResult F
  sell_result cfg req d position price qty impact =
      let sold_at = fill_price cfg price impact in
      record (blank req d filled) {
        filled_quantity = qty;
        avg_price = some sold_at;
        notional_usdc = qty * sold_at;
        fee_usdc = fee_on cfg (qty * sold_at);
        slippage_pct = some (slippage cfg impact);
        price_impact_pct = some impact;
        position_id = some position;
      }

  -- The part after the slippage check.
  abbrev pub priced_sell :
      PaperConfig F → TradeRequest F → Draws → Position F → F → F → F → PaperState F → Outcome F
  priced_sell cfg req d pos price qty impact s =
      let gross = qty * fill_price cfg price impact in
      booked_sell (sell_result cfg req d pos.id price qty impact) s
        (apply_sell pos.id qty (gross - fee_on cfg gross) d.now none s.portfolio)

  unfoldable pub fill_sell :
      PaperConfig F → TradeRequest F → Draws → Position F → F → F → F → PaperState F → Outcome F
  fill_sell cfg req d pos price qty impact s =
      if gt (slippage cfg impact) req.max_slippage_pct
      then record_result s (slipped_sell req d pos.id (slippage cfg impact) impact)
      else priced_sell cfg req d pos price qty impact s

  unfoldable pub sell_at :
      PaperConfig F
      → TradeRequest F
      → Draws
      → Position F
      → PaperState F
      → Option (F × F)
      → Outcome F
  unfolding fill_sell
  sell_at cfg req d pos s none = refuse_sell req d (some pos.id) "NO_MARKET_DATA" s
  sell_at cfg req d pos s (some (price, liquidity)) =
      let qty = min (amount_or_zero req.quantity) pos.quantity in
      on (estimate_price_impact_pct (qty * price) liquidity) s
        (λ impact. fill_sell cfg req d pos price qty impact s)

  unfoldable pub sell_position :
      PaperConfig F
      → TradeRequest F
      → Draws
      → Result (MarketState F)
      → PaperState F
      → Option (Position F)
      → Outcome F
  unfolding sell_at
  sell_position cfg req d fetched s none = refuse_sell req d none "NO_OPEN_POSITION" s
  sell_position cfg req d fetched s (some pos) =
      if not (is_open pos)
      then refuse_sell req d none "NO_OPEN_POSITION" s
      else on (market fetched) s (λ m. sell_at cfg req d pos s m)

  unfoldable pub sell :
      PaperConfig F → ApprovedTrade F → Draws → Result (MarketState F) → PaperState F → Outcome F
  unfolding sell_position
  sell cfg t d fetched s = on (check cfg t sell_side) s (λ req. once s req.idempotency_key (
      sell_position cfg req d fetched s
        (get (text_or_empty req.position_id) s.portfolio.positions)))
