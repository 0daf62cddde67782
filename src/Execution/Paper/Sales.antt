-- ===== src/Execution/Paper/Sales.antt =====
-- What a sale of the paper engine does on every branch.
use mathlib.Core.Path.{subst}
use meme_agent.Base.{
  ℕ, String, true, false, not, ◌≡◌, refl, ap, ◌∙◌, Option, none, some, get, text_or_empty, arith,
}
use meme_agent.Core.Errors.{Error, Result, ok, raised}
use meme_agent.Core.Outcomes.{Returns}
use meme_agent.Core.Types.{ExitReason, is_fill, sell as sell_side}
use meme_agent.Float.{FloatOps, IsOrdered, ◌+◌, ◌-◌, ◌*◌, ◌≼◌, gt, min}
use meme_agent.Float.Order.{le-of-not-lt, min-le_left, min-le_right}
use meme_agent.Domain.Market.{MarketState}
use meme_agent.Domain.Trade.{TradeRequest, ApprovedTrade, ExecutionResult}
use meme_agent.Portfolio.Position.{Position, is_open}
use meme_agent.Portfolio.State.{PortfolioState, roll, cash_usdc-roll, positions-roll}
use meme_agent.Portfolio.Mutations.{apply_sell, sold_portion, settle, sell_result as settled}
use meme_agent.Execution.Math.{estimate_price_impact_pct}
use meme_agent.Execution.Paper.{
  PaperConfig, PaperState, Draws, Outcome, on, once, record_result, check, market, amount_or_zero,
  slippage,
}
use meme_agent.Execution.Paper.Selling.{
  refuse_sell, booked_sell, slipped_sell, sell_result, fill_price, fee_on, priced_sell, fill_sell,
  sell_at, sell_position, sell,
}
use meme_agent.Execution.Paper.Branches.{
  check-request, holds-on, holds-if, once-new, record_result-stored, record_result-failed,
}

module _ {F : Type 0} ⦃n : FloatOps F⦄ where
  -- A fill: of an open position, no more than was asked for nor than it has, at a slippage that the
  -- request allows, with the proceeds less the fee in the cash, and kept under the request's key.
  pub record IsSale (s : PaperState F) (req : TradeRequest F) (s' : PaperState F)
      (r : ExecutionResult F) : Type 0 where
    pub pos : Position F
    pub slip : F
    pub found : get (text_or_empty req.position_id) s.portfolio.positions ≡ some pos
    pub was_open : is_open pos ≡ true
    pub quantity_le_asked : r.filled_quantity ≼ amount_or_zero req.quantity
    pub quantity_le_held : r.filled_quantity ≼ pos.quantity
    pub slip_of : r.slippage_pct ≡ some slip
    pub slip_le : slip ≼ req.max_slippage_pct
    pub cash_received :
        s'.portfolio.cash_usdc ≡ s.portfolio.cash_usdc + (r.notional_usdc - r.fee_usdc)
    pub stored : get req.idempotency_key s'.results ≡ some r

  -- A call that raises changes nothing, and one that fails adds to the orders only.
  unfoldable pub Sold : PaperState F → TradeRequest F → Outcome F → Type 0
  Sold s req (s', raised e) = s' ≡ s
  Sold s req (s', ok r) =
      (is_fill r.status ≡ false → (s'.portfolio ≡ s.portfolio) × (s'.results ≡ s.results))
      × (is_fill r.status ≡ true → IsSale s req s' r)

  -- Every position stands under its own id.
  abbrev pub KeyedById : PortfolioState F → Type 0
  KeyedById p = (k : String) (q : Position F) → get k p.positions ≡ some q → q.id ≡ k

  raised-Sold : (s : PaperState F) (req : TradeRequest F) (e : Error) → Sold s req (s, raised e)
  unfolding Sold
  raised-Sold s req e = refl

  failed-Sold :
      (s : PaperState F) (req : TradeRequest F) (r : ExecutionResult F)
      → is_fill r.status ≡ false
      → Sold s req (record_result s r)
  unfolding record_result Sold
  failed-Sold s req r h = (λ k. (refl, record_result-failed s r k), λ k. cc)

  settled-facts :
      (id : String) (pos : Position F) (qty proceeds : F) (now : ℕ) (reason : Option ExitReason)
      (p : PortfolioState F) (portion : Result F)
      → Returns portion
      → let out = settled id pos qty proceeds now reason p portion in
        Returns out.1 × (out.0.cash_usdc ≡ p.cash_usdc + proceeds)
  unfolding settle
  settled-facts id pos qty proceeds now reason p (ok portion) h = (tt, refl)
  settled-facts id pos qty proceeds now reason p (raised e) h = absurd h

  module _ (order : IsOrdered F) where
    open order use {pos_nonzero}

    sold_portion-Returns : (qty held : F) → Returns (sold_portion qty held)
    unfolding sold_portion
    sold_portion-Returns qty held = ground (arith, pos_nonzero held)

    apply_sell-facts :
        (id : String) (pos : Position F) (qty proceeds : F) (now : ℕ) (p : PortfolioState F)
        → get id p.positions ≡ some pos
        → let out = apply_sell id qty proceeds now none p in
          Returns out.1 × (out.0.cash_usdc ≡ p.cash_usdc + proceeds)
    unfolding apply_sell
    apply_sell-facts id pos qty proceeds now p found =
        let here : get id (roll now p).positions ≡ some pos = rw positions-roll found in
        let sold = min qty pos.quantity in
        let (returns, cash) =
          settled-facts id pos sold proceeds now none (roll now p) (sold_portion sold pos.quantity)
            (sold_portion-Returns sold pos.quantity) in
        rw (here, apply_sell) (returns, cash ∙ ap (λ c. c + proceeds) (cash_usdc-roll now p))

    booked_sell-Sold :
        (s : PaperState F) (req : TradeRequest F) (r : ExecutionResult F)
        (out : PortfolioState F × Result F)
        → Returns out.1
        → r.idempotency_key ≡ req.idempotency_key
        → ((s' : PaperState F)
            → s'.portfolio ≡ out.0
            → get req.idempotency_key s'.results ≡ some r
            → IsSale s req s' r)
        → is_fill r.status ≡ true
        → Sold s req (booked_sell r s out)
    unfolding record_result Sold
    booked_sell-Sold s req r (p, raised e) h same sale fill = absurd h
    booked_sell-Sold s req r (p, ok pnl) h same sale fill = (
      λ k. cc,
      λ k.
          let kept : get r.idempotency_key (record_result (record s { portfolio = p }) r).0.results
              ≡ some r =
            record_result-stored (record s { portfolio = p }) r fill in
          sale _ refl (
            subst (λ key. get key (record_result (record s { portfolio = p }) r).0.results ≡ some r)
              same kept),
    )

    priced_sell-Sold :
        (cfg : PaperConfig F) (req : TradeRequest F) (d : Draws) (pos : Position F)
        (price impact : F) (s : PaperState F)
        → get (text_or_empty req.position_id) s.portfolio.positions ≡ some pos
        → is_open pos ≡ true
        → pos.id ≡ text_or_empty req.position_id
        → slippage cfg impact ≼ req.max_slippage_pct
        → Sold s req (
            priced_sell cfg req d pos price
              (min (amount_or_zero req.quantity) pos.quantity)
              impact
              s)
    priced_sell-Sold cfg req d pos price impact s found was_open keyed slip =
        let qty = min (amount_or_zero req.quantity) pos.quantity in
        let gross = qty * fill_price cfg price impact in
        let proceeds = gross - fee_on cfg gross in
        let here : get pos.id s.portfolio.positions ≡ some pos =
          ap (λ k. get k s.portfolio.positions) keyed ∙ found in
        let (returns, cash) = apply_sell-facts pos.id pos qty proceeds d.now s.portfolio here in
        booked_sell-Sold s req (sell_result cfg req d pos.id price qty impact)
          (apply_sell pos.id qty proceeds d.now none s.portfolio) returns refl
          (λ s' same kept. record {
            pos = pos;
            slip = slippage cfg impact;
            found = found;
            was_open = was_open;
            quantity_le_asked = min-le_left order _ _;
            quantity_le_held = min-le_right order _ _;
            slip_of = refl;
            slip_le = slip;
            cash_received = ap (λ p. p.cash_usdc) same ∙ cash;
            stored = kept;
          })
          refl

    fill_sell-Sold :
        (cfg : PaperConfig F) (req : TradeRequest F) (d : Draws) (pos : Position F)
        (price impact : F) (s : PaperState F)
        → get (text_or_empty req.position_id) s.portfolio.positions ≡ some pos
        → is_open pos ≡ true
        → pos.id ≡ text_or_empty req.position_id
        → Sold s req (
            fill_sell cfg req d pos price (min (amount_or_zero req.quantity) pos.quantity) impact s)
    unfolding fill_sell
    fill_sell-Sold cfg req d pos price impact s found was_open keyed =
        let slip = slippage cfg impact in
        let qty = min (amount_or_zero req.quantity) pos.quantity in
        holds-if (Sold s req) (gt slip req.max_slippage_pct)
          (record_result s (slipped_sell req d pos.id slip impact))
          (priced_sell cfg req d pos price qty impact s)
          (λ _. failed-Sold s req (slipped_sell req d pos.id slip impact) refl)
          (λ k.
            priced_sell-Sold cfg req d pos price impact s found was_open keyed
              (le-of-not-lt order slip req.max_slippage_pct k))

    sell_at-Sold :
        (cfg : PaperConfig F) (req : TradeRequest F) (d : Draws) (pos : Position F)
        (s : PaperState F) (m : Option (F × F))
        → get (text_or_empty req.position_id) s.portfolio.positions ≡ some pos
        → is_open pos ≡ true
        → pos.id ≡ text_or_empty req.position_id
        → Sold s req (sell_at cfg req d pos s m)
    unfolding sell_at
    sell_at-Sold cfg req d pos s none found was_open keyed = failed-Sold s req _ refl
    sell_at-Sold cfg req d pos s (some (price, liquidity)) found was_open keyed =
        let qty = min (amount_or_zero req.quantity) pos.quantity in
        holds-on (Sold s req) (estimate_price_impact_pct (qty * price) liquidity) s _
          (raised-Sold s req)
          (λ impact _. fill_sell-Sold cfg req d pos price impact s found was_open keyed)

    sell_position-Sold :
        (cfg : PaperConfig F) (req : TradeRequest F) (d : Draws) (fetched : Result (MarketState F))
        (s : PaperState F) (o : Option (Position F))
        → KeyedById s.portfolio
        → get (text_or_empty req.position_id) s.portfolio.positions ≡ o
        → Sold s req (sell_position cfg req d fetched s o)
    unfolding sell_position
    sell_position-Sold cfg req d fetched s none keyed found = failed-Sold s req _ refl
    sell_position-Sold cfg req d fetched s (some pos) keyed found =
        holds-if (Sold s req) (not (is_open pos)) (refuse_sell req d none "NO_OPEN_POSITION" s)
          (on (market fetched) s (λ m. sell_at cfg req d pos s m)) (λ _. failed-Sold s req _ refl)
          (λ k.
            holds-on (Sold s req) (market fetched) s (λ m. sell_at cfg req d pos s m)
              (raised-Sold s req)
              (λ m _. sell_at-Sold cfg req d pos s m found (ground arith) (keyed _ pos found)))

    sell_checked-Sold :
        (cfg : PaperConfig F) (req : TradeRequest F) (d : Draws) (fetched : Result (MarketState F))
        (s : PaperState F)
        → KeyedById s.portfolio
        → get req.idempotency_key s.results ≡ none
        → Sold s req (
            once s req.idempotency_key (
              sell_position cfg req d fetched s
                (get (text_or_empty req.position_id) s.portfolio.positions)))
    sell_checked-Sold cfg req d fetched s keyed new =
        rw once-new (sell_position-Sold cfg req d fetched s _ keyed refl)

    -- In a portfolio that keeps every position under its id, a sale under a key that has no stored
    -- result raises and changes nothing, or fails and changes neither portfolio nor stored results, or
    -- is a fill: of an open position, at most what was asked for and what it has, at a slippage that
    -- the request allows, with the proceeds less the fee paid into the cash, and stored under the key.
    pub sell-Sold :
        (cfg : PaperConfig F) (t : ApprovedTrade F) (d : Draws) (fetched : Result (MarketState F))
        (s : PaperState F)
        → KeyedById s.portfolio
        → get t.request.idempotency_key s.results ≡ none
        → Sold s t.request (sell cfg t d fetched s)
    unfolding sell
    sell-Sold cfg t d fetched s keyed new =
        holds-on (Sold s t.request) (check cfg t sell_side) s _ (raised-Sold s t.request)
          (λ req checked.
            let same : t.request ≡ req = check-request cfg t sell_side req checked in
            rw same (sell_checked-Sold cfg req d fetched s keyed (rw same at new)))
