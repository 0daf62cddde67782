-- ===== src/Execution/Paper/Purchases.antt =====
-- What a purchase of the paper engine does on every branch.
use meme_agent.Base.{
  ℕ, String, Bool, true, false, ◌≡◌, ◌||◌, refl, sym, ap, ◌∙◌, Option, none, some, get,
  if◌then◌else◌, arith, inl, inr, Option-cases,
}
use mathlib.Core.Path.{subst}
use meme_agent.Core.Errors.{Error, Result, ok, raised}
use meme_agent.Core.Outcomes.{Returns}
use meme_agent.Core.Types.{is_fill, filled, partially_filled, buy as buy_side}
use meme_agent.Float.{FloatOps, IsOrdered, ◌+◌, ◌-◌, ◌*◌, ◌÷◌, ◌≼◌, num, dec, le, gt, ge, min, over}
use meme_agent.Float.Order.{le-of-not-lt, min-le_left}
use meme_agent.Domain.Market.{MarketState}
use meme_agent.Domain.Trade.{TradeRequest, ApprovedTrade, ExecutionResult}
use meme_agent.Portfolio.Position.{Position}
use meme_agent.Portfolio.State.{PortfolioState, has_open_position, cash_usdc-roll}
use meme_agent.Portfolio.Mutations.{Buy, apply_buy}
use meme_agent.Portfolio.Closing.{apply_buy-held}
use meme_agent.Execution.Paper.{
  PaperConfig, PaperState, Draws, Outcome, on, once, record_result, check, market, amount_or_zero,
  slippage,
}
use meme_agent.Execution.Paper.Buying.{
  book_buy, Fill, buy_of, buy_result, booked_buy, slipped_buy, fill_of, priced_buy, fill_buy,
  buy_at, buy,
}
use meme_agent.Execution.Paper.Branches.{
  Result-cases, check-request, holds-on, holds-if, once-new, once-stored, record_result-stored,
  record_result-failed,
}

no_test : (a b : Bool) → (a || b) ≡ false → (a ≡ false) × (b ≡ false)
no_test a b h = ground arith

fill_status : (b : Bool) → is_fill (if b then filled else partially_filled) ≡ true
fill_status true = refl
fill_status false = refl

module _ {F : Type 0} ⦃n : FloatOps F⦄ where
  -- A fill: no more than was asked for, at a slippage that the request allows, paid from the cash, held
  -- as an open position, and kept under the request's key.
  pub record Filled (s : PaperState F) (req : TradeRequest F) (s' : PaperState F)
      (r : ExecutionResult F) : Type 0 where
    pub slip : F
    pub notional_le : r.notional_usdc ≼ amount_or_zero req.amount_usdc
    pub slip_of : r.slippage_pct ≡ some slip
    pub slip_le : slip ≼ req.max_slippage_pct
    pub cash_paid : s'.portfolio.cash_usdc ≡ s.portfolio.cash_usdc - r.notional_usdc
    pub held : has_open_position s'.portfolio req.token_address ≡ true
    pub stored : get req.idempotency_key s'.results ≡ some r

  -- A call that raises changes nothing, and one that fails adds to the orders only.
  unfoldable pub Bought : PaperState F → TradeRequest F → Outcome F → Type 0
  Bought s req (s', raised e) = s' ≡ s
  Bought s req (s', ok r) =
      (is_fill r.status ≡ false → (s'.portfolio ≡ s.portfolio) × (s'.results ≡ s.results))
      × (is_fill r.status ≡ true → Filled s req s' r)

  raised-Bought : (s : PaperState F) (req : TradeRequest F) (e : Error) → Bought s req (s, raised e)
  unfolding Bought
  raised-Bought s req e = refl

  failed-Bought :
      (s : PaperState F) (req : TradeRequest F) (r : ExecutionResult F)
      → is_fill r.status ≡ false
      → Bought s req (record_result s r)
  unfolding record_result Bought
  failed-Bought s req r h = (λ k. (refl, record_result-failed s r k), λ k. cc)

  module _ (order : IsOrdered F) where
    open order use {lt-eq-not-le, le_trans}

    apply_buy-Returns :
        (id : String) (b : Buy F) (now : ℕ) (p : PortfolioState F)
        → b.cost_usdc ≼ p.cash_usdc + dec 1 9
        → Returns (apply_buy id b now p).1
    unfolding apply_buy
    apply_buy-Returns id b now p h =
        ground (arith, cash_usdc-roll now p, lt-eq-not-le (p.cash_usdc + dec 1 9) b.cost_usdc)

    booked_buy-Bought :
        (s : PaperState F) (req : TradeRequest F) (d : Draws) (f : Fill F)
        (out : PortfolioState F × Result (Position F))
        → Returns out.1
        → f.paid ≼ amount_or_zero req.amount_usdc
        → f.slip ≼ req.max_slippage_pct
        → ((q : Position F)
            → out.1 ≡ ok q
            → (out.0.cash_usdc ≡ s.portfolio.cash_usdc - f.paid)
              × (has_open_position out.0 req.token_address ≡ true))
        → Bought s req (booked_buy req d f s out)
    unfolding record_result Bought
    booked_buy-Bought s req d f (p, raised e) h paid slip facts = absurd h
    booked_buy-Bought s req d f (p, ok pos) h paid slip facts =
        let r = buy_result req d f pos in
        let is_fill_r = fill_status (ge f.paid (f.amount - dec 1 9)) in
        let (cash, held) = facts pos refl in
        (
          λ k. cc,
          λ k. record {
            slip = f.slip;
            notional_le = paid;
            slip_of = refl;
            slip_le = slip;
            cash_paid = cash;
            held = held;
            stored = record_result-stored (record s { portfolio = p }) r k;
          },
        )

    priced_buy-Bought :
        (cfg : PaperConfig F) (req : TradeRequest F) (d : Draws) (price paid impact : F)
        (s : PaperState F)
        → paid ≼ amount_or_zero req.amount_usdc
        → paid ≼ s.portfolio.cash_usdc + dec 1 9
        → slippage cfg impact ≼ req.max_slippage_pct
        → Bought s req (priced_buy cfg req d (amount_or_zero req.amount_usdc) price paid impact s)
    priced_buy-Bought cfg req d price paid impact s asked funded slip =
        let fill_price = price * (num 1 + over (slippage cfg impact) (num 100)) in
        let amount = amount_or_zero req.amount_usdc in
        let fee = over (paid * cfg.fee_bps) (num 10_000) in
        let booked : F → Outcome F =
          λ qty. book_buy req d (fill_of cfg amount fill_price paid impact qty) s in
        holds-on (Bought s req) ((paid - fee) ÷ fill_price) s booked (raised-Bought s req) (λ qty _.
          let b = buy_of req qty fill_price paid in
          booked_buy-Bought s req d (fill_of cfg amount fill_price paid impact qty) _
            (apply_buy-Returns d.position_id b d.now s.portfolio funded) asked slip
            (λ q h.
              let (_, cash, _, held) = apply_buy-held order d.position_id b d.now s.portfolio q h in
              (cash ∙ ap (λ c. c - paid) (cash_usdc-roll d.now s.portfolio), held)))

    fill_buy-Bought :
        (cfg : PaperConfig F) (req : TradeRequest F) (d : Draws) (price paid impact : F)
        (s : PaperState F)
        → paid ≼ amount_or_zero req.amount_usdc
        → paid ≼ s.portfolio.cash_usdc + dec 1 9
        → Bought s req (fill_buy cfg req d (amount_or_zero req.amount_usdc) price paid impact s)
    unfolding fill_buy
    fill_buy-Bought cfg req d price paid impact s asked funded =
        let slip = slippage cfg impact in
        let amount = amount_or_zero req.amount_usdc in
        holds-if (Bought s req) (gt slip req.max_slippage_pct)
          (record_result s (slipped_buy req d amount slip impact))
          (priced_buy cfg req d amount price paid impact s)
          (λ _. failed-Bought s req (slipped_buy req d amount slip impact) refl)
          (λ k.
            priced_buy-Bought cfg req d price paid impact s asked funded
              (le-of-not-lt order slip req.max_slippage_pct k))

    buy_at-Bought :
        (cfg : PaperConfig F) (req : TradeRequest F) (d : Draws) (s : PaperState F)
        (m : Option (F × F))
        → Bought s req (buy_at cfg req d (amount_or_zero req.amount_usdc) s m)
    unfolding buy_at
    buy_at-Bought cfg req d s none = failed-Bought s req _ refl
    buy_at-Bought cfg req d s (some (price, liquidity)) =
        let amount = amount_or_zero req.amount_usdc in
        let paid = min amount (liquidity * cfg.max_fill_ratio) in
        let less : paid ≼ amount = min-le_left order amount _ in
        holds-if (Bought s req) _ _ _ (λ k. failed-Bought s req _ refl)
          (λ k. holds-on (Bought s req) _ s _ (raised-Bought s req) (λ impact _.
            fill_buy-Bought cfg req d price paid impact s less
              (le_trans _ _ _ less (le-of-not-lt order _ _ ((no_test (le amount (num 0)) _ k).1)))))

    buy_checked-Bought :
        (cfg : PaperConfig F) (req : TradeRequest F) (d : Draws) (fetched : Result (MarketState F))
        (s : PaperState F)
        → get req.idempotency_key s.results ≡ none
        → Bought s req (
            once s req.idempotency_key
              (on (market fetched) s (λ m. buy_at cfg req d (amount_or_zero req.amount_usdc) s m)))
    buy_checked-Bought cfg req d fetched s new = rw once-new (
        holds-on (Bought s req) (market fetched) s _ (raised-Bought s req)
          (λ m _. buy_at-Bought cfg req d s m))

    -- A purchase under a key that has no stored result raises and changes nothing, or fails and
    -- changes neither portfolio nor stored results, or is a fill: at most the requested amount, at a
    -- slippage that the request allows, paid from the cash, held as an open position in the token, and
    -- stored under the key.
    pub buy-Bought :
        (cfg : PaperConfig F) (t : ApprovedTrade F) (d : Draws) (fetched : Result (MarketState F))
        (s : PaperState F)
        → get t.request.idempotency_key s.results ≡ none
        → Bought s t.request (buy cfg t d fetched s)
    unfolding buy
    buy-Bought cfg t d fetched s new =
        holds-on (Bought s t.request) (check cfg t buy_side) s _ (raised-Bought s t.request)
          (λ req checked.
            let same : t.request ≡ req = check-request cfg t buy_side req checked in
            rw same (buy_checked-Bought cfg req d fetched s (rw same at new)))

    Bought-stored :
        (s s' : PaperState F) (req : TradeRequest F) (r : ExecutionResult F) (out : Outcome F)
        → out ≡ (s', ok r)
        → is_fill r.status ≡ true
        → Bought s req out
        → get req.idempotency_key s'.results ≡ some r
    unfolding Bought
    Bought-stored s s' req r out e fill h =
        let (_, filled_so) = subst (λ o. Bought s req o) e h in (filled_so fill).stored

    buy-accepted :
        (cfg : PaperConfig F) (t : ApprovedTrade F) (req : TradeRequest F) (d : Draws)
        (fetched : Result (MarketState F)) (s : PaperState F)
        → check cfg t buy_side ≡ ok req
        → buy cfg t d fetched s
          ≡ once s req.idempotency_key
              (on (market fetched) s (λ m. buy_at cfg req d (amount_or_zero req.amount_usdc) s m))
    unfolding buy
    buy-accepted cfg t req d fetched s h = rw h

    buy-refused :
        (cfg : PaperConfig F) (t : ApprovedTrade F) (e : Error) (d : Draws)
        (fetched : Result (MarketState F)) (s : PaperState F)
        → check cfg t buy_side ≡ raised e
        → buy cfg t d fetched s ≡ (s, raised e)
    unfolding buy
    buy-refused cfg t e d fetched s h = rw h

    -- A purchase under a key that has a stored result returns that one and changes nothing.
    buy-repeats :
        (cfg : PaperConfig F) (t : ApprovedTrade F) (req : TradeRequest F) (d : Draws)
        (fetched : Result (MarketState F)) (s : PaperState F) (r : ExecutionResult F)
        → check cfg t buy_side ≡ ok req
        → get req.idempotency_key s.results ≡ some r
        → buy cfg t d fetched s ≡ (s, ok r)
    buy-repeats cfg t req d fetched s r h found =
        buy-accepted cfg t req d fetched s h ∙ once-stored s req.idempotency_key r _ found

    buy-stored :
        (cfg : PaperConfig F) (t : ApprovedTrade F) (d : Draws) (fetched : Result (MarketState F))
        (s s' : PaperState F) (r : ExecutionResult F)
        → buy cfg t d fetched s ≡ (s', ok r)
        → is_fill r.status ≡ true
        → (req : TradeRequest F) → check cfg t buy_side ≡ ok req
        → get req.idempotency_key s'.results ≡ some r
    buy-stored cfg t d fetched s s' r h fill req checked =
        let same : t.request ≡ req = check-request cfg t buy_side req checked in
        elim (Option-cases (get req.idempotency_key s.results)) [
          | inl new ↦ rw (sym same) (
              Bought-stored s s' t.request r (buy cfg t d fetched s) h fill
                (buy-Bought cfg t d fetched s (rw same new)))
          | inr (old, found) ↦
              let again = buy-repeats cfg t req d fetched s old checked found in
              let both : Path (Outcome F) (s, ok old) (s', ok r) = sym again ∙ h in
              let state : s ≡ s' = ap (λ o. o.0) both in
              let result : old ≡ r = cc in rw (sym state, sym result) found
        ]

    -- Asking again after a fill, with the same approved trade, whatever the market then is and
    -- whatever is drawn, returns the same result and changes nothing.
    pub buy-once :
        (cfg : PaperConfig F) (t : ApprovedTrade F) (d d' : Draws)
        (fetched fetched' : Result (MarketState F)) (s s' : PaperState F) (r : ExecutionResult F)
        → buy cfg t d fetched s ≡ (s', ok r)
        → is_fill r.status ≡ true
        → buy cfg t d' fetched' s' ≡ (s', ok r)
    buy-once cfg t d d' fetched fetched' s s' r h fill =
        elim (Result-cases (check cfg t buy_side)) [
          | inl (req, checked) ↦
              buy-repeats cfg t req d' fetched' s' r checked
                (buy-stored cfg t d fetched s s' r h fill req checked)
          | inr (e, refused) ↦
              let raises = buy-refused cfg t e d fetched s refused in
              let both : Path (Outcome F) (s, raised e) (s', ok r) = sym raises ∙ h in cc
        ]
