-- ===== src/Portfolio/Mutations.antt =====
-- The methods of `PortfolioState` (backend/app/portfolio/state.py) that trade and mark.
use meme_agent.Base.{ℕ, String, Option, none, some, [], ◌∷◌, ◌++◌, get, put, if◌then◌else◌}
use meme_agent.Core.Errors.{Result, ok, raised, key_error, value_error}
use meme_agent.Core.Types.{TradingMode, ExitReason}
use meme_agent.Float.{FloatOps, ◌+◌, ◌-◌, ◌*◌, ◌÷◌, num, dec, le, gt, ge, min}
use meme_agent.Portfolio.Position.{Position}
use meme_agent.Portfolio.State.{PortfolioState, trade_key, roll}

-- The arguments of `apply_buy`.
pub record Buy (F : Type 0) : Type 0 where
  pub chain : String
  pub launchpad : Option String
  pub token : String
  pub qty : F
  pub price : F
  pub cost_usdc : F
  pub strategy_id : String
  pub strategy_version : ℕ
  pub decision_id : String

module _ {F : Type 0} ⦃n : FloatOps F⦄ where
  unfoldable pub new_position : TradingMode → String → Buy F → ℕ → Position F
  new_position mode id b now = record {
    id = id;
    mode = mode;
    chain = b.chain;
    launchpad = b.launchpad;
    token_address = b.token;
    opened_at = now;
    entry_price = b.price;
    quantity = b.qty;
    initial_quantity = b.qty;
    cost_basis_usdc = b.cost_usdc;
    total_invested_usdc = b.cost_usdc;
    realized_pnl_usdc = num 0;
    peak_price = b.price;
    last_price = b.price;
    last_new_high_at = now;
    tiers_hit = [];
    status = "OPEN";
    strategy_id = b.strategy_id;
    strategy_version = b.strategy_version;
    decision_id = b.decision_id;
    closed_at = none;
    exit_reason = none;
  }

  -- The day rolls before the cash is checked, also where the check then fails.
  unfoldable pub apply_buy :
      String → Buy F → ℕ → PortfolioState F → PortfolioState F × Result (Position F)
  unfolding new_position
  apply_buy id b now p =
      let p' = roll now p in
      let pos = new_position p'.mode id b now in
      if gt b.cost_usdc (p'.cash_usdc + dec 1 9)
      then (p', raised (value_error "insufficient cash"))
      else (
        record p' {
          cash_usdc = p'.cash_usdc - b.cost_usdc;
          positions = put id pos p'.positions;
          last_trade_at = put (trade_key b.chain b.token) now p'.last_trade_at;
        },
        ok pos,
      )

  -- The part of the holding that a sale takes.
  unfoldable pub sold_portion : F → F → Result F
  sold_portion qty held = if gt held (num 0) then qty ÷ held else ok (num 1)

  unfoldable pub sold_position : Position F → F → F → F → ℕ → Option ExitReason → Position F
  sold_position pos qty cost_portion proceeds now reason =
      let left = pos.quantity - qty in
      let rest = record pos {
        quantity = left;
        cost_basis_usdc = pos.cost_basis_usdc - cost_portion;
        realized_pnl_usdc = pos.realized_pnl_usdc + (proceeds - cost_portion);
      } in
      if le left (dec 1 12)
      then record rest {
        quantity = num 0;
        status = "CLOSED";
        closed_at = some now;
        exit_reason = reason;
      }
      else rest

  -- The rest of `apply_sell`, once the position and the portion are known.
  unfoldable pub settle :
      String
      → Position F
      → F
      → F
      → F
      → ℕ
      → Option ExitReason
      → PortfolioState F
      → PortfolioState F × F
  unfolding sold_position
  settle id pos qty portion proceeds now reason p =
      let cost_portion = pos.cost_basis_usdc * portion in
      let pnl = proceeds - cost_portion in
      (
        record p {
          cash_usdc = p.cash_usdc + proceeds;
          positions = put id (sold_position pos qty cost_portion proceeds now reason) p.positions;
          closed = p.closed ++ (if le (pos.quantity - qty) (dec 1 12) then id ∷ [] else []);
          realized_today = p.realized_today + pnl;
          realized_total = p.realized_total + pnl;
          last_trade_at = put (trade_key pos.chain pos.token_address) now p.last_trade_at;
        },
        pnl,
      )

  abbrev pub sell_result :
      String
      → Position F
      → F
      → F
      → ℕ
      → Option ExitReason
      → PortfolioState F
      → Result F
      → PortfolioState F × Result F
  sell_result id pos qty proceeds now reason p (raised e) = (p, raised e)
  sell_result id pos qty proceeds now reason p (ok portion) =
      let (p', pnl) = settle id pos qty portion proceeds now reason p in (p', ok pnl)

  abbrev sell_found :
      String
      → F
      → F
      → ℕ
      → Option ExitReason
      → PortfolioState F
      → Option (Position F)
      → PortfolioState F × Result F
  sell_found id qty proceeds now reason p none = (p, raised (key_error id))
  sell_found id qty proceeds now reason p (some pos) =
      let sold = min qty pos.quantity in
      sell_result id pos sold proceeds now reason p (sold_portion sold pos.quantity)

  unfoldable pub apply_sell :
      String → F → F → ℕ → Option ExitReason → PortfolioState F → PortfolioState F × Result F
  unfolding sold_portion settle
  apply_sell id qty proceeds now reason p =
      let p' = roll now p in sell_found id qty proceeds now reason p' (get id p'.positions)

  -- More than one per cent above the previous peak counts as a new high.
  unfoldable pub marked : F → ℕ → Position F → Position F
  marked price now pos =
      if gt price pos.peak_price
      then record pos {
        last_price = price;
        peak_price = price;
        last_new_high_at =
            if ge price (pos.peak_price * (num 1 + dec 1 2)) then now else pos.last_new_high_at;
      }
      else record pos { last_price = price }

  abbrev mark_found :
      String → F → ℕ → PortfolioState F → Option (Position F) → PortfolioState F × Result (Unit {0})
  mark_found id price now p none = (p, raised (key_error id))
  mark_found id price now p (some pos) =
      (record p { positions = put id (marked price now pos) p.positions }, ok tt)

  unfoldable pub mark : String → F → ℕ → PortfolioState F → PortfolioState F × Result (Unit {0})
  unfolding marked
  mark id price now p = mark_found id price now p (get id p.positions)
