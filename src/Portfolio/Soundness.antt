-- ===== src/Portfolio/Soundness.antt =====
-- What every position of a portfolio satisfies, whatever is bought, sold and marked.
use meme_agent.Base.{
  ℕ, String, ◌≡◌, false, Option, get, values, All, All-put, All-get, inl, inr, Option-cases, arith,
}
use meme_agent.Core.Types.{ExitReason}
use meme_agent.Core.Errors.{Result, ok, raised}
use meme_agent.Float.{FloatOps, IsOrdered, ◌-◌, ◌*◌, ◌≼◌, num, dec, min}
use meme_agent.Float.Order.{le-of-not-lt, min-le_right, le-min}
use meme_agent.Portfolio.Position.{Position, is_open}
use meme_agent.Portfolio.State.{PortfolioState, roll, daily_pnl}
use meme_agent.Portfolio.Mutations.{
  Buy, new_position, sell_result, apply_buy, apply_sell, sold_position, settle, mark, marked,
}

-- One call that trades, marks or reads a portfolio. Quantities are not negative.
pub data Step {F : Type 0} ⦃n : FloatOps F⦄ : PortfolioState F → PortfolioState F → Type 0 where
  buys :
      (id : String) (b : Buy F) (now : ℕ) (p : PortfolioState F)
      → num 0 ≼ b.qty
      → Step p (apply_buy id b now p).0
  sells :
      (id : String) (qty proceeds : F) (now : ℕ) (reason : Option ExitReason) (p : PortfolioState F)
      → num 0 ≼ qty
      → Step p (apply_sell id qty proceeds now reason p).0
  marks :
      (id : String) (price : F) (now : ℕ) (p : PortfolioState F) → Step p (mark id price now p).0
  reads_pnl : (now : ℕ) (p : PortfolioState F) → Step p (daily_pnl now p).0

pub data Reach {F : Type 0} ⦃n : FloatOps F⦄ (p : PortfolioState F)
    : PortfolioState F → Type 0 where
  here : Reach p p
  next : {q r : PortfolioState F} → Reach p q → Step q r → Reach p r

module _ {F : Type 0} ⦃n : FloatOps F⦄ where
  -- The last price is within the peak, the quantity within what was bought, and a closed position
  -- holds nothing.
  pub record IsSound (q : Position F) : Type 0 where
    pub last_le : q.last_price ≼ q.peak_price
    pub nonneg : num 0 ≼ q.quantity
    pub within : q.quantity ≼ q.initial_quantity
    pub closed_empty : is_open q ≡ false → q.quantity ≡ num 0

  abbrev pub AllSound : PortfolioState F → Type 0
  AllSound p = All IsSound (values p.positions)

  module _ (order : IsOrdered F) where
    open order use {le_refl, le_trans, sub_nonneg, sub-le, zero_le_dec}

    new_position-IsSound :
        (p : PortfolioState F) (id : String) (b : Buy F) (now : ℕ)
        → num 0 ≼ b.qty
        → IsSound (new_position p.mode id b now)
    unfolding new_position
    new_position-IsSound p id b now h = record {
      last_le = le_refl _;
      nonneg = h;
      within = le_refl _;
      closed_empty = λ e. cc;
    }

    marked-IsSound :
        (price : F) (now : ℕ) (pos : Position F) → IsSound pos → IsSound (marked price now pos)
    unfolding marked
    marked-IsSound price now pos h =
        ground (arith, le_refl price, le-of-not-lt order price pos.peak_price)

    sold_position-IsSound :
        (pos : Position F) (sold cp proceeds : F) (now : ℕ) (reason : Option ExitReason)
        → num 0 ≼ sold
        → sold ≼ pos.quantity
        → IsSound pos
        → IsSound (sold_position pos sold cp proceeds now reason)
    unfolding sold_position
    sold_position-IsSound pos sold cp proceeds now reason h k s = ground (
      arith,
      s.closed_empty,
      le_refl (num 0),
      le_trans (num 0) pos.quantity pos.initial_quantity s.nonneg s.within,
      sub_nonneg pos.quantity sold k,
      sub-le pos.quantity sold h,
      le_trans (pos.quantity - sold) pos.quantity pos.initial_quantity,
      le_trans (pos.quantity - sold) (num 0) (dec 1 12),
      zero_le_dec 1 12,
    )

    sell_result-AllSound :
        (id : String) (pos : Position F) (sold proceeds : F) (now : ℕ) (reason : Option ExitReason)
        (p : PortfolioState F) (portion : Result F)
        → num 0 ≼ sold
        → sold ≼ pos.quantity
        → IsSound pos
        → AllSound p
        → AllSound (sell_result id pos sold proceeds now reason p portion).0
    unfolding settle
    sell_result-AllSound id pos sold proceeds now reason p (raised e) h k s a = a
    sell_result-AllSound id pos sold proceeds now reason p (ok portion) h k s a =
        All-put IsSound id _ p.positions
          (sold_position-IsSound pos sold (pos.cost_basis_usdc * portion) proceeds now reason h k s)
          a

    roll-AllSound : (now : ℕ) (p : PortfolioState F) → AllSound p → AllSound (roll now p)
    unfolding roll
    roll-AllSound now p h = ground arith

    -- A sale of a quantity that is not negative keeps every position sound, whether it is carried out
    -- or raises.
    apply_sell-AllSound :
        (id : String) (qty proceeds : F) (now : ℕ) (reason : Option ExitReason)
        (p : PortfolioState F)
        → num 0 ≼ qty
        → AllSound p
        → AllSound (apply_sell id qty proceeds now reason p).0
    unfolding apply_sell
    apply_sell-AllSound id qty proceeds now reason p h a =
        elim (Option-cases (get id (roll now p).positions)) [
          | inl e ↦ rw (e, apply_sell) (roll-AllSound now p a)
          | inr (pos, e) ↦
              let s = All-get IsSound id pos (roll now p).positions (roll-AllSound now p a) e in
              rw (e, apply_sell)
                (sell_result-AllSound id pos (min qty pos.quantity) proceeds now reason (roll now p)
                  _ (le-min order _ _ _ h s.nonneg) (min-le_right order _ _) s
                  (roll-AllSound now p a))
        ]

    -- A purchase of a quantity that is not negative keeps every position sound, whether the cash
    -- suffices or not.
    apply_buy-AllSound :
        (id : String) (b : Buy F) (now : ℕ) (p : PortfolioState F)
        → num 0 ≼ b.qty
        → AllSound p
        → AllSound (apply_buy id b now p).0
    unfolding apply_buy
    apply_buy-AllSound id b now p h a =
        let p' = roll now p in
        let q = new_position p'.mode id b now in
        ground (
          arith,
          roll-AllSound now p a,
          All-put IsSound id q p'.positions (new_position-IsSound p' id b now h)
              (roll-AllSound now p a),
        )

    -- Marking keeps every position sound: the peak follows the price up and never falls behind it.
    mark-AllSound :
        (id : String) (price : F) (now : ℕ) (p : PortfolioState F)
        → AllSound p
        → AllSound (mark id price now p).0
    unfolding mark
    mark-AllSound id price now p a = elim (Option-cases (get id p.positions)) [
      | inl e ↦ rw (e, mark) a
      | inr (pos, e) ↦
          rw (e, mark)
            (All-put IsSound id _ p.positions
              (marked-IsSound price now pos (All-get IsSound id pos p.positions a e)) a)
    ]

    daily_pnl-AllSound :
        (now : ℕ) (p : PortfolioState F) → AllSound p → AllSound (daily_pnl now p).0
    unfolding daily_pnl
    daily_pnl-AllSound now p a = roll-AllSound now p a

    -- Every history of calls that trade quantities that are not negative keeps every position sound,
    -- also through calls that raise: the peak is at least the last price, the quantity lies between 0
    -- and the initial one, and a position that is not open holds nothing.
    pub Reach-AllSound : {p q : PortfolioState F} → Reach p q → AllSound p → AllSound q
    Reach-AllSound here a = a
    Reach-AllSound (next r (buys id b now q h)) a =
        apply_buy-AllSound id b now q h (Reach-AllSound r a)
    Reach-AllSound (next r (sells id qty proceeds now reason q h)) a =
        apply_sell-AllSound id qty proceeds now reason q h (Reach-AllSound r a)
    Reach-AllSound (next r (marks id price now q)) a =
        mark-AllSound id price now q (Reach-AllSound r a)
    Reach-AllSound (next r (reads_pnl now q)) a = daily_pnl-AllSound now q (Reach-AllSound r a)
