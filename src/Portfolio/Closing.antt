-- ===== src/Portfolio/Closing.antt =====
-- What a purchase and a full sale leave behind.
use text.Mathlib.TextPositions.{eq_refl}
use meme_agent.Base.{
  ℕ, String, ◌==◌, ◌≡◌, true, false, Bool, ◌&&◌, Option, some, List, [], ◌∷◌, ◌++◌, Dict, get, put,
  values, any, keep, lower, get-put, refl, arith,
}
use meme_agent.Core.Types.{TradingMode, ExitReason}
use meme_agent.Core.Errors.{ok}
use meme_agent.Domain.Market.{present}
use meme_agent.Float.{FloatOps, IsOrdered, ◌+◌, ◌-◌, ◌*◌, ◌≼◌, num, dec, min, gt}
use meme_agent.Float.Order.{le-of-not-lt, le-min}
use meme_agent.Portfolio.Position.{Position, is_open}
use meme_agent.Portfolio.State.{
  PortfolioState, roll, first_with_token, open_positions, position_for_token, has_open_position,
  positions-roll, cash_usdc-roll, closed-roll,
}
use meme_agent.Portfolio.Mutations.{
  Buy, new_position, apply_buy, apply_sell, sold_portion, sold_position, settle,
}

module _ {F : Type 0} where
  -- An open position in a token, in any casing of its address.
  abbrev holds : String → Position F → Bool
  holds token q = is_open q && (lower q.token_address == lower token)

  any-first_with_token :
      (token : String) (qs : List (Position F))
      → present (first_with_token (lower token) (keep is_open qs)) ≡ any (holds token) qs
  unfolding first_with_token
  any-first_with_token token [] = refl
  any-first_with_token token (q ∷ qs) = ground (arith, any-first_with_token token qs)

  any-put :
      (f : Position F → Bool) (k : String) (q : Position F) (d : Dict (Position F))
      → f q ≡ true
      → any f (values (put k q d)) ≡ true
  unfolding put
  any-put f k q [] h = ground arith
  any-put f k q ((j, w) ∷ d) h = ground (arith, any-put f k q d h)

module _ {F : Type 0} ⦃n : FloatOps F⦄ (order : IsOrdered F) where
  open order use {le_refl, sub_nonpos, le_trans, zero_le_dec, pos_nonzero, lt-eq-not-le}

  holds-new :
      (mode : TradingMode) (id : String) (b : Buy F) (now : ℕ)
      → holds b.token (new_position mode id b now) ≡ true
  unfolding new_position
  holds-new mode id b now = eq_refl (lower b.token)

  -- A purchase that returns cost at most the cash (and the tolerance of 1e-9), took that cost from
  -- the cash, and left an open position in the token, in any casing, under the id that was drawn.
  pub apply_buy-held :
      (id : String) (b : Buy F) (now : ℕ) (p : PortfolioState F) (q : Position F)
      → (apply_buy id b now p).1 ≡ ok q
      → (b.cost_usdc ≼ (roll now p).cash_usdc + dec 1 9)
        × ((apply_buy id b now p).0.cash_usdc ≡ (roll now p).cash_usdc - b.cost_usdc)
        × (get id (apply_buy id b now p).0.positions ≡ some q)
        × (has_open_position (apply_buy id b now p).0 b.token ≡ true)
  unfolding apply_buy has_open_position position_for_token open_positions
  apply_buy-held id b now p q h =
      let p' = roll now p in
      let new = new_position p'.mode id b now in
      ground (
        arith,
        le-of-not-lt order b.cost_usdc (p'.cash_usdc + dec 1 9),
        get-put id id new p'.positions,
        eq_refl id,
        any-first_with_token b.token (values (put id new p'.positions)),
        any-put (holds b.token) id new p'.positions (holds-new p'.mode id b now),
      )

  portion_ok :
      (sold held : F) → gt held (num 0) ≡ true → sold_portion sold held ≡ ok (n.quotient sold held)
  unfolding sold_portion
  portion_ok sold held h = ground (arith, pos_nonzero held)

  nothing_left : (held qty : F) → held ≼ qty → held - min qty held ≼ dec 1 12
  nothing_left held qty h =
      le_trans _ _ _ (sub_nonpos held (min qty held) (le-min order held qty held h (le_refl held)))
        (zero_le_dec 1 12)

  sold_position-closes :
      (pos : Position F) (sold cp proceeds : F) (now : ℕ) (reason : Option ExitReason)
      → pos.quantity - sold ≼ dec 1 12
      → let q = sold_position pos sold cp proceeds now reason in
        (is_open q ≡ false) × (q.quantity ≡ num 0)
  unfolding sold_position
  sold_position-closes pos sold cp proceeds now reason h = rw h (refl, refl)

  apply_sell-eq-settle :
      (id : String) (pos : Position F) (qty proceeds : F) (now : ℕ) (reason : Option ExitReason)
      (p : PortfolioState F)
      → get id p.positions ≡ some pos
      → gt pos.quantity (num 0) ≡ true
      → let sold = min qty pos.quantity in
        let after =
          settle id pos sold (n.quotient sold pos.quantity) proceeds now reason (roll now p) in
        apply_sell id qty proceeds now reason p ≡ (after.0, ok after.1)
  unfolding apply_sell
  apply_sell-eq-settle id pos qty proceeds now reason p found some_left =
      let here : get id (roll now p).positions ≡ some pos = rw positions-roll found in
      rw (here, apply_sell) (rw (portion_ok (min qty pos.quantity) pos.quantity some_left))

  -- Selling at least the whole of a position with a positive quantity succeeds and closes it: the
  -- quantity is 0, the id joins the closed list, and the cash has the proceeds.
  apply_sell-closes :
      (id : String) (pos : Position F) (qty proceeds : F) (now : ℕ) (reason : Option ExitReason)
      (p : PortfolioState F)
      → get id p.positions ≡ some pos
      → gt pos.quantity (num 0) ≡ true
      → pos.quantity ≼ qty
      → let after = apply_sell id qty proceeds now reason p in
        (q : Position F) × (get id after.0.positions ≡ some q)
        × (is_open q ≡ false)
        × (q.quantity ≡ num 0)
        × (after.0.closed ≡ p.closed ++ (id ∷ []))
        × (after.0.cash_usdc ≡ p.cash_usdc + proceeds)
  apply_sell-closes id pos qty proceeds now reason p found some_left all =
      let sold = min qty pos.quantity in
      let cp = pos.cost_basis_usdc * n.quotient sold pos.quantity in
      let q = sold_position pos sold cp proceeds now reason in
      let none_left = nothing_left pos.quantity qty all in
      rw (apply_sell-eq-settle id pos qty proceeds now reason p found some_left) (
        unfold settle in
        (
          q,
          rw get-put (rw eq_refl),
          (sold_position-closes pos sold cp proceeds now reason none_left).0,
          (sold_position-closes pos sold cp proceeds now reason none_left).1,
          ground (arith, closed-roll now p),
          ground (arith, cash_usdc-roll now p),
        ))
