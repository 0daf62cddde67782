-- ===== src/Venues/Fills/Settled.antt =====
-- When the fill of a swap is known, and what it is.
use Prim.Native.Nat.{◌^◌}
use meme_agent.Base.{
  ℕ, String, Bool, true, false, not, ◌&&◌, ◌≡◌, refl, ap, ◌∙◌, List, lower, arith, if◌then◌else◌,
}
use meme_agent.Core.Types.{Side, buy, sell}
use meme_agent.Core.Errors.{Result, ok, raised, integration_not_verified}
use meme_agent.Float.{FloatOps, IsOrdered, ◌*◌, gt, num, dec, over, sum}
use meme_agent.Domain.Trade.{Quote}
use meme_agent.Execution.Live.{FillDetails}
use meme_agent.Venues.Fills.{
  Transfer, nothing_moved, move_all, moved_amounts, quoted_amounts, is_unsettled, fill_of,
  parse_transfer_fill,
}
use meme_agent.Venues.Fills.Tally.{amounts, is_usdc, is_token, arrives, leaves, move_all-IsTally}

module _ {F : Type 0} ⦃n : FloatOps F⦄ where
  -- The fill of a quantity for an amount of USDC. The fee is the quote's, if that is above 0, and else
  -- 0.3 percent.
  pub record Fills (q : Quote F) (qty usdc_amt : F) (fill : FillDetails F) : Type 0 where
    pub quantity : fill.filled_quantity ≡ qty
    pub price : fill.avg_price ≡ over usdc_amt qty
    pub quoted_fee : gt q.fee_usdc (num 0) ≡ true → fill.fee_usdc ≡ q.fee_usdc
    pub usual_fee : gt q.fee_usdc (num 0) ≡ false → fill.fee_usdc ≡ usdc_amt * dec 3 3

  abbrev pub IsFilled : Quote F → F × F → Result (FillDetails F) → Type 0
  IsFilled q (qty, usdc_amt) result =
      (fill : FillDetails F) × ((result ≡ ok fill) × Fills q qty usdc_amt fill)

  -- Token quantity and USDC amount of what the wallet moved: a purchase brings tokens in and takes USDC
  -- out, a sale the other way round.
  abbrev pub traded : Side → String → String → ℕ → List Transfer → F × F
  traded buy wallet token decimals logs = (
    sum (amounts (is_token token) (arrives wallet) (10 ^ decimals) logs),
    sum (amounts is_usdc (leaves wallet) (10 ^ 6) logs),
  )
  traded sell wallet token decimals logs = (
    sum (amounts (is_token token) (leaves wallet) (10 ^ decimals) logs),
    sum (amounts is_usdc (arrives wallet) (10 ^ 6) logs),
  )

  -- The same of a quote, which takes in what is sold and promises what is bought.
  abbrev pub promised : Quote F → Side → F × F
  promised q buy = (q.expected_out, q.amount_in)
  promised q sell = (q.amount_in, q.expected_out)

  abbrev pub above_zero : F × F → Bool
  above_zero (qty, usdc_amt) = gt qty (num 0) && gt usdc_amt (num 0)

  moved-traded :
      (side : Side) (wallet token : String) (decimals : ℕ) (logs : List Transfer)
      → moved_amounts side (move_all wallet token decimals logs nothing_moved)
        ≡ traded side wallet token decimals logs
  moved-traded buy wallet token decimals logs =
      let t = move_all-IsTally {F = F} wallet token decimals logs nothing_moved in
      rw (t.tok_in, t.usdc_out) refl
  moved-traded sell wallet token decimals logs =
      let t = move_all-IsTally {F = F} wallet token decimals logs nothing_moved in
      rw (t.tok_out, t.usdc_in) refl

  quoted-promised : (q : Quote F) (side : Side) → quoted_amounts side q ≡ promised q side
  quoted-promised q buy = refl
  quoted-promised q sell = refl

  choice_true : (b : Bool) (x y : F × F) → b ≡ true → (if b then x else y) ≡ x
  choice_true b x y h = rw h refl

  choice_false : (b : Bool) (x y : F × F) → b ≡ false → (if b then x else y) ≡ y
  choice_false b x y h = rw h refl

  module _ (order : IsOrdered F) where
    unsettled-eq : (a : F × F) → is_unsettled a ≡ not (above_zero a)
    unsettled-eq (qty, usdc_amt) =
        ground (arith, order.lt-eq-not-le (num 0) qty, order.lt-eq-not-le (num 0) usdc_amt)

    settled : (a b : F × F) → a ≡ b → above_zero b ≡ true → is_unsettled a ≡ false
    settled a b e h = rw e (unsettled-eq b ∙ ap not h)

    unsettled : (a b : F × F) → a ≡ b → above_zero b ≡ false → is_unsettled a ≡ true
    unsettled a b e h = rw e (unsettled-eq b ∙ ap not h)

    -- The fill that the chosen amounts give.
    module _ (q : Quote F) (chosen : F × F) where
      fill_of-refused :
          (a : F × F)
          → chosen ≡ a
          → above_zero a ≡ false
          → fill_of q chosen ≡ raised (integration_not_verified "fill parsing")
      fill_of-refused a e h = rw e (rw (unsettled a a refl h) refl)

      fill_of-IsFilled :
          (a : F × F) → chosen ≡ a → above_zero a ≡ true → IsFilled q a (fill_of q chosen)
      fill_of-IsFilled (qty, usdc_amt) e h =
          let above : gt qty (num 0) ≡ true = ground arith in
          rw e (
            rw (settled _ (qty, usdc_amt) refl h) (
              rw (order.pos_nonzero qty above) (
                _,
                (
                  refl,
                  record {
                    quantity = refl;
                    price = refl;
                    quoted_fee = λ k. rw k refl;
                    usual_fee = λ k. rw k refl;
                  },
                ),
              )))

    -- The fill is that of the token and USDC transfers from and to the wallet that can be read, where
    -- both sums are above 0, and else that of the quote; it is refused exactly where one of the quote's
    -- amounts is not above 0 either. Its price is the USDC amount by the quantity, and its fee that of
    -- the quote, if it is above 0, and else 0.3 percent of the USDC amount.
    pub parse_transfer_fill-IsFilled :
        (wallet : String) (logs : List Transfer) (q : Quote F) (token_decimals : ℕ)
        → let moved = traded q.side wallet (lower q.token_address) token_decimals logs in
          let result = parse_transfer_fill wallet logs q token_decimals in
          (above_zero moved ≡ true → IsFilled q moved result)
          × (above_zero moved ≡ false
              → above_zero (promised q q.side) ≡ true
              → IsFilled q (promised q q.side) result)
          × (above_zero moved ≡ false
              → above_zero (promised q q.side) ≡ false
              → result ≡ raised (integration_not_verified "fill parsing"))
    unfolding parse_transfer_fill
    parse_transfer_fill-IsFilled wallet logs q token_decimals =
        let token = lower q.token_address in
        let quoted = quoted_amounts q.side q in
        let moved =
          moved_amounts q.side (move_all wallet token token_decimals logs nothing_moved) in
        let e = moved-traded q.side wallet token token_decimals logs in
        let k = quoted-promised q q.side in
        (
          λ h. fill_of-IsFilled q _ _ (choice_false _ quoted moved (settled moved _ e h) ∙ e) h,
          λ h i. fill_of-IsFilled q _ _ (choice_true _ quoted moved (unsettled moved _ e h) ∙ k) i,
          λ h i. fill_of-refused q _ _ (choice_true _ quoted moved (unsettled moved _ e h) ∙ k) i,
        )
