-- ===== src/Portfolio/LiveCash.antt =====
-- backend/app/portfolio/live_cash.py: the cash that the agent may still deploy in LIVE mode.
use meme_agent.Base.{true, ◌≡◌, Option, none, some, if◌then◌else◌, arith}
use meme_agent.Float.{FloatOps, IsOrdered, ◌-◌, ◌≼◌, num, gt, max, min, round, truthy}
use meme_agent.Float.Order.{le-max_left, min-le_left, min-le_right, le-min}

module _ {F : Type 0} ⦃n : FloatOps F⦄ where
  -- `x or 0.0`
  abbrev pub or_nought : F → F
  or_nought x = if truthy x then x else num 0

  -- The cap that an allocation above 0 sets on top of the balance.
  abbrev pub allocated : F → Option F → F → F
  allocated most none exposure = most
  allocated most (some capital) exposure =
      if gt capital (num 0)
      then min most (max (num 0) (capital - max (num 0) (or_nought exposure)))
      else most

  unfoldable pub spendable_usdc : F → Option F → F → F
  spendable_usdc balance capital exposure =
      round (allocated (max (num 0) (or_nought balance)) capital exposure) 6

  -- What is left of the allocation; without one above 0, the balance is the only bound.
  abbrev pub WithinCapital : F → Option F → F → Type 0
  WithinCapital spendable none exposure = Unit
  WithinCapital spendable (some capital) exposure =
      gt capital (num 0) ≡ true
      → spendable ≼ round (max (num 0) (capital - max (num 0) (or_nought exposure))) 6

  module _ (order : IsOrdered F) where
    open order use {round_mono, round_zero, le_trans}

    allocated_bounds :
        (most : F) (capital : Option F) (exposure : F)
        → num 0 ≼ most
        → (num 0 ≼ allocated most capital exposure) × (allocated most capital exposure ≼ most)
    allocated_bounds most none exposure h = (h, order.le_refl most)
    allocated_bounds most (some capital) exposure h =
        let room = max (num 0) (capital - max (num 0) (or_nought exposure)) in
        ground (
          arith,
          order.le_refl most,
          min-le_left order most room,
          le-min order (num 0) most room h,
          le-max_left order (num 0) (capital - max (num 0) (or_nought exposure)),
        )

    within :
        (most : F) (capital : Option F) (exposure : F)
        → WithinCapital (round (allocated most capital exposure) 6) capital exposure
    within most none exposure = tt
    within most (some capital) exposure = λ positive.
        let room = max (num 0) (capital - max (num 0) (or_nought exposure)) in
        rw positive (round_mono _ _ (min-le_right order most room))

    -- The spendable cash is never negative, at most the wallet's balance, and at most what the open
    -- exposure leaves of an allocation above 0 (each rounded to six decimals).
    pub spendable_usdc_bounds :
        (balance : F) (capital : Option F) (exposure : F)
        → let spendable = spendable_usdc balance capital exposure in
          (num 0 ≼ spendable)
          × (spendable ≼ round (max (num 0) (or_nought balance)) 6)
          × WithinCapital spendable capital exposure
    unfolding spendable_usdc
    spendable_usdc_bounds balance capital exposure =
        let most = max (num 0) (or_nought balance) in
        let (low, high) =
          allocated_bounds most capital exposure (le-max_left order (num 0) (or_nought balance)) in
        (
          le_trans _ _ _ round_zero (round_mono _ _ low),
          round_mono _ _ high,
          within most capital exposure,
        )
