-- ===== src/Tests/Books.antt =====
-- The theorems on the portfolio, at concrete data.
use meme_agent.Base.{◌≡◌, refl, some, get}
use meme_agent.Core.Errors.{ok}
use meme_agent.Core.Types.{paper}
use meme_agent.Float.{◌≼◌, round, max, num}
use meme_agent.Float.Int.{◌+ℤ◌}
use meme_agent.Float.Fixed.{Fixed, fixed_ops, Fixed-IsOrdered}
use meme_agent.Portfolio.State.{PortfolioState, roll, daily_pnl}
use meme_agent.Portfolio.Mutations.{new_position, apply_buy, mark}
use meme_agent.Portfolio.Soundness.{AllSound, Reach-AllSound}
use meme_agent.Portfolio.Soundness
use meme_agent.Portfolio.Daily.{daily_pnl_bound}
use meme_agent.Portfolio.LiveCash.{or_nought, spendable_usdc, WithinCapital, spendable_usdc_bounds}
use meme_agent.Float.Int.{◌-ℤ◌}
use meme_agent.Tests.Data.{noon, fallen, holding, purchase}

holding-AllSound : AllSound holding
holding-AllSound =
    (record { last_le = refl; nonneg = refl; within = refl; closed_empty = λ e. cc }, tt)

-- A purchase and a mark.
grown : PortfolioState Fixed
grown = (mark "p1" (num 4) noon (apply_buy "p2" purchase noon holding).0).0

Reach-AllSound_example : AllSound grown
unfolding grown
Reach-AllSound_example =
    Reach-AllSound Fixed-IsOrdered
      (Soundness.Reach.next
        (Soundness.Reach.next Soundness.Reach.here
          (Soundness.Step.buys "p2" purchase noon holding refl))
        (Soundness.Step.marks "p1" (num 4) noon _))
      holding-AllSound

purchase_returns :
    (apply_buy "p2" purchase noon holding).1 ≡ ok (new_position paper "p2" purchase noon)
unfolding apply_buy roll ◌+ℤ◌
purchase_returns = refl

found : get "p1" holding.positions ≡ some fallen
unfolding get
found = refl

daily_pnl_bound_example :
    ((daily_pnl noon holding).1 ≼ (roll noon holding).realized_today)
    × (daily_pnl noon (daily_pnl noon holding).0 ≡ daily_pnl noon holding)
daily_pnl_bound_example = daily_pnl_bound Fixed-IsOrdered noon holding

spendable_usdc_bounds_example :
    let spendable = spendable_usdc {F = Fixed} (num 40) (some (num 10)) (num 4) in
    (num 0 ≼ spendable)
    × (spendable ≼ round (max (num 0) (or_nought (num 40))) 6)
    × WithinCapital spendable (some (num 10)) (num 4)
spendable_usdc_bounds_example =
    spendable_usdc_bounds Fixed-IsOrdered (num 40) (some (num 10)) (num 4)

-- Of an allocation of 10, an exposure of 4 leaves 6 to spend.
six_left : spendable_usdc {F = Fixed} (num 40) (some (num 10)) (num 4) ≡ num 6
unfolding spendable_usdc ◌-ℤ◌
six_left = refl
