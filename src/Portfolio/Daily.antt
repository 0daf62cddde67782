-- ===== src/Portfolio/Daily.antt =====
-- The daily result that the loss limit reads.
use meme_agent.Base.{ℕ, ◌≡◌, List, [], ◌∷◌, All, map, arith}
use meme_agent.Float.{FloatOps, IsOrdered, ◌≼◌, num, min}
use meme_agent.Float.Order.{min-le_right, sum_from-le}
use meme_agent.Portfolio.Position.{Position, unrealized_pnl}
use meme_agent.Portfolio.State.{PortfolioState, open_positions, roll, daily_pnl}

module _ {F : Type 0} ⦃n : FloatOps F⦄ where
  roll-roll : (now : ℕ) (p : PortfolioState F) → roll now (roll now p) ≡ roll now p
  unfolding roll
  roll-roll now p = ground arith

  module _ (order : IsOrdered F) where
    open order use {le_trans, add_mono, le_refl, add_zero-le}

    losses_nonpos :
        (qs : List (Position F))
        → All (λ x. x ≼ num 0) (map (λ q. min (unrealized_pnl q) (num 0)) qs)
    losses_nonpos [] = tt
    losses_nonpos (q ∷ qs) = (min-le_right order (unrealized_pnl q) (num 0), losses_nonpos qs)

    -- Open gains cannot mask a loss: the daily result is at most what was realized on that day. A
    -- second reading at the same time gives the same result and changes nothing more.
    pub daily_pnl_bound :
        (now : ℕ) (p : PortfolioState F)
        → ((daily_pnl now p).1 ≼ (roll now p).realized_today)
          × (daily_pnl now (daily_pnl now p).0 ≡ daily_pnl now p)
    unfolding daily_pnl
    daily_pnl_bound now p =
        let p' = roll now p in
        let rest = sum_from-le order (num 0) _ (losses_nonpos (open_positions p')) in
        (
          le_trans _ _ _ (add_mono _ _ _ (num 0) (le_refl p'.realized_today) rest) (add_zero-le _),
          rw roll-roll,
        )
