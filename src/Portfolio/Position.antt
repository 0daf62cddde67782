-- ===== src/Portfolio/Position.antt =====
-- `Position` of backend/app/portfolio/state.py and its derived readings.
use meme_agent.Base.{ℕ, String, ◌==◌, Bool, Option, List}
use meme_agent.Core.Errors.{Result, ok, ◌>>=◌}
use meme_agent.Core.Types.{TradingMode, ExitReason}
use meme_agent.Float.{FloatOps, ◌-◌, ◌*◌, ◌÷◌, num, max}

pub record Position (F : Type 0) : Type 0 where
  pub id : String
  pub mode : TradingMode
  pub chain : String
  pub launchpad : Option String
  pub token_address : String
  pub opened_at : ℕ
  pub entry_price : F
  pub quantity : F
  pub initial_quantity : F
  pub cost_basis_usdc : F
  pub total_invested_usdc : F
  pub realized_pnl_usdc : F
  pub peak_price : F
  pub last_price : F
  pub last_new_high_at : ℕ
  pub tiers_hit : List ℕ
  pub status : String
  pub strategy_id : String
  pub strategy_version : ℕ
  pub decision_id : String
  pub closed_at : Option ℕ
  pub exit_reason : Option ExitReason

module _ {F : Type 0} where
  abbrev pub is_open : Position F → Bool
  is_open p = p.status == "OPEN"

module _ {F : Type 0} ⦃n : FloatOps F⦄ where
  unfoldable pub market_value : Position F → F
  market_value p = p.quantity * p.last_price

  unfoldable pub unrealized_pnl : Position F → F
  unfolding market_value
  unrealized_pnl p = market_value p - p.cost_basis_usdc

  unfoldable pub gain_pct : Position F → Result F
  gain_pct p = do r ← p.last_price ÷ p.entry_price; ok ((r - num 1) * num 100)

  unfoldable pub peak_gain_pct : Position F → Result F
  peak_gain_pct p = do r ← p.peak_price ÷ p.entry_price; ok ((r - num 1) * num 100)

  unfoldable pub drawdown_from_peak_pct : Position F → Result F
  drawdown_from_peak_pct p = do
    r ← (p.peak_price - p.last_price) ÷ p.peak_price
    ok (max (num 0) (r * num 100))
