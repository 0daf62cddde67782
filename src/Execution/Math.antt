-- ===== src/Execution/Math.antt =====
-- backend/app/execution/math.py
use meme_agent.Base.{if◌then◌else◌}
use meme_agent.Core.Errors.{Result, ok, ◌>>=◌}
use meme_agent.Float.{FloatOps, ◌+◌, ◌*◌, ◌÷◌, le, num, over}

module _ {F : Type 0} ⦃n : FloatOps F⦄ where
  unfoldable pub estimate_price_impact_pct : F → F → Result F
  estimate_price_impact_pct amount_usdc liquidity_usdc =
      let reserve = over liquidity_usdc (num 2) in
      if le liquidity_usdc (num 0)
      then ok (num 100)
      else do share ← amount_usdc ÷ (reserve + amount_usdc); ok (share * num 100)
