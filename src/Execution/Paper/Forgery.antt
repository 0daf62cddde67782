-- ===== src/Execution/Paper/Forgery.antt =====
-- Trades that the paper engine refuses to look at.
use meme_agent.Base.{true, not, ◌≡◌, ◌||◌, arith}
use meme_agent.Core.Errors.{Result, raised, approval_error}
use meme_agent.Core.Types.{Side, buy as buy_side, sell as sell_side, is_live}
use meme_agent.Float.{FloatOps}
use meme_agent.Domain.Market.{MarketState}
use meme_agent.Domain.Trade.{ApprovedTrade}
use meme_agent.Risk.Approval.{verify}
use meme_agent.Execution.Paper.{PaperConfig, PaperState, Draws, check}
use meme_agent.Execution.Paper.Buying.{buy}
use meme_agent.Execution.Paper.Selling.{sell}

module _ {F : Type 0} ⦃n : FloatOps F⦄ where
  check-refuses :
      (cfg : PaperConfig F) (t : ApprovedTrade F) (side : Side)
      → (not (verify cfg.signer cfg.key t) || is_live t.request.mode) ≡ true
      → check cfg t side ≡ raised approval_error
  unfolding check
  check-refuses cfg t side h = ground arith

  -- A trade whose signature does not verify, or that was approved for live trading, is refused on both
  -- sides with an approval error, and nothing changes.
  buy-sell-refused :
      (cfg : PaperConfig F) (t : ApprovedTrade F) (d : Draws) (fetched : Result (MarketState F))
      (s : PaperState F)
      → (not (verify cfg.signer cfg.key t) || is_live t.request.mode) ≡ true
      → (buy cfg t d fetched s ≡ (s, raised approval_error))
        × (sell cfg t d fetched s ≡ (s, raised approval_error))
  unfolding buy sell
  buy-sell-refused cfg t d fetched s h =
      (rw (check-refuses cfg t buy_side h), rw (check-refuses cfg t sell_side h))
