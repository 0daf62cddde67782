-- ===== src/Tests/PaperTrading.antt =====
-- The theorems on approvals and on paper trading, at concrete data.
use meme_agent.Base.{String, true, not, ◌≡◌, ◌||◌, refl, none, some, [], get, put, eq_iff, arith}
use meme_agent.Core.Errors.{ok, raised, data_unavailable}
use meme_agent.Core.Types.{approve, buy as buy_side, is_live, paper, filled}
use meme_agent.Float.{num, dec}
use meme_agent.Float.Int.{◌+ℤ◌, ◌-ℤ◌, scaled_times, scaled_quotient}
use meme_agent.Float.Fixed.{Fixed, fixed_ops, Fixed-IsOrdered}
use meme_agent.Domain.Trade.{ApprovedTrade, ExecutionResult}
use meme_agent.Portfolio.Mutations.{apply_buy}
use meme_agent.Portfolio.State.{roll}
use meme_agent.Risk.Model.{RiskAssessment}
use meme_agent.Risk.Approval.{sig, approve_trade, verify}
use meme_agent.Execution.Math.{estimate_price_impact_pct}
use meme_agent.Execution.Paper.{PaperState, check, market as market_of, once, record_result}
use meme_agent.Execution.Paper.Buying.{buy}
use meme_agent.Execution.Paper.Selling.{sell}
use meme_agent.Execution.Paper.Purchases.{Bought, buy-Bought, buy-once}
use meme_agent.Execution.Paper.Sales.{Sold, KeyedById, sell-Sold}
use meme_agent.Tests.Data.{
  noon, market, holding, signer, paper_config, draws, buy_request, sell_request, paper_state,
}

abbrev assessment : RiskAssessment Fixed
assessment = record {
  decision = approve;
  flags = [];
  risk_score = num 0;
  side = buy_side;
  token_address = "0xAb";
  amount_usdc = num 3;
  mode = paper;
}

abbrev approved_buy : ApprovedTrade Fixed
approved_buy = record {
  request = buy_request;
  assessment_id = "a1";
  decision = approve;
  signature = sig signer paper_config.key buy_request "a1";
}

approved : approve_trade signer paper_config.key buy_request "a1" assessment ≡ ok approved_buy
unfolding approve_trade
approved = refl

nothing_stored : (key : String) → get key paper_state.results ≡ none
unfolding get
nothing_stored key = refl

buy-Bought_example :
    Bought paper_state buy_request (buy paper_config approved_buy draws (ok market) paper_state)
buy-Bought_example =
    buy-Bought Fixed-IsOrdered paper_config approved_buy draws (ok market) paper_state
      (nothing_stored "k1")

abbrev approved_sale : ApprovedTrade Fixed
approved_sale = record {
  request = sell_request;
  assessment_id = "EXIT";
  decision = approve;
  signature = sig signer paper_config.key sell_request "EXIT";
}

holding-KeyedById : KeyedById holding
unfolding get
holding-KeyedById k q h = ground (arith, eq_iff "p1" k)

sell-Sold_example :
    Sold paper_state sell_request (sell paper_config approved_sale draws (ok market) paper_state)
sell-Sold_example =
    sell-Sold Fixed-IsOrdered paper_config approved_sale draws (ok market) paper_state
      holding-KeyedById (nothing_stored "k2")

abbrev forged : ApprovedTrade Fixed
forged = record approved_buy { signature = "made up" }

forged_fails : (not (verify signer paper_config.key forged) || is_live paper) ≡ true
unfolding verify sig
forged_fails = refl

abbrev first_result : ExecutionResult Fixed
first_result = record {
  order_id = "o1";
  idempotency_key = "k1";
  mode = paper;
  status = filled;
  simulated = true;
  side = buy_side;
  token_address = "0xAb";
  tx_hash = none;
  signing_request_id = none;
  provider_tx_id = none;
  requested_amount_usdc = some (num 3);
  filled_quantity = dec 1_493_826_936 9;
  avg_price = some (dec 2_002_239_970 9);
  notional_usdc = num 3;
  fee_usdc = dec 9 3;
  slippage_pct = some (dec 111_998_500 9);
  price_impact_pct = some (dec 11_998_500 9);
  position_id = some "p2";
  error = none;
  at = noon;
}

abbrev after_buy : PaperState Fixed
after_buy = (buy paper_config approved_buy draws (ok market) paper_state).0

first_buy :
    buy paper_config approved_buy draws (ok market) paper_state ≡ (after_buy, ok first_result)
unfolding buy sig verify check once market_of estimate_price_impact_pct record_result apply_buy roll
    scaled_times scaled_quotient ◌+ℤ◌ ◌-ℤ◌ get put
first_buy = refl

-- The market has no data when the order is repeated.
buy-once_example :
    buy paper_config approved_buy
      (record draws { order_id = "o2" })
      (raised data_unavailable)
      after_buy
    ≡ (after_buy, ok first_result)
buy-once_example =
    buy-once Fixed-IsOrdered paper_config approved_buy draws (record draws { order_id = "o2" })
      (ok market) (raised data_unavailable) paper_state after_buy first_result first_buy refl
