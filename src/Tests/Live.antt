-- ===== src/Tests/Live.antt =====
-- The theorems on live execution, at one world.
use meme_agent.Base.{true, false, ◌≡◌, refl, none, some, [], ◌∷◌, get, lower}
use meme_agent.Core.Errors.{ok, raised, data_unavailable}
use meme_agent.Core.Types.{live, buy, approve, autonomous_delegated}
use meme_agent.Float.{num, dec}
use meme_agent.Float.Int.{◌+ℤ◌, ◌-ℤ◌, scaled_times, scaled_quotient}
use meme_agent.Float.Fixed.{Fixed, fixed_ops, Fixed-IsOrdered}
use meme_agent.Domain.Trade.{TradeRequest, ApprovedTrade, Quote}
use meme_agent.Risk.Approval.{sig, verify}
use meme_agent.Portfolio.State.{token_exposure, roll}
use meme_agent.Portfolio.Mutations.{apply_buy}
use meme_agent.Venues.Cost.{cost_breakdown}
use meme_agent.Wallets.Policy.{is_active, violations}
use meme_agent.Wallets.Submission.{submit}
use meme_agent.Execution.Idempotency.{is_claimed, claim}
use meme_agent.Execution.Live.{LiveConfig, Attempt, World, LiveState}
use meme_agent.Execution.Live.Preflight.{preflight}
use meme_agent.Execution.Live.Executing.{claim_key, execute}
use meme_agent.Execution.Live.Sending.{SendsOnce, execute-SendsOnce}
use meme_agent.Execution.Live.Booking.{Books, execute-Books}
use meme_agent.Execution.Live.Resending.{Prepares, execute-resends}
use meme_agent.Tests.Data.{noon, empty_portfolio, authorization, transaction, signer, buy_request}

abbrev live_config : LiveConfig Fixed
live_config = record {
  signer = signer;
  key = "secret of sixteen";
  live_trading_enabled = true;
  max_quote_age_s = num 15;
  max_quote_deviation_pct = num 3;
  fee_aware_deviation = true;
  tx_deadline_s = 120;
}

abbrev live_request : TradeRequest Fixed
live_request = record buy_request { mode = live }

abbrev live_trade : ApprovedTrade Fixed
live_trade = record {
  request = live_request;
  assessment_id = "a1";
  decision = approve;
  signature = sig signer live_config.key live_request "a1";
}

abbrev live_quote : Quote Fixed
live_quote = record {
  side = buy;
  token_address = "0xAb";
  amount_in = num 3;
  expected_out = dec 148 2;
  price = dec 202 2;
  price_impact_pct = dec 2 1;
  fee_usdc = num 0;
  router_address = "0xR1";
  pool_liquidity_usdc = none;
  venue = "uniswap";
  fee_pct = some (dec 3 1);
  diagnostics = record { sell_tax_pct = none; route = none };
  quoted_at = noon;
  expires_at = 864_010_000_000;
  source = "test";
}

abbrev attempt : Attempt Fixed
attempt = record {
  healthy = ok true;
  authorization = ok (some authorization);
  authorized_at = noon;
  usdc_balance = ok (num 10);
  quote = λ _. ok live_quote;
  now = noon;
  deadline_from = noon;
  build_swap_tx = λ _ _ _. ok transaction;
}

abbrev world : World Fixed
world = record {
  chain_id = 5042;
  live_trading_verified = true;
  router_allowlist = "0xr1" ∷ [];
  wallet = record {
    capabilities = autonomous_delegated ∷ [];
    get_authorization = ok (some authorization);
    sign_and_send = λ _ _. ok record {
      status = "SUBMITTED";
      tx_hash = some "0xh";
      signing_request_id = none;
      provider_tx_id = none;
    };
  };
  first = attempt;
  second = attempt;
  approved_at = noon;
  submitted_at = noon;
  resolve_tx_hash = λ _. ok none;
  simulate = λ _. ok true;
  wait_for_receipt = λ h. ok (some (record { tx_hash = h; status = 1 }));
  parse_fill =
      λ _ _. ok (record { filled_quantity = dec 148 2; avg_price = num 2; fee_usdc = num 0 });
  order_id = "o1";
  position_id = "p1";
  finished_at = noon;
  at = noon;
}

-- The simulation of a swap breaks off.
abbrev broken : World Fixed
broken = record world { simulate = λ _. raised data_unavailable }

-- An earlier order with the same key has an unknown outcome.
abbrev pending : LiveState Fixed
pending = record {
  portfolio = empty_portfolio;
  claims = ("live:k1", none) ∷ [];
  approvals = [];
  swaps = transaction ∷ [];
}

abbrev fresh : LiveState Fixed
fresh = record pending { claims = []; swaps = [] }

cleared : preflight live_config empty_portfolio world attempt live_trade ≡ ok live_quote
unfolding preflight verify sig is_active cost_breakdown lower ◌+ℤ◌ ◌-ℤ◌ scaled_times scaled_quotient
    token_exposure
cleared = refl

execute-SendsOnce_example :
    SendsOnce live_config world live_trade fresh (execute live_config world live_trade fresh).0
execute-SendsOnce_example = execute-SendsOnce Fixed-IsOrdered live_config world live_trade fresh

execute-Books_example :
    Books world live_request empty_portfolio (execute live_config world live_trade fresh)
execute-Books_example = execute-Books live_config world live_trade fresh

broken_cleared : preflight live_config empty_portfolio broken attempt live_trade ≡ ok live_quote
unfolding preflight verify sig is_active cost_breakdown lower ◌+ℤ◌ ◌-ℤ◌ scaled_times scaled_quotient
    token_exposure
broken_cleared = refl

abbrev broken_prepares : Prepares live_config live_trade broken empty_portfolio transaction
broken_prepares = record { quoted = live_quote; cleared = broken_cleared; made = refl }

abbrev prepares : Prepares live_config live_trade world empty_portfolio transaction
prepares = record { quoted = live_quote; cleared = cleared; made = refl }

-- The swap of the pending order is sent again.
execute-resends_example :
    let after = (execute live_config broken live_trade pending).0 in
    (is_claimed (claim_key "k1") after.claims ≡ false)
    × ((execute live_config world live_trade after).0.swaps ≡ transaction ∷ transaction ∷ [])
execute-resends_example =
    execute-resends live_config live_trade broken world pending transaction transaction
      data_unavailable broken_prepares refl refl prepares refl

-- One swap goes out and its fill is booked.
one_swap : (execute live_config world live_trade fresh).0.swaps ≡ transaction ∷ []
unfolding execute preflight verify sig is_active cost_breakdown lower ◌+ℤ◌ ◌-ℤ◌ scaled_times
    scaled_quotient get token_exposure claim submit violations apply_buy roll
one_swap = refl
