-- ===== src/Execution/Live/Executing.antt =====
-- `_execute`, `_failed` and `_finish` of backend/app/execution/live.py; `buy` and `sell` are both
-- `_execute`. A build is tried again once after a token approval.
use Prim.Native.String
use Prim.Native.Nat.{◌+◌ as plus, ◌*◌ as times}
use meme_agent.Base.{
  ℕ, String, Bool, true, false, ◌==◌, Option, none, some, [], ◌∷◌, ◌++◌, nat_eq, text_or_empty,
  if◌then◌else◌,
}
use meme_agent.Core.Errors.{
  Error, Result, ok, raised, integration_not_verified, policy_violation, approval_error,
  live_safety,
}
use meme_agent.Core.Types.{filled, failed, rejected, pending_signature, submitted, timeout, is_sell}
use meme_agent.Float.{FloatOps, ◌+◌, ◌-◌, ◌*◌}
use meme_agent.Domain.Trade.{
  TradeRequest, ApprovedTrade, Quote, UnsignedTransaction, ExecutionResult,
}
use meme_agent.Portfolio.Position.{Position}
use meme_agent.Portfolio.State.{PortfolioState}
use meme_agent.Portfolio.Mutations.{Buy, apply_buy, apply_sell}
use meme_agent.Wallets.Submission.{submit}
use meme_agent.Execution.Idempotency.{Claims, claim, release}
use meme_agent.Execution.Live.{
  LiveConfig, SubmissionResult, TxReceipt, FillDetails, Attempt, World, LiveState, Outcome, res,
  res_error, find_hash,
}
use meme_agent.Execution.Live.Preflight.{preflight}
use meme_agent.Execution.Live.Approving.{asks_approval, spender_of, spenders_of, approve_each}

-- Where an error came up; a duplicate order returns at `claiming` without one.
pub data Step : Type 0 where
  building approving simulating submitting : Step

-- The swap to send with the quote it was built on, or what was raised.
pub data Built (F : Type 0) : Type 0 where
  unbuilt : Step → Error → Built F
  built : UnsignedTransaction F → Quote F → Built F

-- What the `try` block comes to.
pub data Tried (F : Type 0) : Type 0 where
  threw : Step → Error → Tried F
  returned : String → Tried F
  accepted : Quote F → SubmissionResult → Tried F

abbrev pub claim_key : String → String
claim_key key = String.◌++◌ "live:" key

abbrev pub is_submitting : Step → Bool
is_submitting submitting = true
is_submitting _ = false

-- `except (PolicyViolationError, IntegrationNotVerified)`
abbrev pub is_refusal : Error → Bool
is_refusal (policy_violation codes) = true
is_refusal (integration_not_verified what) = true
is_refusal _ = false

-- The name of the exception, which begins the error's text.
abbrev pub error_text : Error → String
error_text (policy_violation codes) = "PolicyViolationError"
error_text (integration_not_verified what) = "IntegrationNotVerified"
error_text approval_error = "ApprovalError"
error_text (live_safety codes) = "LiveSafetyError"
error_text _ = "EXECUTION_ERROR"

-- The second failure to build reports what is still missing, under the same class.
abbrev pub rebuilt_error : Error → Error
rebuilt_error (integration_not_verified msg) =
    integration_not_verified (if asks_approval msg then "Uniswap proxy allowance" else msg)
rebuilt_error e = e

module _ {F : Type 0} ⦃n : FloatOps F⦄ where
  abbrev pub deadline : LiveConfig F → Attempt F → ℕ
  deadline cfg a = plus a.deadline_from (times cfg.tx_deadline_s 1_000_000)

  abbrev pub rebuilt : Quote F → Result (UnsignedTransaction F) → Built F
  rebuilt q (raised e) = unbuilt building (rebuilt_error e)
  rebuilt q (ok tx) = built tx q

  abbrev pub built_by_second : LiveConfig F → World F → TradeRequest F → Result (Quote F) → Built F
  built_by_second cfg w req (raised e) = unbuilt approving e
  built_by_second cfg w req (ok q) =
      rebuilt q (w.second.build_swap_tx q req (deadline cfg w.second))

  -- Approve, quote again and build again.
  abbrev pub retry :
      LiveConfig F
      → World F
      → ApprovedTrade F
      → LiveState F × Result (Unit {0})
      → LiveState F × Built F
  retry cfg w t (s, raised e) = (s, unbuilt approving e)
  retry cfg w t (s, ok done) =
      (s, built_by_second cfg w t.request (preflight cfg s.portfolio w w.second t))

  abbrev pub after_failure :
      LiveConfig F → World F → ApprovedTrade F → LiveState F → Error → LiveState F × Built F
  after_failure cfg w t s (integration_not_verified msg) =
      if asks_approval msg
      then retry cfg w t (approve_each w t.request (spenders_of (spender_of msg)) s)
      else (s, unbuilt building (integration_not_verified msg))
  after_failure cfg w t s e = (s, unbuilt building e)

  abbrev pub built_by_first :
      LiveConfig F
      → World F
      → ApprovedTrade F
      → Quote F
      → LiveState F
      → Result (UnsignedTransaction F)
      → LiveState F × Built F
  built_by_first cfg w t q s (raised e) = after_failure cfg w t s e
  built_by_first cfg w t q s (ok tx) = (s, built tx q)

  unfoldable pub build :
      LiveConfig F → World F → ApprovedTrade F → Quote F → LiveState F → LiveState F × Built F
  build cfg w t q s =
      built_by_first cfg w t q s (w.first.build_swap_tx q t.request (deadline cfg w.first))

  abbrev pub sent : Quote F → Result SubmissionResult → Tried F
  sent q (raised e) = threw submitting e
  sent q (ok sub) = accepted q sub

  abbrev pub send : World F → UnsignedTransaction F → Quote F → LiveState F → LiveState F × Tried F
  send w tx q s = (
    record s { swaps = s.swaps ++ tx ∷ [] },
    sent q (submit w.wallet tx w.submitted_at (some w.chain_id)),
  )

  abbrev pub send_if_claimed :
      World F
      → UnsignedTransaction F
      → Quote F
      → LiveState F
      → Claims (ExecutionResult F) × Bool
      → LiveState F × Tried F
  send_if_claimed w tx q s (claims, true) = send w tx q (record s { claims = claims })
  send_if_claimed w tx q s (claims, false) = (s, returned "DUPLICATE_ORDER")

  abbrev pub send_if_simulated :
      World F
      → TradeRequest F
      → UnsignedTransaction F
      → Quote F
      → LiveState F
      → Result Bool
      → LiveState F × Tried F
  send_if_simulated w req tx q s (raised e) = (s, threw simulating e)
  send_if_simulated w req tx q s (ok false) = (s, returned "SIMULATION_FAILED")
  send_if_simulated w req tx q s (ok true) =
      send_if_claimed w tx q s (claim (claim_key req.idempotency_key) s.claims)

  unfoldable pub simulate_and_send :
      World F → TradeRequest F → LiveState F × Built F → LiveState F × Tried F
  simulate_and_send w req (s, unbuilt step e) = (s, threw step e)
  simulate_and_send w req (s, built tx q) = send_if_simulated w req tx q s (w.simulate tx)

  abbrev pub released : TradeRequest F → LiveState F → LiveState F
  released req s = record s { claims = release (claim_key req.idempotency_key) s.claims }

  -- The handlers of the `try` block.
  abbrev pub handle : World F → TradeRequest F → LiveState F → Step → Error → Outcome F
  handle w req s step e =
      if is_refusal e
      then (s, ok (res_error w req rejected (error_text e)))
      else if is_submitting step
      then (s, ok (res_error w req timeout (error_text e)))
      else (released req s, ok (res_error w req rejected (error_text e)))

  abbrev pub filled_result :
      World F
      → TradeRequest F
      → String
      → FillDetails F
      → Quote F
      → Option String
      → ExecutionResult F
  filled_result w req h fill q position = record (res w req filled) {
    tx_hash = some h;
    filled_quantity = fill.filled_quantity;
    avg_price = some fill.avg_price;
    fee_usdc = fill.fee_usdc;
    position_id = position;
    notional_usdc = fill.filled_quantity * fill.avg_price;
    price_impact_pct = some q.price_impact_pct;
  }

  abbrev pub buy_of : TradeRequest F → FillDetails F → Buy F
  buy_of req fill = record {
    chain = req.chain;
    launchpad = req.launchpad;
    token = req.token_address;
    qty = fill.filled_quantity;
    price = fill.avg_price;
    cost_usdc = fill.filled_quantity * fill.avg_price + fill.fee_usdc;
    strategy_id = req.strategy_id;
    strategy_version = req.strategy_version;
    decision_id = req.decision_id;
  }

  -- A booking that raises leaves its portfolio, and the call raises.
  abbrev pub booked :
      {A : Type 0} → LiveState F → PortfolioState F × Result A → (A → ExecutionResult F) → Outcome F
  booked s (p, raised e) f = (record s { portfolio = p }, raised e)
  booked s (p, ok a) f = (record s { portfolio = p }, ok (f a))

  unfoldable pub finish :
      World F → TradeRequest F → String → FillDetails F → Quote F → LiveState F → Outcome F
  finish w req h fill q s =
      if is_sell req.side
      then booked s
          (apply_sell (text_or_empty req.position_id) fill.filled_quantity
            (fill.filled_quantity * fill.avg_price - fill.fee_usdc) w.finished_at none s.portfolio)
          (λ pnl. filled_result w req h fill q req.position_id)
      else booked s (apply_buy w.position_id (buy_of req fill) w.finished_at s.portfolio)
          (λ (pos : Position F). filled_result w req h fill q (some pos.id))

  abbrev pub on_fill :
      World F → TradeRequest F → String → Quote F → LiveState F → Result (FillDetails F) → Outcome F
  on_fill w req h q s (raised e) = (s, raised e)
  on_fill w req h q s (ok fill) = finish w req h fill q s

  abbrev pub on_receipt :
      World F
      → TradeRequest F
      → String
      → Quote F
      → LiveState F
      → Result (Option TxReceipt)
      → Outcome F
  on_receipt w req h q s (raised e) = (s, raised e)
  on_receipt w req h q s (ok none) =
      (s, ok (record (res_error w req timeout "CONFIRMATION_TIMEOUT") { tx_hash = some h }))
  on_receipt w req h q s (ok (some receipt)) =
      if nat_eq receipt.status 1
      then on_fill w req h q s (w.parse_fill receipt q)
      else (released req s, ok (record (res_error w req failed "TX_REVERTED") { tx_hash = some h }))

  abbrev pub on_hash :
      World F
      → TradeRequest F
      → SubmissionResult
      → Quote F
      → LiveState F
      → Result (Option String)
      → Outcome F
  on_hash w req sub q s (raised e) = (s, raised e)
  on_hash w req sub q s (ok none) = (
    s,
    ok (record (res_error w req submitted "TX_HASH_PENDING_RECONCILE") {
      provider_tx_id = sub.provider_tx_id;
    }),
  )
  on_hash w req sub q s (ok (some h)) = on_receipt w req h q s (w.wait_for_receipt h)

  -- After the wallet accepted the swap.
  unfoldable pub settle :
      World F → TradeRequest F → SubmissionResult → Quote F → LiveState F → Outcome F
  unfolding finish find_hash
  settle w req sub q s =
      if sub.status == "PENDING_SIGNATURE"
      then (
        s,
        ok (record (res w req pending_signature) {
          signing_request_id = sub.signing_request_id;
          requested_amount_usdc = req.amount_usdc;
        }),
      )
      else on_hash w req sub q s (find_hash w sub)

  abbrev pub conclude : World F → TradeRequest F → LiveState F × Tried F → Outcome F
  conclude w req (s, threw step e) = handle w req s step e
  conclude w req (s, returned why) = (s, ok (res_error w req rejected why))
  conclude w req (s, accepted q sub) = settle w req sub q s

  abbrev pub executed :
      LiveConfig F → World F → ApprovedTrade F → LiveState F → Result (Quote F) → Outcome F
  executed cfg w t s (raised e) = (s, ok (res_error w t.request rejected (error_text e)))
  executed cfg w t s (ok q) =
      conclude w t.request (simulate_and_send w t.request (build cfg w t q s))

  unfoldable pub execute : LiveConfig F → World F → ApprovedTrade F → LiveState F → Outcome F
  unfolding build simulate_and_send settle
  execute cfg w t s = executed cfg w t s (preflight cfg s.portfolio w w.first t)
