-- ===== src/Execution/Live/Booking.antt =====
-- When the live engine changes the portfolio, and when it reports a fill.
use meme_agent.Base.{
  String, ◌==◌, Bool, true, false, ◌≡◌, ◌⊎◌, inl, inr, refl, Option, none, some, [], ◌∷◌, ◌++◌,
  nat_eq, Bool-cases, text_or_empty, subst, if◌then◌else◌,
}
use meme_agent.Core.Errors.{Error, Result, ok, raised}
use meme_agent.Core.Types.{is_sell, is_fill}
use meme_agent.Float.{FloatOps, ◌-◌, ◌*◌}
use meme_agent.Domain.Trade.{
  TradeRequest, ApprovedTrade, Quote, UnsignedTransaction, ExecutionResult,
}
use meme_agent.Portfolio.State.{PortfolioState}
use meme_agent.Portfolio.Mutations.{apply_buy, apply_sell}
use meme_agent.Wallets.Submission.{submit}
use meme_agent.Execution.Idempotency.{Claims}
use meme_agent.Execution.Live.{
  LiveConfig, SubmissionResult, TxReceipt, FillDetails, World, LiveState, Outcome, find_hash,
}
use meme_agent.Execution.Live.Preflight.{preflight}
use meme_agent.Execution.Live.Building.{build-Builds}
use meme_agent.Execution.Live.Executing.{
  Step, Built, unbuilt, built, Tried, threw, returned, accepted, is_refusal, is_submitting,
  simulating, build, sent, send_if_claimed, send_if_simulated, simulate_and_send, handle, buy_of,
  booked, finish, on_fill, on_receipt, on_hash, settle, conclude, executed, execute,
}

module _ {F : Type 0} ⦃n : FloatOps F⦄ where
  -- The portfolio after a confirmed fill is booked.
  unfoldable pub book :
      World F → TradeRequest F → FillDetails F → PortfolioState F → PortfolioState F
  book w req fill p =
      if is_sell req.side
      then (apply_sell (text_or_empty req.position_id) fill.filled_quantity
          (fill.filled_quantity * fill.avg_price - fill.fee_usdc) w.finished_at none p).0
      else (apply_buy w.position_id (buy_of req fill) w.finished_at p).0

  abbrev pub IsUnfilled : Result (ExecutionResult F) → Type 0
  IsUnfilled (raised e) = Unit
  IsUnfilled (ok r) = is_fill r.status ≡ false

  -- The chain confirmed the swap, and its fill was booked.
  pub record IsConfirmed (w : World F) (req : TradeRequest F) (p p' : PortfolioState F)
      : Type 0 where
    pub hash : String
    pub receipt : TxReceipt
    pub quoted : Quote F
    pub fill : FillDetails F
    pub seen : w.wait_for_receipt hash ≡ ok (some receipt)
    pub succeeded : nat_eq receipt.status 1 ≡ true
    pub parsed : w.parse_fill receipt quoted ≡ ok fill
    pub booked_as : p' ≡ book w req fill p

  abbrev pub Books : World F → TradeRequest F → PortfolioState F → Outcome F → Type 0
  Books w req p (s', r) = ((s'.portfolio ≡ p) × IsUnfilled r) ⊎ IsConfirmed w req p s'.portfolio

  booked-portfolio :
      {A : Type 0} (s : LiveState F) (b : PortfolioState F × Result A) (f : A → ExecutionResult F)
      → (booked s b f).0.portfolio ≡ b.0
  booked-portfolio s (p, raised e) f = refl
  booked-portfolio s (p, ok a) f = refl

  finish-portfolio :
      (w : World F) (req : TradeRequest F) (h : String) (fill : FillDetails F) (q : Quote F)
      (s : LiveState F)
      → (finish w req h fill q s).0.portfolio ≡ book w req fill s.portfolio
  unfolding finish book
  finish-portfolio w req h fill q s = elim (Bool-cases (is_sell req.side)) [
    | inl e ↦ rw e (booked-portfolio s _ _)
    | inr e ↦ rw e (booked-portfolio s _ _)
  ]

  module _ (w : World F) (req : TradeRequest F) (s : LiveState F) where
    on_fill-Books :
        (h : String) (receipt : TxReceipt) (q : Quote F) (r : Result (FillDetails F))
        → w.wait_for_receipt h ≡ ok (some receipt)
        → nat_eq receipt.status 1 ≡ true
        → w.parse_fill receipt q ≡ r
        → Books w req s.portfolio (on_fill w req h q s r)
    on_fill-Books h receipt q (raised e) seen good parsed = inl (refl, tt)
    on_fill-Books h receipt q (ok fill) seen good parsed = inr record {
      hash = h;
      receipt = receipt;
      quoted = q;
      fill = fill;
      seen = seen;
      succeeded = good;
      parsed = parsed;
      booked_as = finish-portfolio w req h fill q s;
    }

    on_receipt-Books :
        (h : String) (q : Quote F) (r : Result (Option TxReceipt))
        → w.wait_for_receipt h ≡ r
        → Books w req s.portfolio (on_receipt w req h q s r)
    on_receipt-Books h q (raised e) k = inl (refl, tt)
    on_receipt-Books h q (ok none) k = inl (refl, refl)
    on_receipt-Books h q (ok (some receipt)) k = elim (Bool-cases (nat_eq receipt.status 1)) [
      | inl e ↦ rw e (on_fill-Books h receipt q _ k e refl)
      | inr e ↦ rw e (inl (refl, refl))
    ]

    on_hash-Books :
        (sub : SubmissionResult) (q : Quote F) (r : Result (Option String))
        → Books w req s.portfolio (on_hash w req sub q s r)
    on_hash-Books sub q (raised e) = inl (refl, tt)
    on_hash-Books sub q (ok none) = inl (refl, refl)
    on_hash-Books sub q (ok (some h)) = on_receipt-Books h q _ refl

    settle-Books :
        (sub : SubmissionResult) (q : Quote F) → Books w req s.portfolio (settle w req sub q s)
    unfolding settle
    settle-Books sub q = elim (Bool-cases (sub.status == "PENDING_SIGNATURE")) [
      | inl e ↦ rw e (inl (refl, refl))
      | inr e ↦ rw e (on_hash-Books sub q (find_hash w sub))
    ]

    handle-Books : (step : Step) (e : Error) → Books w req s.portfolio (handle w req s step e)
    handle-Books step e = elim (Bool-cases (is_refusal e)) [
      | inl h ↦ rw h (inl (refl, refl))
      | inr h ↦ elim (Bool-cases (is_submitting step)) [
        | inl k ↦ rw (h, k) (inl (refl, refl))
        | inr k ↦ rw (h, k) (inl (refl, refl))
      ]
    ]

    conclude-Books : (r : Tried F) → Books w req s.portfolio (conclude w req (s, r))
    conclude-Books (threw step e) = handle-Books step e
    conclude-Books (returned why) = inl (refl, refl)
    conclude-Books (accepted q sub) = settle-Books sub q

  module _ (w : World F) (req : TradeRequest F) where
    send_if_claimed-Books :
        (tx : UnsignedTransaction F) (q : Quote F) (s : LiveState F)
        (c : Claims (ExecutionResult F) × Bool)
        → Books w req s.portfolio (conclude w req (send_if_claimed w tx q s c))
    send_if_claimed-Books tx q s (claims, false) =
        conclude-Books w req s (returned "DUPLICATE_ORDER")
    send_if_claimed-Books tx q s (claims, true) =
        conclude-Books w req (record s { claims = claims; swaps = s.swaps ++ tx ∷ [] })
          (sent q (submit w.wallet tx w.submitted_at (some w.chain_id)))

    send_if_simulated-Books :
        (tx : UnsignedTransaction F) (q : Quote F) (s : LiveState F) (r : Result Bool)
        → Books w req s.portfolio (conclude w req (send_if_simulated w req tx q s r))
    send_if_simulated-Books tx q s (raised e) = conclude-Books w req s (threw simulating e)
    send_if_simulated-Books tx q s (ok false) =
        conclude-Books w req s (returned "SIMULATION_FAILED")
    send_if_simulated-Books tx q s (ok true) = send_if_claimed-Books tx q s _

    simulate_and_send-Books :
        (b : LiveState F × Built F)
        → Books w req b.0.portfolio (conclude w req (simulate_and_send w req b))
    unfolding simulate_and_send
    simulate_and_send-Books (s, unbuilt step e) = conclude-Books w req s (threw step e)
    simulate_and_send-Books (s, built tx q) = send_if_simulated-Books tx q s (w.simulate tx)

  executed-Books :
      (cfg : LiveConfig F) (w : World F) (t : ApprovedTrade F) (s : LiveState F)
      (r : Result (Quote F))
      → Books w t.request s.portfolio (executed cfg w t s r)
  executed-Books cfg w t s (raised e) = inl (refl, refl)
  executed-Books cfg w t s (ok q) =
      let (kept, _) = build-Builds cfg w t q s in
      subst (λ p. Books w t.request p (executed cfg w t s (ok q))) kept.portfolio
        (simulate_and_send-Books w t.request (build cfg w t q s))

  -- A call of the live engine leaves the portfolio as it is and reports no fill, or the chain confirmed
  -- the transaction with a receipt of status 1, and the portfolio is the one in which the fill parsed
  -- from that receipt is booked.
  pub execute-Books :
      (cfg : LiveConfig F) (w : World F) (t : ApprovedTrade F) (s : LiveState F)
      → Books w t.request s.portfolio (execute cfg w t s)
  unfolding execute
  execute-Books cfg w t s = executed-Books cfg w t s (preflight cfg s.portfolio w w.first t)
