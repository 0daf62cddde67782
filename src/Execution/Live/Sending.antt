-- ===== src/Execution/Live/Sending.antt =====
-- When a swap is handed to the wallet, and what becomes of its claim.
use meme_agent.Base.{
  String, ◌==◌, Bool, true, false, ◌≡◌, ◌⊎◌, inl, inr, refl, sym, subst, ◌∙◌, ap, Option, none,
  some, [], ◌∷◌, ◌++◌, put, nat_eq, Bool-cases, arith,
}
use meme_agent.Core.Errors.{Error, Result, ok, raised}
use meme_agent.Core.Types.{is_sell}
use meme_agent.Float.{FloatOps, IsOrdered}
use meme_agent.Domain.Trade.{
  TradeRequest, ApprovedTrade, Quote, UnsignedTransaction, ExecutionResult,
}
use meme_agent.Portfolio.State.{PortfolioState}
use meme_agent.Wallets.Submission.{submit}
use meme_agent.Execution.Idempotency.{is_claimed, claim, claim_free, claim_taken, claimed-put}
use meme_agent.Execution.Live.{
  LiveConfig, SubmissionResult, TxReceipt, FillDetails, Attempt, World, LiveState, find_hash,
}
use meme_agent.Execution.Live.Preflight.{preflight}
use meme_agent.Execution.Live.Cleared.{IsCleared, preflight-IsCleared}
use meme_agent.Execution.Live.Building.{Keeps, Builds, build-Builds}
use meme_agent.Execution.Live.Executing.{
  Step, Built, unbuilt, built, simulating, claim_key, is_refusal, deadline, build, sent, send,
  send_if_claimed, send_if_simulated, simulate_and_send, handle, booked, finish, on_fill,
  on_receipt, on_hash, settle, conclude, executed, execute,
}

module _ {F : Type 0} ⦃n : FloatOps F⦄ where
  -- The swap was built on a quote that a pre-flight of this call cleared.
  abbrev pub IsFrom :
      LiveConfig F
      → World F
      → ApprovedTrade F
      → PortfolioState F
      → Attempt F
      → UnsignedTransaction F
      → Type 0
  IsFrom cfg w t portfolio a tx =
      (q : Quote F) × (IsCleared cfg portfolio w a t q
        × (a.build_swap_tx q t.request (deadline cfg a) ≡ ok tx))

  -- One swap more was handed to the wallet: cleared, simulated, and with a key that was free.
  pub record IsSent (cfg : LiveConfig F) (w : World F) (t : ApprovedTrade F) (s s' : LiveState F)
      (tx : UnsignedTransaction F) : Type 0 where
    pub swaps : s'.swaps ≡ s.swaps ++ tx ∷ []
    pub free : is_claimed (claim_key t.request.idempotency_key) s.claims ≡ false
    pub simulated : w.simulate tx ≡ ok true
    pub cleared : IsFrom cfg w t s.portfolio w.first tx ⊎ IsFrom cfg w t s.portfolio w.second tx

  -- A key stays claimed, unless the chain reports that a transaction reverted.
  abbrev pub Holds : World F → TradeRequest F → LiveState F → Type 0
  Holds w req s =
      (is_claimed (claim_key req.idempotency_key) s.claims ≡ true)
      ⊎ ((h : String) × ((receipt : TxReceipt) × ((w.wait_for_receipt h ≡ ok (some receipt))
              × (nat_eq receipt.status 1 ≡ false))))

  -- The state after a submission was tried keeps the swaps and the claim.
  abbrev Settles : World F → TradeRequest F → LiveState F → LiveState F → Type 0
  Settles w req s s' = (s'.swaps ≡ s.swaps) × Holds w req s'

  module _ (w : World F) (req : TradeRequest F) (s : LiveState F)
      (held : is_claimed (claim_key req.idempotency_key) s.claims ≡ true) where
    booked-Settles :
        {A : Type 0} (b : PortfolioState F × Result A) (f : A → ExecutionResult F)
        → Settles w req s (booked s b f).0
    booked-Settles (p, raised e) f = (refl, inl held)
    booked-Settles (p, ok a) f = (refl, inl held)

    finish-Settles :
        (h : String) (fill : FillDetails F) (q : Quote F)
        → Settles w req s (finish w req h fill q s).0
    unfolding finish
    finish-Settles h fill q = elim (Bool-cases (is_sell req.side)) [
      | inl e ↦ rw e (booked-Settles _ _)
      | inr e ↦ rw e (booked-Settles _ _)
    ]

    on_fill-Settles :
        (h : String) (q : Quote F) (r : Result (FillDetails F))
        → Settles w req s (on_fill w req h q s r).0
    on_fill-Settles h q (raised e) = (refl, inl held)
    on_fill-Settles h q (ok fill) = finish-Settles h fill q

    on_receipt-Settles :
        (h : String) (q : Quote F) (r : Result (Option TxReceipt))
        → w.wait_for_receipt h ≡ r
        → Settles w req s (on_receipt w req h q s r).0
    on_receipt-Settles h q (raised e) k = (refl, inl held)
    on_receipt-Settles h q (ok none) k = (refl, inl held)
    on_receipt-Settles h q (ok (some receipt)) k = elim (Bool-cases (nat_eq receipt.status 1)) [
      | inl e ↦ rw e (on_fill-Settles h q (w.parse_fill receipt q))
      | inr e ↦ rw e (refl, inr (h, (receipt, (k, e))))
    ]

    on_hash-Settles :
        (sub : SubmissionResult) (q : Quote F) (r : Result (Option String))
        → Settles w req s (on_hash w req sub q s r).0
    on_hash-Settles sub q (raised e) = (refl, inl held)
    on_hash-Settles sub q (ok none) = (refl, inl held)
    on_hash-Settles sub q (ok (some h)) = on_receipt-Settles h q _ refl

    settle-Settles :
        (sub : SubmissionResult) (q : Quote F) → Settles w req s (settle w req sub q s).0
    unfolding settle
    settle-Settles sub q = elim (Bool-cases (sub.status == "PENDING_SIGNATURE")) [
      | inl e ↦ rw e (refl, inl held)
      | inr e ↦ rw e (on_hash-Settles sub q (find_hash w sub))
    ]

    pub sent-Settles :
        (q : Quote F) (r : Result SubmissionResult)
        → Settles w req s (conclude w req (s, sent q r)).0
    sent-Settles q (raised e) = elim (Bool-cases (is_refusal e)) [
      | inl h ↦ rw h (refl, inl held)
      | inr h ↦ rw h (refl, inl held)
    ]
    sent-Settles q (ok sub) = settle-Settles sub q

  -- An error before the submission sends nothing.
  handle-swaps :
      (w : World F) (req : TradeRequest F) (s : LiveState F) (step : Step) (e : Error)
      → (handle w req s step e).0.swaps ≡ s.swaps
  handle-swaps w req s step e = ground arith

  -- Nothing was sent, or one swap was and its claim is kept.
  abbrev pub SendsOnce :
      LiveConfig F → World F → ApprovedTrade F → LiveState F → LiveState F → Type 0
  SendsOnce cfg w t s s' =
      (s'.swaps ≡ s.swaps)
      ⊎ ((tx : UnsignedTransaction F) × (IsSent cfg w t s s' tx × Holds w t.request s'))

  module _ (cfg : LiveConfig F) (w : World F) (t : ApprovedTrade F) (s : LiveState F)
      (tx : UnsignedTransaction F) (q : Quote F)
      (cleared : IsFrom cfg w t s.portfolio w.first tx
        ⊎ IsFrom cfg w t s.portfolio w.second tx) where
    send-SendsOnce :
        (s0 : LiveState F)
        → Keeps s s0
        → w.simulate tx ≡ ok true
        → is_claimed (claim_key t.request.idempotency_key) s0.claims ≡ false
        → SendsOnce cfg w t s
            (conclude w t.request (
              send w tx q (record s0 {
                claims = put (claim_key t.request.idempotency_key) none s0.claims;
              }))).0
    send-SendsOnce s0 k simulated free =
        let key = claim_key t.request.idempotency_key in
        let s1 : LiveState F = record s0 {
          claims = put key none s0.claims;
          swaps = s0.swaps ++ tx ∷ [];
        } in
        let (swaps, holds) =
          sent-Settles w t.request s1 (claimed-put key s0.claims) q
            (submit w.wallet tx w.submitted_at (some w.chain_id)) in
        inr (
          tx,
          (
            record {
              swaps = swaps ∙ ap (λ l. l ++ tx ∷ []) k.swaps;
              free = subst (λ c. is_claimed key c ≡ false) k.claims free;
              simulated = simulated;
              cleared = cleared;
            },
            holds,
          ),
        )

    send_if_claimed-SendsOnce :
        (s0 : LiveState F) (free : Bool)
        → Keeps s s0
        → w.simulate tx ≡ ok true
        → is_claimed (claim_key t.request.idempotency_key) s0.claims ≡ free
        → SendsOnce cfg w t s
            (conclude w t.request
              (send_if_claimed w tx q s0 (claim (claim_key t.request.idempotency_key) s0.claims))).0
    send_if_claimed-SendsOnce s0 true k simulated e =
        rw (claim_taken (claim_key t.request.idempotency_key) s0.claims e) (inl k.swaps)
    send_if_claimed-SendsOnce s0 false k simulated e =
        rw (claim_free (claim_key t.request.idempotency_key) s0.claims e)
          (send-SendsOnce s0 k simulated e)

    send_if_simulated-SendsOnce :
        (s0 : LiveState F) (r : Result Bool)
        → Keeps s s0
        → w.simulate tx ≡ r
        → SendsOnce cfg w t s (conclude w t.request (send_if_simulated w t.request tx q s0 r)).0
    send_if_simulated-SendsOnce s0 (raised e) k h =
        inl (handle-swaps w t.request s0 simulating e ∙ k.swaps)
    send_if_simulated-SendsOnce s0 (ok false) k h = inl k.swaps
    send_if_simulated-SendsOnce s0 (ok true) k h = send_if_claimed-SendsOnce s0 _ k h refl

  module _ (order : IsOrdered F) where
    built-SendsOnce :
        (cfg : LiveConfig F) (w : World F) (t : ApprovedTrade F) (s : LiveState F) (q : Quote F)
        (b : LiveState F × Built F)
        → preflight cfg s.portfolio w w.first t ≡ ok q
        → Builds cfg w t s q b
        → SendsOnce cfg w t s (conclude w t.request (simulate_and_send w t.request b)).0
    unfolding simulate_and_send
    built-SendsOnce cfg w t s q (s0, unbuilt step e) h (k, from) =
        inl (handle-swaps w t.request s0 step e ∙ k.swaps)
    built-SendsOnce cfg w t s q (s0, built tx q') h (k, inl (same, made)) =
        send_if_simulated-SendsOnce cfg w t s tx q'
          (inl (
            q',
            (preflight-IsCleared order cfg s.portfolio w w.first t q' (h ∙ ap ok (sym same)), made),
          ))
          s0 _ k refl
    built-SendsOnce cfg w t s q (s0, built tx q') h (k, inr (again, made)) =
        send_if_simulated-SendsOnce cfg w t s tx q'
          (inr (q', (preflight-IsCleared order cfg s.portfolio w w.second t q' again, made))) s0 _ k
          refl

    executed-SendsOnce :
        (cfg : LiveConfig F) (w : World F) (t : ApprovedTrade F) (s : LiveState F)
        (r : Result (Quote F))
        → preflight cfg s.portfolio w w.first t ≡ r
        → SendsOnce cfg w t s (executed cfg w t s r).0
    executed-SendsOnce cfg w t s (raised e) h = inl refl
    executed-SendsOnce cfg w t s (ok q) h =
        built-SendsOnce cfg w t s q (build cfg w t q s) h (build-Builds cfg w t q s)

    -- A call of the live engine hands no swap to the wallet, or one. It hands one only if its key was
    -- free, the swap was built on a quote that a pre-flight of this call cleared, and its simulation
    -- succeeded; the key is claimed after the call unless the chain reports that a transaction
    -- reverted.
    pub execute-SendsOnce :
        (cfg : LiveConfig F) (w : World F) (t : ApprovedTrade F) (s : LiveState F)
        → SendsOnce cfg w t s (execute cfg w t s).0
    unfolding execute
    execute-SendsOnce cfg w t s = executed-SendsOnce cfg w t s _ refl
