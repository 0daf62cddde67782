-- ===== src/Execution/Live/Resending.antt =====
-- An error while a second order of the same key is simulated frees the key of the first one.
use meme_agent.Base.{true, none, some, false, ◌≡◌, refl, [], ◌∷◌, ◌++◌, put}
use meme_agent.Core.Errors.{Error, ok, raised}
use meme_agent.Float.{FloatOps}
use meme_agent.Domain.Trade.{ApprovedTrade, Quote, UnsignedTransaction}
use meme_agent.Portfolio.State.{PortfolioState}
use meme_agent.Wallets.Submission.{submit}
use meme_agent.Execution.Live.Sending.{sent-Settles}
use meme_agent.Execution.Idempotency.{is_claimed, claim_free, claimed-put, claimed-release}
use meme_agent.Execution.Live.{LiveConfig, World, LiveState}
use meme_agent.Execution.Live.Preflight.{preflight}
use meme_agent.Execution.Live.Executing.{
  is_refusal, claim_key, deadline, build, simulate_and_send, released, execute,
}

module _ {F : Type 0} ⦃n : FloatOps F⦄ (cfg : LiveConfig F) (t : ApprovedTrade F) where
  -- The call quotes and builds a swap without a retry.
  pub record Prepares (w : World F) (p : PortfolioState F) (tx : UnsignedTransaction F)
      : Type 0 where
    pub quoted : Quote F
    pub cleared : preflight cfg p w w.first t ≡ ok quoted
    pub made : w.first.build_swap_tx quoted t.request (deadline cfg w.first) ≡ ok tx

  execute-releases :
      (w : World F) (s : LiveState F) (tx : UnsignedTransaction F) (e : Error)
      → Prepares w s.portfolio tx
      → w.simulate tx ≡ raised e
      → is_refusal e ≡ false
      → (execute cfg w t s).0 ≡ released t.request s
  unfolding execute build simulate_and_send
  execute-releases w s tx e p failed unexpected = rw (p.cleared, p.made, failed, unexpected) refl

  execute-sends :
      (w : World F) (s : LiveState F) (tx : UnsignedTransaction F)
      → Prepares w s.portfolio tx
      → w.simulate tx ≡ ok true
      → is_claimed (claim_key t.request.idempotency_key) s.claims ≡ false
      → (execute cfg w t s).0.swaps ≡ s.swaps ++ tx ∷ []
  unfolding execute build simulate_and_send
  execute-sends w s tx p good free =
      let key = claim_key t.request.idempotency_key in
      let s1 : LiveState F = record s {
        claims = put key none s.claims;
        swaps = s.swaps ++ tx ∷ [];
      } in
      rw (p.cleared, p.made, good, claim_free key s.claims free)
        (sent-Settles w t.request s1 (claimed-put key s.claims) p.quoted
          (submit w.wallet tx w.submitted_at (some w.chain_id))).0

  -- A call whose simulation raises anything but a policy violation or an unverified integration frees
  -- its key, also where an earlier call claimed it for a submission whose outcome is unknown; a later
  -- call with that key that prepares and simulates a swap then hands one more swap to the wallet.
  pub execute-resends :
      (first second : World F) (s : LiveState F) (tx again : UnsignedTransaction F) (e : Error)
      → Prepares first s.portfolio tx
      → first.simulate tx ≡ raised e
      → is_refusal e ≡ false
      → Prepares second s.portfolio again
      → second.simulate again ≡ ok true
      → let after = (execute cfg first t s).0 in
        (is_claimed (claim_key t.request.idempotency_key) after.claims ≡ false)
        × ((execute cfg second t after).0.swaps ≡ s.swaps ++ again ∷ [])
  execute-resends first second s tx again e p failed unexpected p' good =
      let freed = claimed-release (claim_key t.request.idempotency_key) s.claims in
      rw (execute-releases first s tx e p failed unexpected)
        (freed, execute-sends second (released t.request s) again p' good freed)
