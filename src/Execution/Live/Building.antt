-- ===== src/Execution/Live/Building.antt =====
-- What building a swap leaves alone, and where the swap comes from.
use meme_agent.Base.{String, ◌≡◌, ◌⊎◌, inl, inr, refl, List, [], ◌∷◌, ◌++◌, Bool-cases}
use meme_agent.Core.Errors.{Error, Result, ok, raised, integration_not_verified}
use meme_agent.Float.{FloatOps}
use meme_agent.Domain.Trade.{TradeRequest, ApprovedTrade, Quote, UnsignedTransaction}
use meme_agent.Execution.Live.{LiveConfig, World, LiveState}
use meme_agent.Execution.Live.Preflight.{preflight}
use meme_agent.Execution.Live.Approving.{
  asks_approval, spender_of, spenders_of, approve_tx, confirm_approval, approve_each,
}
use meme_agent.Execution.Live.Executing.{
  Built, unbuilt, built, deadline, rebuilt, built_by_first, built_by_second, retry, after_failure,
  build,
}

module _ {F : Type 0} where
  -- All but the approvals is as it was.
  pub record Keeps (s s' : LiveState F) : Type 0 where
    pub portfolio : s'.portfolio ≡ s.portfolio
    pub claims : s'.claims ≡ s.claims
    pub swaps : s'.swaps ≡ s.swaps

  pub Keeps-itself : (s : LiveState F) → Keeps s s
  Keeps-itself s = record { portfolio = refl; claims = refl; swaps = refl }

module _ {F : Type 0} ⦃n : FloatOps F⦄ where
  -- The swap was built on the quote of the first pre-flight, or on that of a second one.
  abbrev pub IsBuilt :
      LiveConfig F → World F → ApprovedTrade F → LiveState F → Quote F → Built F → Type 0
  IsBuilt cfg w t s q (unbuilt step e) = Unit
  IsBuilt cfg w t s q (built tx q') =
      ((q' ≡ q) × (w.first.build_swap_tx q' t.request (deadline cfg w.first) ≡ ok tx))
      ⊎ ((preflight cfg s.portfolio w w.second t ≡ ok q')
          × (w.second.build_swap_tx q' t.request (deadline cfg w.second) ≡ ok tx))

  abbrev pub Builds :
      LiveConfig F
      → World F
      → ApprovedTrade F
      → LiveState F
      → Quote F
      → LiveState F × Built F
      → Type 0
  Builds cfg w t s q (s', b) = Keeps s s' × IsBuilt cfg w t s q b

  approve_each-Keeps :
      (w : World F) (req : TradeRequest F) (spenders : List String) (s s0 : LiveState F)
      → Keeps s0 s
      → Keeps s0 (approve_each w req spenders s).0
  unfolding approve_each
  approve_each-Keeps w req [] s s0 k = k
  approve_each-Keeps w req (spender ∷ spenders) s s0 k =
      let tx = approve_tx w req spender in
      let asked : LiveState F = record s { approvals = s.approvals ++ tx ∷ [] } in
      elim (confirm_approval w tx)
        as (λ c.
          Keeps s0
            (elim c as (λ _. LiveState F × Result (Unit {0})) [
              | raised e ↦ (asked, raised e)
              | ok done ↦ approve_each w req spenders asked
            ]).0) [
              | raised e ↦ record { portfolio = k.portfolio; claims = k.claims; swaps = k.swaps }
              | ok done ↦
                  approve_each-Keeps w req spenders asked s0
                    (record { portfolio = k.portfolio; claims = k.claims; swaps = k.swaps })
            ]

  rebuilt-IsBuilt :
      (cfg : LiveConfig F) (w : World F) (t : ApprovedTrade F) (s : LiveState F) (q q' : Quote F)
      (r : Result (UnsignedTransaction F))
      → preflight cfg s.portfolio w w.second t ≡ ok q'
      → w.second.build_swap_tx q' t.request (deadline cfg w.second) ≡ r
      → IsBuilt cfg w t s q (rebuilt q' r)
  rebuilt-IsBuilt cfg w t s q q' (raised e) h k = tt
  rebuilt-IsBuilt cfg w t s q q' (ok tx) h k = inr (h, k)

  built_by_second-IsBuilt :
      (cfg : LiveConfig F) (w : World F) (t : ApprovedTrade F) (s : LiveState F) (q : Quote F)
      (r : Result (Quote F))
      → preflight cfg s.portfolio w w.second t ≡ r
      → IsBuilt cfg w t s q (built_by_second cfg w t.request r)
  built_by_second-IsBuilt cfg w t s q (raised e) h = tt
  built_by_second-IsBuilt cfg w t s q (ok q') h = rebuilt-IsBuilt cfg w t s q q' _ h refl

  retry-Builds :
      (cfg : LiveConfig F) (w : World F) (t : ApprovedTrade F) (s : LiveState F) (q : Quote F)
      (approved : LiveState F × Result (Unit {0}))
      → Keeps s approved.0
      → Builds cfg w t s q (retry cfg w t approved)
  retry-Builds cfg w t s q (s', raised e) k = (k, tt)
  retry-Builds cfg w t s q (s', ok done) k =
      (k, rw k.portfolio (built_by_second-IsBuilt cfg w t s q _ refl))

  after_failure-Builds :
      (cfg : LiveConfig F) (w : World F) (t : ApprovedTrade F) (s : LiveState F) (q : Quote F)
      (e : Error)
      → Builds cfg w t s q (after_failure cfg w t s e)
  after_failure-Builds cfg w t s q (integration_not_verified msg) =
      elim (Bool-cases (asks_approval msg)) [
        | inr e ↦ rw e (Keeps-itself s, tt)
        | inl e ↦ rw e (
            retry-Builds cfg w t s q (approve_each w t.request (spenders_of (spender_of msg)) s)
              (approve_each-Keeps w t.request (spenders_of (spender_of msg)) s s (Keeps-itself s)))
      ]
  after_failure-Builds cfg w t s q _ = (Keeps-itself s, tt)

  built_by_first-Builds :
      (cfg : LiveConfig F) (w : World F) (t : ApprovedTrade F) (q : Quote F) (s : LiveState F)
      (r : Result (UnsignedTransaction F))
      → w.first.build_swap_tx q t.request (deadline cfg w.first) ≡ r
      → Builds cfg w t s q (built_by_first cfg w t q s r)
  built_by_first-Builds cfg w t q s (raised e) h = after_failure-Builds cfg w t s q e
  built_by_first-Builds cfg w t q s (ok tx) h = (Keeps-itself s, inl (refl, h))

  pub build-Builds :
      (cfg : LiveConfig F) (w : World F) (t : ApprovedTrade F) (q : Quote F) (s : LiveState F)
      → Builds cfg w t s q (build cfg w t q s)
  unfolding build
  build-Builds cfg w t q s = built_by_first-Builds cfg w t q s _ refl
