-- ===== src/Execution/Live/Cleared.antt =====
-- What a pre-flight that returns a quote has checked.
use meme_agent.Base.{
  ℕ, String, Bool, true, false, not, ◌&&◌, ◌≡◌, refl, subst, ◌<◌, Option, none, some, List, [], ◌∷◌,
  elem, map, lower, arith, Option-cases, inl, inr,
}
use meme_agent.Core.Errors.{Error, Result, ok, require, ◌>>◌}
use meme_agent.Core.Outcomes.{>>=-eq-ok}
use meme_agent.Core.Types.{is_live, is_sell}
use meme_agent.Float.{FloatOps, IsOrdered, ◌+◌, ◌≼◌, gt, seconds, truthy}
use meme_agent.Float.Order.{le-of-not-lt}
use meme_agent.Domain.Trade.{TradeRequest, ApprovedTrade, Quote}
use meme_agent.Portfolio.State.{PortfolioState, token_exposure}
use meme_agent.Risk.Approval.{verify}
use meme_agent.Venues.Cost.{Breakdown, cost_breakdown}
use meme_agent.Wallets.Policy.{WalletPolicy, WalletAuthorization, is_active, code_if}
use meme_agent.Wallets.Submission.{append-nil_parts}
use meme_agent.Execution.Live.{LiveConfig, Attempt, World}
use meme_agent.Execution.Live.Preflight.{
  or_zero, or_else, funds_codes, deviation, market_codes, priced_codes, known_liquidity,
  liquidity_codes, router_codes, refuse, is_stale, impact_codes, all_codes, check_quote, authorized,
  preflight,
}

module _ {F : Type 0} ⦃n : FloatOps F⦄ where
  -- The balance and the policy cover a purchase.
  pub record IsAffordable (portfolio : PortfolioState F) (req : TradeRequest F) (p : WalletPolicy F)
      (balance : F) : Type 0 where
    pub in_balance : or_zero req.amount_usdc ≼ balance
    pub in_trade : or_zero req.amount_usdc ≼ p.max_trade_usdc
    pub in_position :
        token_exposure portfolio req.token_address + or_zero req.amount_usdc ≼ p.max_position_usdc

  -- A quote that may be traded for a request under a policy.
  pub record IsTradable (cfg : LiveConfig F) (portfolio : PortfolioState F) (w : World F)
      (a : Attempt F) (req : TradeRequest F) (p : WalletPolicy F) (q : Quote F) : Type 0 where
    pub quoted : a.quote req ≡ ok q
    pub affordable :
        is_sell req.side ≡ false
        → (balance : F) × ((a.usdc_balance ≡ ok balance) × IsAffordable portfolio req p balance)
    pub slippage : req.max_slippage_pct ≼ p.max_slippage_pct
    pub unexpired : a.now < q.expires_at
    pub recent : seconds a.now q.quoted_at ≼ cfg.max_quote_age_s
    pub impact : q.price_impact_pct ≼ or_else req.max_price_impact_pct req.max_slippage_pct
    pub near_market :
        (reference : F)
        → req.reference_price ≡ some reference
        → truthy reference ≡ true
        → (b : Breakdown F) × ((d : F) × ((cost_breakdown q (some reference) req.side ≡ ok b)
              × ((deviation cfg q reference b ≡ ok d) × (d ≼ cfg.max_quote_deviation_pct))))
    pub liquid :
        is_sell req.side ≡ false
        → (l : F) × ((known_liquidity req q ≡ some l) × (p.min_liquidity_usdc ≼ l))
    pub policy_router : elem (lower q.router_address) (map lower p.allowed_routers) ≡ true
    pub chain_router : elem (lower q.router_address) (map lower w.router_allowlist) ≡ true

  -- Everything that a live trade is checked for before it is built.
  pub record IsCleared (cfg : LiveConfig F) (portfolio : PortfolioState F) (w : World F)
      (a : Attempt F) (t : ApprovedTrade F) (q : Quote F) : Type 0 where
    pub enabled : cfg.live_trading_enabled ≡ true
    pub approved : verify cfg.signer cfg.key t ≡ true
    pub in_live_mode : is_live t.request.mode ≡ true
    pub chain_verified : w.live_trading_verified ≡ true
    pub healthy : a.healthy ≡ ok true
    pub authorized_by :
        (auth : WalletAuthorization F) × ((a.authorization ≡ ok (some auth))
          × ((is_active auth a.authorized_at ≡ true)
              × IsTradable cfg portfolio w a t.request auth.policy q))

>>-eq-ok :
    {B : Type 0} (test : Bool) (error : Error) (rest : Result B) (b : B)
    → (require test error >> rest) ≡ ok b
    → (test ≡ true) × (rest ≡ ok b)
>>-eq-ok true error rest b h = (refl, h)
>>-eq-ok false error rest b h = cc

code_if-false : (test : Bool) (code : String) → code_if test code ≡ [] → test ≡ false
code_if-false true code h = cc
code_if-false false code h = refl

code_if-true : (test : Bool) (code : String) → code_if (not test) code ≡ [] → test ≡ true
code_if-true true code h = refl
code_if-true false code h = cc

both-true : (a b : Bool) → (a && b) ≡ true → (a ≡ true) × (b ≡ true)
both-true a b h = ground arith

module _ {F : Type 0} ⦃n : FloatOps F⦄ where
  fresh_quote :
      (cfg : LiveConfig F) (q : Quote F) (now : ℕ)
      → code_if (is_stale cfg q now) "QUOTE_STALE" ≡ []
      → now < q.expires_at
  fresh_quote cfg q now h = ground arith

  recent_quote :
      (cfg : LiveConfig F) (q : Quote F) (now : ℕ)
      → code_if (is_stale cfg q now) "QUOTE_STALE" ≡ []
      → gt (seconds now q.quoted_at) cfg.max_quote_age_s ≡ false
  recent_quote cfg q now h = ground arith

  refuse-eq-ok :
      (codes : List String) (p q : Quote F) → refuse codes p ≡ ok q → (codes ≡ []) × (p ≡ q)
  refuse-eq-ok [] p q h = (refl, cc)
  refuse-eq-ok (c ∷ cs) p q h = cc

  authorized-eq-ok :
      (found : Option (WalletAuthorization F)) (now : ℕ) (auth : WalletAuthorization F)
      → authorized found now ≡ ok auth
      → (found ≡ some auth) × (is_active auth now ≡ true)
  authorized-eq-ok none now auth h = cc
  authorized-eq-ok (some a) now auth h = ground arith

  module _ (order : IsOrdered F) where
    funds_codes-IsAffordable :
        (req : TradeRequest F) (p : WalletPolicy F) (portfolio : PortfolioState F)
        (balance : Result F)
        → funds_codes req p portfolio balance ≡ ok []
        → is_sell req.side ≡ false
        → (b : F) × ((balance ≡ ok b) × IsAffordable portfolio req p b)
    funds_codes-IsAffordable req p portfolio balance h buying =
        let (b, (found, clear)) = >>=-eq-ok _ balance (rw buying at h) in
        (
          b,
          (
            found,
            record {
              in_balance = le-of-not-lt order _ _ (ground arith);
              in_trade = le-of-not-lt order _ _ (ground arith);
              in_position = le-of-not-lt order _ _ (ground arith);
            },
          ),
        )

    priced_codes-near :
        (cfg : LiveConfig F) (req : TradeRequest F) (q : Quote F) (reference : F)
        → priced_codes cfg req q reference ≡ ok []
        → (b : Breakdown F) × ((d : F) × ((cost_breakdown q (some reference) req.side ≡ ok b)
              × ((deviation cfg q reference b ≡ ok d) × (d ≼ cfg.max_quote_deviation_pct))))
    priced_codes-near cfg req q reference h =
        let (b, (found, more)) = >>=-eq-ok _ (cost_breakdown q (some reference) req.side) h in
        let (d, (dev, clear)) = >>=-eq-ok _ (deviation cfg q reference b) more in
        (b, (d, (found, (dev, le-of-not-lt order _ _ (ground arith)))))

    liquidity_codes-liquid :
        (req : TradeRequest F) (p : WalletPolicy F) (q : Quote F)
        → liquidity_codes req p q ≡ []
        → is_sell req.side ≡ false
        → (l : F) × ((known_liquidity req q ≡ some l) × (p.min_liquidity_usdc ≼ l))
    liquidity_codes-liquid req p q h buying = elim (Option-cases (known_liquidity req q)) [
      | inl e ↦ cc (rw (buying, e) at h)
      | inr (l, e) ↦ (l, (e, le-of-not-lt order _ _ (ground arith)))
    ]

    all_codes-IsTradable :
        (cfg : LiveConfig F) (portfolio : PortfolioState F) (w : World F) (a : Attempt F)
        (req : TradeRequest F) (p : WalletPolicy F) (q : Quote F) (funds market : List String)
        → funds_codes req p portfolio a.usdc_balance ≡ ok funds
        → a.quote req ≡ ok q
        → market_codes cfg req q req.reference_price ≡ ok market
        → all_codes cfg w a req p q funds market ≡ []
        → IsTradable cfg portfolio w a req p q
    all_codes-IsTradable cfg portfolio w a req p q funds market funded quoted priced clear =
        let (no_funds, c1) = append-nil_parts funds _ clear in
        let (slips, c2) =
          append-nil_parts (code_if (gt req.max_slippage_pct p.max_slippage_pct) _) _ c1 in
        let (stale, c3) = append-nil_parts (code_if (is_stale cfg q a.now) _) _ c2 in
        let (impacts, c4) = append-nil_parts (impact_codes req q) _ c3 in
        let (no_market, c5) = append-nil_parts market _ c4 in
        let (liquid, routed) = append-nil_parts (liquidity_codes req p q) (router_codes p w q) c5 in
        record {
          quoted = quoted;
          affordable =
              funds_codes-IsAffordable req p portfolio a.usdc_balance (rw no_funds at funded);
          slippage = le-of-not-lt order _ _ (code_if-false _ _ slips);
          unexpired = fresh_quote cfg q a.now stale;
          recent = le-of-not-lt order _ _ (recent_quote cfg q a.now stale);
          impact = le-of-not-lt order _ _ (code_if-false _ _ impacts);
          near_market = λ reference e known.
              priced_codes-near cfg req q reference (rw known at (rw (e, no_market) at priced));
          liquid = liquidity_codes-liquid req p q liquid;
          policy_router = (both-true _ _ (code_if-true _ _ routed)).0;
          chain_router = (both-true _ _ (code_if-true _ _ routed)).1;
        }

    check_quote-IsTradable :
        (cfg : LiveConfig F) (portfolio : PortfolioState F) (w : World F) (a : Attempt F)
        (req : TradeRequest F) (p : WalletPolicy F) (q : Quote F)
        → check_quote cfg portfolio w a req p ≡ ok q
        → IsTradable cfg portfolio w a req p q
    unfolding check_quote
    check_quote-IsTradable cfg portfolio w a req p q h =
        let (funds, (funded, h1)) = >>=-eq-ok _ (funds_codes req p portfolio a.usdc_balance) h in
        let (quote, (quoted, h2)) = >>=-eq-ok _ (a.quote req) h1 in
        let (market, (priced, h3)) =
          >>=-eq-ok _ (market_codes cfg req quote req.reference_price) h2 in
        let (clear, same) = refuse-eq-ok _ quote q h3 in
        subst (IsTradable cfg portfolio w a req p) same (
          all_codes-IsTradable cfg portfolio w a req p quote funds market funded quoted priced
            clear)

    -- A pre-flight that returns a quote has checked all that it has to.
    pub preflight-IsCleared :
        (cfg : LiveConfig F) (portfolio : PortfolioState F) (w : World F) (a : Attempt F)
        (t : ApprovedTrade F) (q : Quote F)
        → preflight cfg portfolio w a t ≡ ok q
        → IsCleared cfg portfolio w a t q
    unfolding preflight
    preflight-IsCleared cfg portfolio w a t q h =
        let (enabled, h1) = >>-eq-ok _ _ _ q h in
        let (approved, h2) = >>-eq-ok _ _ _ q h1 in
        let (in_mode, h3) = >>-eq-ok _ _ _ q h2 in
        let (verified, h4) = >>-eq-ok _ _ _ q h3 in
        let (healthy, (answer, h5)) = >>=-eq-ok _ a.healthy h4 in
        let (is_healthy, h6) = >>-eq-ok _ _ _ q h5 in
        let (found, (asked, h7)) = >>=-eq-ok _ a.authorization h6 in
        let (auth, (allowed, h8)) = >>=-eq-ok _ (authorized found a.authorized_at) h7 in
        let (same, active) = authorized-eq-ok found a.authorized_at auth allowed in
        record {
          enabled = enabled;
          approved = approved;
          in_live_mode = in_mode;
          chain_verified = verified;
          healthy = cc;
          authorized_by = (
            auth,
            (cc, (active, check_quote-IsTradable cfg portfolio w a t.request auth.policy q h8)),
          );
        }
