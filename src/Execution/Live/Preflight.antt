-- ===== src/Execution/Live/Preflight.antt =====
-- `_preflight` of backend/app/execution/live.py.
use meme_agent.Base.{
  ℕ, String, Bool, true, false, not, ◌&&◌, ◌||◌, Option, none, some, List, [], ◌∷◌, ◌++◌, elem, map,
  lower, leb, if◌then◌else◌,
}
use meme_agent.Core.Errors.{
  Result, ok, raised, approval_error, live_safety, type_error, require, ◌>>=◌, ◌>>◌,
}
use meme_agent.Core.Types.{is_live, is_sell}
use meme_agent.Float.{FloatOps, ◌+◌, ◌-◌, ◌*◌, lt, gt, num, over, seconds, truthy}
use meme_agent.Domain.Trade.{TradeRequest, ApprovedTrade, Quote}
use meme_agent.Portfolio.State.{PortfolioState, token_exposure}
use meme_agent.Risk.Approval.{verify}
use meme_agent.Venues.Cost.{Breakdown, abs, cost_breakdown}
use meme_agent.Wallets.Policy.{WalletPolicy, WalletAuthorization, is_active, code_if}
use meme_agent.Execution.Live.{LiveConfig, Attempt, World}

module _ {F : Type 0} ⦃n : FloatOps F⦄ where
  -- `x or 0.0`
  abbrev pub or_zero : Option F → F
  or_zero none = num 0
  or_zero (some x) = if truthy x then x else num 0

  abbrev pub or_else : Option F → F → F
  or_else none d = d
  or_else (some x) d = x

  -- Balance, size and exposure of a purchase.
  abbrev pub buy_codes : TradeRequest F → WalletPolicy F → PortfolioState F → F → List String
  buy_codes req p portfolio balance =
      let amount = or_zero req.amount_usdc in
      code_if (lt balance amount) "INSUFFICIENT_WALLET_BALANCE"
      ++ (code_if (gt amount p.max_trade_usdc) "EXCEEDS_POLICY_MAX_TRADE"
          ++ code_if (gt (token_exposure portfolio req.token_address + amount) p.max_position_usdc)
              "EXCEEDS_POLICY_MAX_POSITION")

  -- A sale asks for no balance.
  abbrev pub funds_codes :
      TradeRequest F → WalletPolicy F → PortfolioState F → Result F → Result (List String)
  funds_codes req p portfolio balance =
      if is_sell req.side then ok [] else (do b ← balance; ok (buy_codes req p portfolio b))

  abbrev pub is_stale : LiveConfig F → Quote F → ℕ → Bool
  is_stale cfg q now = leb q.expires_at now || gt (seconds now q.quoted_at) cfg.max_quote_age_s

  abbrev pub impact_codes : TradeRequest F → Quote F → List String
  impact_codes req q =
      code_if (gt q.price_impact_pct (or_else req.max_price_impact_pct req.max_slippage_pct))
        (elim req.max_price_impact_pct [
          | none ↦ "PRICE_IMPACT_EXCEEDS_SLIPPAGE"
          | some m ↦ "PRICE_IMPACT_EXCEEDS_LIMIT"
        ])

  abbrev pub exceeds : Option F → Option F → Bool
  exceeds (some cost) (some cap) = gt cost cap
  exceeds _ _ = false

  -- The deviation that counts: without the pool fee where that is known and the settings say so.
  -- Comparing a missing one with a number is a TypeError.
  abbrev pub deviation : LiveConfig F → Quote F → F → Breakdown F → Result F
  deviation cfg q reference b =
      let raw = abs (over q.price reference - num 1) * num 100 in
      elim q.fee_pct [
        | none ↦ ok raw
        | some fee ↦
            if cfg.fee_aware_deviation
            then elim b.deviation_ex_fee_pct [ none ↦ raised type_error | some d ↦ ok d ]
            else ok raw
      ]

  abbrev pub total_cost_codes : TradeRequest F → Breakdown F → List String
  total_cost_codes req b =
      code_if (not (is_sell req.side) && exceeds b.total_cost_pct req.max_total_cost_pct)
        "TOTAL_COST_EXCEEDS_LIMIT"

  abbrev pub priced_codes : LiveConfig F → TradeRequest F → Quote F → F → Result (List String)
  priced_codes cfg req q reference = do
    b ← cost_breakdown q (some reference) req.side
    dev ← deviation cfg q reference b
    ok (
        code_if (gt dev cfg.max_quote_deviation_pct) "QUOTE_DEVIATES_FROM_MARKET"
        ++ total_cost_codes req b)

  abbrev pub market_codes :
      LiveConfig F → TradeRequest F → Quote F → Option F → Result (List String)
  market_codes cfg req q none = ok []
  market_codes cfg req q (some reference) =
      if truthy reference then priced_codes cfg req q reference else ok []

  -- The pool's liquidity, or what the decision was made on.
  abbrev pub known_liquidity : TradeRequest F → Quote F → Option F
  known_liquidity req q = elim q.pool_liquidity_usdc [
    | some l ↦ some l
    | none ↦ req.reference_liquidity_usdc
  ]

  abbrev pub thin : Option F → F → Bool
  thin none least = true
  thin (some l) least = lt l least

  abbrev pub liquidity_codes : TradeRequest F → WalletPolicy F → Quote F → List String
  liquidity_codes req p q =
      code_if (not (is_sell req.side) && thin (known_liquidity req q) p.min_liquidity_usdc)
        "QUOTE_LIQUIDITY_BELOW_POLICY_MIN"

  -- Membership in the intersection of the policy's routers and the chain's.
  abbrev pub router_codes : WalletPolicy F → World F → Quote F → List String
  router_codes p w q =
      let router = lower q.router_address in
      code_if
        (not
          (elem router (map lower p.allowed_routers) && elem router (map lower w.router_allowlist)))
        "ROUTER_NOT_ALLOWLISTED"

  abbrev pub refuse : List String → Quote F → Result (Quote F)
  refuse [] q = ok q
  refuse (code ∷ codes) q = raised (live_safety (code ∷ codes))

  -- The checks of the quote and of the request's slippage, between those of the funds and the market.
  abbrev pub all_codes :
      LiveConfig F
      → World F
      → Attempt F
      → TradeRequest F
      → WalletPolicy F
      → Quote F
      → List String
      → List String
      → List String
  all_codes cfg w a req p q funds market =
      funds
      ++ (code_if (gt req.max_slippage_pct p.max_slippage_pct) "EXCEEDS_POLICY_SLIPPAGE"
          ++ (code_if (is_stale cfg q a.now) "QUOTE_STALE"
              ++ (impact_codes req q
                  ++ (market ++ (liquidity_codes req p q ++ router_codes p w q)))))

  -- The part after the authorization.
  unfoldable pub check_quote :
      LiveConfig F
      → PortfolioState F
      → World F
      → Attempt F
      → TradeRequest F
      → WalletPolicy F
      → Result (Quote F)
  check_quote cfg portfolio w a req p = do
    funds ← funds_codes req p portfolio a.usdc_balance
    q ← a.quote req
    market ← market_codes cfg req q req.reference_price
    refuse (all_codes cfg w a req p q funds market) q

  abbrev pub authorized : Option (WalletAuthorization F) → ℕ → Result (WalletAuthorization F)
  authorized none now = raised (live_safety ("WALLET_AUTHORIZATION_MISSING_OR_INACTIVE" ∷ []))
  authorized (some auth) now =
      if is_active auth now
      then ok auth
      else raised (live_safety ("WALLET_AUTHORIZATION_MISSING_OR_INACTIVE" ∷ []))

  unfoldable pub preflight :
      LiveConfig F → PortfolioState F → World F → Attempt F → ApprovedTrade F → Result (Quote F)
  unfolding check_quote
  preflight cfg portfolio w a t = do
    require cfg.live_trading_enabled (live_safety ("LIVE_TRADING_DISABLED" ∷ []))
    require (verify cfg.signer cfg.key t) approval_error
    require (is_live t.request.mode) (live_safety ("REQUEST_NOT_LIVE_MODE" ∷ []))
    require w.live_trading_verified (live_safety ("CHAIN_LIVE_INTEGRATION_NOT_VERIFIED" ∷ []))
    healthy ← a.healthy
    require healthy (live_safety ("CHAIN_UNHEALTHY" ∷ []))
    found ← a.authorization
    auth ← authorized found a.authorized_at
    check_quote cfg portfolio w a t.request auth.policy
