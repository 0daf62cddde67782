-- ===== src/Risk/Sizing.antt =====
-- `max_entry_amount` of backend/app/risk/engine.py: the largest entry that the limits allow.
use meme_agent.Base.{
  Bool, false, text_or_empty, true, ◌≡◌, Option, none, some, List, [], ◌∷◌, ◌++◌, All,
  if◌then◌else◌, arith,
}
use meme_agent.Float.{FloatOps, IsOrdered, ◌-◌, ◌*◌, ◌≼◌, num, max, min_of, round, truthy}
use meme_agent.Float.Order.{min_of-le_first, min_of-le, le-max_left, le-max_right, max-le}
use meme_agent.Domain.Market.{MarketState, truthy_text}
use meme_agent.Portfolio.State.{
  PortfolioState, token_exposure, total_exposure, chain_exposure, launchpad_exposure,
}
use meme_agent.Risk.Model.{RiskLimits}

module _ {F : Type 0} ⦃n : FloatOps F⦄ where
  abbrev pub liquidity_cap : RiskLimits F → Option F → List F
  liquidity_cap l none = []
  liquidity_cap l (some liquidity) =
      if truthy liquidity then liquidity * l.max_trade_liquidity_ratio ∷ [] else []

  -- The caps after the first one, `max_trade_usdc`.
  abbrev pub more_caps : MarketState F → PortfolioState F → RiskLimits F → List F
  more_caps m p l =
      p.cash_usdc
      ∷ (l.max_position_usdc - token_exposure p m.token_address)
      ∷ (l.max_total_exposure_usdc - total_exposure p)
      ∷ (l.max_chain_exposure_usdc - chain_exposure p m.chain)
      ∷ ((if truthy_text m.launchpad
            then (l.max_launchpad_exposure_usdc - launchpad_exposure p (text_or_empty m.launchpad))
              ∷ []
            else [])
          ++ liquidity_cap l m.liquidity)

  unfoldable pub max_entry_amount : MarketState F → PortfolioState F → RiskLimits F → F
  max_entry_amount m p l = max (num 0) (round (min_of l.max_trade_usdc (more_caps m p l)) 6)

  -- At most the cap, rounded.
  abbrev pub Within : F → F → Type 0
  Within size cap = size ≼ max (num 0) (round cap 6)

  pub record IsSized (m : MarketState F) (p : PortfolioState F) (l : RiskLimits F) (size : F)
      : Type 0 where
    pub not_negative : num 0 ≼ size
    pub trade : Within size l.max_trade_usdc
    pub cash : Within size p.cash_usdc
    pub token : Within size (l.max_position_usdc - token_exposure p m.token_address)
    pub total : Within size (l.max_total_exposure_usdc - total_exposure p)
    pub chain : Within size (l.max_chain_exposure_usdc - chain_exposure p m.chain)
    pub launchpad :
        truthy_text m.launchpad ≡ true
        → Within size
            (l.max_launchpad_exposure_usdc - launchpad_exposure p (text_or_empty m.launchpad))
    pub liquidity :
        (x : F)
        → m.liquidity ≡ some x
        → truthy x ≡ true
        → Within size (x * l.max_trade_liquidity_ratio)

  -- The caps that are there only sometimes come last.
  launchpad_cap :
      (given : Bool) (size limit : F) (more : List F)
      → given ≡ true
      → All (Within size) ((if given then limit ∷ [] else []) ++ more)
      → Within size limit
  launchpad_cap true size limit more e (h, _) = h
  launchpad_cap false size limit more e h = cc

  liquidity_room :
      (l : RiskLimits F) (known : Option F) (size : F) (first : List F) (x : F)
      → known ≡ some x
      → truthy x ≡ true
      → All (Within size) (first ++ liquidity_cap l known)
      → Within size (x * l.max_trade_liquidity_ratio)
  liquidity_room l none size first x e nonzero h = cc
  liquidity_room l (some y) size [] x e nonzero h = ground arith
  liquidity_room l (some y) size (c ∷ cs) x e nonzero (_, h) =
      liquidity_room l (some y) size cs x e nonzero h

  module _ (order : IsOrdered F) where
    open order use {round_mono, le_trans}

    rounded_cap :
        (least cap : F) → least ≼ cap → max (num 0) (round least 6) ≼ max (num 0) (round cap 6)
    rounded_cap least cap h =
        max-le order _ _ _ (le-max_left order (num 0) (round cap 6))
          (le_trans _ _ _ (round_mono least cap h) (le-max_right order (num 0) (round cap 6)))

    rounded_caps :
        (least : F) (caps : List F)
        → All (λ c. least ≼ c) caps
        → All (λ c. max (num 0) (round least 6) ≼ max (num 0) (round c 6)) caps
    rounded_caps least [] h = tt
    rounded_caps least (c ∷ cs) (h, hs) = (rounded_cap least c h, rounded_caps least cs hs)

    -- The size is not negative, and at most each of the caps, rounded to six decimals (and 0 for a cap
    -- below it): the largest trade, the cash, what the limits leave of a position in the token, of the
    -- exposure in total and on the chain, and on a launchpad that is given, and the share of a known
    -- liquidity that is not 0.
    pub max_entry_amount_bounds :
        (m : MarketState F) (p : PortfolioState F) (l : RiskLimits F)
        → IsSized m p l (max_entry_amount m p l)
    unfolding max_entry_amount
    max_entry_amount_bounds m p l =
        let caps = more_caps m p l in
        let least = min_of l.max_trade_usdc caps in
        let (cash, (token, (total, (chain, rest)))) =
          rounded_caps least caps (min_of-le order l.max_trade_usdc caps) in
        record {
          not_negative = le-max_left order (num 0) (round least 6);
          trade = rounded_cap least _ (min_of-le_first order l.max_trade_usdc caps);
          cash = cash;
          token = token;
          total = total;
          chain = chain;
          launchpad = λ given. launchpad_cap _ _ _ _ given rest;
          liquidity = λ x known nonzero. liquidity_room l m.liquidity _ _ x known nonzero rest;
        }
