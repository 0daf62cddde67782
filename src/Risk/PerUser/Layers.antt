-- ===== src/Risk/PerUser/Layers.antt =====
-- The effective limits lie within every layer that they are composed from.
use native.Mathlib.Nat.{le_trans as ℕ-le_trans, le_refl as ℕ-le_refl}
use meme_agent.Base.{
  ℕ, ◌≤◌, String, eq_iff, true, ◌≡◌, Option, none, some, List, [], ◌∷◌, elem, arith,
}
use meme_agent.Float.{FloatOps, IsOrdered, ◌≼◌, min, max}
use meme_agent.Float.Order.{min-le_left, min-le_right, le-max_left, le-max_right}
use meme_agent.Risk.Model.{RiskLimits}
use meme_agent.Wallets.Policy.{WalletPolicy}
use meme_agent.Risk.PerUser.{
  PlatformCeilings, LocalCeilings, both, least, clamp_to_platform, merge_wallet_policy, apply_local,
  effective_limits,
}

-- A set is part of another one.
abbrev pub Subset : List String → List String → Type 0
Subset a b = (s : String) → elem s a ≡ true → elem s b ≡ true

both-elem :
    (s : String) (a b : List String)
    → elem s (both a b) ≡ true
    → (elem s a ≡ true) × (elem s b ≡ true)
both-elem s [] b h = cc
both-elem s (x ∷ a) b h = ground (arith, eq_iff x s, both-elem s a b)

-- The values that a layer may set. Not every layer sets the exposures: in total, on a chain and on a
-- launchpad.
pub record Ceilings (F : Type 0) : Type 0 where
  pub trade : F
  pub position : F
  pub daily_loss : F
  pub exposure : Option F
  pub chain_exposure : Option F
  pub launchpad_exposure : Option F
  pub positions : ℕ
  pub slippage : F
  pub liquidity : F
  pub chains : List String

module _ {F : Type 0} where
  abbrev pub of_limits : RiskLimits F → Ceilings F
  of_limits l = record {
    trade = l.max_trade_usdc;
    position = l.max_position_usdc;
    daily_loss = l.max_daily_loss_usdc;
    exposure = some l.max_total_exposure_usdc;
    chain_exposure = some l.max_chain_exposure_usdc;
    launchpad_exposure = some l.max_launchpad_exposure_usdc;
    positions = l.max_open_positions;
    slippage = l.max_slippage_pct;
    liquidity = l.min_liquidity_usdc;
    chains = l.allowed_chains;
  }

  -- The ceiling of the total exposure holds for each chain and launchpad too.
  abbrev pub of_platform : PlatformCeilings F → Ceilings F
  of_platform l = record {
    trade = l.max_trade_usdc;
    position = l.max_position_usdc;
    daily_loss = l.max_daily_loss_usdc;
    exposure = some l.max_total_exposure_usdc;
    chain_exposure = some l.max_total_exposure_usdc;
    launchpad_exposure = some l.max_total_exposure_usdc;
    positions = l.max_open_positions;
    slippage = l.max_slippage_pct;
    liquidity = l.min_liquidity_usdc;
    chains = l.allowed_chains;
  }

  abbrev pub of_wallet : WalletPolicy F → Ceilings F
  of_wallet l = record {
    trade = l.max_trade_usdc;
    position = l.max_position_usdc;
    daily_loss = l.max_daily_loss_usdc;
    exposure = none;
    chain_exposure = none;
    launchpad_exposure = none;
    positions = l.max_open_positions;
    slippage = l.max_slippage_pct;
    liquidity = l.min_liquidity_usdc;
    chains = l.allowed_chains;
  }

  abbrev pub of_local : LocalCeilings F → Ceilings F
  of_local l = record {
    trade = l.max_trade_usdc;
    position = l.max_position_usdc;
    daily_loss = l.max_daily_loss_usdc;
    exposure = some l.max_total_exposure_usdc;
    chain_exposure = none;
    launchpad_exposure = none;
    positions = l.max_open_positions;
    slippage = l.max_slippage_pct;
    liquidity = l.min_liquidity_usdc;
    chains = l.allowed_chains;
  }

module _ {F : Type 0} ⦃n : FloatOps F⦄ where
  -- At most the bound, where there is one.
  abbrev pub UpTo : Option F → Option F → Type 0
  UpTo a none = Unit
  UpTo none (some y) = ⊥
  UpTo (some x) (some y) = x ≼ y

  -- Every upper bound is at most the other one, the liquidity floor at least, the chains a part.
  pub record Below (a b : Ceilings F) : Type 0 where
    pub trade_le : a.trade ≼ b.trade
    pub position_le : a.position ≼ b.position
    pub daily_loss_le : a.daily_loss ≼ b.daily_loss
    pub exposure_le : UpTo a.exposure b.exposure
    pub chain_exposure_le : UpTo a.chain_exposure b.chain_exposure
    pub launchpad_exposure_le : UpTo a.launchpad_exposure b.launchpad_exposure
    pub positions_le : a.positions ≤ b.positions
    pub slippage_le : a.slippage ≼ b.slippage
    pub liquidity_ge : b.liquidity ≼ a.liquidity
    pub chains_in : Subset a.chains b.chains

  abbrev pub BelowOptional : {A : Type 0} → (A → Ceilings F) → Ceilings F → Option A → Type 0
  BelowOptional view a none = Unit
  BelowOptional view a (some b) = Below a (view b)

  module _ (order : IsOrdered F) where
    open order use {le_refl, le_trans, sub-le, zero_le_dec}

    UpTo-refl : (a : Option F) → UpTo a a
    UpTo-refl none = tt
    UpTo-refl (some x) = le_refl x

    UpTo-trans : (a b c : Option F) → UpTo a b → UpTo b c → UpTo a c
    UpTo-trans a b none h k = tt
    UpTo-trans (some x) (some y) (some z) h k = le_trans x y z h k
    UpTo-trans none (some y) (some z) h k = h
    UpTo-trans a none (some z) h k = absurd k

    abbrev meet_of : Option F → Option F → Option F
    meet_of a none = a
    meet_of none (some y) = some y
    meet_of (some x) (some y) = some (min x y)

    meet_of-UpTo : (a b : Option F) → UpTo (meet_of a b) a × UpTo (meet_of a b) b
    meet_of-UpTo a none = (UpTo-refl a, tt)
    meet_of-UpTo none (some y) = (tt, le_refl y)
    meet_of-UpTo (some x) (some y) = (min-le_left order x y, min-le_right order x y)

    Below-refl : (a : Ceilings F) → Below a a
    Below-refl a = record {
      trade_le = le_refl _;
      position_le = le_refl _;
      daily_loss_le = le_refl _;
      exposure_le = UpTo-refl a.exposure;
      chain_exposure_le = UpTo-refl a.chain_exposure;
      launchpad_exposure_le = UpTo-refl a.launchpad_exposure;
      positions_le = ℕ-le_refl _;
      slippage_le = le_refl _;
      liquidity_ge = le_refl _;
      chains_in = λ s h. h;
    }

    Below-trans : (a b c : Ceilings F) → Below a b → Below b c → Below a c
    Below-trans a b c h k = record {
      trade_le = le_trans _ _ _ h.trade_le k.trade_le;
      position_le = le_trans _ _ _ h.position_le k.position_le;
      daily_loss_le = le_trans _ _ _ h.daily_loss_le k.daily_loss_le;
      exposure_le = UpTo-trans a.exposure b.exposure c.exposure h.exposure_le k.exposure_le;
      chain_exposure_le =
          UpTo-trans a.chain_exposure b.chain_exposure c.chain_exposure h.chain_exposure_le
            k.chain_exposure_le;
      launchpad_exposure_le =
          UpTo-trans a.launchpad_exposure b.launchpad_exposure c.launchpad_exposure
            h.launchpad_exposure_le k.launchpad_exposure_le;
      positions_le = ℕ-le_trans h.positions_le k.positions_le;
      slippage_le = le_trans _ _ _ h.slippage_le k.slippage_le;
      liquidity_ge = le_trans _ _ _ k.liquidity_ge h.liquidity_ge;
      chains_in = λ s e. k.chains_in s (h.chains_in s e);
    }

    -- The stricter of two layers, field by field.
    abbrev meet : Ceilings F → Ceilings F → Ceilings F
    meet a b = record {
      trade = min a.trade b.trade;
      position = min a.position b.position;
      daily_loss = min a.daily_loss b.daily_loss;
      exposure = meet_of a.exposure b.exposure;
      chain_exposure = meet_of a.chain_exposure b.chain_exposure;
      launchpad_exposure = meet_of a.launchpad_exposure b.launchpad_exposure;
      positions = least a.positions b.positions;
      slippage = min a.slippage b.slippage;
      liquidity = max a.liquidity b.liquidity;
      chains = both a.chains b.chains;
    }

    pub least-le : (a b : ℕ) → (least a b ≤ a) × (least a b ≤ b)
    least-le a b = ground arith

    meet-Below : (a b : Ceilings F) → Below (meet a b) a × Below (meet a b) b
    meet-Below a b = (
      record {
        trade_le = min-le_left order _ _;
        position_le = min-le_left order _ _;
        daily_loss_le = min-le_left order _ _;
        exposure_le = (meet_of-UpTo a.exposure b.exposure).0;
        chain_exposure_le = (meet_of-UpTo a.chain_exposure b.chain_exposure).0;
        launchpad_exposure_le = (meet_of-UpTo a.launchpad_exposure b.launchpad_exposure).0;
        positions_le = (least-le a.positions b.positions).0;
        slippage_le = min-le_left order _ _;
        liquidity_ge = le-max_left order _ _;
        chains_in = λ s h. (both-elem s a.chains b.chains h).0;
      },
      record {
        trade_le = min-le_right order _ _;
        position_le = min-le_right order _ _;
        daily_loss_le = min-le_right order _ _;
        exposure_le = (meet_of-UpTo a.exposure b.exposure).1;
        chain_exposure_le = (meet_of-UpTo a.chain_exposure b.chain_exposure).1;
        launchpad_exposure_le = (meet_of-UpTo a.launchpad_exposure b.launchpad_exposure).1;
        positions_le = (least-le a.positions b.positions).1;
        slippage_le = min-le_right order _ _;
        liquidity_ge = le-max_right order _ _;
        chains_in = λ s h. (both-elem s a.chains b.chains h).1;
      },
    )

    clamp-Below :
        (l : RiskLimits F) (p : PlatformCeilings F)
        → let c = of_limits (clamp_to_platform l p) in
          Below c (of_limits l) × Below c (of_platform p)
    unfolding clamp_to_platform
    clamp-Below l p = meet-Below (of_limits l) (of_platform p)

    merge-Below :
        (l : RiskLimits F) (w : Option (WalletPolicy F))
        → let c = of_limits (merge_wallet_policy l w) in
          Below c (of_limits l) × BelowOptional of_wallet c w
    unfolding merge_wallet_policy
    merge-Below l none = (Below-refl _, tt)
    merge-Below l (some w) = meet-Below (of_limits l) (of_wallet w)

    local-Below :
        (l : RiskLimits F) (c : Option (LocalCeilings F))
        → let r = of_limits (apply_local l c) in Below r (of_limits l) × BelowOptional of_local r c
    unfolding apply_local
    local-Below l none = (Below-refl _, tt)
    local-Below l (some c) = meet-Below (of_limits l) (of_local c)

    BelowOptional-trans :
        {A : Type 0} (view : A → Ceilings F) (a b : Ceilings F) (o : Option A)
        → Below a b
        → BelowOptional view b o
        → BelowOptional view a o
    BelowOptional-trans view a b none h k = tt
    BelowOptional-trans view a b (some x) h k = Below-trans a b (view x) h k

    -- The effective limits are within what each layer sets (the user's own limits, the platform's
    -- ceilings, and the wallet policy and the local ceilings where there are such): at most its trade,
    -- position, daily loss, open positions, slippage, and, where it sets them, its exposure in total, on
    -- a chain and on a launchpad, which are all the total one for the platform; at least its liquidity
    -- floor; and only its chains. The launchpads that are allowed are not among these.
    pub effective_limits-Below :
        (user : RiskLimits F) (wallet : Option (WalletPolicy F)) (platform : PlatformCeilings F)
        (local : Option (LocalCeilings F))
        → let eff = of_limits (effective_limits user wallet platform local) in
          Below eff (of_limits user)
          × Below eff (of_platform platform)
          × BelowOptional of_wallet eff wallet
          × BelowOptional of_local eff local
    unfolding effective_limits
    effective_limits-Below user wallet platform local =
        let clamped = clamp_to_platform user platform in
        let merged = merge_wallet_policy clamped wallet in
        let (cu, cp) = clamp-Below user platform in
        let (mc, mw) = merge-Below clamped wallet in
        let (em, el) = local-Below merged local in
        let ec = Below-trans _ _ _ em mc in
        (
          Below-trans _ _ _ ec cu,
          Below-trans _ _ _ ec cp,
          BelowOptional-trans of_wallet _ _ wallet em mw,
          el,
        )
