-- ===== src/Risk/PerUser.antt =====
-- backend/app/risk/per_user_policy.py: limits composed from several layers, and the gate in front of
-- every trade of one user. Violation texts with values keep their fixed part.
pub mod Layers
pub mod Clamped
pub mod Unique
pub mod Gate
use meme_agent.Base.{
  ℕ, String, ◌==◌, Bool, true, false, not, ◌&&◌, ◌||◌, Option, none, some, List, [], ◌∷◌, ◌++◌,
  elem, keep, lower, ltb, if◌then◌else◌,
}
use meme_agent.Core.Errors.{Result, ok, raised, policy_violation}
use meme_agent.Core.Types.{WalletCapability, autonomous_delegated, same_capability}
use meme_agent.Float.{FloatOps, ◌+◌, ◌-◌, num, dec, lt, gt, min, max}
use meme_agent.Domain.Market.{truthy_text}
use meme_agent.Domain.Trade.{UnsignedTransaction}
use meme_agent.Risk.Model.{RiskLimits}
use meme_agent.Wallets.Policy.{
  WalletPolicy, WalletAuthorization, violations, code_if, differs, nonempty_set,
}
use meme_agent.Wallets.Submission.{only_chain}

pub record PlatformCeilings (F : Type 0) : Type 0 where
  pub max_trade_usdc : F
  pub max_position_usdc : F
  pub max_daily_loss_usdc : F
  pub max_total_exposure_usdc : F
  pub max_open_positions : ℕ
  pub max_slippage_pct : F
  pub min_liquidity_usdc : F
  pub allowed_chains : List String

-- `LocalCeilings` has the fields of `PlatformCeilings` that are read here.
pub record LocalCeilings (F : Type 0) : Type 0 where
  pub max_trade_usdc : F
  pub max_position_usdc : F
  pub max_daily_loss_usdc : F
  pub max_total_exposure_usdc : F
  pub max_open_positions : ℕ
  pub max_slippage_pct : F
  pub min_liquidity_usdc : F
  pub allowed_chains : List String

pub record UserPolicyContext (F : Type 0) : Type 0 where
  pub user_id : String
  pub wallet_id : String
  pub wallet_address : String
  pub wallet_provider : String
  pub risk_limits : RiskLimits F
  pub wallet_policy : Option (WalletPolicy F)
  pub emergency_stop : Bool
  pub global_pause : Bool
  pub mode : String

abbrev pub default_platform : {F : Type 0} ⦃n : FloatOps F⦄ → PlatformCeilings F
default_platform = record {
  max_trade_usdc = num 100;
  max_position_usdc = num 250;
  max_daily_loss_usdc = num 250;
  max_total_exposure_usdc = num 1_000;
  max_open_positions = 20;
  max_slippage_pct = num 5;
  min_liquidity_usdc = num 5_000;
  allowed_chains = "arc" ∷ [];
}

-- `a & b` of two sets, and `a - b`.
abbrev pub both : List String → List String → List String
both a b = keep (λ s. elem s b) a

abbrev pub without : List String → List String → List String
without a b = keep (λ s. not (elem s b)) a

-- `min` of two ints.
abbrev pub least : ℕ → ℕ → ℕ
least a b = if ltb b a then b else a

abbrev pub merged_launchpads : List String → List String → List String
merged_launchpads mine [] = mine
merged_launchpads mine (s ∷ ss) = both mine (s ∷ ss)

module _ {F : Type 0} ⦃n : FloatOps F⦄ where
  unfoldable pub clamp_to_platform : RiskLimits F → PlatformCeilings F → RiskLimits F
  clamp_to_platform l p = record l {
    max_trade_usdc = min l.max_trade_usdc p.max_trade_usdc;
    max_position_usdc = min l.max_position_usdc p.max_position_usdc;
    max_daily_loss_usdc = min l.max_daily_loss_usdc p.max_daily_loss_usdc;
    max_total_exposure_usdc = min l.max_total_exposure_usdc p.max_total_exposure_usdc;
    max_open_positions = least l.max_open_positions p.max_open_positions;
    max_slippage_pct = min l.max_slippage_pct p.max_slippage_pct;
    min_liquidity_usdc = max l.min_liquidity_usdc p.min_liquidity_usdc;
    allowed_chains = both l.allowed_chains p.allowed_chains;
    max_chain_exposure_usdc = min l.max_chain_exposure_usdc p.max_total_exposure_usdc;
    max_launchpad_exposure_usdc = min l.max_launchpad_exposure_usdc p.max_total_exposure_usdc;
  }

  unfoldable pub merge_wallet_policy : RiskLimits F → Option (WalletPolicy F) → RiskLimits F
  merge_wallet_policy l none = l
  merge_wallet_policy l (some p) = record l {
    max_trade_usdc = min l.max_trade_usdc p.max_trade_usdc;
    max_position_usdc = min l.max_position_usdc p.max_position_usdc;
    max_daily_loss_usdc = min l.max_daily_loss_usdc p.max_daily_loss_usdc;
    max_open_positions = least l.max_open_positions p.max_open_positions;
    max_slippage_pct = min l.max_slippage_pct p.max_slippage_pct;
    min_liquidity_usdc = max l.min_liquidity_usdc p.min_liquidity_usdc;
    allowed_chains = both l.allowed_chains p.allowed_chains;
    allowed_launchpads = merged_launchpads l.allowed_launchpads p.allowed_launchpads;
  }

  unfoldable pub apply_local : RiskLimits F → Option (LocalCeilings F) → RiskLimits F
  apply_local l none = l
  apply_local l (some c) = record l {
    max_trade_usdc = min l.max_trade_usdc c.max_trade_usdc;
    max_position_usdc = min l.max_position_usdc c.max_position_usdc;
    max_daily_loss_usdc = min l.max_daily_loss_usdc c.max_daily_loss_usdc;
    max_total_exposure_usdc = min l.max_total_exposure_usdc c.max_total_exposure_usdc;
    max_open_positions = least l.max_open_positions c.max_open_positions;
    max_slippage_pct = min l.max_slippage_pct c.max_slippage_pct;
    min_liquidity_usdc = max l.min_liquidity_usdc c.min_liquidity_usdc;
    allowed_chains = both l.allowed_chains c.allowed_chains;
  }

  unfoldable pub effective_limits :
      RiskLimits F
      → Option (WalletPolicy F)
      → PlatformCeilings F
      → Option (LocalCeilings F)
      → RiskLimits F
  effective_limits user wallet platform local =
      apply_local (merge_wallet_policy (clamp_to_platform user platform) wallet) local

  unfoldable pub reject_if_above_platform : RiskLimits F → PlatformCeilings F → List String
  reject_if_above_platform l p =
      code_if (gt l.max_trade_usdc (p.max_trade_usdc + dec 1 9)) "max_trade_usdc"
      ++ (code_if (gt l.max_position_usdc (p.max_position_usdc + dec 1 9)) "max_position_usdc"
          ++ (code_if (gt l.max_daily_loss_usdc (p.max_daily_loss_usdc + dec 1 9))
                "max_daily_loss_usdc"
              ++ (code_if (gt l.max_total_exposure_usdc (p.max_total_exposure_usdc + dec 1 9))
                    "max_total_exposure_usdc"
                  ++ (code_if (ltb p.max_open_positions l.max_open_positions) "max_open_positions"
                      ++ (code_if (gt l.max_slippage_pct (p.max_slippage_pct + dec 1 9))
                            "max_slippage_pct"
                          ++ (code_if (lt l.min_liquidity_usdc (p.min_liquidity_usdc - dec 1 9))
                                "min_liquidity_usdc"
                              ++ code_if (nonempty_set (without l.allowed_chains p.allowed_chains))
                                  "allowed_chains"))))))

-- The checks on an authorization against the user's context.
abbrev pub authorization_codes :
    {F : Type 0} → UserPolicyContext F → Option (WalletAuthorization F) → List String
authorization_codes ctx none = []
authorization_codes ctx (some auth) =
    code_if (truthy_text auth.user_id && differs auth.user_id ctx.user_id) "AUTH_USER_ID_MISMATCH"
    ++ (code_if (not (auth.wallet_id == ctx.wallet_id)) "AUTH_WALLET_ID_MISMATCH"
        ++ code_if (not (auth.provider == ctx.wallet_provider)) "AUTH_PROVIDER_MISMATCH")

abbrev pub address_differs : Option String → String → Bool
address_differs none address = false
address_differs (some expected) address = not (lower address == lower expected)

unfoldable pub binding_violations :
    {F : Type 0}
    → UserPolicyContext F
    → Option String
    → Option String
    → Option String
    → Option (WalletAuthorization F)
    → List String
binding_violations ctx user wallet address auth =
    code_if (differs user ctx.user_id) "USER_ID_MISMATCH"
    ++ (code_if (differs wallet ctx.wallet_id) "WALLET_ID_MISMATCH"
        ++ (code_if (address_differs address ctx.wallet_address) "WALLET_ADDRESS_MISMATCH"
            ++ authorization_codes ctx auth))

-- `auth is None or auth.capability != AUTONOMOUS_DELEGATED`
abbrev pub not_autonomous : {F : Type 0} → Option (WalletAuthorization F) → Bool
not_autonomous none = true
not_autonomous (some auth) = not (same_capability auth.capability autonomous_delegated)

-- The loop that keeps the first of each reason, with the reasons seen so far.
unfoldable pub unique : List String → List String → List String
unique seen [] = []
unique seen (r ∷ rs) =
    let rest = unique (if elem r seen then seen else r ∷ seen) rs in
    if elem r seen then rest else r ∷ rest

abbrev pub refuse_or_return : {A : Type 0} → A → List String → Result A
refuse_or_return a [] = ok a
refuse_or_return a (r ∷ rs) = raised (policy_violation (r ∷ rs))

-- `expected_user_id or ctx.user_id`
abbrev pub user_or : Option String → String → String
user_or none own = own
user_or (some s) own = if s == "" then own else s

module _ {F : Type 0} ⦃n : FloatOps F⦄ where
  unfoldable pub switch_codes : UserPolicyContext F → Option (WalletAuthorization F) → List String
  switch_codes ctx auth =
      code_if ctx.emergency_stop "EMERGENCY_STOP"
      ++ (code_if ctx.global_pause "GLOBAL_PAUSE"
          ++ code_if ((ctx.mode == "LIVE") && not_autonomous auth)
              "LIVE_REQUIRES_AUTONOMOUS_AUTHORIZATION")

  unfoldable pub effective_codes : UnsignedTransaction F → RiskLimits F → List String
  effective_codes tx eff =
      code_if (gt tx.amount_usdc (eff.max_trade_usdc + dec 1 9)) "EXCEEDS_EFFECTIVE_MAX_TRADE"
      ++ (code_if (gt tx.slippage_pct (eff.max_slippage_pct + dec 1 9))
            "EXCEEDS_EFFECTIVE_MAX_SLIPPAGE"
          ++ code_if (not (elem tx.chain eff.allowed_chains)) "CHAIN_NOT_IN_EFFECTIVE_POLICY")

  unfoldable pub effective :
      PlatformCeilings F → UserPolicyContext F → Option (LocalCeilings F) → RiskLimits F
  effective platform ctx local = effective_limits ctx.risk_limits ctx.wallet_policy platform local

  unfoldable pub reasons :
      PlatformCeilings F
      → UserPolicyContext F
      → UnsignedTransaction F
      → Option (WalletAuthorization F)
      → ℕ
      → Option ℕ
      → Option String
      → Option (LocalCeilings F)
      → List String
  unfolding switch_codes effective_codes
  reasons platform ctx tx auth now chain_id user local =
      switch_codes ctx auth
      ++ (binding_violations ctx (some (user_or user ctx.user_id)) (some ctx.wallet_id)
            (some ctx.wallet_address) auth
          ++ (violations tx auth now (only_chain chain_id)
              ++ effective_codes tx (effective platform ctx local)))

  -- `PerUserPolicyEnforcer.authorize_trade`
  unfoldable pub authorize_trade :
      PlatformCeilings F
      → UserPolicyContext F
      → UnsignedTransaction F
      → Option (WalletAuthorization F)
      → ℕ
      → Option ℕ
      → Option String
      → Option (LocalCeilings F)
      → Result (RiskLimits F)
  authorize_trade platform ctx tx auth now chain_id user local =
      refuse_or_return (effective platform ctx local)
        (unique [] (reasons platform ctx tx auth now chain_id user local))

-- `assert_context_isolation`
unfoldable pub assert_context_isolation :
    {F : Type 0} → String → UserPolicyContext F → Result (Unit {0})
assert_context_isolation active ctx =
    if not (ctx.user_id == active)
    then raised (policy_violation ("CROSS_TENANT_CONTEXT_REFUSED" ∷ []))
    else ok tt
