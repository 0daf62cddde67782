-- ===== src/Tests/Authorizing.antt =====
-- The theorems on wallets and on per-user policy, at concrete data.
use meme_agent.Base.{String, ◌≡◌, refl, none, some, [], ◌∷◌, lower}
use meme_agent.Core.Errors.{ok}
use meme_agent.Core.Types.{autonomous_delegated}
use meme_agent.Float.{num}
use meme_agent.Float.Int.{◌+ℤ◌}
use meme_agent.Float.Fixed.{Fixed, fixed_ops, Fixed-IsOrdered}
use meme_agent.Risk.Model.{RiskLimits, default_limits}
use meme_agent.Wallets.Policy.{WalletAuthorization, violations, is_active, is_approve}
use meme_agent.Wallets.Submission.{Provider, submit, Submitted, submit-Permitted}
use meme_agent.Risk.PerUser.{
  reject_if_above_platform, default_platform, apply_local, clamp_to_platform, merge_wallet_policy,
  effective_limits, binding_violations, unique, effective, reasons, authorize_trade,
}
use meme_agent.Risk.PerUser.Layers.{
  of_limits, of_platform, of_wallet, of_local, Below, BelowOptional, effective_limits-Below,
}
use meme_agent.Risk.PerUser.Clamped.{clamp_to_platform-accepted}
use meme_agent.Risk.PerUser.Gate.{Authorized, authorize_trade-Authorized}
use meme_agent.Tests.Data.{noon, authorization, user, local_ceilings, transaction, wallet_policy}

-- A provider that signs everything.
abbrev provider : Provider Fixed String
provider = record {
  capabilities = autonomous_delegated ∷ [];
  get_authorization = ok (some authorization);
  sign_and_send = λ tx auth. ok "0xhash";
}

submitted : submit provider transaction noon (some 5042) ≡ ok "0xhash"
unfolding submit violations ◌+ℤ◌ lower is_active is_approve
submitted = refl

submit-Permitted_example :
    (auth : WalletAuthorization Fixed) × Submitted Fixed-IsOrdered provider transaction noon
      "0xhash" auth
submit-Permitted_example =
    submit-Permitted Fixed-IsOrdered provider transaction noon (some 5042) "0xhash" submitted

effective_limits-Below_example :
    let eff = of_limits (
      effective_limits default_limits
        (some wallet_policy)
        default_platform
        (some local_ceilings)) in
    Below eff (of_limits default_limits)
    × Below eff (of_platform default_platform)
    × BelowOptional of_wallet eff (some wallet_policy)
    × BelowOptional of_local eff (some local_ceilings)
effective_limits-Below_example =
    effective_limits-Below Fixed-IsOrdered default_limits (some wallet_policy) default_platform
      (some local_ceilings)

-- Limits above every ceiling of the platform.
abbrev wide : RiskLimits Fixed
wide = record default_limits {
  max_trade_usdc = num 500;
  max_open_positions = 90;
  min_liquidity_usdc = num 1;
  allowed_chains = "arc" ∷ "base" ∷ [];
}

clamp_to_platform-accepted_example :
    reject_if_above_platform (clamp_to_platform wide default_platform) default_platform ≡ []
clamp_to_platform-accepted_example =
    clamp_to_platform-accepted Fixed-IsOrdered wide default_platform

abbrev eff : RiskLimits Fixed
eff = effective default_platform user (some local_ceilings)

let_through :
    authorize_trade default_platform user transaction
      (some authorization)
      noon
      (some 5042)
      none
      (some local_ceilings)
    ≡ ok eff
unfolding authorize_trade reasons unique binding_violations violations effective effective_limits
    apply_local merge_wallet_policy clamp_to_platform ◌+ℤ◌ lower is_active is_approve
let_through = refl

authorize_trade-Authorized_example :
    (eff ≡ eff)
    × ((a : WalletAuthorization Fixed) × ((some authorization ≡ some a)
          × Authorized Fixed-IsOrdered user transaction a noon
              (effective default_platform user (some local_ceilings))))
authorize_trade-Authorized_example =
    authorize_trade-Authorized Fixed-IsOrdered default_platform user transaction
      (some authorization) noon (some 5042) none (some local_ceilings) eff let_through
