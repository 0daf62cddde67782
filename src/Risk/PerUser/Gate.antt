-- ===== src/Risk/PerUser/Gate.antt =====
-- What the gate in front of every trade of one user lets through.
use meme_agent.Base.{
  ℕ, String, ◌==◌, true, false, ◌≡◌, refl, Option, none, some, List, [], ◌∷◌, ◌++◌, elem, arith,
}
use meme_agent.Core.Errors.{ok}
use meme_agent.Core.Types.{autonomous_delegated, same_capability}
use meme_agent.Float.{FloatOps, IsOrdered, ◌+◌, ◌≼◌, dec}
use meme_agent.Float.Order.{le-of-not-lt}
use meme_agent.Domain.Trade.{UnsignedTransaction}
use meme_agent.Risk.Model.{RiskLimits}
use meme_agent.Wallets.Policy.{
  WalletAuthorization, violations, is_active, transaction_codes, binding_codes,
}
use meme_agent.Wallets.Submission.{
  only_chain, Permitted, append-nil_parts, transaction_codes-Permitted, binding_codes-active,
}
use meme_agent.Risk.PerUser.{
  PlatformCeilings, LocalCeilings, UserPolicyContext, switch_codes, binding_violations,
  effective_codes, effective, reasons, unique, refuse_or_return, authorize_trade,
}

unique-nil : (xs : List String) → unique [] xs ≡ [] → xs ≡ []
unfolding unique
unique-nil [] h = refl
unique-nil (x ∷ xs) h = cc

accepted :
    {A : Type 0} (a b : A) (codes : List String)
    → refuse_or_return a codes ≡ ok b
    → (a ≡ b) × (codes ≡ [])
accepted a b [] h = (cc, refl)
accepted a b (c ∷ cs) h = cc

module _ {F : Type 0} ⦃n : FloatOps F⦄ (order : IsOrdered F) where
  -- No switch of the user's is thrown, and a live trade has an autonomous authorization.
  pub record SwitchedOn (ctx : UserPolicyContext F) (auth : WalletAuthorization F) : Type 0 where
    pub no_emergency : ctx.emergency_stop ≡ false
    pub no_pause : ctx.global_pause ≡ false
    pub autonomous_when_live :
        ctx.mode == "LIVE" ≡ true → same_capability auth.capability autonomous_delegated ≡ true

  -- The authorization is for the wallet of the user.
  pub record IsBound (ctx : UserPolicyContext F) (auth : WalletAuthorization F) : Type 0 where
    pub wallet_bound : auth.wallet_id == ctx.wallet_id ≡ true
    pub provider_bound : auth.provider == ctx.wallet_provider ≡ true

  -- The trade keeps within the effective limits.
  pub record Within (tx : UnsignedTransaction F) (eff : RiskLimits F) : Type 0 where
    pub amount_le : tx.amount_usdc ≼ eff.max_trade_usdc + dec 1 9
    pub slippage_le : tx.slippage_pct ≼ eff.max_slippage_pct + dec 1 9
    pub chain_in : elem tx.chain eff.allowed_chains ≡ true

  switch_codes-SwitchedOn :
      (ctx : UserPolicyContext F) (auth : WalletAuthorization F)
      → switch_codes ctx (some auth) ≡ []
      → SwitchedOn ctx auth
  unfolding switch_codes
  switch_codes-SwitchedOn ctx auth h = ground arith

  binding_violations-IsBound :
      (ctx : UserPolicyContext F) (user wallet address : Option String)
      (auth : WalletAuthorization F)
      → binding_violations ctx user wallet address (some auth) ≡ []
      → IsBound ctx auth
  unfolding binding_violations
  binding_violations-IsBound ctx user wallet address auth h = ground arith

  effective_codes-Within :
      (tx : UnsignedTransaction F) (eff : RiskLimits F)
      → effective_codes tx eff ≡ []
      → Within tx eff
  unfolding effective_codes
  effective_codes-Within tx eff h = ground (
    arith,
    le-of-not-lt order tx.amount_usdc (eff.max_trade_usdc + dec 1 9),
    le-of-not-lt order tx.slippage_pct (eff.max_slippage_pct + dec 1 9),
  )

  -- Everything that a trade which the gate lets through satisfies.
  pub record Authorized (ctx : UserPolicyContext F) (tx : UnsignedTransaction F)
      (auth : WalletAuthorization F) (now : ℕ) (eff : RiskLimits F) : Type 0 where
    pub switched_on : SwitchedOn ctx auth
    pub bound : IsBound ctx auth
    pub active : is_active auth now ≡ true
    pub permitted : Permitted order tx auth.policy
    pub within : Within tx eff

  reasons-Authorized :
      (platform : PlatformCeilings F) (ctx : UserPolicyContext F) (tx : UnsignedTransaction F)
      (auth : Option (WalletAuthorization F)) (now : ℕ) (chain_id : Option ℕ) (user : Option String)
      (local : Option (LocalCeilings F))
      → reasons platform ctx tx auth now chain_id user local ≡ []
      → (a : WalletAuthorization F) × ((auth ≡ some a)
          × Authorized ctx tx a now (effective platform ctx local))
  unfolding reasons violations
  reasons-Authorized platform ctx tx none now chain_id user local h =
      let (_, later) = append-nil_parts (switch_codes ctx none) _ h in
      let (_, last) = append-nil_parts (binding_violations ctx _ _ _ none) _ later in cc
  reasons-Authorized platform ctx tx (some a) now chain_id user local h =
      let (on, h1) = append-nil_parts (switch_codes ctx (some a)) _ h in
      let (own, h2) = append-nil_parts (binding_violations ctx _ _ _ (some a)) _ h1 in
      let (allowed, within) =
        append-nil_parts
          (binding_codes a now (only_chain chain_id) ++ transaction_codes tx a.policy chain_id) _
          h2 in
      let (live, permitted) =
        append-nil_parts (binding_codes a now (only_chain chain_id)) _ allowed in
      (
        a,
        (
          refl,
          record {
            switched_on = switch_codes-SwitchedOn ctx a on;
            bound = binding_violations-IsBound ctx _ _ _ a own;
            active = binding_codes-active order a now (only_chain chain_id) live;
            permitted = transaction_codes-Permitted order tx a.policy chain_id permitted;
            within = effective_codes-Within tx _ within;
          },
        ),
      )

  -- A trade that the gate lets through has an authorization (in paper mode too) that is active, for the
  -- user's wallet and provider, and autonomous in live mode; no switch is thrown; the authorization's
  -- policy permits the trade, which keeps within the effective limits, and these are what is returned.
  pub authorize_trade-Authorized :
      (platform : PlatformCeilings F) (ctx : UserPolicyContext F) (tx : UnsignedTransaction F)
      (auth : Option (WalletAuthorization F)) (now : ℕ) (chain_id : Option ℕ) (user : Option String)
      (local : Option (LocalCeilings F)) (eff : RiskLimits F)
      → authorize_trade platform ctx tx auth now chain_id user local ≡ ok eff
      → (effective platform ctx local ≡ eff)
        × ((a : WalletAuthorization F) × ((auth ≡ some a)
              × Authorized ctx tx a now (effective platform ctx local)))
  unfolding authorize_trade
  authorize_trade-Authorized platform ctx tx auth now chain_id user local eff h =
      let (same, clear) = accepted _ eff _ h in
      (same, reasons-Authorized platform ctx tx auth now chain_id user local (unique-nil _ clear))
