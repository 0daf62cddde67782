-- ===== src/Wallets/Submission.antt =====
-- `WalletProvider.submit` of backend/app/wallets/base.py, over any provider: its capabilities, its
-- authorization and its own `_submit` are the arguments of the section.
use meme_agent.Base.{
  ℕ, text_or_empty, String, ◌==◌, true, not, ◌||◌, ◌≡◌, refl, Option, none, some, List, [], ◌∷◌,
  ◌++◌, elem, any, map, lower, if◌then◌else◌, arith,
}
use meme_agent.Core.Errors.{Result, ok, raised, policy_violation, ◌>>=◌}
use meme_agent.Core.Types.{WalletCapability, same_capability}
use meme_agent.Core.Outcomes.{>>=-eq-ok}
use meme_agent.Float.{FloatOps, IsOrdered, ◌+◌, ◌≼◌, dec}
use meme_agent.Float.Order.{le-of-not-lt}
use meme_agent.Domain.Trade.{UnsignedTransaction}
use meme_agent.Wallets.Policy.{
  WalletPolicy, WalletAuthorization, Expected, nonempty_set, is_active, is_approve, binding_codes,
  transaction_codes, violations,
}

-- What the base class calls of a concrete provider. `A` is the submission result.
pub record Provider (F A : Type 0) : Type 0 where
  pub capabilities : List WalletCapability
  pub get_authorization : Result (Option (WalletAuthorization F))
  pub sign_and_send : UnsignedTransaction F → WalletAuthorization F → Result A

-- `submit` asks for the chain id and for nothing else.
abbrev pub only_chain : Option ℕ → Expected
only_chain chain_id = record {
  chain_id = chain_id;
  user_id = none;
  wallet_id = none;
  wallet_address = none;
}

module _ {F A : Type 0} ⦃n : FloatOps F⦄ where
  -- After the policy check; `assert auth is not None` cannot fail there.
  abbrev pub send_if_capable :
      Provider F A → UnsignedTransaction F → Option (WalletAuthorization F) → Result A
  send_if_capable w tx none = raised (policy_violation [])
  send_if_capable w tx (some auth) =
      if not (any (λ c. same_capability c auth.capability) w.capabilities)
      then raised (policy_violation ("CAPABILITY_NOT_SUPPORTED_BY_PROVIDER" ∷ []))
      else w.sign_and_send tx auth

  abbrev pub refuse_or_send :
      Provider F A → UnsignedTransaction F → Option (WalletAuthorization F) → List String → Result A
  refuse_or_send w tx auth [] = send_if_capable w tx auth
  refuse_or_send w tx auth (code ∷ codes) = raised (policy_violation (code ∷ codes))

  unfoldable pub submit : Provider F A → UnsignedTransaction F → ℕ → Option ℕ → Result A
  submit w tx now chain_id = do
    auth ← w.get_authorization
    refuse_or_send w tx auth (violations tx auth now (only_chain chain_id))

pub append-nil_parts : (xs ys : List String) → xs ++ ys ≡ [] → (xs ≡ []) × (ys ≡ [])
append-nil_parts [] ys h = (refl, h)
append-nil_parts (x ∷ xs) ys h = cc

module _ {F : Type 0} ⦃n : FloatOps F⦄ (order : IsOrdered F) where
  -- What a transaction without violations satisfies under a policy.
  pub record Permitted (tx : UnsignedTransaction F) (p : WalletPolicy F) : Type 0 where
    pub chain_allowed : elem tx.chain p.allowed_chains ≡ true
    pub routed : (elem (lower tx.to) (map lower p.allowed_routers) || is_approve tx) ≡ true
    pub amount_le : tx.amount_usdc ≼ p.max_trade_usdc + dec 1 9
    pub slippage_le : tx.slippage_pct ≼ p.max_slippage_pct + dec 1 9
    pub function_allowed :
        nonempty_set p.allowed_functions ≡ true
        → elem (text_or_empty tx.function_signature) p.allowed_functions ≡ true
    pub from_adapter : tx.built_by == "deterministic-adapter" ≡ true

  pub transaction_codes-Permitted :
      (tx : UnsignedTransaction F) (p : WalletPolicy F) (chain_id : Option ℕ)
      → transaction_codes tx p chain_id ≡ []
      → Permitted tx p
  unfolding transaction_codes
  transaction_codes-Permitted tx p chain_id h = ground (
    arith,
    le-of-not-lt order tx.amount_usdc (p.max_trade_usdc + dec 1 9),
    le-of-not-lt order tx.slippage_pct (p.max_slippage_pct + dec 1 9),
  )

  pub binding_codes-active :
      (auth : WalletAuthorization F) (now : ℕ) (want : Expected)
      → binding_codes auth now want ≡ []
      → is_active auth now ≡ true
  unfolding binding_codes
  binding_codes-active auth now want h = ground arith

  capable :
      {A : Type 0} (w : Provider F A) (tx : UnsignedTransaction F) (auth : WalletAuthorization F)
      (result : A)
      → send_if_capable w tx (some auth) ≡ ok result
      → (any (λ c. same_capability c auth.capability) w.capabilities ≡ true)
        × (w.sign_and_send tx auth ≡ ok result)
  capable w tx auth result h = ground arith

  clear_codes :
      {A : Type 0} (w : Provider F A) (tx : UnsignedTransaction F)
      (auth : Option (WalletAuthorization F)) (codes : List String) (result : A)
      → refuse_or_send w tx auth codes ≡ ok result
      → (codes ≡ []) × (send_if_capable w tx auth ≡ ok result)
  clear_codes w tx auth [] result h = (refl, h)
  clear_codes w tx auth (c ∷ cs) result h = cc

  abbrev pub Submitted :
      {A : Type 0} → Provider F A → UnsignedTransaction F → ℕ → A → WalletAuthorization F → Type 0
  Submitted w tx now result auth =
      (w.get_authorization ≡ ok (some auth))
      × (is_active auth now ≡ true)
      × Permitted tx auth.policy
      × (any (λ c. same_capability c auth.capability) w.capabilities ≡ true)
      × (w.sign_and_send tx auth ≡ ok result)

  submitted :
      {A : Type 0} (w : Provider F A) (tx : UnsignedTransaction F) (now : ℕ) (chain_id : Option ℕ)
      (auth : Option (WalletAuthorization F)) (result : A)
      → w.get_authorization ≡ ok auth
      → refuse_or_send w tx auth (violations tx auth now (only_chain chain_id)) ≡ ok result
      → (a : WalletAuthorization F) × Submitted w tx now result a
  unfolding violations
  submitted w tx now chain_id none result found h = cc
  submitted w tx now chain_id (some auth) result found h =
      let (none_bad, sent) = clear_codes w tx (some auth) _ result h in
      let (bound, permitted) =
        append-nil_parts (binding_codes auth now (only_chain chain_id)) _ none_bad in
      let (able, done) = capable w tx auth result sent in
      (
        auth,
        (
          found,
          binding_codes-active auth now (only_chain chain_id) bound,
          transaction_codes-Permitted tx auth.policy chain_id permitted,
          able,
          done,
        ),
      )

  -- A submission that succeeds went to the provider's own signing with an active authorization whose
  -- capability the provider has, for a transaction that its policy permits.
  pub submit-Permitted :
      {A : Type 0} (w : Provider F A) (tx : UnsignedTransaction F) (now : ℕ) (chain_id : Option ℕ)
      (result : A)
      → submit w tx now chain_id ≡ ok result
      → (auth : WalletAuthorization F) × Submitted w tx now result auth
  unfolding submit
  submit-Permitted w tx now chain_id result h =
      let (auth, (found, sent)) = >>=-eq-ok _ w.get_authorization h in
      submitted w tx now chain_id auth result found sent
