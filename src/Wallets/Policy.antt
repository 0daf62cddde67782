-- ===== src/Wallets/Policy.antt =====
-- `WalletPolicy`, `WalletAuthorization` and `PolicyValidator` of backend/app/wallets/base.py. Sets are
-- lists of texts; fields that no check reads (names, proofs, grant times) are left out.
use meme_agent.Base.{
  ℕ, String, ◌==◌, Bool, true, false, not, ◌&&◌, ◌||◌, Option, none, some, List, [], ◌∷◌, ◌++◌,
  elem, map, lower, text_or_empty, ltb, leb, nat_eq, if◌then◌else◌,
}
use text.Mathlib.Text.{starts_with}
use meme_agent.Core.Types.{WalletCapability}
use meme_agent.Float.{FloatOps, ◌+◌, dec, gt}
use meme_agent.Domain.Trade.{UnsignedTransaction}

pub record WalletPolicy (F : Type 0) : Type 0 where
  pub allocated_capital_usdc : F
  pub max_trade_usdc : F
  pub max_position_usdc : F
  pub max_daily_loss_usdc : F
  pub max_open_positions : ℕ
  pub max_slippage_pct : F
  pub min_liquidity_usdc : F
  pub allowed_chains : List String
  pub allowed_launchpads : List String
  pub allowed_routers : List String
  pub allowed_functions : List String

pub record WalletAuthorization (F : Type 0) : Type 0 where
  pub wallet_id : String
  pub provider : String
  pub capability : WalletCapability
  pub policy : WalletPolicy F
  pub expires_at : Option ℕ
  pub revoked_at : Option ℕ
  pub user_id : Option String
  pub wallet_address : Option String

abbrev revoked_by : Option ℕ → ℕ → Bool
revoked_by none now = false
revoked_by (some t) now = leb t now

abbrev unexpired : Option ℕ → ℕ → Bool
unexpired none now = true
unexpired (some t) now = ltb now t

-- An empty list of violations under a test that holds not.
abbrev pub code_if : Bool → String → List String
code_if b code = if b then code ∷ [] else []

-- `expected is not None and actual is not None and actual != expected`
abbrev pub both_differ : (String → String) → Option String → Option String → Bool
both_differ norm (some expected) (some actual) = not (norm actual == norm expected)
both_differ norm _ _ = false

abbrev pub differs : Option String → String → Bool
differs none actual = false
differs (some expected) actual = not (actual == expected)

abbrev pub differs_ℕ : Option ℕ → ℕ → Bool
differs_ℕ none actual = false
differs_ℕ (some expected) actual = not (nat_eq actual expected)

abbrev pub is_text : Option String → String → Bool
is_text none s = false
is_text (some t) s = t == s

abbrev pub nonempty_set : List String → Bool
nonempty_set [] = false
nonempty_set (s ∷ ss) = true

abbrev pub same : String → String
same s = s

-- What a caller may require of an authorization, besides the policy.
pub record Expected : Type 0 where
  pub chain_id : Option ℕ
  pub user_id : Option String
  pub wallet_id : Option String
  pub wallet_address : Option String

module _ {F : Type 0} where
  unfoldable pub is_active : WalletAuthorization F → ℕ → Bool
  is_active auth now = not (revoked_by auth.revoked_at now) && unexpired auth.expires_at now

  -- An ERC-20 approve goes to the token contract and not to a router.
  unfoldable pub is_approve : UnsignedTransaction F → Bool
  is_approve tx = is_text tx.purpose "erc20_approve" || starts_with (lower tx.calldata) "0x095ea7b3"

module _ {F : Type 0} ⦃n : FloatOps F⦄ where
  unfoldable pub binding_codes : WalletAuthorization F → ℕ → Expected → List String
  binding_codes auth now want =
      code_if (not (is_active auth now)) "AUTHORIZATION_INACTIVE_OR_REVOKED"
      ++ (code_if (both_differ same want.user_id auth.user_id) "AUTH_USER_ID_MISMATCH"
          ++ (code_if (differs want.wallet_id auth.wallet_id) "AUTH_WALLET_ID_MISMATCH"
              ++ code_if (both_differ lower want.wallet_address auth.wallet_address)
                  "AUTH_WALLET_ADDRESS_MISMATCH"))

  unfoldable pub transaction_codes : UnsignedTransaction F → WalletPolicy F → Option ℕ → List String
  transaction_codes tx p chain_id =
      code_if (not (elem tx.chain p.allowed_chains)) "CHAIN_NOT_IN_POLICY"
      ++ (code_if (differs_ℕ chain_id tx.chain_id) "CHAIN_ID_MISMATCH"
          ++ (code_if
                (not (elem (lower tx.to) (map lower p.allowed_routers)) && not (is_approve tx))
                "ROUTER_NOT_ALLOWLISTED"
              ++ (code_if (gt tx.amount_usdc (p.max_trade_usdc + dec 1 9)) "EXCEEDS_MAX_TRADE"
                  ++ (code_if (gt tx.slippage_pct (p.max_slippage_pct + dec 1 9))
                        "EXCEEDS_MAX_SLIPPAGE"
                      ++ (code_if
                            (nonempty_set p.allowed_functions
                              && not
                                  (elem (text_or_empty tx.function_signature) p.allowed_functions))
                            "FUNCTION_NOT_ALLOWLISTED"
                          ++ code_if (not (tx.built_by == "deterministic-adapter"))
                              "TX_NOT_BUILT_BY_ADAPTER")))))

  -- `PolicyValidator.violations`
  unfoldable pub violations :
      UnsignedTransaction F → Option (WalletAuthorization F) → ℕ → Expected → List String
  unfolding binding_codes transaction_codes
  violations tx none now want = "NO_AUTHORIZATION" ∷ []
  violations tx (some auth) now want =
      binding_codes auth now want ++ transaction_codes tx auth.policy want.chain_id
