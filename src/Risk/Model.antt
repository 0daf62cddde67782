-- ===== src/Risk/Model.antt =====
-- The data of backend/app/risk/engine.py. A flag keeps its rule, category and severity; the message,
-- value and threshold, which are shown and never read, are left out.
use meme_agent.Base.{ℕ, String, Bool, true, false, List, [], ◌∷◌, if◌then◌else◌}
use meme_agent.Core.Types.{RiskCategory, RiskDecision, Severity, warn, veto, TradingMode, Side}
use meme_agent.Float.{FloatOps, num, dec}
use meme_agent.Domain.Market.{MarketState}
use meme_agent.Portfolio.Controls.{ControlState}
use meme_agent.Portfolio.State.{PortfolioState}

pub record RiskLimits (F : Type 0) : Type 0 where
  pub max_trade_usdc : F
  pub max_position_usdc : F
  pub max_daily_loss_usdc : F
  pub max_total_exposure_usdc : F
  pub max_open_positions : ℕ
  pub max_chain_exposure_usdc : F
  pub max_launchpad_exposure_usdc : F
  pub max_slippage_pct : F
  pub min_liquidity_usdc : F
  pub max_trade_liquidity_ratio : F
  pub max_price_impact_pct : F
  pub max_total_cost_pct : F
  pub cooldown_seconds : ℕ
  pub max_data_age_seconds : F
  pub min_token_age_seconds : F
  pub max_price_change_5m_chase_pct : F
  pub max_liquidity_drop_5m_pct : F
  pub max_top10_holder_pct : F
  pub warn_top5pct_holders_pct : F
  pub warn_top20pct_holders_pct : F
  pub warn_top30pct_holders_pct : F
  pub min_buys_for_one_sided_check : ℕ
  pub min_holder_count : ℕ
  pub max_creator_sold_pct : F
  pub max_creator_balance_pct : F
  pub max_tax_pct : F
  pub max_mev_score : F
  pub require_contract_verified : Bool
  pub veto_active_mint_authority : Bool
  pub veto_pausable : Bool
  pub veto_blacklist_capability : Bool
  pub allowed_chains : List String
  pub allowed_launchpads : List String
  pub non_tradable_addresses : List String

-- The defaults of `RiskLimits()`.
abbrev pub default_limits : {F : Type 0} ⦃n : FloatOps F⦄ → RiskLimits F
default_limits = record {
  max_trade_usdc = num 3;
  max_position_usdc = num 3;
  max_daily_loss_usdc = num 50;
  max_total_exposure_usdc = num 5;
  max_open_positions = 5;
  max_chain_exposure_usdc = num 3;
  max_launchpad_exposure_usdc = num 100;
  max_slippage_pct = num 2;
  min_liquidity_usdc = num 10_000;
  max_trade_liquidity_ratio = dec 1 2;
  max_price_impact_pct = num 2;
  max_total_cost_pct = num 5;
  cooldown_seconds = 300;
  max_data_age_seconds = num 30;
  min_token_age_seconds = num 180;
  max_price_change_5m_chase_pct = num 150;
  max_liquidity_drop_5m_pct = num 25;
  max_top10_holder_pct = num 60;
  warn_top5pct_holders_pct = num 80;
  warn_top20pct_holders_pct = num 92;
  warn_top30pct_holders_pct = num 96;
  min_buys_for_one_sided_check = 5;
  min_holder_count = 20;
  max_creator_sold_pct = num 20;
  max_creator_balance_pct = num 30;
  max_tax_pct = num 10;
  max_mev_score = dec 7 1;
  require_contract_verified = false;
  veto_active_mint_authority = true;
  veto_pausable = true;
  veto_blacklist_capability = true;
  allowed_chains = "arc" ∷ [];
  allowed_launchpads = [];
  non_tradable_addresses =
      "0x3600000000000000000000000000000000000000" ∷ "0x0000000000000000000000000000000000000000"
      ∷ "0xeeeeeeeeeeeeeeeeeeeeeeeeeeeeeeeeeeeeeeee" ∷ [];
}

pub record RiskFlag : Type 0 where
  pub rule : String
  pub category : RiskCategory
  pub severity : Severity

abbrev pub flag_of : Severity → String → RiskCategory → RiskFlag
flag_of s rule cat = record { rule = rule; category = cat; severity = s }

-- `_veto` and `_warn` in a list of their own, under a test.
abbrev pub veto_if : Bool → String → RiskCategory → List RiskFlag
veto_if b rule cat = if b then flag_of veto rule cat ∷ [] else []

abbrev pub warn_if : Bool → String → RiskCategory → List RiskFlag
warn_if b rule cat = if b then flag_of warn rule cat ∷ [] else []

pub record TradeIntent (F : Type 0) : Type 0 where
  pub side : Side
  pub amount_usdc : F
  pub max_slippage_pct : F
  pub mode : TradingMode
  pub strategy_id : String

pub record RiskContext (F : Type 0) : Type 0 where
  pub market : MarketState F
  pub intent : TradeIntent F
  pub portfolio : PortfolioState F
  pub limits : RiskLimits F
  pub controls : ControlState
  pub now : ℕ

pub record RiskAssessment (F : Type 0) : Type 0 where
  pub decision : RiskDecision
  pub flags : List RiskFlag
  pub risk_score : F
  pub side : Side
  pub token_address : String
  pub amount_usdc : F
  pub mode : TradingMode
