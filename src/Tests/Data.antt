-- ===== src/Tests/Data.antt =====
-- A market, a portfolio, limits and trades over fixed-point numbers.
use Prim.Native.String
use meme_agent.Base.{ℕ, true, false, none, some, [], ◌∷◌}
use meme_agent.Core.Types.{paper, buy, sell, autonomous_delegated}
use meme_agent.Float.{num, dec, neg}
use meme_agent.Float.Fixed.{Fixed, fixed_ops}
use meme_agent.Domain.Market.{MarketState, ContractInfo}
use meme_agent.Domain.Trade.{TradeRequest, UnsignedTransaction}
use meme_agent.Portfolio.Controls.{ControlState}
use meme_agent.Portfolio.Position.{Position}
use meme_agent.Portfolio.State.{PortfolioState}
use meme_agent.Portfolio.Mutations.{Buy}
use meme_agent.Portfolio.Exits.{ExitConfig}
use meme_agent.Risk.Model.{RiskContext, TradeIntent, default_limits}
use meme_agent.Risk.Approval.{Signer}
use meme_agent.Wallets.Policy.{WalletPolicy, WalletAuthorization}
use meme_agent.Risk.PerUser.{UserPolicyContext, LocalCeilings}
use meme_agent.Execution.Paper.{PaperConfig, PaperState, Draws}

-- Ten days after the epoch, in microseconds.
abbrev pub noon : ℕ
noon = 864_000_000_000

abbrev pub contract : ContractInfo Fixed
contract = record {
  verified = some true;
  mint_authority_active = some false;
  pausable = some false;
  blacklist_capability = some false;
  transfer_restricted = some false;
  buy_tax_pct = some (num 1);
  sell_tax_pct = some (num 1);
  is_proxy = some false;
  sell_simulation_ok = some true;
}

abbrev pub market : MarketState Fixed
market = record {
  chain = "arc";
  token_address = "0xAb";
  timestamp = noon;
  launchpad = none;
  creator_address = none;
  token_created_at = some 0;
  price = some (num 2);
  market_cap = some (num 200_000);
  liquidity = some (num 50_000);
  liquidity_change_5m_pct = some (num 1);
  volume_5m = some (num 100);
  volume_15m = some (num 300);
  buy_volume_5m = some (num 60);
  sell_volume_5m = some (num 40);
  buys_5m = some 9;
  sells_5m = some 6;
  unique_buyers_1m = some 2;
  unique_buyers_5m = some 8;
  unique_buyers_15m = some 9;
  unique_buyers_prev_5m = some 6;
  unique_sellers_5m = some 5;
  unique_sellers_15m = some 6;
  windows = [];
  liquidity_growth = ("1h", num 3) ∷ [];
  market_cap_growth = [];
  holder_count = some 200;
  holder_growth = [];
  holder_growth_pct = some (num 2);
  top_5pct_holders_pct = some (num 30);
  top_20pct_holders_pct = some (num 50);
  top_30pct_holders_pct = some (num 60);
  top10_holder_pct = some (num 20);
  creator_known = true;
  creator_balance_pct = some (num 2);
  creator_sold_pct = some (num 0);
  price_change_5m = some (num 4);
  price_change_15m = some (num 3);
  recent_high = some (num 3);
  volatility_pct = some (num 10);
  contract = contract;
  expected_price_impact_pct = some (dec 1 1);
  mev_risk_score = some (dec 1 1);
  buy_sell_basis = none;
  is_demo = false;
}

-- A position bought at 2 and marked at 1, with its peak at 3.
abbrev pub fallen : Position Fixed
fallen = record {
  id = "p1";
  mode = paper;
  chain = "arc";
  launchpad = none;
  token_address = "0xcd";
  opened_at = 1_000_000;
  entry_price = num 2;
  quantity = num 1;
  initial_quantity = num 1;
  cost_basis_usdc = num 2;
  total_invested_usdc = num 2;
  realized_pnl_usdc = num 0;
  peak_price = num 3;
  last_price = num 1;
  last_new_high_at = 2_000_000;
  tiers_hit = [];
  status = "OPEN";
  strategy_id = "traction";
  strategy_version = 1;
  decision_id = "d0";
  closed_at = none;
  exit_reason = none;
}

abbrev pub empty_portfolio : PortfolioState Fixed
empty_portfolio = record {
  mode = paper;
  starting_cash = num 20;
  cash_usdc = num 20;
  positions = [];
  closed = [];
  realized_today = num 0;
  realized_total = num 0;
  day = none;
  last_trade_at = [];
  pending_tokens = [];
}

-- It has paid 2 for `fallen`.
abbrev pub holding : PortfolioState Fixed
holding = record empty_portfolio { cash_usdc = num 18; positions = ("p1", fallen) ∷ [] }

abbrev pub purchase : Buy Fixed
purchase = record {
  chain = "arc";
  launchpad = none;
  token = "0xAb";
  qty = num 1;
  price = num 2;
  cost_usdc = num 2;
  strategy_id = "traction";
  strategy_version = 1;
  decision_id = "d1";
}

abbrev pub exit_config : ExitConfig Fixed
exit_config = record {
  hard_stop_pct = num 20;
  tiers = record { gain_pct = num 50; sell_pct_of_initial = num 50 } ∷ [];
  trailing_stop_pct = num 30;
  trailing_activation_gain_pct = num 40;
  stagnation_seconds = 60;
  stagnation_min_gain_pct = num 5;
  stagnation_trend_guard = true;
  momentum_exit_price_change_5m_pct = neg (num 10);
  momentum_exit_max_buy_sell_ratio = dec 5 1;
  liquidity_drop_exit_pct = num 40;
  exit_max_slippage_pct = num 5;
}

abbrev pub controls : ControlState
controls = record {
  emergency_stop = false;
  global_pause = false;
  paused_strategies = [];
  paused_chains = [];
  blacklisted_tokens = [];
  blacklisted_creators = [];
  blacklisted_launchpads = [];
}

abbrev pub entry : TradeIntent Fixed
entry = record {
  side = buy;
  amount_usdc = num 2;
  max_slippage_pct = num 1;
  mode = paper;
  strategy_id = "traction";
}

abbrev pub context : RiskContext Fixed
context = record {
  market = market;
  intent = entry;
  portfolio = holding;
  limits = default_limits;
  controls = controls;
  now = noon;
}

-- A policy that allows trades of up to 5 on one router.
abbrev pub wallet_policy : WalletPolicy Fixed
wallet_policy = record {
  allocated_capital_usdc = num 20;
  max_trade_usdc = num 5;
  max_position_usdc = num 10;
  max_daily_loss_usdc = num 10;
  max_open_positions = 3;
  max_slippage_pct = num 1;
  min_liquidity_usdc = num 20_000;
  allowed_chains = "arc" ∷ [];
  allowed_launchpads = "pump" ∷ [];
  allowed_routers = "0xr1" ∷ [];
  allowed_functions = [];
}

abbrev pub authorization : WalletAuthorization Fixed
authorization = record {
  wallet_id = "w1";
  provider = "circle";
  capability = autonomous_delegated;
  policy = wallet_policy;
  expires_at = none;
  revoked_at = none;
  user_id = some "u1";
  wallet_address = some "0xa1";
}

abbrev pub user : UserPolicyContext Fixed
user = record {
  user_id = "u1";
  wallet_id = "w1";
  wallet_address = "0xa1";
  wallet_provider = "circle";
  risk_limits = default_limits;
  wallet_policy = some wallet_policy;
  emergency_stop = false;
  global_pause = false;
  mode = "LIVE";
}

abbrev pub local_ceilings : LocalCeilings Fixed
local_ceilings = record {
  max_trade_usdc = num 2;
  max_position_usdc = num 4;
  max_daily_loss_usdc = num 5;
  max_total_exposure_usdc = num 8;
  max_open_positions = 2;
  max_slippage_pct = num 2;
  min_liquidity_usdc = num 10_000;
  allowed_chains = "arc" ∷ "base" ∷ [];
}

abbrev pub transaction : UnsignedTransaction Fixed
transaction = record {
  chain = "arc";
  chain_id = 5042;
  to = "0xr1";
  calldata = "0xabcd";
  token_address = "0xab";
  amount_usdc = num 2;
  slippage_pct = num 1;
  built_by = "deterministic-adapter";
  function_signature = none;
  purpose = none;
}

-- A stand-in for the JSON text and the HMAC.
abbrev pub signer : Signer Fixed
signer = record {
  model_dump_json = λ req. req.idempotency_key;
  hmac_hex = λ key message. String.◌++◌ key message;
}

abbrev pub paper_config : PaperConfig Fixed
paper_config = record {
  signer = signer;
  key = "secret of sixteen";
  fee_bps = num 30;
  extra_slip_bps = num 10;
  max_fill_ratio = dec 2 2;
}

abbrev pub draws : Draws
draws = record { order_id = "o1"; position_id = "p2"; now = noon; at = noon }

abbrev pub buy_request : TradeRequest Fixed
buy_request = record {
  idempotency_key = "k1";
  mode = paper;
  chain = "arc";
  token_address = "0xAb";
  side = buy;
  amount_usdc = some (num 3);
  quantity = none;
  max_slippage_pct = num 1;
  reference_price = some (num 2);
  reference_liquidity_usdc = some (num 50_000);
  launchpad = none;
  decision_id = "d1";
  strategy_id = "traction";
  strategy_version = 1;
  position_id = none;
  venue = none;
  max_price_impact_pct = none;
  max_total_cost_pct = none;
}

abbrev pub sell_request : TradeRequest Fixed
sell_request = record buy_request {
  idempotency_key = "k2";
  side = sell;
  amount_usdc = none;
  quantity = some (num 1);
  position_id = some "p1";
}

abbrev pub paper_state : PaperState Fixed
paper_state = record { portfolio = holding; results = []; orders = [] }
