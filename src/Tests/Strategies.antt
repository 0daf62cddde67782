-- ===== src/Tests/Strategies.antt =====
-- Strategies that score, and choose, on concrete data.
use meme_agent.Base.{
  ℕ, String, true, ◌≡◌, ◌≢◌, refl, Option, some, [], ◌∷◌, get, elem, nat_eq, List, arith,
}
use meme_agent.Float.{num, dec, over}
use meme_agent.Float.Fixed.{Fixed, fixed_ops, of_ℤ}
use meme_agent.Float.Int.{pos}
use meme_agent.Domain.Market.{MarketState, WindowStats}
use meme_agent.Strategies.Signal.{StrategySignal, Identity}
use meme_agent.Strategies.Traction.{TractionMomentumConfig}
use meme_agent.Strategies.Established.{base_gates, base_signal, depth, flow, holders}
use meme_agent.Strategies.Established.Growth.{
  LiquidityGrowthConfig, liquidity_growth_score, confirmation, growth_activity, growth_component,
  growth_gates,
}
use meme_agent.Strategies.Traction
use meme_agent.Strategies.Qualified.{IsEnterable, IsGrowing, qualified-IsEnterable}
use meme_agent.Strategies.Launches.{IsEstablished, HasNoTractionGate, IsLaunched, score-IsLaunched}
use meme_agent.Strategies.Registry.{
  StrategySpec, specs, or_empty, is_known, select_active, exit_configs_for_positions,
}
use meme_agent.Strategies.Selection.{IsRunnable, running_lem}
use meme_agent.Strategies.Versions.{lookup, register_all, register_all-keeps}
use meme_agent.Tests.Data.{noon, market, exit_config}
use meme_agent.Strategies.Signal.{signal, total_from, total_score}
use meme_agent.Float.Int.{scaled_quotient, scaled_times, ◌+ℤ◌, ◌-ℤ◌}
use meme_agent.Strategies.Scales.{inv, lin, recent_activity, wavg, wchg, wvol}
use meme_agent.Domain.Market.{
  age_seconds, buy_sell_count_ratio, buy_sell_volume_ratio, buyers_in, drawdown_from_high_pct,
  has_two_way_trading, sellers_in, sides_in, two_way_loop,
}
use meme_agent.Domain.Market.Flow.{net_pressure}

abbrev log10 : Fixed → Fixed
log10 x = over x (num 10_000)

-- Two sides trade in the last hour, and the liquidity has grown.
abbrev hourly : WindowStats Fixed
hourly = record {
  buyers = some 9;
  sellers = some 4;
  buys = some 12;
  sells = some 5;
  volume_usd = some (num 900);
  buy_volume_usd = some (num 600);
  sell_volume_usd = some (num 300);
  price_change_pct = some (num 3);
}

abbrev growing : MarketState Fixed
growing = record market { windows = ("1h", hourly) ∷ []; liquidity_growth = ("1h", num 12) ∷ [] }

abbrev growth_config : LiquidityGrowthConfig Fixed
growth_config = record {
  base = record {
    id = record { strategy_id = "liquidity_growth"; version = 1 };
    weights =
        ("liquidity_growth", dec 3 1)
        ∷ ("price_confirmation", dec 2 1)
        ∷ ("activity", dec 2 1)
        ∷ ("holder_quality", dec 15 2)
        ∷ ("depth", dec 15 2)
        ∷ [];
    min_score = num 10;
    min_liquidity_usdc = num 20_000;
    min_age_seconds = num 3600;
  };
  min_liquidity_growth_pct = num 5;
  max_price_change_1h_pct = num 40;
  max_price_change_24h_pct = num 150;
}

-- Billionths.
abbrev parts : ℕ → Fixed
parts k = of_ℤ (pos k)

abbrev pub growth_signal : StrategySignal Fixed
growth_signal = record {
  strategy_id = "liquidity_growth";
  strategy_version = 1;
  score = parts 53770000000;
  qualified = true;
  components =
      ("liquidity_growth", some (parts 48000000000))
      ∷ ("price_confirmation", some (parts 54550000000))
      ∷ ("activity", some (parts 26250000000))
      ∷ ("holder_quality", some (parts 54760000000))
      ∷ ("depth", some (parts 100000000000))
      ∷ [];
  weights =
      ("liquidity_growth", parts 300000000)
      ∷ ("price_confirmation", parts 200000000)
      ∷ ("activity", parts 200000000)
      ∷ ("holder_quality", parts 150000000)
      ∷ ("depth", parts 150000000)
      ∷ [];
  gates =
      ("price_present", true)
      ∷ ("liquidity_present", true)
      ∷ ("min_score", true)
      ∷ ("min_age", true)
      ∷ ("recent_activity", true)
      ∷ ("two_way_trading", true)
      ∷ ("holder_not_extreme", true)
      ∷ ("liquidity_growing", true)
      ∷ ("not_overextended", true)
      ∷ [];
  reasons = "all liquidity-growth gates passed" ∷ [];
  data_gaps = [];
}

qualified-IsEnterable_example :
    IsEnterable growth_config.base growing noon growth_signal × IsGrowing growth_config growing
unfolding liquidity_growth_score total_score get signal ◌+ℤ◌ scaled_times growth_component wavg lin
    scaled_quotient ◌-ℤ◌ confirmation wchg growth_activity buyers_in sellers_in wvol flow
    age_seconds has_two_way_trading sides_in two_way_loop base_gates base_signal depth growth_gates
    holders inv recent_activity total_from
qualified-IsEnterable_example =
    (qualified-IsEnterable log10 growing noon growth_signal refl).0 growth_config refl

-- Ten minutes old, with little liquidity, so that it has to show traction.
abbrev fresh_market : MarketState Fixed
fresh_market = record market {
  token_created_at = some (863_400_000_000);
  liquidity = some (num 20_000);
  price_change_5m = some (num 12);
}

abbrev traction_config : TractionMomentumConfig Fixed
traction_config = record {
  id = record { strategy_id = "traction_momentum"; version = 1 };
  weights =
      ("momentum", dec 25 2)
      ∷ ("buyer_growth", dec 2 1)
      ∷ ("buy_sell_pressure", dec 15 2)
      ∷ ("liquidity_quality", dec 15 2)
      ∷ ("holder_distribution", dec 1 1)
      ∷ ("creator_behavior", dec 1 1)
      ∷ ("market_quality", dec 5 2)
      ∷ [];
  min_score = num 25;
  min_unique_buyers_5m = 3;
  full_score_unique_buyers_5m = 40;
  min_buy_sell_volume_ratio = num 1;
  min_age_seconds = num 60;
  momentum_full_score_5m_pct = num 30;
  momentum_full_score_15m_pct = num 60;
  min_liquidity_for_scoring_usdc = num 10_000;
  established_age_seconds = num 3600;
  established_liquidity_usdc = num 25_000;
  unknown_creator_score = num 40;
}

abbrev traction_signal : StrategySignal Fixed
traction_signal = record {
  strategy_id = "traction_momentum";
  strategy_version = 1;
  score = parts 46750000000;
  qualified = true;
  components =
      ("momentum", some (parts 33000000000))
      ∷ ("buyer_growth", some (parts 19570000000))
      ∷ ("buy_sell_pressure", some (parts 29170000000))
      ∷ ("liquidity_quality", some (parts 80880000000))
      ∷ ("holder_distribution", some (parts 68570000000))
      ∷ ("creator_behavior", some (parts 100000000000))
      ∷ ("market_quality", some (parts 24320000000))
      ∷ [];
  weights =
      ("momentum", parts 250000000)
      ∷ ("buyer_growth", parts 200000000)
      ∷ ("buy_sell_pressure", parts 150000000)
      ∷ ("liquidity_quality", parts 150000000)
      ∷ ("holder_distribution", parts 100000000)
      ∷ ("creator_behavior", parts 100000000)
      ∷ ("market_quality", parts 50000000)
      ∷ [];
  gates =
      ("required_data_present", true)
      ∷ ("min_score", true)
      ∷ ("min_age", true)
      ∷ ("min_unique_buyers_5m", true)
      ∷ ("buy_sell_ratio", true)
      ∷ ("positive_5m_momentum", true)
      ∷ [];
  reasons = "all traction gates passed" ∷ [];
  data_gaps = [];
}

score-IsLaunched_example :
    (traction_signal.qualified ≡ true
      → IsLaunched traction_config fresh_market noon traction_signal)
    × (IsEstablished traction_config fresh_market noon
        → HasNoTractionGate traction_config fresh_market noon traction_signal)
unfolding Traction.score drawdown_from_high_pct buy_sell_volume_ratio total_score get signal
    age_seconds wavg lin ◌+ℤ◌ scaled_quotient scaled_times ◌-ℤ◌ inv Traction.buyer_growth
    net_pressure Traction.holders Traction.creator buy_sell_count_ratio total_from
    Traction.established Traction.gates Traction.market_quality Traction.momentum
score-IsLaunched_example =
    score-IsLaunched traction_config fresh_market noon log10 traction_signal refl

abbrev enabled_two : Option (List String)
enabled_two = some ("unheard_of" ∷ "volume_breakout" ∷ [])

running_example :
    IsRunnable (or_empty enabled_two) (select_active enabled_two (some "volume_breakout"))
    × ((get (select_active enabled_two (some "volume_breakout")) (
            exit_configs_for_positions
              (select_active enabled_two (some "volume_breakout"))
              exit_config)
          ≡ some exit_config)
        × (((sid : String) (s : StrategySpec Fixed)
              → select_active enabled_two (some "volume_breakout") ≢ sid
              → get sid specs ≡ some s
              → get sid (
                  exit_configs_for_positions
                    (select_active enabled_two (some "volume_breakout"))
                    exit_config)
                ≡ some s.default_exit)
            × ((p : String)
                → p ≢ ""
                → elem p (or_empty enabled_two) ≡ true
                → is_known p ≡ true
                → select_active enabled_two (some p) ≡ p)))
running_example = running_lem enabled_two (some "volume_breakout") exit_config

nat_eq_sound : (a b : ℕ) → nat_eq a b ≡ true → a ≡ b
nat_eq_sound a b h = ground arith

abbrev version_one : Identity
version_one = record { strategy_id = "liquidity_trend"; version = 1 }

-- Settings 7 and 8 are registered for a version that has settings 7.
register_all_example :
    lookup version_one
      (register_all nat_eq ((version_one, 8) ∷ (version_one, 7) ∷ []) ((version_one, 7) ∷ []))
    ≡ some 7
unfolding lookup
register_all_example =
    register_all-keeps nat_eq nat_eq_sound ((version_one, 8) ∷ (version_one, 7) ∷ []) version_one 7
      ((version_one, 7) ∷ []) refl
