-- ===== src/Portfolio/Exits/Profiles.antt =====
-- The exit profiles of `ExitConfig` in backend/app/portfolio/exits.py, by the kind of token.
use meme_agent.Base.{true, false, [], ◌∷◌, ℕ}
use meme_agent.Float.{FloatOps, neg, num}
use meme_agent.Portfolio.Exits.{ExitConfig, TakeProfitTier}

module _ {F : Type 0} ⦃n : FloatOps F⦄ where
  abbrev pub tier : ℕ → ℕ → TakeProfitTier F
  tier gain sell = record { gain_pct = num gain; sell_pct_of_initial = num sell }

  abbrev pub launch : ExitConfig F
  launch = record {
    hard_stop_pct = num 20;
    tiers = tier 30 15 ∷ tier 60 20 ∷ tier 100 25 ∷ tier 200 25 ∷ [];
    trailing_stop_pct = num 20;
    trailing_activation_gain_pct = num 30;
    stagnation_seconds = 1800;
    stagnation_min_gain_pct = num 10;
    stagnation_trend_guard = false;
    momentum_exit_price_change_5m_pct = neg (num 8);
    momentum_exit_max_buy_sell_ratio = num 1;
    liquidity_drop_exit_pct = num 40;
    exit_max_slippage_pct = num 15;
  }

  abbrev pub swing : ExitConfig F
  swing = record {
    hard_stop_pct = num 15;
    tiers = tier 10 20 ∷ tier 25 25 ∷ tier 50 25 ∷ tier 100 15 ∷ [];
    trailing_stop_pct = num 12;
    trailing_activation_gain_pct = num 12;
    stagnation_seconds = 43_200;
    stagnation_min_gain_pct = num 3;
    stagnation_trend_guard = true;
    momentum_exit_price_change_5m_pct = neg (num 10);
    momentum_exit_max_buy_sell_ratio = num 1;
    liquidity_drop_exit_pct = num 35;
    exit_max_slippage_pct = num 10;
  }

  abbrev pub pullback : ExitConfig F
  pullback = record {
    hard_stop_pct = num 10;
    tiers = tier 6 25 ∷ tier 12 25 ∷ tier 25 25 ∷ tier 50 15 ∷ [];
    trailing_stop_pct = num 7;
    trailing_activation_gain_pct = num 8;
    stagnation_seconds = 28_800;
    stagnation_min_gain_pct = num 2;
    stagnation_trend_guard = true;
    momentum_exit_price_change_5m_pct = neg (num 8);
    momentum_exit_max_buy_sell_ratio = num 1;
    liquidity_drop_exit_pct = num 35;
    exit_max_slippage_pct = num 10;
  }

  abbrev pub breakout : ExitConfig F
  breakout = record {
    hard_stop_pct = num 12;
    tiers = tier 10 20 ∷ tier 20 25 ∷ tier 40 25 ∷ tier 80 15 ∷ [];
    trailing_stop_pct = num 10;
    trailing_activation_gain_pct = num 10;
    stagnation_seconds = 10_800;
    stagnation_min_gain_pct = num 3;
    stagnation_trend_guard = false;
    momentum_exit_price_change_5m_pct = neg (num 8);
    momentum_exit_max_buy_sell_ratio = num 1;
    liquidity_drop_exit_pct = num 35;
    exit_max_slippage_pct = num 10;
  }
