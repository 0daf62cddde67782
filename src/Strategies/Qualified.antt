-- ===== src/Strategies/Qualified.antt =====
-- What a signal of a strategy for established tokens promises when it qualifies.
use meme_agent.Base.{
  ℕ, ◌≡◌, refl, String, Bool, true, false, ◌&&◌, ◌≢◌, Option, none, some, ◌++◌, get, Dict, subst,
  arith,
}
use meme_agent.Core.Errors.{ok}
use meme_agent.Core.Outcomes.{>>=-eq-ok, ok-injective}
use meme_agent.Float.{FloatOps, gt, num, ◌≼◌, round}
use meme_agent.Domain.Market.{MarketState, age_seconds, has_two_way_trading}
use meme_agent.Strategies.Scales.{wchg, recent_activity}
use meme_agent.Strategies.Signal.{StrategySignal, signal, total_score}
use meme_agent.Strategies.Established.{BaseConfig, base_gates, base_signal}
use meme_agent.Strategies.Established.Growth.{
  LiquidityGrowthConfig, larger, growth_gates, liquidity_growth_score,
}
use meme_agent.Strategies.Established.Pullback.{
  TrendPullbackConfig, between, pullback_gates, trend_pullback_score,
}
use meme_agent.Strategies.Established.Breakout.{
  VolumeBreakoutConfig, surge_ratio, breakout_gates, volume_breakout_score, trade_share,
}
use meme_agent.Strategies.Trend
use meme_agent.Strategies.Trend.{LiquidityTrendConfig}
use meme_agent.Strategies.Gates.{
  AllPass, failed_gates-AllPass, AllPass-append, not_one_way-true, known_active, IsAtLeast,
  IsAtLeastIfKnown, IsWithinIfKnown, positive-true, reaches-true, unknown_or_reaches-true,
  unknown_or_within-true,
}

both : (a b : Bool) → (a && b) ≡ true → (a ≡ true) × (b ≡ true)
both a b h = ground arith

module _ {F : Type 0} ⦃n : FloatOps F⦄ where
  -- A market that may be entered: priced, liquid enough, old enough, and not known to be one-sided,
  -- idle or held by ten wallets.
  pub record IsEnterable (c : BaseConfig F) (m : MarketState F) (now : ℕ) (s : StrategySignal F)
      : Type 0 where
    pub priced : (p : F) × ((m.price ≡ some p) × (gt p (num 0) ≡ true))
    pub liquid : IsAtLeast m.liquidity c.min_liquidity_usdc
    pub scored : (total : F) × ((s.score ≡ round total 2) × (c.min_score ≼ total))
    pub aged : IsAtLeastIfKnown (age_seconds m now) c.min_age_seconds
    pub alive : (recent_activity m).0 ≡ true → (recent_activity m).1 ≡ true
    pub two_way : has_two_way_trading m ≢ some false
    pub spread : IsWithinIfKnown m.top10_holder_pct (num 95)

  pub base_gates-IsEnterable :
      (c : BaseConfig F) (m : MarketState F) (now : ℕ) (s : StrategySignal F) (total : F)
      → s.score ≡ round total 2
      → AllPass (base_gates c m now total)
      → IsEnterable c m now s
  unfolding base_gates
  base_gates-IsEnterable c m now s total e (price, (liq, (score, (age, (act, (two, (top, _))))))) =
      record {
        priced = positive-true _ price;
        liquid = reaches-true _ _ liq;
        scored = (total, (e, score));
        aged = unknown_or_reaches-true _ _ age;
        alive = known_active _ _ act;
        two_way = not_one_way-true _ two;
        spread = unknown_or_within-true _ _ top;
      }

  base_signal-IsEnterable :
      (c : BaseConfig F) (m : MarketState F) (now : ℕ) (comps : Dict (Option F)) (extra : Dict Bool)
      (text : String) (s : StrategySignal F)
      → base_signal c m now comps extra text ≡ ok s
      → s.qualified ≡ true
      → IsEnterable c m now s × AllPass extra
  unfolding base_signal signal
  base_signal-IsEnterable c m now comps extra text s h =
      let (total, (summed, made)) = >>=-eq-ok _ (total_score c.weights comps) h in
      subst (λ s. s.qualified ≡ true → IsEnterable c m now s × AllPass extra)
        (ok-injective _ s made)
        (λ q.
          let (base, own) =
            AllPass-append (base_gates c m now total) extra
              (failed_gates-AllPass (base_gates c m now total ++ extra) q) in
          (base_gates-IsEnterable c m now _ total refl base, own))

  -- Liquidity that grows, before the price has run away.
  pub record IsGrowing (c : LiquidityGrowthConfig F) (m : MarketState F) : Type 0 where
    pub growing :
        IsAtLeast
          (larger (get "1h" m.liquidity_growth) (get "6h" m.liquidity_growth))
          c.min_liquidity_growth_pct
    pub hour_within : IsWithinIfKnown (wchg m "1h") c.max_price_change_1h_pct
    pub day_within : IsWithinIfKnown (wchg m "24h") c.max_price_change_24h_pct

  -- A dip of the last hour within an uptrend.
  pub record IsDipping (c : TrendPullbackConfig F) (m : MarketState F) : Type 0 where
    pub up_6h : IsAtLeast (wchg m "6h") c.min_trend_6h_pct
    pub up_24h : IsAtLeastIfKnown (wchg m "24h") c.min_trend_24h_pct
    pub dip :
        (x : F) × ((wchg m "1h" ≡ some x)
          × ((c.pullback_floor_1h_pct ≼ x) × (x ≼ c.pullback_max_1h_pct)))

  -- A surge of the volume that buyers drive and that has not run away.
  pub record IsBreakingOut (c : VolumeBreakoutConfig F) (m : MarketState F) : Type 0 where
    pub surging : (r : Option F) × ((surge_ratio m ≡ ok r) × IsAtLeast r c.min_volume_surge)
    pub buyers_lead : IsAtLeastIfKnown (trade_share (get "1h" m.windows)) c.min_buy_share_1h
    pub not_exhausted : IsWithinIfKnown (wchg m "1h") c.max_price_change_1h_pct

  between-true :
      (lo hi : F) (o : Option F)
      → between lo hi o ≡ true
      → (x : F) × ((o ≡ some x) × ((lo ≼ x) × (x ≼ hi)))
  between-true lo hi none h = cc
  between-true lo hi (some x) h = (x, (refl, both _ _ h))

  growth_gates-IsGrowing :
      (c : LiquidityGrowthConfig F) (m : MarketState F) → AllPass (growth_gates c m) → IsGrowing c m
  unfolding growth_gates
  growth_gates-IsGrowing c m (grow, (over, _)) =
      let (hour, day) = both _ _ over in
      record {
        growing = reaches-true _ _ grow;
        hour_within = unknown_or_within-true _ _ hour;
        day_within = unknown_or_within-true _ _ day;
      }

  pullback_gates-IsDipping :
      (c : TrendPullbackConfig F) (m : MarketState F) → AllPass (pullback_gates c m) → IsDipping c m
  unfolding pullback_gates
  pullback_gates-IsDipping c m (up, (dip, _)) =
      let (six, day) = both _ _ up in
      record {
        up_6h = reaches-true _ _ six;
        up_24h = unknown_or_reaches-true _ _ day;
        dip = between-true _ _ _ dip;
      }

  breakout_gates-IsBreakingOut :
      (c : VolumeBreakoutConfig F) (m : MarketState F) (r : Option F)
      → surge_ratio m ≡ ok r
      → AllPass (breakout_gates c m r)
      → IsBreakingOut c m
  unfolding breakout_gates
  breakout_gates-IsBreakingOut c m r e (surge, (buyers, (fresh, _))) = record {
    surging = (r, (e, reaches-true _ _ surge));
    buyers_lead = unknown_or_reaches-true _ _ buyers;
    not_exhausted = unknown_or_within-true _ _ fresh;
  }

  -- The limits of liquidity trend that the others have too.
  abbrev pub trend_base : LiquidityTrendConfig F → BaseConfig F
  trend_base c = record {
    id = c.id;
    weights = c.weights;
    min_score = c.min_score;
    min_liquidity_usdc = c.min_liquidity_usdc;
    min_age_seconds = c.min_age_seconds;
  }

  trend-base_gates :
      (c : LiquidityTrendConfig F) (m : MarketState F) (now : ℕ) (total : F)
      → c.require_recent_activity ≡ true
      → Trend.gates c m now total ≡ base_gates (trend_base c) m now total
  unfolding Trend.gates base_gates
  trend-base_gates c m now total asked = rw asked refl

  trend_score-IsEnterable :
      (c : LiquidityTrendConfig F) (log10 : F → F) (m : MarketState F) (now : ℕ)
      (s : StrategySignal F)
      → c.require_recent_activity ≡ true
      → Trend.score c m log10 now ≡ ok s
      → s.qualified ≡ true
      → IsEnterable (trend_base c) m now s
  unfolding Trend.score signal
  trend_score-IsEnterable c log10 m now s asked h =
      let (total, (summed, made)) =
        >>=-eq-ok _ (total_score c.weights (Trend.components c m log10 now)) h in
      subst (λ s. s.qualified ≡ true → IsEnterable (trend_base c) m now s) (ok-injective _ s made)
        (λ q. base_gates-IsEnterable (trend_base c) m now _ total refl (
          subst AllPass (trend-base_gates c m now total asked)
            (failed_gates-AllPass (Trend.gates c m now total) q)))

  -- A signal of liquidity growth, trend pullback or volume breakout that qualifies is about a market
  -- that may be entered (priced, liquid, old enough, not known to be idle, one-sided or held by ten
  -- wallets, and scored at the minimum) and that shows the growth, the dip or the surge in question. One of liquidity trend, where that asks for
  -- recent activity, is about a market that may be entered.
  pub qualified-IsEnterable :
      (log10 : F → F) (m : MarketState F) (now : ℕ) (s : StrategySignal F)
      → s.qualified ≡ true
      → ((c : LiquidityGrowthConfig F)
          → liquidity_growth_score c m log10 now ≡ ok s
          → IsEnterable c.base m now s × IsGrowing c m)
        × (((c : TrendPullbackConfig F)
              → trend_pullback_score c m log10 now ≡ ok s
              → IsEnterable c.base m now s × IsDipping c m)
            × (((c : VolumeBreakoutConfig F)
                  → volume_breakout_score c m log10 now ≡ ok s
                  → IsEnterable c.base m now s × IsBreakingOut c m)
                × ((c : LiquidityTrendConfig F)
                    → c.require_recent_activity ≡ true
                    → Trend.score c m log10 now ≡ ok s
                    → IsEnterable (trend_base c) m now s)))
  unfolding liquidity_growth_score trend_pullback_score volume_breakout_score
  qualified-IsEnterable log10 m now s q = (
    λ c h.
        let (base, own) = base_signal-IsEnterable c.base m now _ (growth_gates c m) _ s h q in
        (base, growth_gates-IsGrowing c m own),
    (
      λ c h.
          let (base, own) = base_signal-IsEnterable c.base m now _ (pullback_gates c m) _ s h q in
          (base, pullback_gates-IsDipping c m own),
      (
        λ c h.
            let (r, (e, made)) = >>=-eq-ok _ (surge_ratio m) h in
            let (base, own) =
              base_signal-IsEnterable c.base m now _ (breakout_gates c m r) _ s made q in
            (base, breakout_gates-IsBreakingOut c m r e own),
        λ c asked h. trend_score-IsEnterable c log10 m now s asked h q,
      ),
    ),
  )
