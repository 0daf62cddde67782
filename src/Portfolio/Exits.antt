-- ===== src/Portfolio/Exits.antt =====
-- backend/app/portfolio/exits.py: the deterministic exit rules. `detail` texts are left out.
pub mod Plans
pub mod Profiles
pub mod Safety
use meme_agent.Base.{
  ℕ, suc, String, Bool, true, false, not, ◌&&◌, ◌||◌, Option, none, some, List, [], ◌∷◌, get, any,
  nat_eq, if◌then◌else◌,
}
use meme_agent.Core.Errors.{Result, ok, ◌>>=◌}
use meme_agent.Core.Types.{
  ExitReason, hard_stop, take_profit, trailing_stop, stagnation, momentum_deterioration,
  liquidity_deterioration, risk_escalation, manual, emergency,
}
use meme_agent.Float.{FloatOps, ◌-◌, ◌*◌, neg, lt, le, gt, ge, num, min, over, seconds}
use meme_agent.Domain.Market.{MarketState, WindowStats, truthy_text, buy_sell_volume_ratio}
use meme_agent.Portfolio.Position.{
  Position, is_open, gain_pct, peak_gain_pct, drawdown_from_peak_pct,
}

pub record TakeProfitTier (F : Type 0) : Type 0 where
  pub gain_pct : F
  pub sell_pct_of_initial : F

pub record ExitConfig (F : Type 0) : Type 0 where
  pub hard_stop_pct : F
  pub tiers : List (TakeProfitTier F)
  pub trailing_stop_pct : F
  pub trailing_activation_gain_pct : F
  pub stagnation_seconds : ℕ
  pub stagnation_min_gain_pct : F
  pub stagnation_trend_guard : Bool
  pub momentum_exit_price_change_5m_pct : F
  pub momentum_exit_max_buy_sell_ratio : F
  pub liquidity_drop_exit_pct : F
  pub exit_max_slippage_pct : F

pub record ExitDecision (F : Type 0) : Type 0 where
  pub position_id : String
  pub reason : ExitReason
  pub close_all : Bool
  pub quantity : F
  pub tier_index : Option ℕ

module _ {F : Type 0} where
  -- The local `close`: one decision that sells the whole position.
  abbrev pub close : Position F → ExitReason → List (ExitDecision F)
  close pos reason =
      record {
        position_id = pos.id;
        reason = reason;
        close_all = true;
        quantity = pos.quantity;
        tier_index = none;
      }
      ∷ []

-- `bool(pos.tiers_hit)`
abbrev pub nonempty : List ℕ → Bool
nonempty [] = false
nonempty (x ∷ xs) = true

module _ {F : Type 0} ⦃n : FloatOps F⦄ where
  unfoldable pub is_trailing_armed : ExitConfig F → Position F → Result Bool
  is_trailing_armed c pos =
      if nonempty pos.tiers_hit
      then ok true
      else do peak ← peak_gain_pct pos; ok (ge peak c.trailing_activation_gain_pct)

  unfoldable pub trailing_stop_hit : ExitConfig F → Position F → Result Bool
  unfolding is_trailing_armed
  trailing_stop_hit c pos = do
    armed ← is_trailing_armed c pos
    if armed
        then (do fall ← drawdown_from_peak_pct pos; ok (ge fall c.trailing_stop_pct))
        else ok false

  abbrev liquidity_fell : ExitConfig F → Option F → Bool
  liquidity_fell c none = false
  liquidity_fell c (some change) = le change (neg c.liquidity_drop_exit_pct)

  abbrev pub liquidity_dropped : ExitConfig F → Option (MarketState F) → Bool
  liquidity_dropped c none = false
  liquidity_dropped c (some m) = liquidity_fell c m.liquidity_change_5m_pct

  abbrev pub tier_decision : Position F → ℕ → F → ExitDecision F
  tier_decision pos i qty = record {
    position_id = pos.id;
    reason = take_profit;
    close_all = false;
    quantity = qty;
    tier_index = some i;
  }

  -- The loop over the tiers, from tier `i` on, with what is left to sell.
  unfoldable pub take_profits :
      Position F → F → ℕ → F → List (TakeProfitTier F) → List (ExitDecision F)
  take_profits pos gain i remaining [] = []
  take_profits pos gain i remaining (tier ∷ tiers) =
      let qty = min remaining (over (pos.initial_quantity * tier.sell_pct_of_initial) (num 100)) in
      let skipped =
        any (λ k. nat_eq k i) pos.tiers_hit || lt gain tier.gain_pct || le qty (num 0) in
      let rest =
        take_profits pos gain (suc i) (if skipped then remaining else remaining - qty) tiers in
      if skipped then rest else tier_decision pos i qty ∷ rest

  abbrev above : F → Option F → Bool
  above limit none = false
  above limit (some x) = gt x limit

  abbrev change_above : F → Option (WindowStats F) → Bool
  change_above limit none = false
  change_above limit (some w) = above limit w.price_change_pct

  unfoldable pub improving : MarketState F → Bool
  improving m =
      change_above (num 0) (get "4h" m.windows)
      || change_above (num 0) (get "6h" m.windows)
      || change_above (num 1) (get "1h" m.windows)
      || above (num 0) (get "1h" m.liquidity_growth)
      || above (num 0) (get "6h" m.liquidity_growth)

  abbrev pub momentum_fell : ExitConfig F → Option F → Option F → Bool
  momentum_fell c (some change) (some ratio) =
      le change c.momentum_exit_price_change_5m_pct && lt ratio c.momentum_exit_max_buy_sell_ratio
  momentum_fell c _ _ = false

  -- The ratio is computed whenever there is a market, as in the code.
  abbrev pub momentum_lost : ExitConfig F → Option (MarketState F) → Result Bool
  momentum_lost c none = ok false
  momentum_lost c (some m) = do
    ratio ← buy_sell_volume_ratio m
    ok (momentum_fell c m.price_change_5m ratio)

  abbrev pub guarded : ExitConfig F → Option (MarketState F) → Bool
  guarded c none = false
  guarded c (some m) = c.stagnation_trend_guard && improving m

  unfoldable pub is_stagnant : ExitConfig F → Position F → ℕ → F → Bool
  is_stagnant c pos now gain =
      ge {F = F} (seconds now pos.opened_at) (num c.stagnation_seconds)
      && ge {F = F} (seconds now pos.last_new_high_at) (num c.stagnation_seconds)
      && lt gain c.stagnation_min_gain_pct

  -- The rules behind the take-profit tiers.
  unfoldable pub late_exits :
      ExitConfig F → Position F → ℕ → F → Option (MarketState F) → Result (List (ExitDecision F))
  unfolding is_stagnant improving
  late_exits c pos now gain market = do
    lost ← momentum_lost c market
    if lost
        then ok (close pos momentum_deterioration)
        else if is_stagnant c pos now gain
        then ok (if guarded c market then [] else close pos stagnation)
        else ok []

  abbrev pub tiers_or_late :
      ExitConfig F
      → Position F
      → ℕ
      → F
      → Option (MarketState F)
      → List (ExitDecision F)
      → Result (List (ExitDecision F))
  tiers_or_late c pos now gain market [] = late_exits c pos now gain market
  tiers_or_late c pos now gain market (d ∷ ds) = ok (d ∷ ds)

  -- `PositionManager.evaluate`
  unfoldable pub evaluate :
      ExitConfig F
      → Position F
      → ℕ
      → Option (MarketState F)
      → Bool
      → Bool
      → Option String
      → Result (List (ExitDecision F))
  unfolding trailing_stop_hit take_profits late_exits
  evaluate c pos now market manual_close emergency_close escalation =
      if not (is_open pos)
      then ok []
      else if emergency_close
      then ok (close pos emergency)
      else if manual_close
      then ok (close pos manual)
      else do
        gain ← gain_pct pos
        if le gain (neg c.hard_stop_pct)
            then ok (close pos hard_stop)
            else if liquidity_dropped c market
            then ok (close pos liquidity_deterioration)
            else if truthy_text escalation
            then ok (close pos risk_escalation)
            else do
              trailing ← trailing_stop_hit c pos
              if trailing
                  then ok (close pos trailing_stop)
                  else tiers_or_late c pos now gain market
                      (take_profits pos gain 0 pos.quantity c.tiers)
