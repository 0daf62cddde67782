-- ===== src/Portfolio/Exits/Safety.antt =====
-- The protective floor of the exit rules: the stop loss, the trend guard, and that the rules answer.
use meme_agent.Base.{
  ℕ, suc, String, inl, inr, any, nat_eq, ◌||◌, Bool, true, false, not, ◌≡◌, Option, some, none,
  List, [], ◌∷◌, All, Bool-cases, arith,
}
use meme_agent.Core.Errors.{ok}
use meme_agent.Core.Types.{stagnation}
use meme_agent.Core.Outcomes.{
  Ensures, Ensures-if, Ensures-bind, Returns, Returns-if, Returns-bind, value_of,
}
use meme_agent.Float.{FloatOps, IsOrdered, ◌-◌, ◌*◌, ◌÷◌, lt, le, num, neg, min, over}
use meme_agent.Domain.Market.{MarketState, buy_sell_volume_ratio, volume_ratio, truthy_text}
use meme_agent.Portfolio.Position.{
  Position, is_open, gain_pct, peak_gain_pct, drawdown_from_peak_pct,
}
use meme_agent.Portfolio.Exits.{
  ExitConfig, ExitDecision, TakeProfitTier, take_profits, is_trailing_armed, trailing_stop_hit,
  momentum_lost, liquidity_dropped, late_exits, tiers_or_late, is_stagnant, guarded, evaluate,
  improving, momentum_fell,
}
use meme_agent.Portfolio.Exits.Plans.{Ensures-gain_pct, Ensures-trailing, Ensures-momentum}

module _ {F : Type 0} ⦃n : FloatOps F⦄ where
  abbrev pub NotStagnant : List (ExitDecision F) → Type 0
  NotStagnant ds = All (λ d. ¬ (d.reason ≡ stagnation)) ds

  take_profits-NotStagnant :
      (pos : Position F) (gain : F) (i : ℕ) (r : F) (tiers : List (TakeProfitTier F))
      → NotStagnant (take_profits pos gain i r tiers)
  unfolding take_profits
  take_profits-NotStagnant pos gain i r [] = tt
  take_profits-NotStagnant pos gain i r (tier ∷ tiers) =
      let qty = min r (over (pos.initial_quantity * tier.sell_pct_of_initial) (num 100)) in
      let hit = any (λ k. nat_eq k i) pos.tiers_hit in
      let skipped = hit || lt gain tier.gain_pct || le qty (num 0) in
      elim (Bool-cases skipped) [
        | inl e ↦ rw e (take_profits-NotStagnant pos gain (suc i) r tiers)
        | inr e ↦ rw e ((λ x. cc), take_profits-NotStagnant pos gain (suc i) (r - qty) tiers)
      ]

  late_exits-NotStagnant :
      (c : ExitConfig F) (pos : Position F) (now : ℕ) (gain : F) (m : MarketState F)
      → guarded c (some m) ≡ true
      → Ensures NotStagnant (late_exits c pos now gain (some m))
  unfolding late_exits
  late_exits-NotStagnant c pos now gain m g =
      Ensures-bind NotStagnant _ _ (Ensures-momentum c (some m)) λ lost _.
        Ensures-if NotStagnant lost _ _ (λ _. ((λ e. cc), tt))
          λ _. Ensures-if NotStagnant (is_stagnant c pos now gain) _ _ (λ _. rw g tt) (λ _. tt)

  tiers_or_late-NotStagnant :
      (c : ExitConfig F) (pos : Position F) (now : ℕ) (gain : F) (m : MarketState F)
      (ds : List (ExitDecision F))
      → guarded c (some m) ≡ true
      → NotStagnant ds
      → Ensures NotStagnant (tiers_or_late c pos now gain (some m) ds)
  tiers_or_late-NotStagnant c pos now gain m [] g h = late_exits-NotStagnant c pos now gain m g
  tiers_or_late-NotStagnant c pos now gain m (d ∷ ds) g h = h

  -- With the trend guard on, no position is closed as stagnant while its market is improving.
  evaluate-NotStagnant :
      (c : ExitConfig F) (pos : Position F) (now : ℕ) (m : MarketState F)
      (manual_close emergency_close : Bool) (escalation : Option String)
      → c.stagnation_trend_guard ≡ true
      → improving m ≡ true
      → Ensures NotStagnant (evaluate c pos now (some m) manual_close emergency_close escalation)
  unfolding evaluate
  evaluate-NotStagnant c pos now m manual_close emergency_close escalation on up =
      let P = NotStagnant in
      Ensures-if P (not (is_open pos)) _ _ (λ _. tt)
        λ _.
          Ensures-if P emergency_close _ _ (λ _. ((λ e. cc), tt))
            λ _.
              Ensures-if P manual_close _ _ (λ _. ((λ e. cc), tt))
                λ _. Ensures-bind P _ _ (Ensures-gain_pct pos) λ gain _.
                  Ensures-if P (le gain (neg c.hard_stop_pct)) _ _ (λ _. ((λ e. cc), tt))
                    λ _.
                      Ensures-if P (liquidity_dropped c (some m)) _ _ (λ _. ((λ e. cc), tt))
                        λ _.
                          Ensures-if P (truthy_text escalation) _ _ (λ _. ((λ e. cc), tt))
                            λ _. Ensures-bind P _ _ (Ensures-trailing c pos) λ trailing _.
                              Ensures-if P trailing _ _ (λ _. ((λ e. cc), tt))
                                λ _.
                                  tiers_or_late-NotStagnant c pos now gain m _ (ground arith)
                                    (take_profits-NotStagnant pos gain 0 pos.quantity c.tiers)

  Returns-div : (a b : F) → n.is_zero b ≡ false → Returns (a ÷ b)
  Returns-div a b h = rw h tt

  module _ (order : IsOrdered F) where
    open order use {pos_nonzero, lt-eq-not-le}

    Returns-volume_ratio : (m : MarketState F) (b s : Option F) → Returns (volume_ratio m b s)
    Returns-volume_ratio m (some b) (some s) = Returns-if (le s (num 0)) _ _ tt λ positive.
        Returns-bind _ _ (Returns-div b s (pos_nonzero s (rw (lt-eq-not-le (num 0) s, positive))))
          (λ r. tt)
    Returns-volume_ratio m (some b) none = tt
    Returns-volume_ratio m none s = tt

    pub buy_sell_volume_ratio-Returns : (m : MarketState F) → Returns (buy_sell_volume_ratio m)
    unfolding buy_sell_volume_ratio
    buy_sell_volume_ratio-Returns m = Returns-volume_ratio m m.buy_volume_5m m.sell_volume_5m

    Returns-momentum : (c : ExitConfig F) (m : Option (MarketState F)) → Returns (momentum_lost c m)
    unfolding buy_sell_volume_ratio
    Returns-momentum c none = tt
    Returns-momentum c (some m) =
        Returns-bind {B = Option F} (buy_sell_volume_ratio m)
          (λ ratio. ok (momentum_fell c m.price_change_5m ratio))
          (Returns-volume_ratio m m.buy_volume_5m m.sell_volume_5m) (λ r. tt {0})

    Returns-trailing :
        (c : ExitConfig F) (pos : Position F)
        → n.is_zero pos.entry_price ≡ false
        → n.is_zero pos.peak_price ≡ false
        → Returns (trailing_stop_hit c pos)
    unfolding trailing_stop_hit is_trailing_armed peak_gain_pct drawdown_from_peak_pct
    Returns-trailing c pos he hp = ground arith

    Returns-tiers_or_late :
        (c : ExitConfig F) (pos : Position F) (now : ℕ) (gain : F) (m : Option (MarketState F))
        (ds : List (ExitDecision F))
        → Returns (tiers_or_late c pos now gain m ds)
    unfolding late_exits
    Returns-tiers_or_late c pos now gain m [] =
        Returns-bind _ _ (Returns-momentum c m) λ lost.
          Returns-if lost _ _ tt λ _. Returns-if (is_stagnant c pos now gain) _ _ tt (λ _. tt)
    Returns-tiers_or_late c pos now gain m (d ∷ ds) = tt

    evaluate-Returns :
        (c : ExitConfig F) (pos : Position F) (now : ℕ) (m : Option (MarketState F))
        (manual_close emergency_close : Bool) (escalation : Option String)
        → n.is_zero pos.entry_price ≡ false
        → n.is_zero pos.peak_price ≡ false
        → Returns (evaluate c pos now m manual_close emergency_close escalation)
    unfolding evaluate gain_pct
    evaluate-Returns c pos now m manual_close emergency_close escalation he hp =
        Returns-if (not (is_open pos)) _ _ tt λ _. Returns-if emergency_close _ _ tt λ _.
          Returns-if manual_close _ _ tt λ _.
            Returns-bind _ _ (Returns-bind _ _ (Returns-div _ _ he) (λ r. tt)) λ gain.
              Returns-if (le gain (neg c.hard_stop_pct)) _ _ tt λ _.
                Returns-if (liquidity_dropped c m) _ _ tt λ _.
                  Returns-if (truthy_text escalation) _ _ tt λ _.
                    Returns-bind _ _ (Returns-trailing c pos he hp) λ trailing.
                      Returns-if trailing _ _ tt λ _. Returns-tiers_or_late c pos now gain m _

    -- Where neither the entry price nor the peak price is 0, the exit rules return a decision list for
    -- every market and every setting: they never raise.
    pub evaluate_total :
        (c : ExitConfig F) (pos : Position F) (now : ℕ) (m : Option (MarketState F))
        (manual_close emergency_close : Bool) (escalation : Option String)
        → n.is_zero pos.entry_price ≡ false
        → n.is_zero pos.peak_price ≡ false
        → (ds : List (ExitDecision F)) × (evaluate c pos now m manual_close emergency_close
              escalation
            ≡ ok ds)
    evaluate_total c pos now m manual_close emergency_close escalation he hp =
        value_of _ (evaluate-Returns c pos now m manual_close emergency_close escalation he hp)
