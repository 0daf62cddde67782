-- ===== src/Portfolio/Exits/Plans.antt =====
-- What `evaluate` can decide: close the whole position, take profits within it, or nothing.
use meme_agent.Base.{
  ℕ, suc, String, Bool, true, false, not, ◌||◌, ◌≡◌, ◌≤◌, ◌⊎◌, inl, inr, refl, Option, some, none,
  List, [], ◌∷◌, any, nat_eq, Bool-cases, if◌then◌else◌, arith,
}
use meme_agent.Core.Errors.{ok}
use meme_agent.Core.Types.{
  ExitReason, emergency, manual, hard_stop, liquidity_deterioration, risk_escalation, trailing_stop,
  stagnation,
}
use meme_agent.Core.Outcomes.{Ensures, Anything, Ensures-if, Ensures-bind}
use meme_agent.Float.{FloatOps, IsOrdered, ◌-◌, ◌*◌, ◌÷◌, ◌≼◌, neg, lt, le, num, min, over}
use meme_agent.Float.Order.{min-le_left}
use meme_agent.Domain.Market.{MarketState, buy_sell_volume_ratio, volume_ratio, truthy_text}
use meme_agent.Portfolio.Position.{
  Position, is_open, gain_pct, peak_gain_pct, drawdown_from_peak_pct,
}
use meme_agent.Portfolio.Exits.{
  ExitConfig, ExitDecision, TakeProfitTier, close, take_profits, is_trailing_armed,
  trailing_stop_hit, momentum_lost, liquidity_dropped, late_exits, tiers_or_late, is_stagnant,
  guarded, evaluate, momentum_fell, nonempty,
}

module _ {F : Type 0} ⦃n : FloatOps F⦄ where
  pub Ensures-div : (a b : F) → Ensures Anything (a ÷ b)
  Ensures-div a b = Ensures-if Anything (n.is_zero b) _ _ (λ _. refl) (λ _. tt)

  pub Ensures-gain_pct : (pos : Position F) → Ensures Anything (gain_pct pos)
  unfolding gain_pct
  Ensures-gain_pct pos = Ensures-bind Anything _ _ (Ensures-div _ _) (λ r _. tt)

  pub Ensures-trailing :
      (c : ExitConfig F) (pos : Position F) → Ensures Anything (trailing_stop_hit c pos)
  unfolding trailing_stop_hit is_trailing_armed peak_gain_pct drawdown_from_peak_pct
  Ensures-trailing c pos =
      Ensures-bind Anything _ _
        (Ensures-if Anything (nonempty pos.tiers_hit) _ _ (λ _. tt)
          (λ _.
            Ensures-bind Anything _ _ (Ensures-bind Anything _ _ (Ensures-div _ _) (λ r _. tt))
              (λ r _. tt)))
        (λ armed _.
          Ensures-if Anything armed _ _
            (λ _.
              Ensures-bind Anything _ _ (Ensures-bind Anything _ _ (Ensures-div _ _) (λ r _. tt))
                (λ r _. tt))
            (λ _. tt))

  Ensures-volume_ratio :
      (m : MarketState F) (b s : Option F) → Ensures Anything (volume_ratio m b s)
  Ensures-volume_ratio m (some b) (some s) =
      Ensures-if Anything (le s (num 0)) _ _ (λ _. tt)
        (λ _. Ensures-bind Anything _ _ (Ensures-div _ _) (λ r _. tt))
  Ensures-volume_ratio m (some b) none = tt
  Ensures-volume_ratio m none s = tt

  pub Ensures-momentum :
      (c : ExitConfig F) (m : Option (MarketState F)) → Ensures Anything (momentum_lost c m)
  unfolding buy_sell_volume_ratio
  Ensures-momentum c none = tt
  Ensures-momentum c (some m) =
      Ensures-bind (Anything {A = Bool}) {B = Option F} (buy_sell_volume_ratio m)
        (λ ratio. ok (momentum_fell c m.price_change_5m ratio))
        (Ensures-volume_ratio m m.buy_volume_5m m.sell_volume_5m) (λ r _. tt {0})

  -- One decision that sells the whole position.
  abbrev pub ClosesAll : Position F → List (ExitDecision F) → Type 0
  ClosesAll pos (d ∷ []) =
      (d.position_id ≡ pos.id) × (d.close_all ≡ true) × (d.quantity ≡ pos.quantity)
  ClosesAll pos _ = ⊥

  -- Partial sales for tiers that were not hit yet, in rising order from tier `i` on, each of a positive
  -- quantity within what the earlier ones leave of `remaining`.
  abbrev pub TakesFrom : List ℕ → ℕ → F → List (ExitDecision F) → Type 0
  TakesFrom hit i remaining [] = Unit
  TakesFrom hit i remaining (d ∷ ds) =
      (k : ℕ) × (d.tier_index ≡ some k)
      × (i ≤ k)
      × (any (λ t. nat_eq t k) hit ≡ false)
      × (d.close_all ≡ false)
      × (le d.quantity (num 0) ≡ false)
      × (d.quantity ≼ remaining)
      × TakesFrom hit (suc k) (remaining - d.quantity) ds

  abbrev pub IsPlan : Position F → List (ExitDecision F) → Type 0
  IsPlan pos ds = ClosesAll pos ds ⊎ TakesFrom pos.tiers_hit 0 pos.quantity ds

  TakesFrom-weaken :
      (hit : List ℕ) (i : ℕ) (r : F) (ds : List (ExitDecision F))
      → TakesFrom hit (suc i) r ds
      → TakesFrom hit i r ds
  TakesFrom-weaken hit i r [] h = tt
  TakesFrom-weaken hit i r (d ∷ ds) (k, index, above, fresh, partial, positive, fits, rest) =
      (k, index, omega arith, fresh, partial, positive, fits, rest)

  module _ (order : IsOrdered F) where
    take_profits-TakesFrom :
        (pos : Position F) (gain : F) (i : ℕ) (r : F) (tiers : List (TakeProfitTier F))
        → TakesFrom pos.tiers_hit i r (take_profits pos gain i r tiers)
    unfolding take_profits
    take_profits-TakesFrom pos gain i r [] = tt
    take_profits-TakesFrom pos gain i r (tier ∷ tiers) =
        let qty = min r (over (pos.initial_quantity * tier.sell_pct_of_initial) (num 100)) in
        let hit = any (λ k. nat_eq k i) pos.tiers_hit in
        let skipped = hit || lt gain tier.gain_pct || le qty (num 0) in
        elim (Bool-cases skipped) [
          | inl e ↦ rw e (
              TakesFrom-weaken pos.tiers_hit i r _
                (take_profits-TakesFrom pos gain (suc i) r tiers))
          | inr e ↦ rw e (
            i,
            refl,
            omega arith,
            ground arith,
            refl,
            ground arith,
            min-le_left order r _,
            take_profits-TakesFrom pos gain (suc i) (r - qty) tiers,
          )
        ]

    guarded-IsPlan :
        (b : Bool) (pos : Position F) → IsPlan pos (if b then [] else close pos stagnation)
    guarded-IsPlan true pos = inr tt
    guarded-IsPlan false pos = inl (refl, refl, refl)

    late_exits-IsPlan :
        (c : ExitConfig F) (pos : Position F) (now : ℕ) (gain : F) (m : Option (MarketState F))
        → Ensures (IsPlan pos) (late_exits c pos now gain m)
    unfolding late_exits
    late_exits-IsPlan c pos now gain m =
        Ensures-bind (IsPlan pos) _ _ (Ensures-momentum c m) λ lost _.
          Ensures-if (IsPlan pos) lost _ _ (λ _. inl (refl, refl, refl))
            λ _.
              Ensures-if (IsPlan pos) (is_stagnant c pos now gain) _ _
                (λ _. guarded-IsPlan (guarded c m) pos) (λ _. inr tt)

    tiers_or_late-IsPlan :
        (c : ExitConfig F) (pos : Position F) (now : ℕ) (gain : F) (m : Option (MarketState F))
        (ds : List (ExitDecision F))
        → TakesFrom pos.tiers_hit 0 pos.quantity ds
        → Ensures (IsPlan pos) (tiers_or_late c pos now gain m ds)
    tiers_or_late-IsPlan c pos now gain m [] h = late_exits-IsPlan c pos now gain m
    tiers_or_late-IsPlan c pos now gain m (d ∷ ds) h = inr h

    -- Whatever the position, the market and the switches, the exit rules raise nothing but
    -- ZeroDivisionError, and what they return closes the whole position by one decision, or takes
    -- profits: positive partial sales, each for a tier that was not hit before, with rising tier
    -- numbers, and each within the quantity that the earlier ones leave (none at all is allowed).
    pub evaluate-IsPlan :
        (c : ExitConfig F) (pos : Position F) (now : ℕ) (m : Option (MarketState F))
        (manual_close emergency_close : Bool) (escalation : Option String)
        → Ensures (IsPlan pos) (evaluate c pos now m manual_close emergency_close escalation)
    unfolding evaluate
    evaluate-IsPlan c pos now m manual_close emergency_close escalation =
        let P = IsPlan pos in
        let shut : (r : ExitReason) → IsPlan pos (close pos r) = λ r. inl (refl, refl, refl) in
        Ensures-if P (not (is_open pos)) _ _ (λ _. inr tt)
          λ _.
            Ensures-if P emergency_close _ _ (λ _. shut emergency)
              λ _.
                Ensures-if P manual_close _ _ (λ _. shut manual)
                  λ _. Ensures-bind P _ _ (Ensures-gain_pct pos) λ gain _.
                    Ensures-if P (le gain (neg c.hard_stop_pct)) _ _ (λ _. shut hard_stop)
                      λ _.
                        Ensures-if P (liquidity_dropped c m) _ _ (λ _. shut liquidity_deterioration)
                          λ _.
                            Ensures-if P (truthy_text escalation) _ _ (λ _. shut risk_escalation)
                              λ _. Ensures-bind P _ _ (Ensures-trailing c pos) λ trailing _.
                                Ensures-if P trailing _ _ (λ _. shut trailing_stop)
                                  λ _.
                                    tiers_or_late-IsPlan c pos now gain m _
                                      (take_profits-TakesFrom pos gain 0 pos.quantity c.tiers)
