-- ===== src/Risk/FailClosed.antt =====
-- The engine as a whole: exits always pass, entries pass just when every rule answers without a veto.
use meme_agent.Base.{
  Bool, false, ◌≡◌, ◌↔◌, refl, List, [], ◌∷◌, All, map, if◌then◌else◌, any-append, arith,
}
use meme_agent.Core.Errors.{Result, ok, raised}
use meme_agent.Core.Types.{
  Severity, approve, reject, is_veto, veto, warn, info, Side, sell, buy, portfolio_risk,
}
use meme_agent.Float.{FloatOps, IsOrdered, ◌≼◌, num, sum_from}
use meme_agent.Float.Order.{min-le_left, le-min, le-sum_from}
use meme_agent.Risk.Model.{RiskContext, RiskFlag, flag_of}
use meme_agent.Risk.Engine.{
  RiskRule, is_vetoed, flags_or_veto, run_rules, gather, points, points_of, risk_score, assess,
}

clear-of-approve : (b : Bool) → (if b then reject else approve) ≡ approve → b ≡ false
clear-of-approve b h = ground arith

module _ {F : Type 0} ⦃n : FloatOps F⦄ where
  -- Every rule, on the portfolio that the rules before it left, returns flags without a veto.
  abbrev pub AllClear : List (RiskRule F) → RiskContext F → Type 0
  AllClear [] x = Unit
  AllClear (r ∷ rules) x =
      ((flags : List RiskFlag) × ((r.fn x).1 ≡ ok flags) × (is_vetoed flags ≡ false))
      × AllClear rules (record x { portfolio = (r.fn x).0 })

  clear-of-flags :
      (r : RiskRule F) (result : Result (List RiskFlag))
      → is_vetoed (flags_or_veto r result) ≡ false
      → (flags : List RiskFlag) × (result ≡ ok flags) × (is_vetoed flags ≡ false)
  clear-of-flags r (ok flags) h = (flags, refl, h)
  clear-of-flags r (raised e) h = cc

  AllClear-of-run :
      (rules : List (RiskRule F)) (x : RiskContext F)
      → is_vetoed (run_rules rules x).1 ≡ false
      → AllClear rules x
  unfolding run_rules
  AllClear-of-run [] x h = tt
  AllClear-of-run (r ∷ rules) x h =
      let mine = flags_or_veto r (r.fn x).1 in
      let later = (run_rules rules (record x { portfolio = (r.fn x).0 })).1 in
      let split = any-append (λ f. is_veto f.severity) mine later in
      (
        clear-of-flags r (r.fn x).1 (ground (arith, split)),
        AllClear-of-run rules (record x { portfolio = (r.fn x).0 }) (ground (arith, split)),
      )

  run-of-AllClear :
      (rules : List (RiskRule F)) (x : RiskContext F)
      → AllClear rules x
      → is_vetoed (run_rules rules x).1 ≡ false
  unfolding run_rules
  run-of-AllClear [] x h = refl
  run-of-AllClear (r ∷ rules) x ((flags, e, clear), h) =
      let y = record x { portfolio = (r.fn x).0 } in
      rw (e, any-append) (ground (arith, run-of-AllClear rules y h))

  gather-buy :
      (s : Side) (rules : List (RiskRule F)) (x : RiskContext F)
      → s ≡ buy
      → gather s rules x ≡ run_rules rules x
  gather-buy s rules x e = rw e

  gather-sell :
      (s : Side) (rules : List (RiskRule F)) (x : RiskContext F)
      → s ≡ sell
      → gather s rules x ≡ (x.portfolio, flag_of info "EXIT_ALLOWED" portfolio_risk ∷ [])
  gather-sell s rules x e = rw e

  -- The engine fails closed: an entry is approved exactly when every rule, run in order on the
  -- portfolio that the earlier rules left, returns without raising and without a veto.
  pub assess_approves_iff :
      (rules : List (RiskRule F)) (x : RiskContext F)
      → x.intent.side ≡ buy
      → ((assess rules x).1.decision ≡ approve) ↔ AllClear rules x
  unfolding assess
  assess_approves_iff rules x entry =
      rw (gather-buy x.intent.side rules x entry, assess)
        (
          (λ e. AllClear-of-run rules x (clear-of-approve _ e)),
          (λ h. rw (run-of-AllClear rules x h)),
        )

  -- An exit is approved whatever the rules, the market and the switches say, with no veto, and the
  -- portfolio is left alone.
  assess_exit :
      (rules : List (RiskRule F)) (x : RiskContext F)
      → x.intent.side ≡ sell
      → ((assess rules x).1.decision ≡ approve)
        × (is_vetoed (assess rules x).1.flags ≡ false)
        × ((assess rules x).0 ≡ x.portfolio)
  unfolding assess
  assess_exit rules x exit = rw (gather-sell x.intent.side rules x exit, assess) (refl, refl, refl)

  module _ (order : IsOrdered F) where
    open order use {zero_le_dec, le_refl, le_trans}

    points_of-nonneg : (s : Severity) → ◌≼◌ {F = F} (num 0) (points_of s)
    points_of-nonneg veto = zero_le_dec 40 0
    points_of-nonneg warn = zero_le_dec 10 0
    points_of-nonneg info = le_refl (num 0)

    points-nonneg : (flags : List RiskFlag) → All {A = F} (λ p. num 0 ≼ p) (map points flags)
    points-nonneg [] = tt
    points-nonneg (f ∷ flags) = (points_of-nonneg f.severity, points-nonneg flags)

    -- The risk score of any flags lies between 0 and 100.
    risk_score_bounds :
        (flags : List RiskFlag)
        → let score : F = risk_score flags in (num 0 ≼ score) × (score ≼ num 100)
    unfolding risk_score
    risk_score_bounds flags =
        let total = sum_from (num 0) (map points flags) in
        (
          le-min order (num 0) (num 100) total (zero_le_dec 100 0)
              (le-sum_from order (num 0) _ (points-nonneg flags)),
          min-le_left order (num 100) total,
        )
