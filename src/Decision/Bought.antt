-- ===== src/Decision/Bought.antt =====
-- What a decision to buy rests on.
use meme_agent.Base.{
  ℕ, Bool, true, false, not, ◌&&◌, ◌≡◌, refl, sym, ap, ◌∙◌, subst, ◌⊎◌, inl, inr, Option, none,
  Bool-cases, arith,
}
use meme_agent.Core.Errors.{Result, ok, raised}
use meme_agent.Core.Outcomes.{ok-injective}
use meme_agent.Core.Types.{TradingMode, watch_action, reject_action, is_approve, approve}
use meme_agent.Float.{FloatOps, IsOrdered, ◌≼◌, lt, min, round}
use meme_agent.Float.Order.{le-of-not-lt, min-le_left}
use meme_agent.Domain.Market.{MarketState}
use meme_agent.Portfolio.Controls.{ControlState}
use meme_agent.Portfolio.State.{PortfolioState}
use meme_agent.Risk.Engine.{assess, default_rules}
use meme_agent.Risk.EntrySafety.{EntryIsSafe, assess-EntryIsSafe}
use meme_agent.Risk.Model.{RiskAssessment}
use meme_agent.Risk.Sizing.{max_entry_amount}
use meme_agent.Strategies.Signal.{StrategySignal}
use meme_agent.Decision.Opinion.{HasOpinion, Sound, consult-Sound}
use meme_agent.Decision.Settled.{IsSettled, no_buy, settle-IsSettled}
use meme_agent.Decision.Model.{AiOutcome, DecisionPipeline, Consultation, DecisionRecord}
use meme_agent.Decision.Cases.{
  Case, Stage, decided, onwards, record_of, context_of, assess_entry, tightened,
}
use meme_agent.Decision.Consulting.{is_buy, consult}
use meme_agent.Decision.Evaluating.{conclude, decide, case_of, evaluate_scored, evaluate}

module _ {F : Type 0} ⦃n : FloatOps F⦄ (p : DecisionPipeline F) where
  -- A purchase under an opinion, of a size within the limits, on a final assessment of the portfolio
  -- and the switches at that time.
  pub record IsPurchase (w : Consultation F) (c : Case F) (q : PortfolioState F) (ct : ControlState)
      (d : DecisionRecord F) : Type 0 where
    pub opinion : HasOpinion p c d.ai
    pub at_least : p.min_order ≼ d.sized_amount_usdc
    pub at_most : d.sized_amount_usdc ≼ round c.amount 6
    pub final : RiskAssessment F
    pub assessed :
        (assess_entry p c.market d.sized_amount_usdc c.mode q ct c.now c.limits).1 ≡ final
    pub settled : IsSettled p w c d.ai d.sized_amount_usdc final d

  module _ (order : IsOrdered F) where
    open order use {round_mono}

    conclude-IsPurchase :
        (w : Consultation F) (c : Case F) (q : PortfolioState F) (ct : ControlState)
        (stage : Stage F (Option (AiOutcome F) × F)) (d : DecisionRecord F)
        → Sound p c stage
        → (conclude p w c (q, ct) stage).1 ≡ ok d
        → is_buy d.final_action ≡ true
        → IsPurchase w c q ct d
    conclude-IsPurchase w c q ct (decided e) d sound h buys =
        cc (no_buy p e d (ok-injective e d h) sound)
    conclude-IsPurchase w c q ct (onwards (outcome, cap)) d sound h buys =
        let amount = round (min c.amount cap) 6 in
        let final = (assess_entry p c.market amount c.mode q ct c.now c.limits).1 in
        elim (Bool-cases (lt amount p.min_order)) [
          | inl small ↦ cc (
              no_buy p (record_of p w.decision_id c watch_action outcome none amount none) d
                (ok-injective _ d (rw small at h)) refl)
          | inr enough ↦
              let s = settle-IsSettled p w c outcome amount final d (rw enough at h) buys in
              subst (IsPurchase w c q ct) s.recorded record {
                opinion = sound;
                at_least = le-of-not-lt order _ _ enough;
                at_most = round_mono _ _ (min-le_left order c.amount cap);
                final = final;
                assessed = refl;
                settled = record {
                  approving = s.approving;
                  trade = s.trade;
                  trade_of = s.trade_of;
                  recorded = refl;
                };
              }
        ]

    -- What the evaluation of a market that ends in a purchase has established.
    pub record IsJustified (w : Consultation F) (m : MarketState F) (portfolio : PortfolioState F)
        (controls : ControlState) (mode : TradingMode) (now : ℕ) (d : DecisionRecord F)
        : Type 0 where
      pub signal : StrategySignal F
      pub scored : p.strategy.score m now ≡ ok signal
      pub amount : F
      pub sized : amount ≡ max_entry_amount m portfolio (tightened p)
      pub pre : RiskAssessment F
      pub start : PortfolioState F
      pub pre_assessed :
          assess_entry p m amount mode portfolio controls now (tightened p) ≡ (start, pre)
      pub unvetoed : is_approve pre.decision ≡ true
      pub in_band : (signal.qualified ≡ true) ⊎ (p.strategy.watch_score ≼ signal.score)
      pub then_portfolio : PortfolioState F
      pub then_controls : ControlState
      pub asked :
          (consult p w (case_of p m mode now signal amount pre) p.ai_mode start controls).0
          ≡ (then_portfolio, then_controls)
      pub purchase :
          IsPurchase w (case_of p m mode now signal amount pre) then_portfolio then_controls d
      pub safe :
          p.rules ≡ default_rules
          → EntryIsSafe (
              context_of p m d.sized_amount_usdc mode then_portfolio then_controls now
                (tightened p))

    band :
        (qualified : Bool) (score least : F)
        → (not qualified && lt score least) ≡ false
        → (qualified ≡ true) ⊎ (least ≼ score)
    band true score least h = inl refl
    band false score least h = inr (le-of-not-lt order least score h)

    is_approve-eq : (r : RiskAssessment F) → is_approve r.decision ≡ true → r.decision ≡ approve
    is_approve-eq r h = ground arith

    IsPurchase-safe :
        (w : Consultation F) (c : Case F) (q : PortfolioState F) (ct : ControlState)
        (d : DecisionRecord F)
        → IsPurchase w c q ct d
        → p.rules ≡ default_rules
        → EntryIsSafe (context_of p c.market d.sized_amount_usdc c.mode q ct c.now c.limits)
    IsPurchase-safe w c q ct d h default =
        assess-EntryIsSafe order
          (context_of p c.market d.sized_amount_usdc c.mode q ct c.now c.limits) refl
          (ap
              (λ rules.
                (assess rules (
                  context_of p c.market d.sized_amount_usdc c.mode q ct c.now c.limits)).1.decision)
              (sym default)
            ∙ ap (λ r. r.decision) h.assessed
            ∙ is_approve-eq h.final h.settled.approving)

    decide-IsPurchase :
        (w : Consultation F) (c : Case F) (q : PortfolioState F) (ct : ControlState)
        (d : DecisionRecord F)
        → (decide p w c q ct).1 ≡ ok d
        → is_buy d.final_action ≡ true
        → (is_approve c.pre.decision ≡ true)
          × (((c.signal.qualified ≡ true) ⊎ (p.strategy.watch_score ≼ c.signal.score))
              × IsPurchase w c
                  (consult p w c p.ai_mode q ct).0.0
                  (consult p w c p.ai_mode q ct).0.1
                  d)
    unfolding decide
    decide-IsPurchase w c q ct d h buys = elim (Bool-cases (is_approve c.pre.decision)) [
      | inr vetoed ↦ cc (
          no_buy p (record_of p w.decision_id c reject_action none none c.amount none) d
            (ok-injective _ d (rw vetoed at h)) refl)
      | inl fine ↦
          elim (Bool-cases (not c.signal.qualified && lt c.signal.score p.strategy.watch_score)) [
            | inl below ↦ cc (
                no_buy p (record_of p w.decision_id c reject_action none none c.amount none) d
                  (ok-injective _ d (rw (fine, below) at h)) refl)
            | inr within ↦ (
              fine,
              (
                band c.signal.qualified _ _ within,
                conclude-IsPurchase w c _ _ (consult p w c p.ai_mode q ct).1 d
                    (consult-Sound p order w c p.ai_mode q ct refl) (rw (fine, within) at h) buys,
              ),
            )
          ]
    ]

    evaluate_scored-IsJustified :
        (w : Consultation F) (m : MarketState F) (portfolio : PortfolioState F)
        (controls : ControlState) (mode : TradingMode) (now : ℕ) (d : DecisionRecord F)
        (scored : Result (StrategySignal F))
        → p.strategy.score m now ≡ scored
        → (evaluate_scored p w m portfolio controls mode now scored).1 ≡ ok d
        → is_buy d.final_action ≡ true
        → IsJustified w m portfolio controls mode now d
    evaluate_scored-IsJustified w m portfolio controls mode now d (raised e) scores h buys = cc
    evaluate_scored-IsJustified w m portfolio controls mode now d (ok s) scores h buys =
        let amount = max_entry_amount m portfolio (tightened p) in
        let start = (assess_entry p m amount mode portfolio controls now (tightened p)).0 in
        let pre = (assess_entry p m amount mode portfolio controls now (tightened p)).1 in
        let c = case_of p m mode now s amount pre in
        let (unvetoed, (in_band, purchase)) = decide-IsPurchase w c start controls d h buys in
        record {
          signal = s;
          scored = scores;
          amount = amount;
          sized = refl;
          pre = pre;
          start = start;
          pre_assessed = refl;
          unvetoed = unvetoed;
          in_band = in_band;
          then_portfolio = (consult p w c p.ai_mode start controls).0.0;
          then_controls = (consult p w c p.ai_mode start controls).0.1;
          asked = refl;
          purchase = purchase;
          safe = IsPurchase-safe w c _ _ d purchase;
        }

    -- An evaluation that ends in a purchase has passed every stage: the strategy's signal qualifies or
    -- is in the watch band; the risk engine did not veto the largest entry; on paper without the AI the
    -- signal qualifies, and otherwise the AI has answered with a decision to buy of enough confidence,
    -- against no hard gate where the signal does not qualify; the size is at least the smallest order
    -- and at most the largest entry, rounded; and the trade, which is signed for this size, token, chain
    -- and mode, rests on a second assessment of the portfolio and the switches as they are after the AI
    -- has answered. Under the default rules the entry meets, at that time, all conditions of a safe one.
    pub evaluate-IsJustified :
        (w : Consultation F) (m : MarketState F) (portfolio : PortfolioState F)
        (controls : ControlState) (mode : TradingMode) (now : ℕ) (d : DecisionRecord F)
        → (evaluate p w m portfolio controls mode now).1 ≡ ok d
        → is_buy d.final_action ≡ true
        → IsJustified w m portfolio controls mode now d
    unfolding evaluate
    evaluate-IsJustified w m portfolio controls mode now d =
        evaluate_scored-IsJustified w m portfolio controls mode now d (p.strategy.score m now) refl
