-- ===== src/Decision/Vetoed.antt =====
-- A risk veto ends a decision, whatever strategy, AI or user want.
use meme_agent.Base.{
  ℕ, String, true, ◌≡◌, refl, sym, ap, ◌∙◌, Option, none, Bool-cases, inl, inr, arith,
}
use meme_agent.Core.Errors.{Result, ok, raised}
use meme_agent.Core.Outcomes.{>>=-eq-ok, ok-injective}
use meme_agent.Core.Types.{TradingMode, reject_action, is_approve, approve}
use meme_agent.Float.{FloatOps, IsOrdered}
use meme_agent.Domain.Market.{MarketState}
use meme_agent.Portfolio.Controls.{ControlState}
use meme_agent.Portfolio.State.{PortfolioState}
use meme_agent.Risk.Approval.{approve_trade}
use meme_agent.Risk.Model.{RiskAssessment}
use meme_agent.Risk.Sizing.{max_entry_amount}
use meme_agent.Risk.Engine.{assess, default_rules}
use meme_agent.Risk.EntrySafety.{EntryIsSafe, assess-EntryIsSafe}
use meme_agent.Strategies.Signal.{StrategySignal}
use meme_agent.Decision.Model.{DecisionPipeline, DecisionRecord}
use meme_agent.Decision.Cases.{Case, record_of, context_of, tightened, request}
use meme_agent.Decision.Consulting.{is_buy}
use meme_agent.Decision.Evaluating.{case_of}
use meme_agent.Decision.Overriding.{
  override_or, override_case, override_scored, evaluate_manual_override,
}
use meme_agent.Decision.Settled.{no_buy}

module _ {F : Type 0} ⦃n : FloatOps F⦄ (p : DecisionPipeline F) where
  override_case-approves :
      (record_id decision_id assessment_id : String) (c : Case F) (d : DecisionRecord F)
      → override_case p record_id decision_id assessment_id c ≡ ok d
      → is_buy d.final_action ≡ true
      → (is_approve c.pre.decision ≡ true) × (d.sized_amount_usdc ≡ c.amount)
  unfolding override_case
  override_case-approves record_id decision_id assessment_id c d h buys =
      elim (Bool-cases (is_approve c.pre.decision)) [
        | inr vetoed ↦ cc (
            no_buy p (record_of p record_id c reject_action none none c.amount none) d
              (ok-injective _ d (rw vetoed at h)) refl)
        | inl fine ↦
            let (req, (_, h1)) =
              >>=-eq-ok _
                (request p c.market c.amount c.mode c.now decision_id c.limits.max_slippage_pct none
                  none)
                (rw fine at h) in
            let (t, (_, h2)) =
              >>=-eq-ok _ (approve_trade p.signer p.key req assessment_id c.pre) h1 in
            (fine, sym (ap (λ r. r.sized_amount_usdc) (ok-injective _ d h2)))
      ]

  is_approve-eq : (r : RiskAssessment F) → is_approve r.decision ≡ true → r.decision ≡ approve
  is_approve-eq r h = ground arith

  override_scored-safe :
      IsOrdered F
      → (record_id decision_id assessment_id : String) (m : MarketState F)
        (portfolio : PortfolioState F) (controls : ControlState) (mode : TradingMode) (now : ℕ)
        (override : Option F) (d : DecisionRecord F) (scored : Result (StrategySignal F))
      → (override_scored p record_id decision_id assessment_id m portfolio controls mode now
          override scored).1
        ≡ ok d
      → is_buy d.final_action ≡ true
      → p.rules ≡ default_rules
      → EntryIsSafe (context_of p m d.sized_amount_usdc mode portfolio controls now (tightened p))
  override_scored-safe order record_id decision_id assessment_id m portfolio controls mode now
        override d (raised e) h buys default =
      cc
  override_scored-safe order record_id decision_id assessment_id m portfolio controls mode now
        override d (ok signal) h buys default =
      let amount = override_or p override (max_entry_amount m portfolio (tightened p)) in
      let x = context_of p m amount mode portfolio controls now (tightened p) in
      let pre = (assess p.rules x).1 in
      let (fine, sized) =
        override_case-approves record_id decision_id assessment_id
          (case_of p m mode now signal amount pre) d h buys in
      rw sized (
        assess-EntryIsSafe order x refl
          (ap (λ rules. (assess rules x).1.decision) (sym default) ∙ is_approve-eq pre fine))

  -- A manual purchase against the opinion of strategy and AI is held to the same risk engine: under
  -- the default rules, the amount that is bought, whether the user gave it or not, meets all conditions
  -- of a safe entry on the portfolio and the switches at hand.
  pub evaluate_manual_override-safe :
      IsOrdered F
      → (record_id decision_id assessment_id : String) (m : MarketState F)
        (portfolio : PortfolioState F) (controls : ControlState) (mode : TradingMode) (now : ℕ)
        (override : Option F) (d : DecisionRecord F)
      → (evaluate_manual_override p record_id decision_id assessment_id m portfolio controls mode
          now override).1
        ≡ ok d
      → is_buy d.final_action ≡ true
      → p.rules ≡ default_rules
      → EntryIsSafe (context_of p m d.sized_amount_usdc mode portfolio controls now (tightened p))
  unfolding evaluate_manual_override
  evaluate_manual_override-safe order record_id decision_id assessment_id m portfolio controls mode
        now override d =
      override_scored-safe order record_id decision_id assessment_id m portfolio controls mode now
        override d (p.strategy.score m now)
