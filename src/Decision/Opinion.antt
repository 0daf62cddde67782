-- ===== src/Decision/Opinion.antt =====
-- A stage that ends an evaluation does not buy, and one that goes on rests on an opinion.
use meme_agent.Base.{
  String, ◌==◌, true, false, not, ◌||◌, ◌≡◌, refl, ◌⊎◌, inl, inr, Option, none, some, Bool-cases,
  arith,
}
use meme_agent.Core.Types.{
  is_live, Action, buy_action, watch_action, reject_action, hold_action, sell_action, AiMode,
  ai_enabled, ai_disabled,
}
use meme_agent.Float.{FloatOps, IsOrdered, ◌≼◌, lt}
use meme_agent.Float.Order.{le-of-not-lt}
use meme_agent.Portfolio.Controls.{ControlState}
use meme_agent.Portfolio.State.{PortfolioState}
use meme_agent.Decision.Model.{AiDecision, AiOutcome, DecisionPipeline, Consultation}
use meme_agent.Decision.Cases.{Case, Stage, decided, onwards}
use meme_agent.Decision.Consulting.{is_buy, mapped, may_upgrade, judge_decision, judge, consult}

mapped_no_buy : (a : Action) → is_buy (mapped a) ≡ false
mapped_no_buy buy_action = refl
mapped_no_buy watch_action = refl
mapped_no_buy reject_action = refl
mapped_no_buy hold_action = refl
mapped_no_buy sell_action = refl

module _ {F : Type 0} ⦃n : FloatOps F⦄ (p : DecisionPipeline F) where
  -- Without the AI, a qualified signal on paper; with it, a confident decision to buy, on a qualified
  -- signal or one whose hard gates have not failed.
  abbrev pub HasOpinion : Case F → Option (AiOutcome F) → Type 0
  HasOpinion c outcome =
      ((p.ai_mode ≡ ai_disabled) × ((is_live c.mode ≡ false) × (c.signal.qualified ≡ true)))
      ⊎ ((o : AiOutcome F) × ((d : AiDecision F) × ((outcome ≡ some o)
              × ((o.decision ≡ some d)
                  × ((is_buy d.action ≡ true)
                      × ((p.min_ai_conf ≼ d.confidence) × (may_upgrade p c ≡ true)))))))

  -- A stage that ends does not buy, and one that goes on has an opinion.
  abbrev pub Sound : Case F → Stage F (Option (AiOutcome F) × F) → Type 0
  Sound c (decided d) = is_buy d.final_action ≡ false
  Sound c (onwards (outcome, cap)) = HasOpinion c outcome

  module _ (order : IsOrdered F) where
    judge_decision-Sound :
        (id : String) (c : Case F) (q : PortfolioState F) (o : AiOutcome F) (d : AiDecision F)
        → o.decision ≡ some d
        → Sound c (judge_decision p id c q o d)
    judge_decision-Sound id c q o d e = elim (Bool-cases (is_buy d.action)) [
      | inr other ↦ rw other (mapped_no_buy d.action)
      | inl buys ↦ elim (Bool-cases (may_upgrade p c)) [
        | inr stopped ↦ rw (buys, stopped) refl
        | inl upgradable ↦ elim (Bool-cases (lt d.confidence p.min_ai_conf)) [
          | inl doubtful ↦ rw (buys, upgradable, doubtful) refl
          | inr sure ↦
              rw (buys, upgradable, sure)
                (inr (
                  o,
                  (
                    d,
                    (
                      refl,
                      (e, (buys, (le-of-not-lt order p.min_ai_conf d.confidence sure, upgradable))),
                    ),
                  ),
                ))
        ]
      ]
    ]

    judge-Sound :
        (id : String) (c : Case F) (q : PortfolioState F) (o : AiOutcome F)
        (d : Option (AiDecision F))
        → o.decision ≡ d
        → Sound c (judge p id c q o d)
    judge-Sound id c q o none e = refl
    judge-Sound id c q o (some d) e = elim (Bool-cases (o.status == "OK")) [
      | inl fine ↦ rw fine (judge_decision-Sound id c q o d e)
      | inr not_fine ↦ rw not_fine refl
    ]

    pub consult-Sound :
        (w : Consultation F) (c : Case F) (mode : AiMode) (q : PortfolioState F) (ct : ControlState)
        → p.ai_mode ≡ mode
        → Sound c (consult p w c mode q ct).1
    unfolding consult
    consult-Sound w c ai_disabled q ct e =
        elim (Bool-cases (is_live c.mode || not c.signal.qualified)) [
          | inl ended ↦ rw ended refl
          | inr going ↦ rw going (inl (e, (ground arith, ground arith)))
        ]
    consult-Sound w c ai_enabled q ct e = elim (Bool-cases (lt c.amount p.min_order)) [
      | inl small ↦ rw small refl
      | inr enough ↦ rw enough (
          judge-Sound w.decision_id c (w.meanwhile q ct).0 (w.analyze c.signal c.pre c.amount) _
            refl)
    ]
