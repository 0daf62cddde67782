-- ===== src/Decision/Consulting.antt =====
-- The AI's part in `DecisionPipeline._evaluate` of backend/app/services/decision.py.
use meme_agent.Base.{
  String, ◌==◌, Bool, true, false, not, ◌||◌, Option, none, some, List, [], ◌∷◌, Dict, get, keep,
  if◌then◌else◌,
}
use meme_agent.Core.Types.{
  is_live, Action, buy_action, watch_action, reject_action, AiMode, ai_enabled, ai_disabled,
}
use meme_agent.Float.{FloatOps, ◌*◌, lt, min, max, num, over, truthy}
use meme_agent.Portfolio.Controls.{ControlState}
use meme_agent.Portfolio.State.{PortfolioState, total_value}
use meme_agent.Decision.Model.{AiDecision, AiOutcome, DecisionPipeline, Consultation}
use meme_agent.Decision.Cases.{record_of, Case, Stage, decided, onwards}

abbrev pub hard_gates : List String
hard_gates =
    "price_present" ∷ "liquidity_present" ∷ "required_data_present" ∷ "min_age"
    ∷ "holder_not_extreme" ∷ "recent_activity" ∷ "two_way_trading" ∷ []

-- `signal.gates.get(k) is False`
abbrev pub has_failed : Option Bool → Bool
has_failed none = false
has_failed (some passed) = not passed

abbrev pub hard_failed : Dict Bool → List String
hard_failed gates = keep (λ k. has_failed (get k gates)) hard_gates

abbrev pub no_failures : List String → Bool
no_failures [] = true
no_failures (k ∷ ks) = false

-- What a decision other than to buy becomes.
abbrev pub mapped : Action → Action
mapped reject_action = reject_action
mapped _ = watch_action

abbrev pub is_buy : Action → Bool
is_buy buy_action = true
is_buy _ = false

module _ {F : Type 0} ⦃n : FloatOps F⦄ (p : DecisionPipeline F) where
  -- The AI may only upgrade a token of the watch band whose hard gates have not failed.
  abbrev pub may_upgrade : Case F → Bool
  may_upgrade c = c.signal.qualified || no_failures (hard_failed c.signal.gates)

  abbrev pub wanted : PortfolioState F → AiDecision F → F
  wanted portfolio d =
      if truthy d.recommended_order_usdc
      then d.recommended_order_usdc
      else over (total_value portfolio * d.recommended_position_percent) (num 100)

  abbrev pub size_cap : F → F → F
  size_cap amount want = min amount (max p.min_order want)

  -- What follows from the AI's answer: nothing, or the answer and the largest size.
  abbrev pub judge_decision :
      String
      → Case F
      → PortfolioState F
      → AiOutcome F
      → AiDecision F
      → Stage F (Option (AiOutcome F) × F)
  judge_decision id c portfolio outcome d =
      if not (is_buy d.action)
      then decided (record_of p id c (mapped d.action) (some outcome) none c.amount none)
      else if not (may_upgrade c)
      then decided (record_of p id c watch_action (some outcome) none c.amount none)
      else if lt d.confidence p.min_ai_conf
      then decided (record_of p id c watch_action (some outcome) none c.amount none)
      else onwards (some outcome, size_cap c.amount (wanted portfolio d))

  abbrev pub judge :
      String
      → Case F
      → PortfolioState F
      → AiOutcome F
      → Option (AiDecision F)
      → Stage F (Option (AiOutcome F) × F)
  judge id c portfolio outcome none =
      decided (record_of p id c watch_action (some outcome) none c.amount none)
  judge id c portfolio outcome (some d) =
      if not (outcome.status == "OK")
      then decided (record_of p id c watch_action (some outcome) none c.amount none)
      else judge_decision id c portfolio outcome d

  -- The outcome that records that the AI is switched off.
  abbrev pub off : AiOutcome F
  off = record { status = "DISABLED"; decision = none }

  unfoldable pub consult :
      Consultation F
      → Case F
      → AiMode
      → PortfolioState F
      → ControlState
      → (PortfolioState F × ControlState) × Stage F (Option (AiOutcome F) × F)
  consult w c ai_disabled portfolio controls = (
    (portfolio, controls),
    if is_live c.mode || not c.signal.qualified
        then decided (record_of p w.decision_id c watch_action (some off) none c.amount none)
        else onwards (none, c.amount),
  )
  consult w c ai_enabled portfolio controls =
      if lt c.amount p.min_order
      then (
        (portfolio, controls),
        decided (record_of p w.decision_id c watch_action none none c.amount none),
      )
      else let outcome = w.analyze c.signal c.pre c.amount in
        let (portfolio', controls') = w.meanwhile portfolio controls in
        ((portfolio', controls'), judge w.decision_id c portfolio' outcome outcome.decision)
