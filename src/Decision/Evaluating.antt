-- ===== src/Decision/Evaluating.antt =====
-- `DecisionPipeline._evaluate` of backend/app/services/decision.py: the venue, the approval, and the
-- stages in their order.
use meme_agent.Base.{
  ℕ, String, ◌==◌, true, not, ◌&&◌, Option, none, some, List, [], ◌∷◌, if◌then◌else◌,
}
use meme_agent.Core.Errors.{Result, ok, raised, ◌>>=◌}
use meme_agent.Core.Types.{
  TradingMode, is_live, buy_action, watch_action, reject_action, is_approve,
}
use meme_agent.Float.{FloatOps, lt, min, round}
use meme_agent.Domain.Market.{MarketState}
use meme_agent.Portfolio.Controls.{ControlState}
use meme_agent.Portfolio.State.{PortfolioState}
use meme_agent.Risk.Approval.{approve_trade}
use meme_agent.Risk.Model.{RiskAssessment}
use meme_agent.Risk.Sizing.{max_entry_amount}
use meme_agent.Strategies.Signal.{StrategySignal}
use meme_agent.Venues.Model.{VenueResult}
use meme_agent.Venues.Router.{VenueRouter, quote_all, best}
use meme_agent.Decision.Model.{
  AiDecision, AiOutcome, DecisionPipeline, Consultation, DecisionRecord,
}
use meme_agent.Decision.Cases.{
  record_of, request, assess_entry, tightened, Case, Stage, decided, onwards,
}
use meme_agent.Decision.Consulting.{consult}

module _ {F : Type 0} ⦃n : FloatOps F⦄ (p : DecisionPipeline F) where
  -- The venue that the AI prefers.
  abbrev pub venue_of_decision : Option (AiDecision F) → Option String
  venue_of_decision none = none
  venue_of_decision (some d) = d.venue

  abbrev pub ai_venue : Option (AiOutcome F) → Option String
  ai_venue none = none
  ai_venue (some outcome) = venue_of_decision outcome.decision

  abbrev pub first_of_venue : String → List (VenueResult F) → Option (VenueResult F)
  first_of_venue venue [] = none
  first_of_venue venue (r ∷ rs) = if r.venue == venue then some r else first_of_venue venue rs

  -- `if ai_venue`: no name, or an empty one, is no preference.
  abbrev pub preferred : Option String → List (VenueResult F) → Option (VenueResult F)
  preferred none results = none
  preferred (some venue) results = if venue == "" then none else first_of_venue venue results

  abbrev pub honoured : Option (VenueResult F) → Option (VenueResult F) → Option (VenueResult F)
  honoured none pick = pick
  honoured (some mine) pick = if mine.passes_policy && mine.executable then some mine else pick

  unfoldable pub choose_venue : Option (AiOutcome F) → List (VenueResult F) → Option (VenueResult F)
  choose_venue outcome results = honoured (preferred (ai_venue outcome) results) (best true results)

  -- Nothing to choose, a venue, or none within the limits.
  abbrev pub venue_name : Option (VenueResult F) → Stage F (Option String) → Stage F (Option String)
  venue_name none refusal = refusal
  venue_name (some r) refusal = onwards (some r.venue)

  abbrev pub route :
      String
      → Case F
      → Option (AiOutcome F)
      → RiskAssessment F
      → F
      → Option (VenueRouter F)
      → Result (Stage F (Option String))
  route id c outcome final amount none = ok (onwards none)
  route id c outcome final amount (some router) =
      if is_live c.mode
      then (do
        probe ←
            request p c.market amount c.mode c.now id c.limits.max_slippage_pct (some c.limits) none
        ok (
            venue_name (choose_venue outcome (quote_all router probe))
              (decided (record_of p id c watch_action outcome (some final) amount none))))
      else ok (onwards none)

  abbrev pub approve_on :
      Consultation F
      → Case F
      → Option (AiOutcome F)
      → RiskAssessment F
      → F
      → Stage F (Option String)
      → Result (DecisionRecord F)
  approve_on w c outcome final amount (decided d) = ok d
  approve_on w c outcome final amount (onwards venue) = do
    req ←
        request p c.market amount c.mode c.now w.decision_id c.limits.max_slippage_pct
          (some c.limits) venue
    approved ← approve_trade p.signer p.key req w.assessment_id final
    ok (record_of p w.decision_id c buy_action outcome (some final) amount (some approved))

  abbrev pub settle :
      Consultation F
      → Case F
      → Option (AiOutcome F)
      → F
      → RiskAssessment F
      → Result (DecisionRecord F)
  settle w c outcome amount final =
      if not (is_approve final.decision)
      then ok (record_of p w.decision_id c reject_action outcome (some final) amount none)
      else (do
        stage ← route w.decision_id c outcome final amount p.venue_router
        approve_on w c outcome final amount stage)

  -- The final size, its assessment, the venue and the approval.
  abbrev pub conclude :
      Consultation F
      → Case F
      → PortfolioState F × ControlState
      → Stage F (Option (AiOutcome F) × F)
      → PortfolioState F × Result (DecisionRecord F)
  conclude w c (portfolio, controls) (decided d) = (portfolio, ok d)
  conclude w c (portfolio, controls) (onwards (outcome, cap)) =
      let amount = round (min c.amount cap) 6 in
      let (portfolio', final) =
        assess_entry p c.market amount c.mode portfolio controls c.now c.limits in
      if lt amount p.min_order
      then (portfolio, ok (record_of p w.decision_id c watch_action outcome none amount none))
      else (portfolio', settle w c outcome amount final)

  -- A vetoed token, and a signal below the watch band, end before the AI is asked.
  unfoldable pub decide :
      Consultation F
      → Case F
      → PortfolioState F
      → ControlState
      → PortfolioState F × Result (DecisionRecord F)
  unfolding consult request choose_venue
  decide w c portfolio controls =
      let asked = consult p w c p.ai_mode portfolio controls in
      if not (is_approve c.pre.decision)
      then (portfolio, ok (record_of p w.decision_id c reject_action none none c.amount none))
      else if not c.signal.qualified && lt c.signal.score p.strategy.watch_score
      then (portfolio, ok (record_of p w.decision_id c reject_action none none c.amount none))
      else conclude w c asked.0 asked.1

  abbrev pub case_of :
      MarketState F → TradingMode → ℕ → StrategySignal F → F → RiskAssessment F → Case F
  case_of m mode now signal amount pre = record {
    market = m;
    mode = mode;
    now = now;
    limits = (tightened p);
    signal = signal;
    amount = amount;
    pre = pre;
  }

  abbrev pub evaluate_scored :
      Consultation F
      → MarketState F
      → PortfolioState F
      → ControlState
      → TradingMode
      → ℕ
      → Result (StrategySignal F)
      → PortfolioState F × Result (DecisionRecord F)
  evaluate_scored w m portfolio controls mode now (raised e) = (portfolio, raised e)
  evaluate_scored w m portfolio controls mode now (ok signal) =
      let amount = max_entry_amount m portfolio (tightened p) in
      let (portfolio', pre) = assess_entry p m amount mode portfolio controls now (tightened p) in
      decide w (case_of m mode now signal amount pre) portfolio' controls

  unfoldable pub evaluate :
      Consultation F
      → MarketState F
      → PortfolioState F
      → ControlState
      → TradingMode
      → ℕ
      → PortfolioState F × Result (DecisionRecord F)
  unfolding decide
  evaluate w m portfolio controls mode now =
      evaluate_scored w m portfolio controls mode now (p.strategy.score m now)
