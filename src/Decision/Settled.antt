-- ===== src/Decision/Settled.antt =====
-- What the last stages of a decision to buy have settled.
use meme_agent.Base.{
  String, true, false, ◌≡◌, refl, sym, subst, inl, inr, Option, none, some, Bool-cases, arith,
}
use meme_agent.Core.Errors.{ok}
use meme_agent.Core.Outcomes.{>>=-eq-ok, ok-injective}
use meme_agent.Core.Types.{is_live, buy_action, watch_action, is_approve}
use meme_agent.Float.{FloatOps}
use meme_agent.Domain.Trade.{TradeRequest, ApprovedTrade}
use meme_agent.Risk.Approval.{approve_trade, approve_trade-verify, verify}
use meme_agent.Risk.Model.{RiskAssessment}
use meme_agent.Venues.Model.{VenueResult}
use meme_agent.Venues.Router.{VenueRouter, quote_all}
use meme_agent.Decision.Model.{AiOutcome, DecisionPipeline, Consultation, DecisionRecord}
use meme_agent.Decision.Cases.{Case, Stage, decided, onwards, record_of, request}
use meme_agent.Decision.Consulting.{is_buy}
use meme_agent.Decision.Evaluating.{route, approve_on, settle, venue_name, choose_venue}

module _ {F : Type 0} ⦃n : FloatOps F⦄ (p : DecisionPipeline F) where
  -- An approved trade for the amount on the market of the case, with a signature that verifies.
  pub record IsTradeOf (c : Case F) (amount : F) (t : ApprovedTrade F) : Type 0 where
    pub verified : verify p.signer p.key t ≡ true
    pub for_amount : t.request.amount_usdc ≡ some amount
    pub in_mode : t.request.mode ≡ c.mode
    pub on_chain : t.request.chain ≡ c.market.chain
    pub of_token : t.request.token_address ≡ c.market.token_address
    pub slippage : t.request.max_slippage_pct ≡ c.limits.max_slippage_pct

  -- What a purchase was settled on.
  pub record IsSettled (w : Consultation F) (c : Case F) (outcome : Option (AiOutcome F))
      (amount : F) (final : RiskAssessment F) (d : DecisionRecord F) : Type 0 where
    pub approving : is_approve final.decision ≡ true
    pub trade : ApprovedTrade F
    pub trade_of : IsTradeOf c amount trade
    pub recorded :
        record_of p w.decision_id c buy_action outcome (some final) amount (some trade) ≡ d

  request-IsTradeOf :
      (c : Case F) (amount : F) (id : String) (venue : Option String) (req : TradeRequest F)
      (t : ApprovedTrade F)
      → request p c.market amount c.mode c.now id c.limits.max_slippage_pct (some c.limits) venue
        ≡ ok req
      → t.request ≡ req
      → verify p.signer p.key t ≡ true
      → IsTradeOf c amount t
  unfolding request
  request-IsTradeOf c amount id venue req t h e verified = record {
    verified = verified;
    for_amount = ground arith;
    in_mode = ground arith;
    on_chain = ground arith;
    of_token = ground arith;
    slippage = ground arith;
  }

  pub no_buy :
      (d e : DecisionRecord F)
      → d ≡ e
      → is_buy d.final_action ≡ false
      → is_buy e.final_action ≡ false
  no_buy d e same h = rw (sym same) h

  approve_on-IsSettled :
      (w : Consultation F) (c : Case F) (outcome : Option (AiOutcome F)) (amount : F)
      (final : RiskAssessment F) (venue : Option String) (d : DecisionRecord F)
      → is_approve final.decision ≡ true
      → approve_on p w c outcome final amount (onwards venue) ≡ ok d
      → IsSettled w c outcome amount final d
  approve_on-IsSettled w c outcome amount final venue d approving h =
      let (req, (made, h1)) = >>=-eq-ok _ _ h in
      let (t, (signed, h2)) =
        >>=-eq-ok _ (approve_trade p.signer p.key req w.assessment_id final) h1 in
      let (_, for_req, verified, _) =
        approve_trade-verify p.signer p.key req w.assessment_id final t signed in
      record {
        approving = approving;
        trade = t;
        trade_of = request-IsTradeOf c amount w.decision_id venue req t made for_req verified;
        recorded = ok-injective _ d h2;
      }

  -- Where no venue is left, nothing is bought.
  abbrev pub EndsWithoutBuying : Stage F (Option String) → Type 0
  EndsWithoutBuying (decided d) = is_buy d.final_action ≡ false
  EndsWithoutBuying (onwards venue) = Unit

  venue_name-Ends :
      (r : Option (VenueResult F)) (d : DecisionRecord F)
      → is_buy d.final_action ≡ false
      → EndsWithoutBuying (venue_name p r (decided d))
  venue_name-Ends none d h = h
  venue_name-Ends (some r) d h = tt

  route-Ends :
      (id : String) (c : Case F) (outcome : Option (AiOutcome F)) (final : RiskAssessment F)
      (amount : F) (router : Option (VenueRouter F)) (stage : Stage F (Option String))
      → route p id c outcome final amount router ≡ ok stage
      → EndsWithoutBuying stage
  route-Ends id c outcome final amount none stage h =
      subst EndsWithoutBuying (ok-injective _ stage h) tt
  route-Ends id c outcome final amount (some router) stage h = elim (Bool-cases (is_live c.mode)) [
    | inr paper_mode ↦ subst EndsWithoutBuying (ok-injective _ stage (rw paper_mode at h)) tt
    | inl live_mode ↦
        let (probe, (made, h1)) =
          >>=-eq-ok _
            (request p c.market amount c.mode c.now id c.limits.max_slippage_pct (some c.limits)
              none)
            (rw live_mode at h) in
        subst EndsWithoutBuying (ok-injective _ stage h1) (
          venue_name-Ends (choose_venue p outcome (quote_all router probe))
            (record_of p id c watch_action outcome (some final) amount none) refl)
  ]

  staged-IsSettled :
      (w : Consultation F) (c : Case F) (outcome : Option (AiOutcome F)) (amount : F)
      (final : RiskAssessment F) (stage : Stage F (Option String)) (d : DecisionRecord F)
      → is_approve final.decision ≡ true
      → EndsWithoutBuying stage
      → approve_on p w c outcome final amount stage ≡ ok d
      → is_buy d.final_action ≡ true
      → IsSettled w c outcome amount final d
  staged-IsSettled w c outcome amount final (decided e) d approving ends h buys =
      cc (no_buy e d (ok-injective e d h) ends)
  staged-IsSettled w c outcome amount final (onwards venue) d approving ends h buys =
      approve_on-IsSettled w c outcome amount final venue d approving h

  pub settle-IsSettled :
      (w : Consultation F) (c : Case F) (outcome : Option (AiOutcome F)) (amount : F)
      (final : RiskAssessment F) (d : DecisionRecord F)
      → settle p w c outcome amount final ≡ ok d
      → is_buy d.final_action ≡ true
      → IsSettled w c outcome amount final d
  settle-IsSettled w c outcome amount final d h buys =
      elim (Bool-cases (is_approve final.decision)) [
        | inr vetoed ↦ cc (no_buy _ d (ok-injective _ d (rw vetoed at h)) refl)
        | inl approving ↦
            let (stage, (routed, h1)) =
              >>=-eq-ok _ (route p w.decision_id c outcome final amount p.venue_router)
                (rw approving at h) in
            staged-IsSettled w c outcome amount final stage d approving
              (route-Ends w.decision_id c outcome final amount p.venue_router stage routed) h1 buys
      ]
