-- ===== src/Venues/Router.antt =====
-- backend/app/venues/router.py: quotes of every venue, their check against the limits, and the choice.
-- The audit record and the clock of `_one` are not modelled: a venue that raises or does not answer in
-- time gives a result that is not ok. The venues answer in the order of their names.
pub mod Choice
pub mod Best
pub mod Limits
use Prim.Native.String
use meme_agent.Base.{
  String, Bool, true, false, not, ◌==◌, ◌&&◌, ◌||◌, Option, none, some, List, [], ◌∷◌, ◌++◌, map,
  Dict, get, text_or_empty, if◌then◌else◌,
}
use meme_agent.Core.Errors.{Result, ok, raised, ◌>>=◌, data_unavailable, integration_not_verified}
use meme_agent.Float.{FloatOps, neg, lt, gt, num}
use meme_agent.Domain.Trade.{TradeRequest, Quote}
use meme_agent.Venues.Model.{
  VenuePolicy, PolicyFailure, price_impact, total_cost, unexplained_cost, quote_deviates,
  quote_far_below_market, sell_tax, VenueResult, Venue, unanswered,
}
use meme_agent.Venues.Cost.{Breakdown, cost_breakdown}

pub record VenueRouter (F : Type 0) : Type 0 where
  pub venues : Dict (Venue F)
  pub policy : VenuePolicy F

abbrev pub or_else : {A : Type 0} → Option A → A → A
or_else none d = d
or_else (some a) d = a

-- `a or b`
abbrev pub first_of : {A : Type 0} → Option A → Option A → Option A
first_of none b = b
first_of (some a) b = some a

abbrev pub is_some : {A : Type 0} → Option A → Bool
is_some none = false
is_some (some a) = true

abbrev pub filter : {A : Type 0} → (A → Bool) → List A → List A
filter p [] = []
filter p (x ∷ xs) = let rest = filter p xs in if p x then x ∷ rest else rest

abbrev pub report : Bool → PolicyFailure → List PolicyFailure
report b f = if b then f ∷ [] else []

abbrev pub is_empty : List PolicyFailure → Bool
is_empty [] = true
is_empty (f ∷ fs) = false

module _ {F : Type 0} ⦃n : FloatOps F⦄ where
  unfoldable pub policy_for : VenueRouter F → TradeRequest F → VenuePolicy F
  policy_for r req = record (r.policy) {
    max_price_impact_pct = or_else req.max_price_impact_pct r.policy.max_price_impact_pct;
    max_total_cost_pct = or_else req.max_total_cost_pct r.policy.max_total_cost_pct;
  }

  -- `x is not None and x > limit`
  abbrev pub exceeds : Option F → F → Bool
  exceeds none limit = false
  exceeds (some x) limit = gt x limit

  -- The deviation, or, where it is not known, a price far below the market.
  abbrev pub deviation_failures : VenuePolicy F → Option F → Option F → List PolicyFailure
  deviation_failures p (some d) total = report (gt d p.max_deviation_pct) quote_deviates
  deviation_failures p none none = []
  deviation_failures p none (some t) =
      report (lt t (neg p.max_deviation_pct)) quote_far_below_market

  unfoldable pub failures : VenuePolicy F → Quote F → Breakdown F → List PolicyFailure
  failures p q b =
      report (gt q.price_impact_pct p.max_price_impact_pct) price_impact
      ++ report (exceeds b.total_cost_pct p.max_total_cost_pct) total_cost
      ++ report (exceeds b.unexplained_cost_pct p.max_unexplained_pct) unexplained_cost
      ++ deviation_failures p b.deviation_ex_fee_pct b.total_cost_pct
      ++ report (exceeds q.diagnostics.sell_tax_pct p.max_sell_tax_pct) sell_tax

  abbrev pub executability : Option (Venue F) → Bool × String
  executability none = (false, "unknown venue")
  executability (some v) = v.executable

  unfoldable pub evaluate :
      VenueRouter F → String → Quote F → TradeRequest F → Result (VenueResult F)
  unfolding failures policy_for
  evaluate r venue q req = do
    b ← cost_breakdown q req.reference_price req.side
    let fails = failures (policy_for r req) q b
    let (ok_exec, why) = executability (get venue r.venues)
    ok record {
      venue = venue;
      ok = true;
      amount_in_usdc = req.amount_usdc;
      expected_out = some q.expected_out;
      price = some q.price;
      fee_pct = q.fee_pct;
      price_impact_pct = some q.price_impact_pct;
      total_cost_pct = b.total_cost_pct;
      unexplained_cost_pct = b.unexplained_cost_pct;
      sell_tax_pct = q.diagnostics.sell_tax_pct;
      route = q.diagnostics.route;
      router_address = some q.router_address;
      executable = ok_exec;
      not_executable_reason = why;
      passes_policy = is_empty fails;
      policy_failures = fails;
      quote = some q;
    }

  -- A quote that does not name its venue gets the name.
  abbrev pub named : String → Quote F → Quote F
  named name q = if q.venue == "" then record q { venue = name } else q

  -- `except`: whatever is raised, the venue has not answered.
  abbrev pub or_unanswered : String → Result (VenueResult F) → VenueResult F
  or_unanswered name (raised e) = unanswered name
  or_unanswered name (ok res) = res

  unfoldable pub one : VenueRouter F → String → Venue F → TradeRequest F → VenueResult F
  one r name v req = or_unanswered name (do q ← v.quote req; evaluate r name (named name q) req)

  unfoldable pub quote_all : VenueRouter F → TradeRequest F → List (VenueResult F)
  quote_all r req = map (λ (name, v). one r name v req) r.venues

  -- `r.expected_out or 0.0`
  abbrev pub output : VenueResult F → F
  output r = or_else r.expected_out (num 0)

  -- `max(..., key=output, default=None)` keeps the first of equals.
  abbrev pub better : VenueResult F → VenueResult F → VenueResult F
  better a b = if gt (output b) (output a) then b else a

  unfoldable pub max_from : VenueResult F → List (VenueResult F) → VenueResult F
  max_from a [] = a
  max_from a (b ∷ bs) = max_from (better a b) bs

  unfoldable pub max_by_output : List (VenueResult F) → Option (VenueResult F)
  unfolding max_from
  max_by_output [] = none
  max_by_output (a ∷ bs) = some (max_from a bs)

  abbrev pub is_candidate : Bool → VenueResult F → Bool
  is_candidate need_executable r = r.ok && r.passes_policy && (r.executable || not need_executable)

  unfoldable pub best : Bool → List (VenueResult F) → Option (VenueResult F)
  unfolding max_by_output
  best need_executable results = max_by_output (filter (is_candidate need_executable) results)

  abbrev pub has_quote : VenueResult F → Bool
  has_quote r = r.ok && is_some r.quote

  unfoldable pub pick : List (VenueResult F) → Option (VenueResult F)
  unfolding best max_by_output
  pick results =
      first_of (first_of (best true results) (best false results))
        (max_by_output (filter has_quote results))

  -- `if pick is None or pick.quote is None: raise`
  abbrev pub asked : Option (Quote F) → Result (Quote F)
  asked none = raised data_unavailable
  asked (some q) = ok q

  abbrev pub quote_of : Option (VenueResult F) → Result (Quote F)
  quote_of none = raised data_unavailable
  quote_of (some r) = asked r.quote

  -- The venue that the request names.
  abbrev pub quote_named :
      VenueRouter F → String → TradeRequest F → Option (Venue F) → Result (Quote F)
  quote_named r name req none = raised (integration_not_verified "venue")
  quote_named r name req (some v) =
      let res = one r name v req in if res.ok then asked res.quote else raised data_unavailable

  unfoldable pub quote : VenueRouter F → TradeRequest F → Result (Quote F)
  unfolding one quote_all pick
  quote r req =
      let name = text_or_empty req.venue in
      if name == ""
      then quote_of (pick (quote_all r req))
      else quote_named r name req (get name r.venues)
