-- ===== src/Venues/Router/Limits.antt =====
-- What a result within the limits has met.
use meme_agent.Base.{true, false, ◌≡◌, Option, none, some, String, arith, refl, sym, ◌∙◌}
use meme_agent.Core.Errors.{Result, ok, raised}
use meme_agent.Float.{FloatOps, IsOrdered, ◌≼◌, neg}
use meme_agent.Float.Order.{le-of-not-lt}
use meme_agent.Domain.Trade.{TradeRequest, Quote}
use meme_agent.Venues.Model.{VenueResult, VenuePolicy}
use meme_agent.Venues.Cost.{Breakdown, cost_breakdown}
use meme_agent.Venues.Router.{
  VenueRouter, exceeds, or_else, deviation_failures, policy_for, is_empty, failures, evaluate,
}

module _ {F : Type 0} ⦃n : FloatOps F⦄ where
  -- At most the limit of the request, or of the router where the request sets none.
  abbrev pub UnderLimit : F → Option F → F → Type 0
  UnderLimit x (some limit) own = x ≼ limit
  UnderLimit x none own = x ≼ own

  -- What a quote costs, against the reference price of the request, is within the limits: its price
  -- impact; what is known of its total cost, of the part that nothing explains, and of the sell tax;
  -- and the deviation without the fee, or, where that is not known, how far it is below the market.
  pub record IsWithin (r : VenueRouter F) (req : TradeRequest F) (q : Quote F) : Type 0 where
    pub breakdown : Breakdown F
    pub costed : cost_breakdown q req.reference_price req.side ≡ ok breakdown
    pub impact :
        UnderLimit q.price_impact_pct req.max_price_impact_pct r.policy.max_price_impact_pct
    pub cost :
        (x : F)
        → breakdown.total_cost_pct ≡ some x
        → UnderLimit x req.max_total_cost_pct r.policy.max_total_cost_pct
    pub unexplained :
        (x : F) → breakdown.unexplained_cost_pct ≡ some x → x ≼ r.policy.max_unexplained_pct
    pub deviation :
        (x : F) → breakdown.deviation_ex_fee_pct ≡ some x → x ≼ r.policy.max_deviation_pct
    pub below_market :
        (x : F)
        → breakdown.deviation_ex_fee_pct ≡ none
        → breakdown.total_cost_pct ≡ some x
        → neg r.policy.max_deviation_pct ≼ x
    pub tax : (x : F) → q.diagnostics.sell_tax_pct ≡ some x → x ≼ r.policy.max_sell_tax_pct

  or_else-UnderLimit :
      (x : F) (asked : Option F) (own : F) → x ≼ or_else asked own → UnderLimit x asked own
  or_else-UnderLimit x none own h = h
  or_else-UnderLimit x (some limit) own h = h

  module _ (order : IsOrdered F) where
    not_exceeds : (o : Option F) (limit x : F) → exceeds o limit ≡ false → o ≡ some x → x ≼ limit
    not_exceeds none limit x h e = cc
    not_exceeds (some y) limit x h e = ground (arith, le-of-not-lt order x limit)

    not_deviating :
        (p : VenuePolicy F) (d t : Option F) (x : F)
        → is_empty (deviation_failures p d t) ≡ true
        → d ≡ some x
        → x ≼ p.max_deviation_pct
    not_deviating p none t x h e = cc
    not_deviating p (some y) t x h e = ground (arith, le-of-not-lt order x p.max_deviation_pct)

    not_below_market :
        (p : VenuePolicy F) (d t : Option F) (x : F)
        → is_empty (deviation_failures p d t) ≡ true
        → d ≡ none
        → t ≡ some x
        → neg p.max_deviation_pct ≼ x
    not_below_market p (some y) t x h e k = cc
    not_below_market p none none x h e k = cc
    not_below_market p none (some y) x h e k =
        ground (arith, le-of-not-lt order (neg p.max_deviation_pct) x)

    no_failures-IsWithin :
        (r : VenueRouter F) (req : TradeRequest F) (q : Quote F) (b : Breakdown F)
        → cost_breakdown q req.reference_price req.side ≡ ok b
        → is_empty (failures (policy_for r req) q b) ≡ true
        → IsWithin r req q
    unfolding failures policy_for
    no_failures-IsWithin r req q b costed empty = record {
      breakdown = b;
      costed = costed;
      impact = or_else-UnderLimit _ _ _ (le-of-not-lt order _ _ (ground arith));
      cost = λ x e. or_else-UnderLimit _ _ _ (not_exceeds b.total_cost_pct _ x (ground arith) e);
      unexplained = λ x e. not_exceeds b.unexplained_cost_pct _ x (ground arith) e;
      deviation = λ x e. not_deviating (policy_for r req) _ b.total_cost_pct x (ground arith) e;
      below_market = λ x e k. not_below_market (policy_for r req) _ _ x (ground arith) e k;
      tax = λ x e. not_exceeds q.diagnostics.sell_tax_pct _ x (ground arith) e;
    }

    evaluate-failures :
        (r : VenueRouter F) (name : String) (q : Quote F) (req : TradeRequest F)
        (res : VenueResult F) (cost : Result (Breakdown F))
        → cost_breakdown q req.reference_price req.side ≡ cost
        → evaluate r name q req ≡ ok res
        → (b : Breakdown F) × ((cost ≡ ok b)
            × (res.passes_policy ≡ is_empty (failures (policy_for r req) q b)))
    unfolding evaluate
    evaluate-failures r name q req res (raised e) c h = cc
    evaluate-failures r name q req res (ok b) c h = (b, (refl, cc))

    -- A quote that passes the check is within the limits.
    pub evaluate-IsWithin :
        (r : VenueRouter F) (name : String) (q : Quote F) (req : TradeRequest F)
        (res : VenueResult F)
        → evaluate r name q req ≡ ok res
        → res.passes_policy ≡ true
        → IsWithin r req q
    evaluate-IsWithin r name q req res h passes =
        let (b, (costed, fails)) = evaluate-failures r name q req res _ refl h in
        no_failures-IsWithin r req q b costed (sym fails ∙ passes)
