-- ===== src/Venues/Cost.antt =====
-- backend/app/venues/cost.py: what a quote costs against the reference price, and which part of it the
-- pool fee and the price impact explain. The fee of a route's text is not modelled.
use meme_agent.Base.{Bool, not, ◌||◌, Option, none, some, if◌then◌else◌}
use meme_agent.Core.Types.{Side, buy, sell}
use meme_agent.Core.Errors.{Result, ok, ◌>>=◌}
use meme_agent.Float.{FloatOps, ◌-◌, ◌*◌, ◌÷◌, neg, lt, le, num, over, round, truthy}
use meme_agent.Domain.Trade.{Quote}

pub record Breakdown (F : Type 0) : Type 0 where
  pub fee_pct : Option F
  pub price_impact_pct : F
  pub total_cost_pct : Option F
  pub deviation_ex_fee_pct : Option F
  pub unexplained_cost_pct : Option F

module _ {F : Type 0} ⦃n : FloatOps F⦄ where
  abbrev pub abs : F → F
  abs x = if lt x (num 0) then neg x else x

  -- `not x or x <= 0`
  abbrev pub absent : F → Bool
  absent x = not (truthy x) || le x (num 0)

  -- The parts that need no reference price.
  abbrev pub unpriced : Quote F → Breakdown F
  unpriced q = record {
    fee_pct = q.fee_pct;
    price_impact_pct = q.price_impact_pct;
    total_cost_pct = none;
    deviation_ex_fee_pct = none;
    unexplained_cost_pct = none;
  }

  abbrev pub total_of : Side → F → Result F
  total_of buy ratio = ok ((ratio - num 1) * num 100)
  total_of sell ratio = do inverse ← num 1 ÷ ratio; ok ((inverse - num 1) * num 100)

  -- The ratio without the pool fee.
  abbrev pub adjusted : Side → F → F → F
  adjusted buy ratio keep = ratio * keep
  adjusted sell ratio keep = if truthy keep then over ratio keep else ratio

  abbrev pub with_fee : Quote F → Side → F → F → Option F → Breakdown F
  with_fee q side ratio total none = record (unpriced q) { total_cost_pct = some (round total 4) }
  with_fee q side ratio total (some fee) =
      let keep = num 1 - over fee (num 100) in
      record (unpriced q) {
        total_cost_pct = some (round total 4);
        deviation_ex_fee_pct = some (round (abs (adjusted side ratio keep - num 1) * num 100) 4);
        unexplained_cost_pct = some (round (total - fee - q.price_impact_pct) 4);
      }

  unfoldable pub cost_breakdown : Quote F → Option F → Side → Result (Breakdown F)
  cost_breakdown q none side = ok (unpriced q)
  cost_breakdown q (some reference_price) side =
      if absent reference_price || absent q.price then ok (unpriced q) else (do
        let ratio = over q.price reference_price
        total ← total_of side ratio
        ok (with_fee q side ratio total q.fee_pct))
