-- ===== src/Venues/Model.antt =====
-- backend/app/venues/base.py: a venue's limits and its answer. What is only shown of an answer (error,
-- latency) is left out, and a failed limit is its kind: the text puts the numbers beside it.
use meme_agent.Base.{String, Bool, true, false, Option, none, List, []}
use meme_agent.Core.Errors.{Result}
use meme_agent.Float.{FloatOps, num}
use meme_agent.Domain.Trade.{TradeRequest, Quote}

pub record VenuePolicy (F : Type 0) : Type 0 where
  pub max_price_impact_pct : F
  pub max_total_cost_pct : F
  pub max_unexplained_pct : F
  pub max_sell_tax_pct : F
  pub max_deviation_pct : F
  pub require_executable : Bool

pub data PolicyFailure : Type 0 where
  price_impact total_cost unexplained_cost quote_deviates : PolicyFailure
  quote_far_below_market sell_tax : PolicyFailure

pub record VenueResult (F : Type 0) : Type 0 where
  pub venue : String
  pub ok : Bool
  pub amount_in_usdc : Option F
  pub expected_out : Option F
  pub price : Option F
  pub fee_pct : Option F
  pub price_impact_pct : Option F
  pub total_cost_pct : Option F
  pub unexplained_cost_pct : Option F
  pub sell_tax_pct : Option F
  pub route : Option String
  pub router_address : Option String
  pub executable : Bool
  pub not_executable_reason : String
  pub passes_policy : Bool
  pub policy_failures : List PolicyFailure
  pub quote : Option (Quote F)

-- What the router asks a venue for. `quote` raises also when the venue does not answer in time.
pub record Venue (F : Type 0) : Type 0 where
  pub quote : TradeRequest F → Result (Quote F)
  pub executable : Bool × String

module _ {F : Type 0} where
  -- `VenueResult(venue=name, ok=False)`
  abbrev pub unanswered : String → VenueResult F
  unanswered name = record {
    venue = name;
    ok = false;
    amount_in_usdc = none;
    expected_out = none;
    price = none;
    fee_pct = none;
    price_impact_pct = none;
    total_cost_pct = none;
    unexplained_cost_pct = none;
    sell_tax_pct = none;
    route = none;
    router_address = none;
    executable = false;
    not_executable_reason = "";
    passes_policy = false;
    policy_failures = [];
    quote = none;
  }

module _ {F : Type 0} ⦃n : FloatOps F⦄ where
  -- The limits when nothing else is set.
  abbrev pub default_policy : VenuePolicy F
  default_policy = record {
    max_price_impact_pct = num 2;
    max_total_cost_pct = num 5;
    max_unexplained_pct = num 3;
    max_sell_tax_pct = num 10;
    max_deviation_pct = num 3;
    require_executable = true;
  }
