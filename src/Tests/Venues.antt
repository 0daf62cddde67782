-- ===== src/Tests/Venues.antt =====
-- The theorems on the router of venues, at two venues.
use meme_agent.Base.{
  List, lower, true, false, ◌≡◌, ◌⊎◌, inl, inr, refl, none, some, [], ◌∷◌, Among, get,
}
use meme_agent.Core.Types.{buy}
use meme_agent.Core.Errors.{integration_not_verified, ok, raised, data_unavailable}
use meme_agent.Float.{num, dec}
use meme_agent.Float.Int.{◌+ℤ◌, ◌-ℤ◌, scaled_times, scaled_quotient}
use meme_agent.Float.Fixed.{Fixed, fixed_ops, Fixed-IsOrdered}
use meme_agent.Domain.Trade.{Quote}
use meme_agent.Venues.Model.{VenueResult, Venue, default_policy}
use meme_agent.Venues.Fills.{Transfer, move_amount, move_all, parse_transfer_fill}
use meme_agent.Venues.Fills.Settled.{
  traded, promised, above_zero, IsFilled, parse_transfer_fill-IsFilled,
}
use meme_agent.Venues.Cost.{cost_breakdown}
use meme_agent.Venues.Router.{
  VenueRouter, is_candidate, policy_for, failures, evaluate, one, quote_all, pick, best,
  max_by_output, max_from, quote,
}
use meme_agent.Venues.Router.Limits.{IsWithin}
use meme_agent.Venues.Router.Best.{IsChoice, quote_lem, quote-IsWithin}
use meme_agent.Tests.Data.{noon, buy_request}

abbrev fair : Quote Fixed
fair = record {
  side = buy;
  token_address = "0xAb";
  amount_in = num 3;
  expected_out = dec 148 2;
  price = dec 202 2;
  price_impact_pct = dec 2 1;
  fee_usdc = num 0;
  router_address = "0x11";
  pool_liquidity_usdc = none;
  venue = "";
  fee_pct = some (dec 3 1);
  diagnostics = record { sell_tax_pct = none; route = none };
  quoted_at = noon;
  expires_at = noon;
  source = "test";
}

-- More tokens, with an impact above the limit.
abbrev harsh : Quote Fixed
harsh = record fair { expected_out = num 2; price_impact_pct = num 9 }

abbrev venue_of : Quote Fixed → Venue Fixed
venue_of q = record { quote = λ _. ok q; executable = (true, "") }

abbrev down : Venue Fixed
down = record { quote = λ _. raised data_unavailable; executable = (true, "") }

abbrev router : VenueRouter Fixed
router = record {
  venues = ("down", down) ∷ ("uniswap", venue_of harsh) ∷ ("kyberswap", venue_of fair) ∷ [];
  policy = default_policy;
}

abbrev fair_result : VenueResult Fixed
fair_result = one router "kyberswap" (venue_of fair) buy_request

-- The larger output is passed over.
fair_picked : quote router buy_request ≡ ok (record fair { venue = "kyberswap" })
unfolding quote pick best max_by_output max_from quote_all one evaluate failures policy_for
    cost_breakdown ◌+ℤ◌ ◌-ℤ◌ scaled_times scaled_quotient get
fair_picked = refl

quote_lem_example :
    ((quote router buy_request ≡ raised data_unavailable)
      × ((c : VenueResult Fixed) → Among c (quote_all router buy_request) → c.ok ≡ false))
    ⊎ ((res : VenueResult Fixed) × ((q : Quote Fixed) × ((quote router buy_request ≡ ok q)
            × ((res.quote ≡ some q) × IsChoice (quote_all router buy_request) res))))
quote_lem_example = quote_lem Fixed-IsOrdered router buy_request refl

is_third : Among fair_result (quote_all router buy_request)
unfolding quote_all
is_third = inr (inr (inl refl))

passes : is_candidate false fair_result ≡ true
unfolding one evaluate failures policy_for cost_breakdown ◌+ℤ◌ ◌-ℤ◌ scaled_times scaled_quotient get
passes = refl

quote-IsWithin_example :
    (q : Quote Fixed) × ((res : VenueResult Fixed) × ((quote router buy_request ≡ ok q)
        × (Among res (quote_all router buy_request)
            × ((res.quote ≡ some q) × IsWithin router buy_request q))))
quote-IsWithin_example =
    quote-IsWithin Fixed-IsOrdered router buy_request fair_result refl is_third passes

-- 3 USDC leave the wallet, and 2 tokens of 18 decimals come in; a log that cannot be read is skipped.
abbrev transfers : List Transfer
transfers =
    record {
      frm = "ab";
      to = "cd";
      raw = some 3_000_000;
      address = "0x3600000000000000000000000000000000000000";
    }
    ∷ record { frm = "cd"; to = "ab"; raw = none; address = "0xab" }
    ∷ record { frm = "cd"; to = "ab"; raw = some 2_000_000_000_000_000_000; address = "0xab" }
    ∷ []

swapped :
    parse_transfer_fill "ab" transfers fair 18
    ≡ ok (record { filled_quantity = num 2; avg_price = dec 15 1; fee_usdc = dec 9 3 })
unfolding parse_transfer_fill move_all move_amount lower ◌+ℤ◌ scaled_times scaled_quotient
swapped = refl

parse_transfer_fill-IsFilled_example :
    let moved = traded {F = Fixed} fair.side "ab" (lower fair.token_address) 18 transfers in
    let result = parse_transfer_fill "ab" transfers fair 18 in
    (above_zero moved ≡ true → IsFilled fair moved result)
    × (above_zero moved ≡ false
        → above_zero (promised fair fair.side) ≡ true
        → IsFilled fair (promised fair fair.side) result)
    × (above_zero moved ≡ false
        → above_zero (promised fair fair.side) ≡ false
        → result ≡ raised (integration_not_verified "fill parsing"))
parse_transfer_fill-IsFilled_example =
    parse_transfer_fill-IsFilled Fixed-IsOrdered "ab" transfers fair 18
