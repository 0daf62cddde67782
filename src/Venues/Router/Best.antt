-- ===== src/Venues/Router/Best.antt =====
-- What the router answers when the request leaves the venue to it.
use mathlib.Core.Option.{some-injective}
use meme_agent.Base.{
  sym, subst, ◌∙◌, true, false, ◌==◌, ◌≡◌, ◌⊎◌, inl, inr, refl, Option, none, some, List, [], ◌∷◌,
  Among, String, Dict, map, text_or_empty, Bool-cases, arith,
}
use meme_agent.Core.Errors.{Result, ok, raised, data_unavailable}
use meme_agent.Float.{FloatOps, IsOrdered, ◌≼◌}
use meme_agent.Domain.Trade.{TradeRequest, Quote}
use meme_agent.Venues.Model.{VenueResult, Venue}
use meme_agent.Venues.Router.{
  VenueRouter, evaluate, one, named, or_unanswered, quote_all, output, max_by_output, is_candidate,
  best, has_quote, pick, quote, quote_of, first_of, filter,
}
use meme_agent.Venues.Router.Limits.{IsWithin, evaluate-IsWithin}
use meme_agent.Venues.Router.Choice.{top_lem}

module _ {F : Type 0} ⦃n : FloatOps F⦄ where
  -- A result is as good as the results allow: one that is executable within the limits, of the
  -- largest output of these, if there is one; else one within the limits, if there is one.
  pub record IsChoice (results : List (VenueResult F)) (r : VenueResult F) : Type 0 where
    pub among : Among r results
    pub answered : r.ok ≡ true
    pub executable_first :
        (c : VenueResult F)
        → Among c results
        → is_candidate true c ≡ true
        → (is_candidate true r ≡ true) × (output c ≼ output r)
    pub within_limits :
        (c : VenueResult F)
        → Among c results
        → is_candidate false c ≡ true
        → is_candidate false r ≡ true

  evaluate-quote :
      (r : VenueRouter F) (name : String) (q : Quote F) (req : TradeRequest F) (res : VenueResult F)
      → evaluate r name q req ≡ ok res
      → (res.quote ≡ some q) × (res.ok ≡ true)
  unfolding evaluate
  evaluate-quote r name q req res h = ground arith

  -- The result is what `evaluate` made of its quote.
  unfoldable pub IsEvaluated : VenueRouter F → TradeRequest F → VenueResult F → Type 0
  IsEvaluated r req c =
      (name : String) × ((q : Quote F) × ((evaluate r name q req ≡ ok c) × (c.quote ≡ some q)))

  or_unanswered-IsEvaluated :
      (r : VenueRouter F) (name : String) (req : TradeRequest F) (q : Quote F)
      (res : Result (VenueResult F))
      → evaluate r name q req ≡ res
      → (or_unanswered name res).ok ≡ true
      → IsEvaluated r req (or_unanswered name res)
  unfolding IsEvaluated
  or_unanswered-IsEvaluated r name req q (raised e) h k = cc
  or_unanswered-IsEvaluated r name req q (ok c) h k =
      (name, (q, (h, (evaluate-quote r name q req c h).0)))

  one-IsEvaluated :
      (r : VenueRouter F) (name : String) (v : Venue F) (req : TradeRequest F)
      (answer : Result (Quote F))
      → v.quote req ≡ answer
      → (one r name v req).ok ≡ true
      → IsEvaluated r req (one r name v req)
  unfolding one
  one-IsEvaluated r name v req (raised e) h k = cc
  one-IsEvaluated r name v req (ok q) h k =
      rw h (or_unanswered-IsEvaluated r name req (named name q) _ refl (rw h at k))

  quote_all-IsEvaluated :
      (r : VenueRouter F) (req : TradeRequest F) (vs : Dict (Venue F)) (c : VenueResult F)
      → Among c (map (λ (name, v). one r name v req) vs)
      → c.ok ≡ true
      → IsEvaluated r req c
  quote_all-IsEvaluated r req [] c h k = elim h [ ]
  quote_all-IsEvaluated r req ((name, v) ∷ vs) c (inl e) k =
      rw e (one-IsEvaluated r name v req _ refl (rw e at k))
  quote_all-IsEvaluated r req ((name, v) ∷ vs) c (inr h) k = quote_all-IsEvaluated r req vs c h k

  -- Nothing has answered, or the picked result is a choice.
  abbrev Picks : List (VenueResult F) → Option (VenueResult F) → Type 0
  Picks results none = (c : VenueResult F) → Among c results → has_quote c ≡ false
  Picks results (some r) = IsChoice results r

  module _ (order : IsOrdered F) where
    -- The choice where nothing is executable within the limits.
    pick-fallback :
        (results : List (VenueResult F))
        → ((c : VenueResult F) → Among c results → is_candidate true c ≡ false)
        → Picks results (first_of (best false results) (max_by_output (filter has_quote results)))
    unfolding best
    pick-fallback results absent = elim (top_lem order (is_candidate false) results) [
      | inr (r, (found, top)) ↦ rw found record {
        among = top.among;
        answered = ground (arith, top.passes);
        executable_first = λ c among h. cc (absent c among);
        within_limits = λ c among h. top.passes;
      }
      | inl (nothing, none_within) ↦ elim (top_lem order has_quote results) [
        | inr (r, (found, top)) ↦
            rw (nothing, found)
              record {
                among = top.among;
                answered = ground (arith, top.passes);
                executable_first = λ c among h. cc (absent c among);
                within_limits = λ c among h. cc (none_within c among);
              }
        | inl (unquoted, all) ↦ rw (nothing, unquoted) all
      ]
    ]

    pick_lem : (results : List (VenueResult F)) → Picks results (pick results)
    unfolding pick best
    pick_lem results = elim (top_lem order (is_candidate true) results) [
      | inr (r, (found, top)) ↦ rw found record {
        among = top.among;
        answered = ground (arith, top.passes);
        executable_first = λ c among h. (top.passes, top.largest c among h);
        within_limits = λ c among h. ground (arith, top.passes);
      }
      | inl (nothing, absent) ↦ rw nothing (pick-fallback results absent)
    ]

    quote_of-Picks :
        (r : VenueRouter F) (req : TradeRequest F) (picked : Option (VenueResult F))
        → Picks (quote_all r req) picked
        → ((quote_of picked ≡ raised data_unavailable)
            × ((c : VenueResult F) → Among c (quote_all r req) → c.ok ≡ false))
          ⊎ ((res : VenueResult F) × ((q : Quote F) × ((quote_of picked ≡ ok q)
                  × ((res.quote ≡ some q) × IsChoice (quote_all r req) res))))
    unfolding quote_all IsEvaluated
    quote_of-Picks r req none h = inl (
      refl,
      λ c among. elim (Bool-cases c.ok) [
        | inr e ↦ e
        | inl e ↦
            let (name, (q, (made, quoted))) = quote_all-IsEvaluated r req r.venues c among e in
            cc (h c among)
      ],
    )
    quote_of-Picks r req (some res) choice =
        let (name, (q, (made, quoted))) =
          quote_all-IsEvaluated r req r.venues res choice.among choice.answered in
        inr (res, (q, (rw quoted refl, (quoted, choice))))

    -- When the request names no venue, either no venue has answered and the router raises, or it returns
    -- the quote of a result that is executable within the limits and has the largest output of these,
    -- if any result is so, and else of one that is within the limits, if any result is.
    pub quote_lem :
        (r : VenueRouter F) (req : TradeRequest F)
        → text_or_empty req.venue == "" ≡ true
        → ((quote r req ≡ raised data_unavailable)
            × ((c : VenueResult F) → Among c (quote_all r req) → c.ok ≡ false))
          ⊎ ((res : VenueResult F) × ((q : Quote F) × ((quote r req ≡ ok q)
                  × ((res.quote ≡ some q) × IsChoice (quote_all r req) res))))
    unfolding quote
    quote_lem r req h =
        rw h (quote_of-Picks r req (pick (quote_all r req)) (pick_lem (quote_all r req)))

    -- When the request names no venue and some venue's quote passes the check, the router returns a
    -- quote that one of the venues has given, and that quote is within the limits of the request, or
    -- of the router where the request sets none: on its price impact, and on what is known of its
    -- total cost, its unexplained cost, its deviation from the market and its sell tax.
    pub quote-IsWithin :
        (r : VenueRouter F) (req : TradeRequest F) (c : VenueResult F)
        → text_or_empty req.venue == "" ≡ true
        → Among c (quote_all r req)
        → is_candidate false c ≡ true
        → (q : Quote F) × ((res : VenueResult F) × ((quote r req ≡ ok q)
              × (Among res (quote_all r req) × ((res.quote ≡ some q) × IsWithin r req q))))
    unfolding quote_all IsEvaluated
    quote-IsWithin r req c unnamed among passes = elim (quote_lem r req unnamed) [
      | inl (silent, all) ↦ cc (all c among)
      | inr (res, (q, (found, (quoted, choice)))) ↦
          let (name, (p, (made, same))) =
            quote_all-IsEvaluated r req r.venues res choice.among choice.answered in
          let within = choice.within_limits c among passes in
          let e : p ≡ q = some-injective _ _ (sym same ∙ quoted) in
          (
            q,
            (
              res,
              (
                found,
                (
                  choice.among,
                  (
                    quoted,
                    subst (IsWithin r req) e
                        (evaluate-IsWithin order r name p req res made (ground arith)),
                  ),
                ),
              ),
            ),
          )
    ]
