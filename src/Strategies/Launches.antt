-- ===== src/Strategies/Launches.antt =====
-- What a signal of traction momentum promises when it qualifies.
use meme_agent.Base.{
  Bool, ◌||◌, ◌⊎◌, Dict, get, ℕ, ◌≡◌, refl, true, false, ◌≢◌, ◌≤◌, Option, none, some, subst, leb,
  Bool-cases, inl, inr, arith,
}
use meme_agent.Core.Errors.{ok}
use meme_agent.Core.Outcomes.{>>=-eq-ok, ok-injective}
use meme_agent.Float.{FloatOps, gt, num, ◌≼◌, round}
use meme_agent.Domain.Market.{MarketState, present, or_zero, age_seconds, buy_sell_volume_ratio}
use meme_agent.Strategies.Signal.{StrategySignal, signal, total_score}
use meme_agent.Strategies.Traction.{
  TractionMomentumConfig, momentum, established, gates, score, components, liquidity_score,
}
use meme_agent.Strategies.Gates.{
  AllPass, failed_gates-AllPass, IsAtLeast, IsAtLeastIfKnown, positive-true, reaches-true,
  unknown_or_reaches-true,
}

module _ {F : Type 0} ⦃n : FloatOps F⦄ (c : TractionMomentumConfig F) (m : MarketState F)
    (now : ℕ) where
  -- Traction of a token that is not established.
  pub record HasTraction : Type 0 where
    pub bought : c.min_unique_buyers_5m ≤ or_zero m.unique_buyers_5m
    pub demand :
        (r : Option F) × ((buy_sell_volume_ratio m ≡ ok r)
          × IsAtLeast r c.min_buy_sell_volume_ratio)
    pub rising : (x : F) × ((m.price_change_5m ≡ some x) × (gt x (num 0) ≡ true))

  -- Old enough, or of liquidity enough, to count as established.
  abbrev pub IsEstablished : Type 0
  IsEstablished =
      IsAtLeast (age_seconds m now) c.established_age_seconds
      ⊎ IsAtLeast m.liquidity c.established_liquidity_usdc

  -- The three gates on traction are not among the signal's.
  abbrev pub HasNoTractionGate : StrategySignal F → Type 0
  HasNoTractionGate s =
      (get "min_unique_buyers_5m" s.gates ≡ none)
      × (get "buy_sell_ratio" s.gates ≡ none)
      × (get "positive_5m_momentum" s.gates ≡ none)

  -- A token with known liquidity and a score and an age at the minimum; a new one has traction too.
  pub record IsLaunched (s : StrategySignal F) : Type 0 where
    pub liquid : m.liquidity ≢ none
    pub scored : (total : F) × ((s.score ≡ round total 2) × (c.min_score ≼ total))
    pub aged : IsAtLeastIfKnown (age_seconds m now) c.min_age_seconds
    pub traction : ¬ IsEstablished → HasTraction

  liquid_if_scored :
      (log10 : F → F) (o : Option F) → present (liquidity_score c m log10 o) ≡ true → o ≢ none
  liquid_if_scored log10 none h e = cc
  liquid_if_scored log10 (some x) h e = cc

  reached-true : (a b : Bool) → (a || b) ≡ true → (a ≡ true) ⊎ (b ≡ true)
  reached-true true b h = inl refl
  reached-true false b h = inr h

  or_true : (a : Bool) → (a || true) ≡ true
  or_true true = refl
  or_true false = refl

  established-true : established c m now ≡ true → IsEstablished
  unfolding established
  established-true h = elim (reached-true _ _ h) [
    | inl old ↦ inl (reaches-true _ _ old)
    | inr deep ↦ inr (reaches-true _ _ deep)
  ]

  IsEstablished-established : IsEstablished → established c m now ≡ true
  unfolding established
  IsEstablished-established (inl (x, (e, h))) = rw (e, h) refl
  IsEstablished-established (inr (x, (e, h))) = rw (e, h) (or_true _)

  leb-le : (a b : ℕ) → leb a b ≡ true → a ≤ b
  leb-le a b h = ground arith

  gates-IsLaunched :
      (log10 : F → F) (ratio : Option F) (total : F) (s : StrategySignal F)
      → s.score ≡ round total 2
      → buy_sell_volume_ratio m ≡ ok ratio
      → AllPass (gates c m now (liquidity_score c m log10 m.liquidity) ratio total)
      → IsLaunched s
  unfolding gates
  gates-IsLaunched log10 ratio total s e asked h = elim (Bool-cases (established c m now)) [
    | inl old ↦
        let (liq, (high, (aged, _))) = (rw old at h) in
        record {
          liquid = liquid_if_scored log10 m.liquidity liq;
          scored = (total, (e, high));
          aged = unknown_or_reaches-true _ _ aged;
          traction = λ fresh. absurd (fresh (established-true old));
        }
    | inr fresh ↦
        let (liq, (high, (aged, (buyers, (ratio_ok, (up, _)))))) = (rw fresh at h) in
        record {
          liquid = liquid_if_scored log10 m.liquidity liq;
          scored = (total, (e, high));
          aged = unknown_or_reaches-true _ _ aged;
          traction = λ _. record {
            bought = leb-le _ _ buyers;
            demand = (ratio, (asked, reaches-true _ _ ratio_ok));
            rising = positive-true _ up;
          };
        }
  ]

  qualified-IsLaunched :
      (log10 : F → F) (ratio : Option F) (comps : Dict (Option F)) (total : F)
      → buy_sell_volume_ratio m ≡ ok ratio
      → let s =
          signal c.id c.weights comps total
            (gates c m now (liquidity_score c m log10 m.liquidity) ratio total)
            "all traction gates passed" in
        s.qualified ≡ true → IsLaunched s
  unfolding signal
  qualified-IsLaunched log10 ratio comps total asked q =
      gates-IsLaunched log10 ratio total _ refl asked
        (failed_gates-AllPass (gates c m now (liquidity_score c m log10 m.liquidity) ratio total) q)

  no_traction_gate :
      (log10 : F → F) (ratio : Option F) (comps : Dict (Option F)) (total : F)
      → established c m now ≡ true
      → HasNoTractionGate (
          signal c.id c.weights comps total
            (gates c m now (liquidity_score c m log10 m.liquidity) ratio total)
            "all traction gates passed")
  unfolding signal gates get
  no_traction_gate log10 ratio comps total old = rw old (refl, refl, refl)

  -- A signal of traction momentum that qualifies is about a token with known liquidity whose score and
  -- age, if known, are at the minimum; if the token is not established, it also has the buyers, the
  -- ratio of buys to sells and a rising price. A token that is established, by its age or by its
  -- liquidity alone, is not tested for these three at all.
  pub score-IsLaunched :
      (log10 : F → F) (s : StrategySignal F)
      → score c m log10 now ≡ ok s
      → (s.qualified ≡ true → IsLaunched s) × (IsEstablished → HasNoTractionGate s)
  unfolding score
  score-IsLaunched log10 s h =
      let (moving, (_, h1)) = >>=-eq-ok _ (momentum c m) h in
      let (ratio, (asked, h2)) = >>=-eq-ok _ (buy_sell_volume_ratio m) h1 in
      let (total, (_, made)) =
        >>=-eq-ok _ (total_score c.weights (components c m log10 now moving ratio)) h2 in
      subst (λ s. (s.qualified ≡ true → IsLaunched s) × (IsEstablished → HasNoTractionGate s))
        (ok-injective _ s made)
        (
          qualified-IsLaunched log10 ratio _ total asked,
          λ old. no_traction_gate log10 ratio _ total (IsEstablished-established old),
        )
