-- ===== src/Discovery/Ranking/Eligible.antt =====
-- Which tokens the ranking returns.
use meme_agent.Base.{
  ℕ, zero, suc, ◌≤◌, String, true, false, ◌==◌, ◌≡◌, inl, inr, refl, Option, none, some, List, [],
  ◌∷◌, Dict, get, All, Among, length, lower, Bool-cases, arith,
}
use meme_agent.Core.Errors.{ok}
use meme_agent.Float.{FloatOps, IsOrdered, ◌+◌, ◌*◌, min, ◌≼◌, lt, num, seconds}
use meme_agent.Float.Order.{le-of-not-lt}
use meme_agent.Discovery.Registry.{LaunchpadToken}
use meme_agent.Discovery.Ranking.{
  RankingConfig, Snapshot, token_last_seen, is_expired, below, since, snap_value, passes, bonus,
  base_of, ranked, ahead, insert_by_score, sort_by_score, first_addresses, at_least_one,
  rank_candidates,
}

module _ {F : Type 0} ⦃n : FloatOps F⦄ where
  -- A token that may be evaluated now; what is unknown does not exclude it.
  pub record IsEligible (c : RankingConfig F) (eval_at : Dict ℕ) (now : ℕ)
      (t : LaunchpadToken F (Snapshot F)) : Type 0 where
    pub not_dead : t.priority == "DEAD" ≡ false
    pub seen : seconds now (token_last_seen t) ≼ c.max_age_s
    pub liquid :
        (x : F)
        → snap_value (λ s. s.liquidity) t.meta.last_snapshot ≡ some x
        → c.min_liquidity_usdc ≼ x
    pub capitalised :
        (x : F)
        → snap_value (λ s. s.market_cap) t.meta.last_snapshot ≡ some x
        → c.min_market_cap_usdc ≼ x
    pub rested :
        (last : ℕ)
        → get (lower t.token_address) eval_at ≡ some last
        → c.eval_min_interval_s ≼ seconds now last

  -- An address of an eligible token of the list.
  abbrev pub IsChosen :
      RankingConfig F → Dict ℕ → ℕ → List (LaunchpadToken F (Snapshot F)) → String → Type 0
  IsChosen c eval_at now tokens a =
      (t : LaunchpadToken F (Snapshot F)) × (Among t tokens
        × ((a ≡ lower t.token_address) × IsEligible c eval_at now t))

  abbrev Entries : (String → Type 0) → List (F × String) → Type 0
  Entries P es = All (λ e. P e.1) es

  Entries-map :
      (P Q : String → Type 0) (es : List (F × String))
      → ((a : String) → P a → Q a)
      → Entries P es
      → Entries Q es
  Entries-map P Q [] f h = tt
  Entries-map P Q ((x, a) ∷ es) f (h, hs) = (f a h, Entries-map P Q es f hs)

  Entries-insert :
      (P : String → Type 0) (e : F × String) (es : List (F × String))
      → P e.1
      → Entries P es
      → Entries P (insert_by_score e es)
  unfolding insert_by_score
  Entries-insert P e [] h hs = (h, tt)
  Entries-insert P e (d ∷ ds) h (k, ks) = elim (Bool-cases (ahead e d)) [
    | inl b ↦ rw b (h, (k, ks))
    | inr b ↦ rw b (k, Entries-insert P e ds h ks)
  ]

  Entries-sort :
      (P : String → Type 0) (es : List (F × String)) → Entries P es → Entries P (sort_by_score es)
  unfolding sort_by_score
  Entries-sort P [] h = tt
  Entries-sort P (e ∷ es) (h, hs) = Entries-insert P e (sort_by_score es) h (Entries-sort P es hs)

  All-first_addresses :
      (P : String → Type 0) (k : ℕ) (es : List (F × String))
      → Entries P es
      → All P (first_addresses k es) × (length (first_addresses k es) ≤ k)
  unfolding first_addresses
  All-first_addresses P zero es h = (tt, omega arith)
  All-first_addresses P (suc k) [] h = (tt, omega arith)
  All-first_addresses P (suc k) ((x, a) ∷ es) (h, hs) =
      let (all, fits) = All-first_addresses P k es hs in ((h, all), omega (arith, fits))

  module _ (order : IsOrdered F) where
    open order use {pos_nonzero}

    not_below : (o : Option F) (limit x : F) → below o limit ≡ false → o ≡ some x → limit ≼ x
    not_below none limit x h e = cc
    not_below (some y) limit x h e = ground (arith, le-of-not-lt order limit x)

    since_below :
        (now last : ℕ) (o : Option ℕ) (limit : F)
        → below (since now o) limit ≡ false
        → o ≡ some last
        → limit ≼ seconds now last
    since_below now last none limit h e = cc
    since_below now last (some l) limit h e =
        ground (arith, le-of-not-lt order limit (seconds now last))

    passes-IsEligible :
        (c : RankingConfig F) (eval_at : Dict ℕ) (now : ℕ) (t : LaunchpadToken F (Snapshot F))
        → passes c eval_at now t ≡ true
        → IsEligible c eval_at now t
    unfolding passes is_expired
    passes-IsEligible c eval_at now t h = record {
      not_dead = ground arith;
      seen = le-of-not-lt order _ _ (ground arith);
      liquid = λ x. not_below _ c.min_liquidity_usdc x (ground arith);
      capitalised = λ x. not_below _ c.min_market_cap_usdc x (ground arith);
      rested = λ last. since_below now last _ c.eval_min_interval_s (ground arith);
    }

    bonus-returns :
        (c : RankingConfig F) (o : Option F)
        → lt (num 0) c.eval_min_interval_s ≡ true
        → (x : F) × (bonus c o ≡ ok x)
    unfolding bonus
    bonus-returns c none h = (_, refl)
    bonus-returns c (some age) h = (
      min (num 30) (n.quotient age c.eval_min_interval_s * num 5),
      rw (pos_nonzero c.eval_min_interval_s h) refl,
    )

    ranked-returns :
        (log10 : F → F) (c : RankingConfig F) (eval_at : Dict ℕ) (now : ℕ)
        (tokens : List (LaunchpadToken F (Snapshot F)))
        → lt (num 0) c.eval_min_interval_s ≡ true
        → (es : List (F × String)) × ((ranked log10 c eval_at now tokens ≡ ok es)
            × Entries (IsChosen c eval_at now tokens) es)
    unfolding ranked
    ranked-returns log10 c eval_at now [] h = ([], (refl, tt))
    ranked-returns log10 c eval_at now (t ∷ ts) h =
        let addr = lower t.token_address in
        let (es, (found, chosen)) = ranked-returns log10 c eval_at now ts h in
        let (x, extra) = bonus-returns c (since now (get addr eval_at)) h in
        let more =
          Entries-map (IsChosen c eval_at now ts) (IsChosen c eval_at now (t ∷ ts)) es
            (λ a (u, (among, rest)). (u, (inr among, rest))) chosen in
        elim (Bool-cases (passes c eval_at now t)) [
          | inl e ↦ (
            (base_of log10 t.meta.last_snapshot + x, addr) ∷ es,
            (
              rw (e, extra, found) refl,
              ((t, (inl refl, (refl, passes-IsEligible c eval_at now t e))), more),
            ),
          )
          | inr e ↦ (es, (rw e found, more))
        ]

    -- With a positive interval between evaluations, the ranking returns, for every snapshot and every
    -- logarithm, at most as many addresses as its limit (and one for a limit of 0), all of them of
    -- eligible tokens among those given: not dead, seen recently, not known to be below the floors of
    -- liquidity and market capitalisation, and not evaluated within the interval.
    pub rank_candidates_lem :
        (log10 : F → F) (tokens : List (LaunchpadToken F (Snapshot F))) (eval_at : Dict ℕ) (now : ℕ)
        (c : RankingConfig F)
        → lt (num 0) c.eval_min_interval_s ≡ true
        → (picked : List String) × ((rank_candidates log10 tokens eval_at now c ≡ ok picked)
            × (All (IsChosen c eval_at now tokens) picked
                × (length picked ≤ at_least_one c.max_per_cycle)))
    unfolding rank_candidates
    rank_candidates_lem log10 tokens eval_at now c h =
        let P = IsChosen c eval_at now tokens in
        let (es, (found, chosen)) = ranked-returns log10 c eval_at now tokens h in
        (
          first_addresses (at_least_one c.max_per_cycle) (sort_by_score es),
          (
            rw found refl,
            All-first_addresses P (at_least_one c.max_per_cycle) (sort_by_score es)
                (Entries-sort P es chosen),
          ),
        )
