-- ===== src/Discovery/Ranking.antt =====
-- backend/app/discovery/ranking.py: which tokens the shared worker evaluates in a cycle. `log10` is an
-- argument. A snapshot holds what `_num` makes of its entries: a finite float, or nothing.
pub mod Eligible
use Prim.Native.String
use Prim.Native.Nat.{Ordering}
use meme_agent.Base.{
  ℕ, zero, suc, String, Bool, true, false, not, ◌&&◌, ◌||◌, Option, none, some, List, [], ◌∷◌, Dict,
  get, length, lower, ltb, ◌==◌, if◌then◌else◌,
}
use meme_agent.Core.Errors.{Result, ok, raised, ◌>>=◌}
use meme_agent.Float.{
  FloatOps, ◌+◌, ◌-◌, ◌*◌, ◌÷◌, neg, lt, le, gt, ge, num, dec, over, round, truthy, min, max,
  min_of, sum, seconds,
}
use meme_agent.Discovery.Registry.{LaunchpadToken}
use meme_agent.Discovery.Monitoring.{text_le}

pub record RankingConfig (F : Type 0) : Type 0 where
  pub min_liquidity_usdc : F
  pub min_market_cap_usdc : F
  pub max_age_s : F
  pub eval_min_interval_s : F
  pub max_per_cycle : ℕ

pub record Snapshot (F : Type 0) : Type 0 where
  pub liquidity : Option F
  pub market_cap : Option F
  pub holder_count : Option F
  pub volume_5m : Option F
  pub buys_5m : Option F
  pub sells_5m : Option F
  pub price_change_5m : Option F
  pub price_change_15m : Option F

-- `[v for v in vals if v is not None]`
abbrev pub known : {A : Type 0} → List (Option A) → List A
known [] = []
known (none ∷ os) = known os
known (some a ∷ os) = a ∷ known os

module _ {F : Type 0} ⦃n : FloatOps F⦄ where
  -- `hi == lo` of two floats.
  abbrev equal : F → F → Bool
  equal a b = le a b && le b a

  unfoldable pub lin : Option F → F → F → Option F
  lin none lo hi = none
  lin (some x) lo hi =
      if equal hi lo
      then some (if ge x hi then num 100 else num 0)
      else some (max (num 0) (min (num 1) (over (x - lo) (hi - lo))) * num 100)

  unfoldable pub log_lin : (F → F) → Option F → F → F → Option F
  log_lin log10 none lo hi = none
  log_lin log10 (some x) lo hi =
      if le x (num 0) then some (num 0) else lin (some (log10 x)) (log10 lo) (log10 hi)

  -- 100 between the ideal bounds, falling to 0 at the outer ones.
  unfoldable pub tent : Option F → F → F → F → F → Option F
  tent none lo ideal_lo ideal_hi hi = none
  tent (some x) lo ideal_lo ideal_hi hi =
      if le x lo || ge x hi
      then some (num 0)
      else if lt x ideal_lo
      then some (over (x - lo) (ideal_lo - lo) * num 100)
      else if gt x ideal_hi
      then some (over (hi - x) (hi - ideal_hi) * num 100)
      else some (num 100)

  abbrev mean_of : List F → Option F
  mean_of [] = none
  mean_of (x ∷ xs) = some (over (sum (x ∷ xs)) (num (length (x ∷ xs))))

  unfoldable pub mean : List (Option F) → Option F
  mean vals = mean_of (known vals)

  -- `a / b if (a and b) else None`
  abbrev pub ratio_of : Option F → Option F → Option F
  ratio_of (some a) (some b) = if truthy a && truthy b then some (over a b) else none
  ratio_of _ _ = none

  -- `vol5 / liq if (vol5 is not None and liq) else None`
  abbrev pub turnover_of : Option F → Option F → Option F
  turnover_of (some v) (some l) = if truthy l then some (over v l) else none
  turnover_of _ _ = none

  abbrev pub or_nil : Option F → F
  or_nil none = num 0
  or_nil (some x) = x

  -- The average blended with the weakest component.
  abbrev pub core_of : List F → F
  core_of [] = num 0
  core_of (x ∷ xs) = dec 5 1 * over (sum (x ∷ xs)) (num (length (x ∷ xs))) + dec 5 1 * min_of x xs

  unfoldable pub balance_score : (F → F) → Snapshot F → F
  unfolding lin log_lin tent mean
  balance_score log10 s =
      let core = core_of (
        known (
          log_lin log10 s.liquidity (num 5_000) (num 250_000)
          ∷ log_lin log10 s.market_cap (num 10_000) (num 1_000_000)
          ∷ tent (ratio_of s.liquidity s.market_cap) (dec 1 2) (dec 5 2) (dec 4 1) (dec 15 1)
          ∷ log_lin log10 s.holder_count (num 50) (num 2_000)
          ∷ [])) in
      let trend = or_nil (
        mean (
          lin (turnover_of s.volume_5m s.liquidity) (num 0) (dec 25 2)
          ∷ lin (some (or_nil s.buys_5m + or_nil s.sells_5m)) (num 0) (num 60)
          ∷ lin s.price_change_5m (neg (num 5)) (num 10)
          ∷ lin s.price_change_15m (neg (num 10)) (num 20)
          ∷ [])) in
      round (dec 6 1 * core + dec 4 1 * trend) 2

-- `max(1, cap)`
abbrev pub at_least_one : ℕ → ℕ
at_least_one zero = 1
at_least_one (suc k) = suc k

-- The later of two times that may be missing.
abbrev pub latest : Option ℕ → ℕ → ℕ
latest none t = t
latest (some s) t = if ltb t s then s else t

module _ {F : Type 0} where
  -- `token_last_seen`; a token always has the time of its discovery.
  unfoldable pub token_last_seen : LaunchpadToken F (Snapshot F) → ℕ
  token_last_seen t = latest t.last_monitored_at (latest t.last_score_at t.discovered_at)

module _ {F : Type 0} ⦃n : FloatOps F⦄ where
  unfoldable pub is_expired : LaunchpadToken F (Snapshot F) → ℕ → F → Bool
  unfolding token_last_seen
  is_expired t now max_age = gt (seconds now (token_last_seen t)) max_age

  abbrev pub below : Option F → F → Bool
  below none limit = false
  below (some x) limit = lt x limit

  abbrev pub since : ℕ → Option ℕ → Option F
  since now none = none
  since now (some last) = some (seconds now last)

  abbrev pub snap_value : (Snapshot F → Option F) → Option (Snapshot F) → Option F
  snap_value part none = none
  snap_value part (some s) = part s

  -- The tests that `continue` the loop.
  unfoldable pub passes : RankingConfig F → Dict ℕ → ℕ → LaunchpadToken F (Snapshot F) → Bool
  passes c eval_at now t =
      let snap = t.meta.last_snapshot in
      not (t.priority == "DEAD")
      && not (is_expired t now c.max_age_s)
      && not (below (snap_value (λ s. s.liquidity) snap) c.min_liquidity_usdc)
      && not (below (snap_value (λ s. s.market_cap) snap) c.min_market_cap_usdc)
      && not (below (since now (get (lower t.token_address) eval_at)) c.eval_min_interval_s)

  -- The longer ago the last evaluation, the larger the bonus, up to 30.
  unfoldable pub bonus : RankingConfig F → Option F → Result F
  bonus c none = ok (num 30)
  bonus c (some age) = do r ← age ÷ c.eval_min_interval_s; ok (min (num 30) (r * num 5))

  abbrev pub base_of : (F → F) → Option (Snapshot F) → F
  base_of log10 none = num 20
  base_of log10 (some s) = balance_score log10 s

  unfoldable pub ranked :
      (F → F)
      → RankingConfig F
      → Dict ℕ
      → ℕ
      → List (LaunchpadToken F (Snapshot F))
      → Result (List (F × String))
  unfolding passes bonus
  ranked log10 c eval_at now [] = ok []
  ranked log10 c eval_at now (t ∷ ts) =
      let rest = ranked log10 c eval_at now ts in
      let addr = lower t.token_address in
      if passes c eval_at now t
      then (do
        extra ← bonus c (since now (get addr eval_at))
        later ← rest
        ok ((base_of log10 t.meta.last_snapshot + extra, addr) ∷ later))
      else rest

  -- By descending score, then by address.
  abbrev pub ahead : F × String → F × String → Bool
  ahead (x, a) (y, b) = gt x y || (equal x y && text_le a b)

  unfoldable pub insert_by_score : F × String → List (F × String) → List (F × String)
  insert_by_score e [] = e ∷ []
  insert_by_score e (d ∷ ds) =
      let rest = insert_by_score e ds in if ahead e d then e ∷ d ∷ ds else d ∷ rest

  unfoldable pub sort_by_score : List (F × String) → List (F × String)
  unfolding insert_by_score
  sort_by_score [] = []
  sort_by_score (e ∷ es) = insert_by_score e (sort_by_score es)

  unfoldable pub first_addresses : ℕ → List (F × String) → List String
  first_addresses zero es = []
  first_addresses (suc k) [] = []
  first_addresses (suc k) ((x, a) ∷ es) = a ∷ first_addresses k es

  unfoldable pub rank_candidates :
      (F → F)
      → List (LaunchpadToken F (Snapshot F))
      → Dict ℕ
      → ℕ
      → RankingConfig F
      → Result (List String)
  unfolding ranked sort_by_score first_addresses
  rank_candidates log10 tokens eval_at now c = do
    entries ← ranked log10 c eval_at now tokens
    ok (first_addresses (at_least_one c.max_per_cycle) (sort_by_score entries))
