-- ===== src/Strategies/Signal.antt =====
-- `StrategySignal` of backend/app/strategies/base.py, and what every `score` makes of its components
-- and gates. The snapshot of the settings is left out.
use Prim.Native.String
use meme_agent.Base.{
  ℕ, String, Bool, true, false, not, Option, none, some, List, [], ◌∷◌, map, any, keep, Dict, get,
  if◌then◌else◌,
}
use meme_agent.Core.Errors.{Result, ok, raised, key_error, value_error, ◌>>=◌}
use meme_agent.Float.{FloatOps, ◌+◌, ◌*◌, ◌÷◌, lt, le, num, round, sum}
use meme_agent.Domain.Market.{present}
use meme_agent.Strategies.Scales.{map_some}

pub record StrategySignal (F : Type 0) : Type 0 where
  pub strategy_id : String
  pub strategy_version : ℕ
  pub score : F
  pub qualified : Bool
  pub components : Dict (Option F)
  pub weights : Dict F
  pub gates : Dict Bool
  pub reasons : List String
  pub data_gaps : List String

-- The settings that every strategy has.
pub record Identity : Type 0 where
  pub strategy_id : String
  pub version : ℕ

abbrev pub names : {A : Type 0} → Dict A → List String
names [] = []
names ((k, v) ∷ d) = k ∷ names d

-- `[k for k, ok in gates.items() if not ok]`
abbrev pub failed_gates : Dict Bool → List String
failed_gates gates = names (keep (λ (k, passed). not passed) gates)

abbrev pub is_empty : List String → Bool
is_empty [] = true
is_empty (k ∷ ks) = false

abbrev pub reasons_of : List String → String → List String
reasons_of [] all_passed = all_passed ∷ []
reasons_of (k ∷ ks) all_passed = map (λ g. String.◌++◌ "gate failed: " g) (k ∷ ks)

module _ {F : Type 0} ⦃n : FloatOps F⦄ where
  -- `v or 0.0`: what is missing scores 0.
  abbrev pub or_zero : Option F → F
  or_zero none = num 0
  or_zero (some v) = v

  -- `weights[k] * (v or 0.0)`
  abbrev pub weighted : Option F → Option F → String → Result F
  weighted none v k = raised (key_error k)
  weighted (some w) v k = ok (w * or_zero v)

  unfoldable pub total_from : F → Dict F → Dict (Option F) → Result F
  total_from acc weights [] = ok acc
  total_from acc weights ((k, v) ∷ comps) = do
    x ← weighted (get k weights) v k
    total_from (acc + x) weights comps

  unfoldable pub total_score : Dict F → Dict (Option F) → Result F
  unfolding total_from
  total_score weights comps = total_from (num 0) weights comps

  unfoldable pub signal :
      Identity → Dict F → Dict (Option F) → F → Dict Bool → String → StrategySignal F
  signal id weights comps total gates all_passed =
      let failed = failed_gates gates in
      record {
        strategy_id = id.strategy_id;
        strategy_version = id.version;
        score = round total 2;
        qualified = is_empty failed;
        components = map (λ (k, v). (k, map_some (λ x. round x 2) v)) comps;
        weights = weights;
        gates = gates;
        reasons = reasons_of failed all_passed;
        data_gaps = names (keep (λ (k, v). not (present v)) comps);
      }

  abbrev pub weight_values : Dict F → List F
  weight_values [] = []
  weight_values ((k, w) ∷ d) = w ∷ weight_values d

  abbrev pub scaled : F → Dict F → Result (Dict F)
  scaled total [] = ok []
  scaled total ((k, w) ∷ d) = do x ← w ÷ total; rest ← scaled total d; ok ((k, x) ∷ rest)

  -- The validator of the weights: none is negative, and they are made to sum to 1.
  unfoldable pub normalise : Dict F → Result (Dict F)
  normalise weights =
      if any (λ w. lt w (num 0)) (weight_values weights)
      then raised (value_error "weights must be non-negative")
      else if le (sum (weight_values weights)) (num 0)
      then raised (value_error "weights must sum to > 0")
      else scaled (sum (weight_values weights)) weights
