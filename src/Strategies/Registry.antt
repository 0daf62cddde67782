-- ===== src/Strategies/Registry.antt =====
-- backend/app/strategies/registry.py: the strategies there are, which one runs, and the exit rules of
-- each. A specification keeps its id, its profile and its default exit rules; texts, and the classes
-- that build a strategy, are left out.
use meme_agent.Base.{
  String, ◌==◌, Bool, not, ◌&&◌, Option, none, some, List, [], ◌∷◌, map, elem, keep, Dict, put,
  if◌then◌else◌,
}
use meme_agent.Float.{FloatOps}
use meme_agent.Portfolio.Exits.{ExitConfig}
use meme_agent.Portfolio.Exits.Profiles.{launch, swing, pullback, breakout}

pub data Profile : Type 0 where
  launches : Profile
  established : Profile

pub record StrategySpec (F : Type 0) : Type 0 where
  pub profile : Profile
  pub default_exit : ExitConfig F

abbrev pub default_id : String
default_id = "traction_momentum"

-- `SPECS`; the ids are its keys.
abbrev pub known_ids : List String
known_ids =
    "traction_momentum" ∷ "liquidity_trend" ∷ "liquidity_growth" ∷ "trend_pullback"
    ∷ "volume_breakout" ∷ []

module _ {F : Type 0} ⦃n : FloatOps F⦄ where
  abbrev pub spec : Profile → ExitConfig F → StrategySpec F
  spec profile exit = record { profile = profile; default_exit = exit }

  abbrev pub specs : Dict (StrategySpec F)
  specs =
      ("traction_momentum", spec launches launch)
      ∷ ("liquidity_trend", spec established swing)
      ∷ ("liquidity_growth", spec established swing)
      ∷ ("trend_pullback", spec established pullback)
      ∷ ("volume_breakout", spec established breakout)
      ∷ []

abbrev pub is_known : String → Bool
is_known sid = elem sid known_ids

-- `preferred and preferred in en`
abbrev pub is_chosen : String → List String → Bool
is_chosen preferred en = not (preferred == "") && elem preferred en

abbrev pub first_enabled : List String → String
first_enabled [] = default_id
first_enabled (s ∷ en) = s

abbrev pub by_rule : List String → String
by_rule en = if elem "liquidity_trend" en then "liquidity_trend" else first_enabled en

abbrev pub choose : Option String → List String → String
choose none en = by_rule en
choose (some preferred) en = if is_chosen preferred en then preferred else by_rule en

-- No list of enabled strategies is an empty one.
abbrev pub or_empty : Option (List String) → List String
or_empty none = []
or_empty (some enabled) = enabled

unfoldable pub select_active : Option (List String) → Option String → String
select_active enabled preferred = choose preferred (keep is_known (or_empty enabled))

module _ {F : Type 0} ⦃n : FloatOps F⦄ where
  -- Every strategy has its own exit rules, the active one those that the user saved.
  unfoldable pub exit_configs_for_positions : String → ExitConfig F → Dict (ExitConfig F)
  exit_configs_for_positions active_id active_exit =
      put active_id active_exit (map (λ (sid, s). (sid, s.default_exit)) specs)
