-- ===== src/MarketData/Health.antt =====
-- The health of the providers (`ProviderHealth`) and the circuit breaker of `MarketDataRegistry`, of
-- backend/app/market_data/registry.py. The health that the registry keeps under each provider's name
-- is a function of the name.
use meme_agent.Base.{
  ℕ, suc, String, ◌==◌, Bool, true, false, ◌||◌, Option, none, some, List, [], ◌∷◌, elem, ltb, leb,
  if◌then◌else◌,
}
use meme_agent.Float.{FloatOps, ◌+◌, gt, ge, num, max}

pub record ProviderHealth (F : Type 0) : Type 0 where
  pub failures : ℕ
  pub opened_until : F
  pub last_error : Option String
  pub last_ok : Option F

pub record RegistryConfig (F : Type 0) : Type 0 where
  pub failure_threshold : ℕ
  pub cooldown_s : F
  pub essential : List String
  pub persists : Bool

-- `saved` is what the last call of `on_health_change` was given, if there was one.
pub record RegistryHealth (F : Type 0) : Type 0 where
  pub health : String → ProviderHealth F
  pub saved : Option (String → ProviderHealth F)

abbrev pub no_names : List String → Bool
no_names [] = true
no_names (x ∷ xs) = false

module _ {F : Type 0} ⦃n : FloatOps F⦄ where
  -- `ProviderHealth()`
  abbrev pub unbroken : ProviderHealth F
  unbroken = record { failures = 0; opened_until = num 0; last_error = none; last_ok = none }

  -- The limits that `__init__` puts on its arguments.
  unfoldable pub configure : ℕ → F → List String → Bool → RegistryConfig F
  configure failure_threshold cooldown_s essential persists = record {
    failure_threshold = if ltb 1 failure_threshold then failure_threshold else 1;
    cooldown_s = max (num 1) cooldown_s;
    essential = essential;
    persists = persists;
  }

  abbrev pub initially : Option (ProviderHealth F) → ProviderHealth F
  initially none = unbroken
  initially (some snap) = snap

  -- The health that `__init__` starts from, given a snapshot of some providers.
  unfoldable pub start : (String → Option (ProviderHealth F)) → RegistryHealth F
  start snapshot = record { health = λ name. initially (snapshot name); saved = none }

module _ {F : Type 0} ⦃n : FloatOps F⦄ (cfg : RegistryConfig F) where
  -- One failure is enough for a provider that is not essential.
  unfoldable pub threshold : String → ℕ
  threshold name =
      if no_names cfg.essential || elem name cfg.essential then cfg.failure_threshold else 1

  abbrev pub persist : RegistryHealth F → RegistryHealth F
  persist r = if cfg.persists then record r { saved = some r.health } else r

  unfoldable pub available : RegistryHealth F → String → F → Bool
  available r name now = ge now (r.health name).opened_until

  abbrev pub with_health : RegistryHealth F → String → ProviderHealth F → RegistryHealth F
  with_health r name h = record r { health = λ other. if name == other then h else r.health other }

  -- `_ok`: the circuit closes; an unbroken record is not persisted again.
  unfoldable pub ok_call : RegistryHealth F → String → F → RegistryHealth F
  ok_call r name now =
      let h = r.health name in
      let closed =
        with_health r name
          record { failures = 0; opened_until = num 0; last_error = none; last_ok = some now } in
      if ltb 0 h.failures || gt h.opened_until (num 0) then persist closed else closed

  -- `_fail`, with the text of the error as it is kept: the circuit opens for the cool-down once the failures reach the threshold.
  unfoldable pub fail_call : RegistryHealth F → String → String → F → RegistryHealth F
  unfolding threshold
  fail_call r name error now =
      let h = r.health name in
      let failures = suc h.failures in
      let opens = leb (threshold name) failures in
      persist (
        with_health r name record h {
          failures = failures;
          last_error = some error;
          opened_until = if opens then now + cfg.cooldown_s else h.opened_until;
        })
