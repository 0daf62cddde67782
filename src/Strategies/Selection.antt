-- ===== src/Strategies/Selection.antt =====
-- Which strategy runs, and by which exit rules a position is managed.
use meme_agent.Base.{
  String, eq_iff, Bool, true, ◌≡◌, ◌≢◌, refl, ◌⊎◌, inl, inr, Option, none, some, List, [], ◌∷◌, map,
  elem, keep, Dict, get, get-put, arith, Bool-cases,
}
use meme_agent.Float.{FloatOps}
use meme_agent.Portfolio.Exits.{ExitConfig}
use meme_agent.Strategies.Registry.{
  StrategySpec, specs, default_id, is_known, is_chosen, first_enabled, by_rule, choose, or_empty,
  select_active, exit_configs_for_positions,
}

-- The strategies of `en` that are known.
abbrev pub known_of : List String → List String
known_of en = keep is_known en

elem-keep :
    (f : String → Bool) (s : String) (xs : List String)
    → elem s (keep f xs) ≡ true
    → (elem s xs ≡ true) × (f s ≡ true)
elem-keep f s [] h = cc
elem-keep f s (x ∷ xs) h = ground (arith, eq_iff x s, elem-keep f s xs)

keep-elem :
    (f : String → Bool) (s : String) (xs : List String)
    → elem s xs ≡ true
    → f s ≡ true
    → elem s (keep f xs) ≡ true
keep-elem f s [] h k = cc
keep-elem f s (x ∷ xs) h k = ground (arith, eq_iff x s, keep-elem f s xs)

-- The default, where nothing known is enabled, or an enabled strategy that is known.
abbrev pub IsRunnable : List String → String → Type 0
IsRunnable enabled sid =
    ((known_of enabled ≡ []) × (sid ≡ default_id))
    ⊎ ((elem sid enabled ≡ true) × (is_known sid ≡ true))

first_enabled-IsRunnable :
    (enabled en : List String) → en ≡ known_of enabled → IsRunnable enabled (first_enabled en)
first_enabled-IsRunnable enabled [] e = inl (cc, refl)
first_enabled-IsRunnable enabled (s ∷ en) e =
    inr (elem-keep is_known s enabled (ground (arith, eq_iff s s)))

by_rule-IsRunnable : (enabled : List String) → IsRunnable enabled (by_rule (known_of enabled))
by_rule-IsRunnable enabled = elim (Bool-cases (elem "liquidity_trend" (known_of enabled))) [
  | inl enabled_too ↦
      rw enabled_too (inr (elem-keep is_known "liquidity_trend" enabled enabled_too))
  | inr disabled ↦ rw disabled (first_enabled-IsRunnable enabled (known_of enabled) refl)
]

chosen-elem : (p : String) (en : List String) → is_chosen p en ≡ true → elem p en ≡ true
chosen-elem p en h = ground arith

choose-IsRunnable :
    (preferred : Option String) (enabled : List String)
    → IsRunnable enabled (choose preferred (known_of enabled))
choose-IsRunnable none enabled = by_rule-IsRunnable enabled
choose-IsRunnable (some p) enabled = elim (Bool-cases (is_chosen p (known_of enabled))) [
  | inl picked ↦ rw picked (inr (elem-keep is_known p enabled (chosen-elem p _ picked)))
  | inr other ↦ rw other (by_rule-IsRunnable enabled)
]

is_chosen-known :
    (p : String) (enabled : List String)
    → p ≢ ""
    → elem p enabled ≡ true
    → is_known p ≡ true
    → is_chosen p (known_of enabled) ≡ true
is_chosen-known p enabled named listed known =
    ground (arith, eq_iff p "", keep-elem is_known p enabled listed known)

select_active-IsRunnable :
    (enabled : Option (List String)) (preferred : Option String)
    → IsRunnable (or_empty enabled) (select_active enabled preferred)
unfolding select_active
select_active-IsRunnable enabled preferred = choose-IsRunnable preferred (or_empty enabled)

select_active-preferred :
    (enabled : Option (List String)) (p : String)
    → p ≢ ""
    → elem p (or_empty enabled) ≡ true
    → is_known p ≡ true
    → select_active enabled (some p) ≡ p
unfolding select_active
select_active-preferred enabled p named listed known =
    rw (is_chosen-known p (or_empty enabled) named listed known) refl

module _ {F : Type 0} ⦃n : FloatOps F⦄ where
  get-defaults :
      (sid : String) (d : Dict (StrategySpec F)) (s : StrategySpec F)
      → get sid d ≡ some s
      → get sid (map (λ (k, s). (k, s.default_exit)) d) ≡ some s.default_exit
  unfolding get
  get-defaults sid [] s e = cc
  get-defaults sid ((k, t) ∷ d) s e = ground (arith, get-defaults sid d s)

  exit_configs_lem :
      (active : String) (saved : ExitConfig F)
      → (get active (exit_configs_for_positions active saved) ≡ some saved)
        × ((sid : String) (s : StrategySpec F)
            → active ≢ sid
            → get sid specs ≡ some s
            → get sid (exit_configs_for_positions active saved) ≡ some s.default_exit)
  unfolding exit_configs_for_positions
  exit_configs_lem active saved = (
    ground (
      arith,
      eq_iff active active,
      get-put active active saved (map (λ (k, s). (k, s.default_exit)) (specs {F = F})),
    ),
    λ sid s other found. ground (
      arith,
      eq_iff active sid,
      get-put active sid saved (map (λ (k, s). (k, s.default_exit)) (specs {F = F})),
      get-defaults sid specs s found,
    ),
  )

  -- The strategy that runs is known and enabled, or the default where nothing known is enabled; one
  -- that is preferred by name runs if it is enabled and known. A position is managed by the saved exit
  -- rules where the running strategy opened it, and by the default rules of its own strategy where
  -- another known one did.
  pub running_lem :
      (enabled : Option (List String)) (preferred : Option String) (saved : ExitConfig F)
      → IsRunnable (or_empty enabled) (select_active enabled preferred)
        × ((get
                (select_active enabled preferred)
                (exit_configs_for_positions (select_active enabled preferred) saved)
              ≡ some saved)
            × (((sid : String) (s : StrategySpec F)
                  → select_active enabled preferred ≢ sid
                  → get sid specs ≡ some s
                  → get sid (exit_configs_for_positions (select_active enabled preferred) saved)
                    ≡ some s.default_exit)
                × ((p : String)
                    → p ≢ ""
                    → elem p (or_empty enabled) ≡ true
                    → is_known p ≡ true
                    → select_active enabled (some p) ≡ p)))
  running_lem enabled preferred saved =
      let (mine, others) = exit_configs_lem (select_active enabled preferred) saved in
      (
        select_active-IsRunnable enabled preferred,
        (mine, (others, select_active-preferred enabled)),
      )
