-- ===== src/MarketData/Circuit.antt =====
-- The circuit breaker of a provider over failures in a row.
use Prim.Native.Nat.{◌+◌ as ◌⊹◌}
use meme_agent.Base.{
  ℕ, suc, ◌<◌, ◌≤◌, String, eq_iff, true, ◌≡◌, ◌≢◌, refl, ap, ◌∙◌, some, List, [], ◌∷◌, length,
  arith,
}
use meme_agent.Float.{FloatOps, ◌+◌, ge, num}
use meme_agent.MarketData.Health.{
  RegistryConfig, RegistryHealth, threshold, available, ok_call, fail_call,
}

module _ {F : Type 0} ⦃n : FloatOps F⦄ (cfg : RegistryConfig F) where
  -- Failures in a row, each with its error and its time.
  abbrev pub fail_all : RegistryHealth F → String → List (String × F) → RegistryHealth F
  fail_all r name [] = r
  fail_all r name ((error, now) ∷ rest) = fail_all (fail_call cfg r name error now) name rest

  failures-fail_call :
      (r : RegistryHealth F) (name error : String) (now : F)
      → ((fail_call cfg r name error now).health name).failures ≡ suc (r.health name).failures
  unfolding fail_call
  failures-fail_call r name error now = ground (arith, eq_iff name name)

  opened-fail_call :
      (r : RegistryHealth F) (name error : String) (now : F)
      → suc (r.health name).failures < threshold cfg name
      → ((fail_call cfg r name error now).health name).opened_until ≡ (r.health name).opened_until
  unfolding fail_call
  opened-fail_call r name error now h = ground (arith, eq_iff name name)

  tripped-fail_call :
      (r : RegistryHealth F) (name error : String) (now : F)
      → threshold cfg name ≤ suc (r.health name).failures
      → ((fail_call cfg r name error now).health name).opened_until ≡ now + cfg.cooldown_s
  unfolding fail_call
  tripped-fail_call r name error now h = ground (arith, eq_iff name name)

  pub other-fail_call :
      (r : RegistryHealth F) (name other error : String) (now : F)
      → name ≢ other
      → (fail_call cfg r name error now).health other ≡ r.health other
  unfolding fail_call
  other-fail_call r name other error now h = ground (arith, eq_iff name other)

  pub other-ok_call :
      (r : RegistryHealth F) (name other : String) (now : F)
      → name ≢ other
      → (ok_call cfg r name now).health other ≡ r.health other
  unfolding ok_call
  other-ok_call r name other now h = ground (arith, eq_iff name other)

  failures-fail_all :
      (r : RegistryHealth F) (name : String) (fs : List (String × F))
      → ((fail_all r name fs).health name).failures ≡ (r.health name).failures ⊹ length fs
  failures-fail_all r name [] = omega arith
  failures-fail_all r name ((error, now) ∷ fs) = omega (
    arith,
    failures-fail_all (fail_call cfg r name error now) name fs,
    failures-fail_call r name error now,
  )

  opened-fail_all :
      (r : RegistryHealth F) (name : String) (fs : List (String × F))
      → (r.health name).failures ⊹ length fs < threshold cfg name
      → ((fail_all r name fs).health name).opened_until ≡ (r.health name).opened_until
  opened-fail_all r name [] h = refl
  opened-fail_all r name ((error, now) ∷ fs) h =
      opened-fail_all (fail_call cfg r name error now) name fs
        (omega (arith, failures-fail_call r name error now))
      ∙ opened-fail_call r name error now (omega arith)

  other-fail_all :
      (r : RegistryHealth F) (name other : String) (fs : List (String × F))
      → name ≢ other
      → (fail_all r name fs).health other ≡ r.health other
  other-fail_all r name other [] h = refl
  other-fail_all r name other ((error, now) ∷ fs) h =
      other-fail_all (fail_call cfg r name error now) name other fs h
      ∙ other-fail_call r name other error now h

  pub available-same :
      (r s : RegistryHealth F) (name : String) (now : F)
      → (r.health name).opened_until ≡ (s.health name).opened_until
      → available cfg r name now ≡ available cfg s name now
  unfolding available
  available-same r s name now e = rw e refl

  available-until :
      (r : RegistryHealth F) (name : String) (now until : F)
      → (r.health name).opened_until ≡ until
      → available cfg r name now ≡ ge now until
  unfolding available
  available-until r name now until e = rw e refl

  closed-ok_call :
      (r : RegistryHealth F) (name : String) (now : F)
      → (((ok_call cfg r name now).health name).failures ≡ 0)
        × (((ok_call cfg r name now).health name).opened_until ≡ num 0)
  unfolding ok_call
  closed-ok_call r name now = ground (arith, eq_iff name name)

  saved-fail_call :
      (r : RegistryHealth F) (name error : String) (now : F)
      → cfg.persists ≡ true
      → (fail_call cfg r name error now).saved ≡ some (fail_call cfg r name error now).health
  unfolding fail_call
  saved-fail_call r name error now h = rw h refl

  -- What a circuit does over failures in a row, of which the last one is at `now`.
  pub record Breaks (r s : RegistryHealth F) (name : String) (now : F) (count : ℕ) : Type 0 where
    pub closed_below :
        (r.health name).failures ⊹ count < threshold cfg name
        → (later : F) → available cfg s name later ≡ available cfg r name later
    pub open_at :
        threshold cfg name ≤ (r.health name).failures ⊹ count
        → (later : F) → available cfg s name later ≡ ge later (now + cfg.cooldown_s)
    pub isolated :
        (other : String)
        → name ≢ other
        → (later : F) → available cfg s other later ≡ available cfg r other later
    pub persisted : cfg.persists ≡ true → s.saved ≡ some s.health
    pub recovers :
        (at later : F)
        → (((ok_call cfg s name at).health name).failures ≡ 0)
          × (available cfg (ok_call cfg s name at) name later ≡ ge later (num 0))

  -- Failures in a row leave the circuit of a provider as it is while they are below its threshold; at
  -- the threshold and above, the provider is available again only after the cool-down that follows the
  -- last failure. Other providers are not affected, the health is saved where a callback is set, and a
  -- success clears the failures and closes the circuit.
  pub fail_all-Breaks :
      (r : RegistryHealth F) (name error : String) (now : F) (fs : List (String × F))
      → Breaks r (fail_call cfg (fail_all r name fs) name error now) name now (suc (length fs))
  fail_all-Breaks r name error now fs =
      let s = fail_all r name fs in
      let s' = fail_call cfg s name error now in
      record {
        closed_below = λ h later. available-same s' r name later (
            opened-fail_call s name error now (omega (arith, failures-fail_all r name fs))
            ∙ opened-fail_all r name fs (omega arith));
        open_at = λ h later.
            available-until s' name later (now + cfg.cooldown_s)
              (tripped-fail_call s name error now (omega (arith, failures-fail_all r name fs)));
        isolated = λ other h later. available-same s' r other later (
            ap (λ h. h.opened_until)
              (other-fail_call s name other error now h ∙ other-fail_all r name other fs h));
        persisted = saved-fail_call s name error now;
        recovers = λ at later. (
          (closed-ok_call s' name at).0,
          available-until (ok_call cfg s' name at) name later (num 0) (closed-ok_call s' name at).1,
        );
      }
