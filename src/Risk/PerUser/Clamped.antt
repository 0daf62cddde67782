-- ===== src/Risk/PerUser/Clamped.antt =====
-- Limits that were clamped to the platform's ceilings pass the check for limits above them.
use meme_agent.Base.{ℕ, String, Bool, false, ◌≡◌, ◌∙◌, refl, List, [], ◌∷◌, ◌++◌, ltb, arith}
use meme_agent.Float.{FloatOps, IsOrdered, ◌+◌, ◌-◌, ◌≼◌, num, lt, gt, min, max}
use meme_agent.Float.Order.{min-le_right, le-max_right, le-add}
use meme_agent.Risk.Model.{RiskLimits}
use meme_agent.Wallets.Policy.{nonempty_set, code_if}
use meme_agent.Risk.PerUser.{
  PlatformCeilings, both, without, least, clamp_to_platform, reject_if_above_platform,
}

none_outside : (a b : List String) → nonempty_set (without (both a b) b) ≡ false
none_outside [] b = refl
none_outside (x ∷ a) b = ground (arith, none_outside a b)

not_above : (a b : ℕ) → ltb b (least a b) ≡ false
not_above a b = ground arith

no_code : (b : Bool) (code : String) → b ≡ false → code_if b code ≡ []
no_code b code h = ground arith

skip : (b : Bool) (code : String) (rest : List String) → b ≡ false → code_if b code ++ rest ≡ rest
skip b code rest h = ground arith

module _ {F : Type 0} ⦃n : FloatOps F⦄ (order : IsOrdered F) where
  open order use {le_refl, le_trans, lt-eq-not-le, sub-le, zero_le_dec}

  gt-min : (a b eps : F) → num 0 ≼ eps → gt (min a b) (b + eps) ≡ false
  gt-min a b eps h = ground (
    arith,
    lt-eq-not-le (b + eps) (min a b),
    le_trans (min a b) b (b + eps) (min-le_right order a b) (le-add order b eps h),
  )

  lt-max : (a b eps : F) → num 0 ≼ eps → lt (max a b) (b - eps) ≡ false
  lt-max a b eps h = ground (
    arith,
    lt-eq-not-le (max a b) (b - eps),
    le_trans (b - eps) b (max a b) (sub-le b eps h) (le-max_right order a b),
  )

  -- What is clamped to the platform's ceilings passes the check that the API makes before it stores
  -- limits.
  pub clamp_to_platform-accepted :
      (l : RiskLimits F) (p : PlatformCeilings F)
      → reject_if_above_platform (clamp_to_platform l p) p ≡ []
  unfolding reject_if_above_platform clamp_to_platform
  clamp_to_platform-accepted l p =
      let small = zero_le_dec 1 9 in
      skip _ _ _ (gt-min _ _ _ small)
      ∙ (skip _ _ _ (gt-min _ _ _ small)
          ∙ (skip _ _ _ (gt-min _ _ _ small)
              ∙ (skip _ _ _ (gt-min _ _ _ small)
                  ∙ (skip _ _ _ (not_above l.max_open_positions p.max_open_positions)
                      ∙ (skip _ _ _ (gt-min _ _ _ small)
                          ∙ (skip _ _ _ (lt-max _ _ _ small)
                              ∙ no_code _ _ (none_outside l.allowed_chains p.allowed_chains)))))))
