-- ===== src/Domain/History/Bounded.antt =====
-- The history of a token is spaced, recent and bounded.
use Prim.Native.Nat.{◌+◌, ◌*◌}
use meme_agent.Base.{
  ℕ, ◌≤◌, true, ◌||◌, ◌≡◌, refl, Option, List, [], ◌∷◌, ◌++◌, All, All-append, length, Bool-cases,
  inl, inr, ltb, arith,
}
use meme_agent.Float.{FloatOps}
use meme_agent.Strategies.Scales.{positive}
use meme_agent.Domain.History.{
  Sample, min_spacing, max_age, last_of, is_due, drop_old, update_history,
}

module _ {F : Type 0} where
  -- Samples follow each other at the least distance, from one at `before`.
  abbrev pub SpacedFrom : ℕ → List (Sample F) → Type 0
  SpacedFrom before [] = Unit
  SpacedFrom before (s ∷ hist) = (before + min_spacing ≤ s.at) × SpacedFrom s.at hist

  abbrev pub Spaced : List (Sample F) → Type 0
  Spaced [] = Unit
  Spaced (s ∷ hist) = SpacedFrom s.at hist

  -- No sample is later than `ts`.
  abbrev pub IsPast : ℕ → List (Sample F) → Type 0
  IsPast ts hist = All (λ s. s.at ≤ ts) hist

  -- A history at `ts`: spaced, not from the future, not older than the limit, and of at most 157
  -- samples.
  pub record IsHistory (ts : ℕ) (hist : List (Sample F)) : Type 0 where
    pub spaced : Spaced hist
    pub past : IsPast ts hist
    pub recent : All (λ s. ts ≤ s.at + max_age) hist
    pub bounded : length hist ≤ 157

  SpacedFrom-append :
      (s t : Sample F) (hist : List (Sample F))
      → SpacedFrom s.at hist
      → (last_of s hist).at + min_spacing ≤ t.at
      → SpacedFrom s.at (hist ++ t ∷ [])
  SpacedFrom-append s t [] h k = (k, tt)
  SpacedFrom-append s t (u ∷ hist) (gap, h) k = (gap, SpacedFrom-append u t hist h k)

  Spaced-tail : (s : Sample F) (hist : List (Sample F)) → Spaced (s ∷ hist) → Spaced hist
  Spaced-tail s [] h = tt
  Spaced-tail s (t ∷ hist) (_, h) = h

  SpacedFrom-recent :
      (ts : ℕ) (s : Sample F) (hist : List (Sample F))
      → SpacedFrom s.at hist
      → ts ≤ s.at + max_age
      → All (λ s. ts ≤ s.at + max_age) hist
  SpacedFrom-recent ts s [] h k = tt
  SpacedFrom-recent ts s (t ∷ hist) (gap, h) k =
      let later : ts ≤ t.at + max_age = omega arith in (later, SpacedFrom-recent ts t hist h later)

  SpacedFrom-span :
      (ts before : ℕ) (hist : List (Sample F))
      → SpacedFrom before hist
      → IsPast ts hist
      → before ≤ ts
      → before + min_spacing * length hist ≤ ts
  SpacedFrom-span ts before [] h past k = omega arith
  SpacedFrom-span ts before (s ∷ hist) (gap, h) (p, past) k =
      omega (arith, SpacedFrom-span ts s.at hist h past p)

  drop_old-IsHistory :
      (ts : ℕ) (hist : List (Sample F))
      → Spaced hist
      → IsPast ts hist
      → IsHistory ts (drop_old ts hist)
  unfolding drop_old
  drop_old-IsHistory ts [] h past = record {
    spaced = tt;
    past = tt;
    recent = tt;
    bounded = omega arith;
  }
  drop_old-IsHistory ts (s ∷ hist) h (p, past) = elim (Bool-cases (ltb (s.at + max_age) ts)) [
    | inl old ↦ rw old (drop_old-IsHistory ts hist (Spaced-tail s hist h) past)
    | inr recent ↦ rw recent (
        let first : ts ≤ s.at + max_age = ground arith in
        record {
          spaced = h;
          past = (p, past);
          recent = (first, SpacedFrom-recent ts s hist h first);
          bounded = omega (arith, SpacedFrom-span ts s.at hist h past p);
        })
  ]

  Spaced-append :
      (ts : ℕ) (hist : List (Sample F)) (t : Sample F)
      → t.at ≡ ts
      → Spaced hist
      → is_due ts hist ≡ true
      → Spaced (hist ++ t ∷ [])
  Spaced-append ts [] t e h due = tt
  Spaced-append ts (s ∷ hist) t e h due = SpacedFrom-append s t hist h (ground arith)

module _ {F : Type 0} ⦃n : FloatOps F⦄ where
  -- An update that knows a value keeps the history spaced, and leaves no sample that is older than 26
  -- hours, so that there are at most 157 of them.
  pub update_history-IsHistory :
      (hist : List (Sample F)) (ts : ℕ) (liquidity market_cap price : Option F)
      → Spaced hist
      → IsPast ts hist
      → (positive liquidity || positive market_cap || positive price) ≡ true
      → IsHistory ts (update_history hist ts liquidity market_cap price)
  unfolding update_history
  update_history-IsHistory hist ts liquidity market_cap price h past known =
      rw known (elim (Bool-cases (is_due ts hist)) [
        | inl due ↦ rw due (
            drop_old-IsHistory ts _ (Spaced-append ts hist _ refl h due)
              (All-append _ hist _ past (omega arith, tt)))
        | inr early ↦ rw early (drop_old-IsHistory ts hist h past)
      ])
