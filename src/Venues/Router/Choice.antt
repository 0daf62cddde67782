-- ===== src/Venues/Router/Choice.antt =====
-- The largest output among the results that pass a test.
use meme_agent.Base.{
  Bool, true, false, ◌≡◌, ◌⊎◌, inl, inr, refl, sym, ◌∙◌, none, some, List, [], ◌∷◌, Among,
  Bool-cases,
}
use meme_agent.Float.{FloatOps, IsOrdered, ◌≼◌, gt}
use meme_agent.Float.Order.{le-of-not-lt, le-of-lt}
use meme_agent.Venues.Model.{VenueResult}
use meme_agent.Venues.Router.{filter, output, better, max_from, max_by_output}

List-cases : {A : Type 0} (l : List A) → (l ≡ []) ⊎ ((a : A) × ((bs : List A) × (l ≡ a ∷ bs)))
List-cases [] = inl refl
List-cases (a ∷ bs) = inr (a, (bs, refl))

module _ {F : Type 0} ⦃n : FloatOps F⦄ where
  -- A result of the list that passes a test, of the largest output among those that do.
  pub record IsTop (p : VenueResult F → Bool) (results : List (VenueResult F)) (r : VenueResult F)
      : Type 0 where
    pub among : Among r results
    pub passes : p r ≡ true
    pub largest : (c : VenueResult F) → Among c results → p c ≡ true → output c ≼ output r

  Among-filter :
      (p : VenueResult F → Bool) (r : VenueResult F) (rs : List (VenueResult F))
      → Among r (filter p rs)
      → Among r rs × (p r ≡ true)
  Among-filter p r [] h = elim h [ ]
  Among-filter p r (a ∷ rs) h = elim (Bool-cases (p a)) [
    | inl e ↦ elim (rw e at h) [
      | inl same ↦ (inl same, rw same e)
      | inr k ↦ let (m, t) = Among-filter p r rs k in (inr m, t)
    ]
    | inr e ↦ let (m, t) = Among-filter p r rs (rw e at h) in (inr m, t)
  ]

  filter-Among :
      (p : VenueResult F → Bool) (r : VenueResult F) (rs : List (VenueResult F))
      → Among r rs
      → p r ≡ true
      → Among r (filter p rs)
  filter-Among p r [] h e = elim h [ ]
  filter-Among p r (a ∷ rs) (inl same) e = rw (sym same, e) (inl refl)
  filter-Among p r (a ∷ rs) (inr h) e = elim (Bool-cases (p a)) [
    | inl f ↦ rw f (inr (filter-Among p r rs h e))
    | inr f ↦ rw f (filter-Among p r rs h e)
  ]

  module _ (order : IsOrdered F) where
    open order use {le_refl, le_trans}

    le-better_left : (a b : VenueResult F) → output a ≼ output (better a b)
    le-better_left a b = elim (Bool-cases (gt (output b) (output a))) [
      | inl e ↦ rw e (le-of-lt order _ _ e)
      | inr e ↦ rw e (le_refl (output a))
    ]

    le-better_right : (a b : VenueResult F) → output b ≼ output (better a b)
    le-better_right a b = elim (Bool-cases (gt (output b) (output a))) [
      | inl e ↦ rw e (le_refl (output b))
      | inr e ↦ rw e (le-of-not-lt order _ _ e)
    ]

    better-cases : (a b : VenueResult F) → (better a b ≡ a) ⊎ (better a b ≡ b)
    better-cases a b = elim (Bool-cases (gt (output b) (output a))) [
      | inl e ↦ inr (rw e refl)
      | inr e ↦ inl (rw e refl)
    ]

    max_from-above :
        (a : VenueResult F) (bs : List (VenueResult F)) → output a ≼ output (max_from a bs)
    unfolding max_from
    max_from-above a [] = le_refl (output a)
    max_from-above a (b ∷ bs) = le_trans _ _ _ (le-better_left a b) (max_from-above (better a b) bs)

    max_from-Among :
        (a : VenueResult F) (bs : List (VenueResult F)) → Among (max_from a bs) (a ∷ bs)
    unfolding max_from
    max_from-Among a [] = inl refl
    max_from-Among a (b ∷ bs) = elim (max_from-Among (better a b) bs) [
      | inl h ↦ elim (better-cases a b) [ inl e ↦ inl (h ∙ e) | inr e ↦ inr (inl (h ∙ e)) ]
      | inr h ↦ inr (inr h)
    ]

    max_from-largest :
        (a : VenueResult F) (bs : List (VenueResult F)) (c : VenueResult F)
        → Among c (a ∷ bs)
        → output c ≼ output (max_from a bs)
    unfolding max_from
    max_from-largest a bs c (inl e) = rw e (max_from-above a bs)
    max_from-largest a [] c (inr h) = elim h [ ]
    max_from-largest a (b ∷ bs) c (inr (inl e)) =
        rw e (le_trans _ _ _ (le-better_right a b) (max_from-above (better a b) bs))
    max_from-largest a (b ∷ bs) c (inr (inr h)) = max_from-largest (better a b) bs c (inr h)

    -- The largest output among the results that pass a test, if there are any.
    pub top_lem :
        (p : VenueResult F → Bool) (rs : List (VenueResult F))
        → ((max_by_output (filter p rs) ≡ none) × ((c : VenueResult F) → Among c rs → p c ≡ false))
          ⊎ ((r : VenueResult F) × ((max_by_output (filter p rs) ≡ some r) × IsTop p rs r))
    unfolding max_by_output
    top_lem p rs = elim (List-cases (filter p rs)) [
      | inl e ↦ inl (
        rw e refl,
        λ c among. elim (Bool-cases (p c)) [
          | inl h ↦ elim (rw e at (filter-Among p c rs among h)) [ ]
          | inr h ↦ h
        ],
      )
      | inr (a, (bs, e)) ↦ inr (
        max_from a bs,
        (
          rw e refl,
          record {
            among = (Among-filter p _ rs (rw e (max_from-Among a bs))).0;
            passes = (Among-filter p _ rs (rw e (max_from-Among a bs))).1;
            largest = λ c among h. max_from-largest a bs c (rw e at (filter-Among p c rs among h));
          },
        ),
      )
    ]
