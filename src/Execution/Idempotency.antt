-- ===== src/Execution/Idempotency.antt =====
-- `InMemoryIdempotencyStore` of backend/app/events/bus.py: the keys that are claimed, with the result
-- of those that are complete. The lock makes each call one step.
use meme_agent.Base.{
  String, ◌==◌, Bool, true, false, ◌≡◌, refl, Option, none, some, [], ◌∷◌, Dict, get, put, get-put,
  if◌then◌else◌, arith, eq_iff,
}
use text.Mathlib.TextPositions.{eq_refl}

abbrev pub Claims : Type 0 → Type 0
Claims R = Dict (Option R)

abbrev pub is_there : {A : Type 0} → Option A → Bool
is_there none = false
is_there (some a) = true

module _ {R : Type 0} where
  abbrev pub is_claimed : String → Claims R → Bool
  is_claimed key c = is_there (get key c)

  unfoldable pub claim : String → Claims R → Claims R × Bool
  claim key c = if is_claimed key c then (c, false) else (put key none c, true)

  -- `pop(key, None)`
  unfoldable pub release : String → Claims R → Claims R
  release key [] = []
  release key ((k, r) ∷ c) = let rest = release key c in if k == key then rest else (k, r) ∷ rest

  unfoldable pub complete : String → R → Claims R → Claims R
  complete key r c = put key (some r) c

  -- `get`: the result, or nothing where the key is free or not complete.
  unfoldable pub result_of : String → Claims R → Option R
  result_of key c = elim (get key c) [ none ↦ none | some r ↦ r ]

  pub get-release :
      (key j : String) (c : Claims R) → get j (release key c) ≡ (if key == j then none else get j c)
  unfolding get release
  get-release key j [] = ground arith
  get-release key j ((k, r) ∷ c) =
      ground (arith, eq_iff key j, eq_iff k key, eq_iff k j, get-release key j c)

  pub claim_free :
      (key : String) (c : Claims R)
      → is_claimed key c ≡ false
      → claim key c ≡ (put key none c, true)
  unfolding claim
  claim_free key c h = rw h refl

  pub claim_taken :
      (key : String) (c : Claims R) → is_claimed key c ≡ true → claim key c ≡ (c, false)
  unfolding claim
  claim_taken key c h = rw h refl

  pub claimed-put : (key : String) (c : Claims R) → is_claimed key (put key none c) ≡ true
  claimed-put key c = rw (get-put key key none c, eq_refl key) refl

  pub claimed-release : (key : String) (c : Claims R) → is_claimed key (release key c) ≡ false
  claimed-release key c = rw (get-release key key c, eq_refl key) refl
