-- ===== src/Base/Dicts.antt =====
-- Python dictionaries with text keys, as association lists in insertion order.
use Prim.Native.String.{String}
use mathlib.Core.Path.{◌≡◌, refl, subst}
use mathlib.Core.Logic.{inl, inr}
use mathlib.Core.Option.{Option, none, some, some-injective}
use mathlib.Core.List.{List, [], ◌∷◌}
use native.Mathlib.Omega.{arith}
use text.Mathlib.Text.{◌==◌}
use text.Mathlib.TextEquality.{eq_iff}
use meme_agent.Base.Tests.{if◌then◌else◌, Bool-cases}
use meme_agent.Base.Lists.{All}

abbrev pub Dict {ℓ} : Type ℓ → Type ℓ
Dict V = List (String × V)

module _ {ℓ} {V : Type ℓ} where
  -- `d.get(k)`
  unfoldable pub get : String → Dict V → Option V
  get k [] = none
  get k ((j, v) ∷ d) = if j == k then some v else get k d

  -- `d[k] = v`: a key keeps its place, a new one goes to the end.
  unfoldable pub put : String → V → Dict V → Dict V
  put k v [] = (k, v) ∷ []
  put k v ((j, w) ∷ d) = if j == k then (k, v) ∷ d else (j, w) ∷ put k v d

  -- `d.values()`
  abbrev pub values : Dict V → List V
  values [] = []
  values ((k, v) ∷ d) = v ∷ values d

  pub get-put :
      (k j : String) (v : V) (d : Dict V) → get j (put k v d) ≡ (if k == j then some v else get j d)
  unfolding get put
  get-put k j v [] = refl
  get-put k j v ((i, w) ∷ d) = ground (arith, eq_iff k j, eq_iff i k, eq_iff i j, get-put k j v d)

  pub All-put :
      (P : V → Type 0) (k : String) (v : V) (d : Dict V)
      → P v
      → All P (values d)
      → All P (values (put k v d))
  unfolding put
  All-put P k v [] h hs = (h, hs)
  All-put P k v ((j, w) ∷ d) h hs = ground (arith, All-put P k v d h hs.1)

  pub All-get :
      (P : V → Type 0) (k : String) (v : V) (d : Dict V) → All P (values d) → get k d ≡ some v → P v
  unfolding get
  All-get P k v [] hs e = cc
  All-get P k v ((j, w) ∷ d) hs e = elim (Bool-cases (j == k)) [
    | inl same ↦ subst P (some-injective _ _ (rw same at e)) hs.0
    | inr other ↦ All-get P k v d hs.1 (rw other at e)
  ]
