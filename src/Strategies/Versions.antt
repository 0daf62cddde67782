-- ===== src/Strategies/Versions.antt =====
-- `StrategyVersionStore` of backend/app/strategies/traction_momentum.py: the settings that each version
-- of a strategy stands for. A snapshot of settings is any type with an equality test.
use meme_agent.Base.{
  ◌==◌, eq_iff, Bool, true, false, not, ◌&&◌, ◌≡◌, refl, ◌∙◌, Option, none, some, List, [], ◌∷◌,
  nat_eq, if◌then◌else◌, arith, Bool-cases, inl, inr,
}
use meme_agent.Core.Errors.{Result, ok, raised, value_error}
use meme_agent.Strategies.Signal.{Identity}

abbrev pub same_key : Identity → Identity → Bool
same_key a b = (a.strategy_id == b.strategy_id) && nat_eq a.version b.version

same_key_trans : (a b c : Identity) → same_key a b ≡ true → same_key b c ≡ same_key a c
same_key_trans a b c h = ground (
  arith,
  eq_iff a.strategy_id b.strategy_id,
  eq_iff b.strategy_id c.strategy_id,
  eq_iff a.strategy_id c.strategy_id,
)

same_key-onto : (k a b : Identity) → same_key a b ≡ true → same_key k a ≡ same_key k b
same_key-onto k a b h = ground (
  arith,
  eq_iff a.strategy_id b.strategy_id,
  eq_iff k.strategy_id a.strategy_id,
  eq_iff k.strategy_id b.strategy_id,
)

same_key-apart :
    (k a b : Identity) → same_key k a ≡ false → same_key k b ≡ true → same_key a b ≡ false
same_key-apart k a b h e = ground (
  arith,
  eq_iff a.strategy_id b.strategy_id,
  eq_iff k.strategy_id a.strategy_id,
  eq_iff k.strategy_id b.strategy_id,
)

-- `self._v`, in the order of insertion.
abbrev pub VersionStore : Type 0 → Type 0
VersionStore S = List (Identity × S)

module _ {S : Type 0} where
  unfoldable pub lookup : Identity → VersionStore S → Option S
  lookup key [] = none
  lookup key ((k, snap) ∷ v) = if same_key k key then some snap else lookup key v

  unfoldable pub store : Identity → S → VersionStore S → VersionStore S
  store key snap [] = (key, snap) ∷ []
  store key snap ((k, old) ∷ v) =
      if same_key k key then (key, snap) ∷ v else (k, old) ∷ store key snap v

  lookup-same :
      (a b : Identity) (v : VersionStore S) → same_key a b ≡ true → lookup a v ≡ lookup b v
  unfolding lookup
  lookup-same a b [] h = refl
  lookup-same a b ((k, old) ∷ v) h = rw (same_key-onto k a b h, lookup-same a b v h) refl

  lookup-store :
      (key other : Identity) (snap : S) (v : VersionStore S)
      → lookup other (store key snap v) ≡ (if same_key key other then some snap else lookup other v)
  unfolding lookup store
  lookup-store key other snap [] = refl
  lookup-store key other snap ((k, old) ∷ v) = elim (Bool-cases (same_key k key)) [
    | inl replaced ↦ rw (replaced, same_key_trans k key other replaced) (ground arith)
    | inr kept ↦ ground (arith, lookup-store key other snap v, same_key-apart k key other kept)
  ]

module _ {S : Type 0} (same : S → S → Bool) where
  abbrev pub is_other : Option S → S → Bool
  is_other none snap = false
  is_other (some old) snap = not (same old snap)

  unfoldable pub register : Identity → S → VersionStore S → Result (VersionStore S)
  unfolding lookup store
  register key snap v =
      if is_other (lookup key v) snap
      then raised (value_error "strategy versions are immutable; bump the version")
      else ok (store key snap v)

  -- The store after a call: one that raises leaves it as it is.
  abbrev pub after : VersionStore S → Result (VersionStore S) → VersionStore S
  after v (ok w) = w
  after v (raised e) = v

  -- The store after a sequence of calls.
  unfoldable pub register_all : List (Identity × S) → VersionStore S → VersionStore S
  register_all [] v = v
  register_all ((key, snap) ∷ calls) v = register_all calls (after v (register key snap v))

  module _ (sound : (a b : S) → same a b ≡ true → a ≡ b) where
    same_snap :
        (o : Option S) (snap kept : S)
        → o ≡ some kept
        → is_other o snap ≡ false
        → some snap ≡ some kept
    same_snap none snap kept e h = cc
    same_snap (some old) snap kept e h = ground (arith, sound old snap)

    register-keeps :
        (key other : Identity) (snap kept : S) (v : VersionStore S)
        → lookup other v ≡ some kept
        → lookup other (after v (register key snap v)) ≡ some kept
    unfolding register
    register-keeps key other snap kept v h = elim (Bool-cases (is_other (lookup key v) snap)) [
      | inl refused ↦ rw refused h
      | inr stored ↦ rw stored (
          rw (lookup-store key other snap v) (elim (Bool-cases (same_key key other)) [
            | inl again ↦
                rw again
                  (same_snap (lookup key v) snap kept (lookup-same key other v again ∙ h) stored)
            | inr apart ↦ rw apart h
          ]))
    ]

    -- The settings that a version of a strategy stands for are never changed: whatever is registered
    -- afterwards, looking the version up finds them, where equal settings are the same.
    pub register_all-keeps :
        (calls : List (Identity × S)) (key : Identity) (kept : S) (v : VersionStore S)
        → lookup key v ≡ some kept
        → lookup key (register_all calls v) ≡ some kept
    unfolding register_all
    register_all-keeps [] key kept v h = h
    register_all-keeps ((k, snap) ∷ calls) key kept v h =
        register_all-keeps calls key kept _ (register-keeps k key snap kept v h)
