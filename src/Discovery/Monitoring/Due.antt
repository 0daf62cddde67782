-- ===== src/Discovery/Monitoring/Due.antt =====
-- The tokens that a monitoring cycle looks at.
use native.Mathlib.Nat.{le_trans as ℕ-le_trans}
use meme_agent.Base.{
  ℕ, zero, suc, ◌≤◌, Bool, true, false, ◌&&◌, ◌||◌, ◌==◌, ◌≡◌, inl, inr, Option, none, some, List,
  [], ◌∷◌, All, length, ltb, nat_eq, Bool-cases, arith,
}
use meme_agent.Float.{FloatOps, IsOrdered, ◌≼◌, seconds}
use meme_agent.Float.Order.{le-of-not-lt}
use meme_agent.Discovery.Registry.{LaunchpadToken, Registry, list_by_status}
use meme_agent.Discovery.Monitoring.{
  MonitoringConfig, monitored, rank, interval_for, waits, is_due, before, insert_by_rank,
  sort_by_rank, take, due_of, due_candidates,
}

order_le : (a b : ℕ) (x : Bool) → (ltb a b || (nat_eq a b && x)) ≡ true → a ≤ b
order_le a b x h = ground arith

order_ge : (a b : ℕ) (x : Bool) → (ltb a b || (nat_eq a b && x)) ≡ false → b ≤ a
order_ge a b x h = ground arith

waits-waited :
    {F : Type 0} ⦃n : FloatOps F⦄ (order : IsOrdered F) (interval : F) (now : ℕ) (o : Option ℕ)
    (last : ℕ)
    → waits interval now o ≡ false
    → o ≡ some last
    → interval ≼ seconds now last
waits-waited order interval now none last h e = cc
waits-waited order interval now (some l) last h e =
    ground (arith, le-of-not-lt order interval (seconds now last))

module _ {F S : Type 0} ⦃n : FloatOps F⦄ where
  -- A token that a look is due for.
  pub record IsReady (c : MonitoringConfig F) (now : ℕ) (t : LaunchpadToken F S) : Type 0 where
    pub status_monitored : monitored t.status ≡ true
    pub not_dead : t.priority == "DEAD" ≡ false
    pub waited :
        (last : ℕ) → t.last_monitored_at ≡ some last → interval_for c t.priority ≼ seconds now last

  -- Hot before warm before cold.
  abbrev pub Ascending : List (LaunchpadToken F S) → Type 0
  Ascending [] = Unit
  Ascending (t ∷ ts) = All (λ u. rank t.priority ≤ rank u.priority) ts × Ascending ts

  module _ (P : LaunchpadToken F S → Type 0) where
    All-insert_by_rank :
        (t : LaunchpadToken F S) (us : List (LaunchpadToken F S))
        → P t
        → All P us
        → All P (insert_by_rank t us)
    unfolding insert_by_rank
    All-insert_by_rank t [] h hs = (h, tt)
    All-insert_by_rank t (u ∷ us) h (k, ks) = elim (Bool-cases (before t u)) [
      | inl e ↦ rw e (h, (k, ks))
      | inr e ↦ rw e (k, All-insert_by_rank t us h ks)
    ]

    All-sort_by_rank : (ts : List (LaunchpadToken F S)) → All P ts → All P (sort_by_rank ts)
    unfolding sort_by_rank
    All-sort_by_rank [] h = tt
    All-sort_by_rank (t ∷ ts) (h, hs) =
        All-insert_by_rank t (sort_by_rank ts) h (All-sort_by_rank ts hs)

    All-take : (k : ℕ) (ts : List (LaunchpadToken F S)) → All P ts → All P (take k ts)
    unfolding take
    All-take zero ts h = tt
    All-take (suc k) [] h = tt
    All-take (suc k) (t ∷ ts) (h, hs) = (h, All-take k ts hs)

  length-take : (k : ℕ) (ts : List (LaunchpadToken F S)) → length (take k ts) ≤ k
  unfolding take
  length-take zero ts = omega arith
  length-take (suc k) [] = omega arith
  length-take (suc k) (t ∷ ts) = omega (arith, length-take k ts)

  Ascending-take : (k : ℕ) (ts : List (LaunchpadToken F S)) → Ascending ts → Ascending (take k ts)
  unfolding take
  Ascending-take zero ts h = tt
  Ascending-take (suc k) [] h = tt
  Ascending-take (suc k) (t ∷ ts) (h, hs) = (All-take _ k ts h, Ascending-take k ts hs)

  All-above :
      (a b : ℕ) (ts : List (LaunchpadToken F S))
      → a ≤ b
      → All (λ u. b ≤ rank u.priority) ts
      → All (λ u. a ≤ rank u.priority) ts
  All-above a b [] h ks = tt
  All-above a b (t ∷ ts) h (k, ks) = (ℕ-le_trans h k, All-above a b ts h ks)

  before-le : (t u : LaunchpadToken F S) → before t u ≡ true → rank t.priority ≤ rank u.priority
  before-le t u h = order_le (rank t.priority) (rank u.priority) _ h

  before-ge : (t u : LaunchpadToken F S) → before t u ≡ false → rank u.priority ≤ rank t.priority
  before-ge t u h = order_ge (rank t.priority) (rank u.priority) _ h

  insert_by_rank-Ascending :
      (t : LaunchpadToken F S) (us : List (LaunchpadToken F S))
      → Ascending us
      → Ascending (insert_by_rank t us)
  unfolding insert_by_rank
  insert_by_rank-Ascending t [] h = (tt, tt)
  insert_by_rank-Ascending t (u ∷ us) (h, hs) = elim (Bool-cases (before t u)) [
    | inl e ↦
        rw e ((before-le t u e, All-above _ (rank u.priority) us (before-le t u e) h), (h, hs))
    | inr e ↦ rw e (
      All-insert_by_rank (λ v. rank u.priority ≤ rank v.priority) t us (before-ge t u e) h,
      insert_by_rank-Ascending t us hs,
    )
  ]

  sort_by_rank-Ascending : (ts : List (LaunchpadToken F S)) → Ascending (sort_by_rank ts)
  unfolding sort_by_rank
  sort_by_rank-Ascending [] = tt
  sort_by_rank-Ascending (t ∷ ts) =
      insert_by_rank-Ascending t (sort_by_rank ts) (sort_by_rank-Ascending ts)

  module _ (order : IsOrdered F) where
    is_due-IsReady :
        (c : MonitoringConfig F) (now : ℕ) (t : LaunchpadToken F S)
        → is_due c now t ≡ true
        → IsReady c now t
    unfolding is_due
    is_due-IsReady c now t h =
        let interval = interval_for c t.priority in
        record {
          status_monitored = ground arith;
          not_dead = ground arith;
          waited =
              λ last e. waits-waited order interval now t.last_monitored_at last (ground arith) e;
        }

    due_of-IsReady :
        (c : MonitoringConfig F) (now : ℕ) (ts : List (LaunchpadToken F S))
        → All (IsReady c now) (due_of c now ts)
    due_of-IsReady c now [] = tt
    due_of-IsReady c now (t ∷ ts) = elim (Bool-cases (is_due c now t)) [
      | inl e ↦ rw e (is_due-IsReady c now t e, due_of-IsReady c now ts)
      | inr e ↦ rw e (due_of-IsReady c now ts)
    ]

    -- A monitoring cycle looks at no more tokens than its limit, at hot ones before warm ones before
    -- cold ones, and only at tokens with a monitored status that are not dead and have waited for the
    -- interval of their priority since the last look.
    pub due_candidates_lem :
        (c : MonitoringConfig F) (now : ℕ) (reg : Registry F S)
        → (length (due_candidates c now reg) ≤ c.max_per_cycle)
          × Ascending (due_candidates c now reg)
          × All (IsReady c now) (due_candidates c now reg)
    unfolding due_candidates
    due_candidates_lem c now reg =
        let due = due_of c now (list_by_status monitored reg) in
        (
          length-take c.max_per_cycle (sort_by_rank due),
          Ascending-take c.max_per_cycle (sort_by_rank due) (sort_by_rank-Ascending due),
          All-take (IsReady c now) c.max_per_cycle (sort_by_rank due) (
              All-sort_by_rank (IsReady c now) due
                (due_of-IsReady c now (list_by_status monitored reg))),
        )
