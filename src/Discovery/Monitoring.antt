-- ===== src/Discovery/Monitoring.antt =====
-- backend/app/discovery/monitoring.py: which tokens are due, and what a look at one changes. The answers
-- of the market data and of the scoring are arguments; logs and the database copy are left out.
pub mod Due
pub mod Lifecycle
use Prim.Native.String
use Prim.Native.Nat.{◌+◌ as ◌⊹◌, Ordering}
use meme_agent.Base.{
  ℕ, zero, suc, String, Bool, true, false, not, ◌&&◌, ◌||◌, Option, none, some, List, [], ◌∷◌, ◌==◌,
  leb, ltb, nat_eq, if◌then◌else◌,
}
use meme_agent.Core.Errors.{Error, Result, ok, raised}
use meme_agent.Float.{FloatOps, ◌-◌, num, neg, lt, le, ge, seconds}
use meme_agent.Discovery.Registry.{
  TokenStatus, discovered, screening, watching, improving, qualified, rejected, lost_momentum, Meta,
  LaunchpadToken, Registry, is_discovered, token_key, score_or, list_by_status, store_again,
}

pub record MonitoringConfig (F : Type 0) : Type 0 where
  pub hot_interval_s : F
  pub warm_interval_s : F
  pub cold_interval_s : F
  pub score_improve_threshold : F
  pub score_decline_threshold : F
  pub max_per_cycle : ℕ
  pub max_consecutive_failures : ℕ

-- The statuses that are asked for.
abbrev pub monitored : TokenStatus → Bool
monitored watching = true
monitored improving = true
monitored qualified = true
monitored screening = true
monitored discovered = true
monitored _ = false

-- `_PRIORITY_RANK`, with "WARM" for an empty priority.
abbrev pub rank : String → ℕ
rank p =
    if p == "HOT"
    then 0
    else if (p == "WARM") || (p == "")
    then 1
    else if p == "COLD"
    then 2
    else if p == "DEAD"
    then 9
    else 5

-- Whether one text comes before another one or is the same.
abbrev pub text_le : String → String → Bool
text_le a b = elim (String.compare a b) [ Ordering.gt ↦ false | _ ↦ true ]

abbrev pub failures : Option ℕ → ℕ
failures none = 0
failures (some k) = k

abbrev pub first_score : {F : Type 0} → Option F → F → Option F
first_score none x = some x
first_score (some old) x = some old

module _ {F : Type 0} ⦃n : FloatOps F⦄ where
  unfoldable pub interval_for : MonitoringConfig F → String → F
  interval_for c p =
      if p == "HOT"
      then c.hot_interval_s
      else if p == "COLD"
      then c.cold_interval_s
      else c.warm_interval_s

  abbrev pub waits : F → ℕ → Option ℕ → Bool
  waits interval now none = false
  waits interval now (some last) = lt (seconds now last) interval

  abbrev pub delta : F → Option F → Option F
  delta x none = none
  delta x (some old) = some (x - old)

module _ {F S : Type 0} ⦃n : FloatOps F⦄ where
  unfoldable pub is_due : MonitoringConfig F → ℕ → LaunchpadToken F S → Bool
  is_due c now t =
      monitored t.status
      && not (t.priority == "DEAD")
      && not (waits (interval_for c t.priority) now t.last_monitored_at)

  abbrev pub before : LaunchpadToken F S → LaunchpadToken F S → Bool
  before a b =
      ltb (rank a.priority) (rank b.priority)
      || (nat_eq (rank a.priority) (rank b.priority) && text_le (token_key a) (token_key b))

  -- `due.sort(...)`: a stable sort, by insertion.
  unfoldable pub insert_by_rank :
      LaunchpadToken F S → List (LaunchpadToken F S) → List (LaunchpadToken F S)
  insert_by_rank t [] = t ∷ []
  insert_by_rank t (u ∷ us) =
      let rest = insert_by_rank t us in if before t u then t ∷ u ∷ us else u ∷ rest

  unfoldable pub sort_by_rank : List (LaunchpadToken F S) → List (LaunchpadToken F S)
  unfolding insert_by_rank
  sort_by_rank [] = []
  sort_by_rank (t ∷ ts) = insert_by_rank t (sort_by_rank ts)

  unfoldable pub take : ℕ → List (LaunchpadToken F S) → List (LaunchpadToken F S)
  take zero ts = []
  take (suc k) [] = []
  take (suc k) (t ∷ ts) = t ∷ take k ts

  abbrev pub due_of : MonitoringConfig F → ℕ → List (LaunchpadToken F S) → List (LaunchpadToken F S)
  due_of c now [] = []
  due_of c now (t ∷ ts) = if is_due c now t then t ∷ due_of c now ts else due_of c now ts

  unfoldable pub due_candidates : MonitoringConfig F → ℕ → Registry F S → List (LaunchpadToken F S)
  unfolding sort_by_rank take
  due_candidates c now reg =
      take c.max_per_cycle (sort_by_rank (due_of c now (list_by_status monitored reg)))

  -- The text of the reason is left out.
  unfoldable pub mark_dead : LaunchpadToken F S → LaunchpadToken F S
  mark_dead t = record t {
    priority = "DEAD";
    status = rejected;
    meta = record t.meta { monitor_failures = some (failures t.meta.monitor_failures) };
  }

  -- The `except` branch, for every error.
  unfoldable pub failed_look : MonitoringConfig F → ℕ → LaunchpadToken F S → LaunchpadToken F S
  unfolding mark_dead
  failed_look c now t =
      let fails = failures t.meta.monitor_failures ⊹ 1 in
      let counted = record t {
        meta = record t.meta { monitor_failures = some fails };
        last_monitored_at = some now;
      } in
      if leb c.max_consecutive_failures fails then mark_dead counted else counted

  unfoldable pub refreshed : ℕ → S → LaunchpadToken F S → LaunchpadToken F S
  refreshed now snap t = record t {
    last_monitored_at = some now;
    meta = record t.meta { last_snapshot = some snap; monitor_failures = some 0 };
  }

  -- Status and priority after a score, by the change of the score.
  abbrev pub moved : MonitoringConfig F → LaunchpadToken F S → Option F → LaunchpadToken F S
  moved c t none = t
  moved c t (some change) =
      if ge change c.score_improve_threshold
      then record t { status = improving; priority = "HOT" }
      else if le change c.score_decline_threshold
      then record t { status = lost_momentum; priority = "COLD" }
      else t

  abbrev pub watched : LaunchpadToken F S → LaunchpadToken F S
  watched t = if is_discovered t.status then record t { status = watching } else t

  unfoldable pub rescored : MonitoringConfig F → ℕ → F → LaunchpadToken F S → LaunchpadToken F S
  rescored c now x t =
      let change = delta x (score_or t.current_score t.initial_score) in
      watched (
        moved c
          (record t {
            score_delta = change;
            initial_score = first_score t.initial_score x;
            current_score = some x;
            last_score_at = some now;
          })
          change)

  -- One look at a token: what the fetch answered, and the score if a scoring is configured. Beside the
  -- token, whether the look counts.
  unfoldable pub look :
      MonitoringConfig F
      → ℕ
      → Result S
      → Option (Result F)
      → LaunchpadToken F S
      → LaunchpadToken F S × ℕ
  unfolding failed_look refreshed rescored
  look c now (raised e) score t = (failed_look c now t, 0)
  look c now (ok snap) none t = (refreshed now snap t, 1)
  look c now (ok snap) (some (ok x)) t = (rescored c now x (refreshed now snap t), 1)
  look c now (ok snap) (some (raised e)) t = (failed_look c now (refreshed now snap t), 0)

  -- The loop of `run_once`, over the tokens that are due.
  unfoldable pub look_at_all :
      MonitoringConfig F
      → ℕ
      → (LaunchpadToken F S → Result S)
      → (LaunchpadToken F S → Option (Result F))
      → List (LaunchpadToken F S)
      → Registry F S
      → Registry F S × ℕ
  unfolding look
  look_at_all c now fetch score [] reg = (reg, 0)
  look_at_all c now fetch score (t ∷ ts) reg =
      let (t', one) = look c now (fetch t) (score t) t in
      let (reg', more) = look_at_all c now fetch score ts (store_again t' reg) in (reg', one ⊹ more)

  -- `run_once`, with whether the lock was acquired.
  unfoldable pub run_once :
      Bool
      → MonitoringConfig F
      → ℕ
      → (LaunchpadToken F S → Result S)
      → (LaunchpadToken F S → Option (Result F))
      → Registry F S
      → Registry F S × ℕ
  unfolding look_at_all due_candidates
  run_once acquired c now fetch score reg =
      if acquired then look_at_all c now fetch score (due_candidates c now reg) reg else (reg, 0)
