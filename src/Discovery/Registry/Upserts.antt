-- ===== src/Discovery/Registry/Upserts.antt =====
-- What recording a token again leaves in the registry.
use text.Mathlib.TextPositions.{eq_refl}
use meme_agent.Base.{
  String, ◌==◌, true, false, ◌≡◌, refl, Option, none, some, get, get-put, IsFilled, none-IsFilled,
  some-IsFilled, arith,
}
use meme_agent.Float.{FloatOps, ◌-◌, truthy}
use meme_agent.Discovery.Registry.{
  LaunchpadToken, Registry, is_discovered, token_key, known_or, update, merge_meta, merge, upsert,
}

known_or-IsFilled : {A : Type 0} (old new : Option A) → IsFilled old new (known_or old new)
known_or-IsFilled none new = none-IsFilled new
known_or-IsFilled (some old) new = some-IsFilled old new

update-IsFilled : {A : Type 0} (old new : Option A) → IsFilled new old (update old new)
update-IsFilled old none = none-IsFilled old
update-IsFilled old (some new) = some-IsFilled new old

module _ {F S : Type 0} ⦃n : FloatOps F⦄ where
  -- A record without a score leaves the score; a score replaces it, and the change is against the last
  -- score that was known, or else the first one, where 0 counts as none.
  pub record IsScored (old new after : LaunchpadToken F S) : Type 0 where
    pub unscored :
        new.current_score ≡ none
        → (after.current_score ≡ old.current_score)
          × (after.score_delta ≡ old.score_delta)
          × (after.last_score_at ≡ old.last_score_at)
    pub scored : (x : F) → new.current_score ≡ some x → after.current_score ≡ some x
    pub scored_at :
        (x : F)
        → new.current_score ≡ some x
        → IsFilled new.last_score_at old.last_score_at after.last_score_at
    pub changed :
        (x y : F)
        → new.current_score ≡ some x
        → old.current_score ≡ some y
        → truthy y ≡ true
        → after.score_delta ≡ some (x - y)
    pub changed_since_first :
        (x y : F)
        → new.current_score ≡ some x
        → old.current_score ≡ none
        → old.initial_score ≡ some y
        → after.score_delta ≡ some (x - y)
    pub first_score :
        (x : F)
        → new.current_score ≡ some x
        → old.current_score ≡ none
        → old.initial_score ≡ none
        → after.score_delta ≡ none

  -- The facts of the launch that are known stay and the missing ones are filled; the score, a status
  -- other than DISCOVERED, a priority that is not empty and the entries of `meta` are the new ones.
  pub record IsUpdated (old new after : LaunchpadToken F S) : Type 0 where
    pub launchpad : IsFilled old.launchpad new.launchpad after.launchpad
    pub launchpad_contract :
        IsFilled old.launchpad_contract new.launchpad_contract after.launchpad_contract
    pub launch_event : IsFilled old.launch_event new.launch_event after.launch_event
    pub launch_tx_hash : IsFilled old.launch_tx_hash new.launch_tx_hash after.launch_tx_hash
    pub creator_address : IsFilled old.creator_address new.creator_address after.creator_address
    pub launched_at : IsFilled old.launched_at new.launched_at after.launched_at
    pub symbol : IsFilled old.symbol new.symbol after.symbol
    pub name : IsFilled old.name new.name after.name
    pub score : IsScored old new after
    pub status_kept : is_discovered new.status ≡ true → after.status ≡ old.status
    pub status_replaced : is_discovered new.status ≡ false → after.status ≡ new.status
    pub priority_kept : (new.priority == "") ≡ true → after.priority ≡ old.priority
    pub priority_replaced : (new.priority == "") ≡ false → after.priority ≡ new.priority
    pub snapshot : IsFilled new.meta.last_snapshot old.meta.last_snapshot after.meta.last_snapshot
    pub failures :
        IsFilled new.meta.monitor_failures old.meta.monitor_failures after.meta.monitor_failures
    pub first_score_kept : after.initial_score ≡ old.initial_score
    pub discovered_at_kept : after.discovered_at ≡ old.discovered_at
    pub monitored_at_kept : after.last_monitored_at ≡ old.last_monitored_at
    pub same_token : token_key after ≡ token_key old

  merge-key : (old new : LaunchpadToken F S) → token_key (merge old new) ≡ token_key old
  unfolding merge
  merge-key old new = ground arith

  merge-IsScored : (old new : LaunchpadToken F S) → IsScored old new (merge old new)
  unfolding merge
  merge-IsScored old new = record {
    unscored = λ h. rw h (refl, refl, refl);
    scored = λ x h. rw h refl;
    scored_at = λ x h. rw h (update-IsFilled old.last_score_at new.last_score_at);
    changed = λ x y h k nonzero. rw (h, k, nonzero) refl;
    changed_since_first = λ x y h k first. rw (h, k, first) refl;
    first_score = λ x h k first. rw (h, k, first) refl;
  }

  merge-IsUpdated : (old new : LaunchpadToken F S) → IsUpdated old new (merge old new)
  unfolding merge merge_meta
  merge-IsUpdated old new = record {
    launchpad = known_or-IsFilled old.launchpad new.launchpad;
    launchpad_contract = known_or-IsFilled old.launchpad_contract new.launchpad_contract;
    launch_event = known_or-IsFilled old.launch_event new.launch_event;
    launch_tx_hash = known_or-IsFilled old.launch_tx_hash new.launch_tx_hash;
    creator_address = known_or-IsFilled old.creator_address new.creator_address;
    launched_at = known_or-IsFilled old.launched_at new.launched_at;
    symbol = known_or-IsFilled old.symbol new.symbol;
    name = known_or-IsFilled old.name new.name;
    score = merge-IsScored old new;
    status_kept = λ h. rw h refl;
    status_replaced = λ h. rw h refl;
    priority_kept = λ h. rw h refl;
    priority_replaced = λ h. rw h refl;
    snapshot = update-IsFilled old.meta.last_snapshot new.meta.last_snapshot;
    failures = update-IsFilled old.meta.monitor_failures new.meta.monitor_failures;
    first_score_kept = ground arith;
    discovered_at_kept = ground arith;
    monitored_at_kept = ground arith;
    same_token = merge-key old new;
  }

  stored_once :
      (t old : LaunchpadToken F S) (reg : Registry F S)
      → get (token_key t) reg ≡ some old
      → get (token_key t) (upsert t reg) ≡ some (merge old t)
  unfolding upsert
  stored_once t old reg h = rw (h, get-put) (rw eq_refl)

  -- Recording a token that the registry has keeps one entry for it: the facts of its launch that were
  -- known stay and the missing ones are filled; a new score, a status other than DISCOVERED, a priority
  -- that is not empty, and the entries of `meta` replace the old ones; the rest, its time of discovery
  -- included, and every other entry stay.
  pub upsert-IsUpdated :
      (t old : LaunchpadToken F S) (reg : Registry F S)
      → get (token_key t) reg ≡ some old
      → ((after : LaunchpadToken F S) × ((get (token_key t) (upsert t reg) ≡ some after)
            × IsUpdated old t after))
        × ((key : String) → token_key t == key ≡ false → get key (upsert t reg) ≡ get key reg)
  unfolding upsert
  upsert-IsUpdated t old reg h = (
    (merge old t, (stored_once t old reg h, merge-IsUpdated old t)),
    λ key other. rw get-put (rw other),
  )
